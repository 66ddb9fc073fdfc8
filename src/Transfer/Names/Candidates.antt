-- ===== src/Transfer/Names/Candidates.antt =====
-- internal/transfer/save.go: the candidates of a name are shown where the name is.
use mathlib.Core.List.{append-nil}
use omarchy_vault.Prelude.{
  ℕ, zero, suc, ◌≡◌, ◌≢◌, refl, ap, sym, ◌∙◌, subst, ◌⊎◌, inl, inr, codes, str_eq, str_eq_iff, Bool,
  if-true, if-false, [], ◌++◌, arith, Bool-cases,
}
use omarchy_vault.Transfer.Names.{
  Runes, scan_ext, ext, without_end, decimal, own_ext, numbered, candidate,
}
use omarchy_vault.Transfer.Names.Pieces.{of_scan-suffix, without_end-append, starts, starts-append}

module _ (p : ℕ → Bool) where
  -- A text that begins with a stem that is not empty starts as the stem.
  starts-without_end :
      (name e rest : Runes)
      → (stem : Runes) × (name ≡ stem ++ e)
      → e ≢ name
      → starts p (without_end name e ++ rest) ≡ starts p name
  starts-without_end name e rest (stem, same) apart =
      let filled : stem ≢ [] = λ none. apart (sym (same ∙ ap (λ t. t ++ e) none)) in
      subst (λ n. starts p (without_end n e ++ rest) ≡ starts p n) (sym same)
        (ap (λ t. starts p (t ++ rest)) (without_end-append stem e)
          ∙ starts-append p stem rest filled
          ∙ sym (starts-append p stem e filled))

  take-full : (rs : Runes) → without_end rs [] ≡ rs
  take-full rs = ap (λ t. without_end t []) (sym (append-nil rs)) ∙ without_end-append rs []

  starts-numbered :
      (name e : Runes) (n : ℕ)
      → (e ≡ []) ⊎ ((stem : Runes) × (name ≡ stem ++ e) × (e ≢ name))
      → name ≢ []
      → starts p (numbered name n e) ≡ starts p name
  starts-numbered name e n (inl whole) filled =
      subst (λ t. starts p (numbered name n t) ≡ starts p name) (sym whole)
        (ap (λ t. starts p (t ++ (codes " (" ++ decimal n ++ codes ")" ++ []))) (take-full name)
          ∙ starts-append p name (codes " (" ++ decimal n ++ codes ")" ++ []) filled)
  starts-numbered name e n (inr (stem, same, apart)) filled =
      starts-without_end name e (codes " (" ++ decimal n ++ codes ")" ++ e) (stem, same) apart

  own_ext-cases :
      (name : Runes)
      → (own_ext name ≡ [])
        ⊎ ((stem : Runes) × (name ≡ stem ++ own_ext name) × (own_ext name ≢ name))
  own_ext-cases name = elim (Bool-cases (str_eq (ext name) name)) [
    | inl whole ↦ inl (if-true _ _ whole)
    | inr part ↦
        let (stem, same) = of_scan-suffix name (scan_ext name) refl in
        let is = if-false [] (ext name) part in
        inr (
          stem,
          same ∙ ap (λ e. stem ++ e) (sym is),
          λ c. absurd (ground (arith, (str_eq_iff (ext name) name).1 (sym is ∙ c))),
        )
  ]

  -- A candidate starts as the name does.
  pub starts-candidate :
      (name : Runes) (i : ℕ) → name ≢ [] → starts p (candidate name i) ≡ starts p name
  unfolding candidate
  starts-candidate name zero filled = refl
  starts-candidate name (suc i) filled =
      starts-numbered name (own_ext name) (suc i) (own_ext-cases name) filled
