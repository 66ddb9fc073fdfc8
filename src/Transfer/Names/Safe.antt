-- ===== src/Transfer/Names/Safe.antt =====
-- internal/transfer/save.go: what `CleanName` makes of any name.
use mathlib.Core.List.{reverse, reverse-append, reverse-reverse}
use omarchy_vault.Prelude.{
  ℕ, ◌+◌, ◌-◌, ◌≤◌, ◌<◌, ◌≡◌, ◌≢◌, refl, ap, sym, ◌∙◌, subst, inl, inr, true, false, not, ◌&&◌,
  ◌||◌, ltb, ◌==◌, [], ◌∷◌, ◌++◌, all, arith, Bool-cases, ltb→lt,
}
use omarchy_vault.Transfer.Names.{
  Runes, max_name_bytes, bytes, is_control, shorten, short_ext, cut_to, fit, plain_name, clean_name,
}
use omarchy_vault.Transfer.Names.Pieces.{
  is_fine, starts, hides, all-append, starts-append, IsPlain, plain_name-IsPlain, short_ext-suffix,
  without_end-append, bytes-append, bytes-reverse, shorten-bytes, shorten-most, shorten-suffix,
}

-- A name that `CleanName` may return: not empty, at most 200 bytes, without separator and control
-- characters, and not starting with a dot or a space.
abbrev pub IsSafe : Runes → Type 0
IsSafe name =
    (name ≢ [])
    × (bytes name ≤ max_name_bytes)
    × (all (λ r. not (r == 47) && not (is_control r)) name ≡ true)
    × (starts (λ r. r == 46 || r == 32) name ≡ false)

-- The stem that is left, from a stem that does not fit: its front, of nearly the room there is.
kept_stem :
    (room : ℕ) (stem : Runes)
    → room < bytes stem
    → (kept : Runes) × (t : Runes) × (reverse (shorten room (reverse stem)) ≡ kept)
      × (stem ≡ kept ++ t)
      × (bytes kept ≤ room)
      × (room ≤ bytes kept + 3)
kept_stem room stem big =
    let (t, same) = shorten-suffix room (reverse stem) in
    let kept = reverse (shorten room (reverse stem)) in
    (
      kept,
      reverse t,
      refl,
      sym (reverse-reverse stem) ∙ ap reverse same ∙ reverse-append t (shorten room (reverse stem)),
      omega (arith, bytes-reverse (shorten room (reverse stem)), shorten-bytes room (reverse stem)),
      omega (
        arith,
        bytes-reverse (shorten room (reverse stem)),
        bytes-reverse stem,
        shorten-most room (reverse stem),
      ),
    )

some_bytes : (rs : Runes) → 0 < bytes rs → rs ≢ []
unfolding bytes
some_bytes [] h = absurd (omega arith)
some_bytes (r ∷ rs) h = λ e. cc

cut_to-IsSafe :
    (p e : Runes)
    → IsPlain (p ++ e)
    → bytes e ≤ 16
    → max_name_bytes < bytes (p ++ e)
    → IsSafe (cut_to e (p ++ e))
unfolding cut_to
cut_to-IsSafe p e (_, fine, shown) small long =
    let (kept, t, cut, stem, fits, most) =
      kept_stem (max_name_bytes - bytes e) p (omega (arith, bytes-append p e)) in
    let kept_some = some_bytes kept (omega arith) in
    let parts = all-append is_fine p e in
    let stem_parts = ap (all is_fine) stem ∙ all-append is_fine kept t in
    let p_some : p ≢ [] = some_bytes p (omega (arith, bytes-append p e)) in
    let first = starts-append hides p e p_some in
    let first_kept = ap (starts hides) stem ∙ starts-append hides kept t kept_some in
    let goal : IsSafe (kept ++ e) = (
      some_bytes (kept ++ e) (omega (arith, bytes-append kept e)),
      omega (arith, bytes-append kept e),
      all-append is_fine kept e ∙ ground arith,
      starts-append hides kept e kept_some ∙ ground arith,
    ) in
    subst (λ x. IsSafe (x ++ e))
      (sym (
        ap (λ x. reverse (shorten (max_name_bytes - bytes e) (reverse x))) (without_end-append p e)
        ∙ cut))
      goal

fit-IsSafe : (name : Runes) → IsPlain name → IsSafe (fit name)
unfolding fit
fit-IsSafe name (filled, fine, shown) = elim (Bool-cases (ltb max_name_bytes (bytes name))) [
  | inr short ↦ rw short (filled, ground arith, fine, shown)
  | inl long ↦
      let (p, same, small) = short_ext-suffix name in
      let plain = subst IsPlain same (filled, fine, shown) in
      let large : max_name_bytes < bytes (p ++ short_ext name) =
        subst (λ x. max_name_bytes < bytes x) same (ltb→lt _ _ long) in
      rw long (
        subst (λ x. IsSafe (cut_to (short_ext name) x)) (sym same)
          (cut_to-IsSafe p (short_ext name) plain small large))
]

-- `CleanName` makes of any text a safe name: not empty, at most 200 bytes, with no separator and no
-- control character, and not starting with a dot or a space.
pub clean_name-IsSafe : (raw : Runes) → IsSafe (clean_name raw)
unfolding clean_name
clean_name-IsSafe raw = fit-IsSafe (plain_name raw) (plain_name-IsPlain raw)
