-- ===== src/Transfer/Save/Kept.antt =====
-- internal/transfer/save.go: an upload adds one complete file or nothing, and changes no other.
use omarchy_vault.Prelude.{
  ℕ, zero, suc, ◌≤◌, ◌<◌, ◌≡◌, ◌≢◌, refl, ap, sym, ◌∙◌, subst, ◌⊎◌, inl, inr, Bool, true, not, ◌&&◌,
  ltb, if-true, if-false, none, some, [], ◌∷◌, length, Result, ok, err, arith, Bool-cases,
}
use omarchy_vault.Transfer.Names.{Runes, take, clean_name, candidate}
use omarchy_vault.Transfer.Names.Pieces.{starts, hides}
use omarchy_vault.Transfer.Names.Safe.{clean_name-IsSafe}
use omarchy_vault.Transfer.Names.Candidates.{starts-candidate}
use omarchy_vault.Transfer.Publish.{Bytes, Errno, Kernel, Outcome, publish}
use omarchy_vault.Transfer.Publish.Once.{IsOutcome, publish-IsOutcome}
use omarchy_vault.Transfer.Save.{
  Upload, SaveError, partial_name, copied, SaveReply, clean_up, after_publish, finish, after_write,
  after_open, is_drawn, save, not_copied, too_large, not_synced, not_closed,
}

take-short : (d : Bytes) (n : ℕ) → length (take d (suc n)) ≤ n → take d (suc n) ≡ d
take-short [] n h = refl
take-short (x ∷ d) zero h = absurd (few d h)
  where
    few : (t : Bytes) → length (x ∷ take t zero) ≤ 0 → ⊥
    few t l = omega arith
take-short (x ∷ d) (suc n) h = ap (λ t. x ∷ t) (take-short d n (fewer h))
  where
    fewer : length (x ∷ take d (suc n)) ≤ suc n → length (take d (suc n)) ≤ n
    fewer l = omega arith

-- The name of the temporary file is hidden, so it is no candidate.
partial_name-apart :
    (u : Upload) (raw : Runes) (j : ℕ) → partial_name u ≢ candidate (clean_name raw) j
partial_name-apart u raw j e =
    let (filled, _, _, shown) = clean_name-IsSafe raw in
    let hidden : starts hides (partial_name u) ≡ true = refl in
    let c = ap (starts hides) e ∙ starts-candidate hides (clean_name raw) j filled in
    absurd (ground arith)

module _ (K : Kernel) where
  -- Every name but one holds what it held.
  abbrev pub SameBut : Runes → K.Folder → K.Folder → Type 0
  SameBut tmp s s' = (x : Runes) → x ≢ tmp → K.content s' x ≡ K.content s x

  -- The upload is complete under the first candidate that was free.
  abbrev pub Adds : Runes → Runes → Bytes → K.Folder → K.Folder → Runes → Type 0
  Adds tmp name d s s' final =
      (K.content s final ≡ none)
      × (K.content s' final ≡ some d)
      × ((x : Runes) → x ≢ tmp → x ≢ final → K.content s' x ≡ K.content s x)
      × ((k : ℕ) × (k < 10000)
          × (final ≡ candidate name k)
          × ((j : ℕ) → j < k → K.content s (candidate name j) ≢ none))

  abbrev pub Saves : Runes → Runes → Bytes → ℕ → K.Folder → SaveReply K → Type 0
  Saves tmp name d limit s (s', ok (final, n)) =
      Adds tmp name d s s' final × (n ≡ length d) × (n ≤ limit)
  Saves tmp name d limit s (s', err e) = SameBut tmp s s'

  after_publish-Saves :
      (tmp name : Runes) (d : Bytes) (limit : ℕ) (s t : K.Folder) (p : Outcome K)
      → ((j : ℕ) → tmp ≢ candidate name j)
      → SameBut tmp s t
      → K.content t tmp ≡ some d
      → length d ≤ limit
      → IsOutcome K tmp name 10000 0 t p
      → Saves tmp name d limit s (after_publish K tmp (length d) p)
  after_publish-Saves tmp name d limit s t (s', ok final) apart same full small
        ((free, there, others), (k, low, high, is, before)) =
      let not_tmp : final ≢ tmp = λ c. apart k (sym c ∙ is) in
      (
        (
          sym (same final not_tmp) ∙ free,
          there ∙ full,
          λ x a b. others x a b ∙ same x a,
          (
            k,
            omega arith,
            is,
            λ j l e. before j (omega arith) l (same (candidate name j) (λ c. apart j (sym c)) ∙ e),
          ),
        ),
        refl,
        small,
      )
  after_publish-Saves tmp name d limit s t (s', err e) apart same full small (kept, _) =
      λ x a. K.unlink_others tmp s' x a ∙ ap (λ v. K.content v x) kept ∙ same x a

  clean_up-Saves :
      (tmp name : Runes) (d : Bytes) (limit : ℕ) (s t : K.Folder) (e : SaveError)
      → SameBut tmp s t
      → Saves tmp name d limit s (clean_up K tmp e t)
  clean_up-Saves tmp name d limit s t e same = λ x a. K.unlink_others tmp t x a ∙ same x a

  finish-Saves :
      (tmp name : Runes) (d : Bytes) (limit : ℕ) (u : Upload) (s t : K.Folder)
      → ((j : ℕ) → tmp ≢ candidate name j)
      → SameBut tmp s t
      → K.content t tmp ≡ some d
      → length d ≤ limit
      → Saves tmp name d limit s (finish K tmp name (length d) u t)
  finish-Saves tmp name d limit u s t apart same full small = elim (Bool-cases (not u.syncs)) [
    | inl lost ↦
        subst (Saves tmp name d limit s) (sym (if-true _ _ lost))
          (clean_up-Saves tmp name d limit s t not_synced same)
    | inr synced ↦ elim (Bool-cases (not u.closes)) [
      | inl lost ↦
          subst (Saves tmp name d limit s) (sym (if-false _ _ synced ∙ if-true _ _ lost))
            (clean_up-Saves tmp name d limit s t not_closed same)
      | inr closed ↦
          subst (Saves tmp name d limit s) (sym (if-false _ _ synced ∙ if-false _ _ closed)) (
            after_publish-Saves tmp name d limit s t (publish K tmp name t) apart same full small
              (publish-IsOutcome K tmp name t apart))
    ]
  ]

  after_write-Saves :
      (tmp name : Runes) (u : Upload) (limit : ℕ) (s t : K.Folder) (wrote : Bool)
      → ((j : ℕ) → tmp ≢ candidate name j)
      → SameBut tmp s t
      → (wrote ≡ true → K.content t tmp ≡ some (copied u limit))
      → Saves tmp name u.body limit s (after_write K tmp name u limit (t, wrote))
  after_write-Saves tmp name u limit s t wrote apart same full =
      elim (Bool-cases (not (wrote && u.is_complete))) [
        | inl lost ↦
            subst (Saves tmp name u.body limit s) (sym (if-true _ _ lost))
              (clean_up-Saves tmp name u.body limit s t not_copied same)
        | inr there ↦ elim (Bool-cases (ltb limit (length (copied u limit)))) [
          | inl long ↦
              subst (Saves tmp name u.body limit s) (sym (if-false _ _ there ∙ if-true _ _ long))
                (clean_up-Saves tmp name u.body limit s t too_large same)
          | inr short ↦
              let small : length (copied u limit) ≤ limit = ground arith in
              subst (Saves tmp name u.body limit s) (sym (if-false _ _ there ∙ if-false _ _ short))
                (subst
                  (λ d. Saves tmp name d limit s (finish K tmp name (length (copied u limit)) u t))
                  (take-short u.body limit small)
                  (finish-Saves tmp name (copied u limit) limit u s t apart same
                    (full (ground arith)) small))
        ]
      ]

  after_open-Saves :
      (tmp name : Runes) (u : Upload) (limit : ℕ) (s : K.Folder)
      (p : K.Folder × Result Errno (Unit {0}))
      → ((j : ℕ) → tmp ≢ candidate name j)
      → K.create tmp s ≡ p
      → Saves tmp name u.body limit s (after_open K tmp name u limit p)
        × (((after_open K tmp name u limit p).0 ≡ s) ⊎ (K.content s tmp ≡ none))
  after_open-Saves tmp name u limit s (t, err e) apart made =
      let same = ap (λ p. p.0) (sym made) ∙ K.create_err tmp s e (ap (λ p. p.1) made) in
      ((λ x a. ap (λ v. K.content v x) same), inl same)
  after_open-Saves tmp name u limit s (t, ok v) apart made =
      let (free, others) = K.create_ok tmp s (ap (λ p. p.1) made) in
      let w = K.write tmp (copied u limit) t in
      (
        after_write-Saves tmp name u limit s w.0 w.1 apart
            (λ x a.
              K.write_others tmp (copied u limit) t x a
              ∙ ap (λ p. K.content p.0 x) (sym made)
              ∙ others x a)
            (K.write_ok tmp (copied u limit) t),
        inr free,
      )

  save-Saves :
      (raw : Runes) (u : Upload) (limit : ℕ) (s : K.Folder)
      → Saves (partial_name u) (clean_name raw) u.body limit s (save K raw u limit s)
        × (((save K raw u limit s).0 ≡ s) ⊎ (K.content s (partial_name u) ≡ none))
  unfolding save
  save-Saves raw u limit s = elim (Bool-cases (not u.is_there)) [
    | inl out ↦ rw out ((λ x a. refl), inl refl)
    | inr a ↦ elim (Bool-cases (not u.is_plain)) [
      | inl out ↦ rw (a, out) ((λ x b. refl), inl refl)
      | inr b ↦ elim (Bool-cases (not u.opens)) [
        | inl out ↦ rw (a, b, out) ((λ x c. refl), inl refl)
        | inr c ↦ elim (Bool-cases (not (is_drawn K u.draw))) [
          | inl out ↦ rw (a, b, c, out) ((λ x d. refl), inl refl)
          | inr d ↦
              rw (a, b, c, d)
                (after_open-Saves (partial_name u) (clean_name raw) u limit s
                  (K.create (partial_name u) s) (partial_name-apart u raw) refl)
        ]
      ]
    ]
  ]

  Saves-content :
      (tmp name : Runes) (d : Bytes) (limit : ℕ) (s : K.Folder) (p : SaveReply K) (x : Runes)
      → Saves tmp name d limit s p
      → K.content s x ≢ none
      → x ≢ tmp
      → K.content p.0 x ≡ K.content s x
  Saves-content tmp name d limit s (s', ok (final, n)) x ((free, _, others, _), _, _) held apart =
      others x apart (λ c. held (ap (K.content s) c ∙ free))
  Saves-content tmp name d limit s (s', err e) x same held apart = same x apart

  -- Whatever `Save` returns, every file that was in the folder holds what it held.
  pub content-save :
      (raw : Runes) (u : Upload) (limit : ℕ) (s : K.Folder) (x : Runes)
      → K.content s x ≢ none
      → K.content (save K raw u limit s).0 x ≡ K.content s x
  content-save raw u limit s x held = elim (save-Saves raw u limit s).1 [
    | inl same ↦ ap (λ t. K.content t x) same
    | inr free ↦
        Saves-content (partial_name u) (clean_name raw) u.body limit s (save K raw u limit s) x
          (save-Saves raw u limit s).0 held (λ c. held (ap (K.content s) c ∙ free))
  ]

  Saves-Adds :
      (tmp name : Runes) (d : Bytes) (limit : ℕ) (s : K.Folder) (p : SaveReply K) (final : Runes)
      (n : ℕ)
      → Saves tmp name d limit s p
      → p.1 ≡ ok (final, n)
      → Adds tmp name d s p.0 final × (n ≡ length d) × (n ≤ limit)
  Saves-Adds tmp name d limit s (s', ok r) final n h e =
      subst (λ (q : Runes × ℕ). Adds tmp name d s s' q.0 × (q.1 ≡ length d) × (q.1 ≤ limit))
        (ground arith) h
  Saves-Adds tmp name d limit s (s', err f) final n h e = absurd (ground arith)

  -- A name and size that `Save` returns are those of the new file: it holds all that was sent, at most
  -- the limit, under the first candidate of the cleaned name that was free. Every other name, but the
  -- temporary one, holds what it held.
  pub save-Adds :
      (raw : Runes) (u : Upload) (limit : ℕ) (s : K.Folder) (final : Runes) (n : ℕ)
      → (save K raw u limit s).1 ≡ ok (final, n)
      → Adds (partial_name u) (clean_name raw) u.body s (save K raw u limit s).0 final
        × (n ≡ length u.body)
        × (n ≤ limit)
  save-Adds raw u limit s final n h =
      Saves-Adds (partial_name u) (clean_name raw) u.body limit s (save K raw u limit s) final n
        (save-Saves raw u limit s).0 h

  Saves-SameBut :
      (tmp name : Runes) (d : Bytes) (limit : ℕ) (s : K.Folder) (p : SaveReply K) (e : SaveError)
      → Saves tmp name d limit s p
      → p.1 ≡ err e
      → SameBut tmp s p.0
  Saves-SameBut tmp name d limit s (s', ok r) e h c = absurd (ground arith)
  Saves-SameBut tmp name d limit s (s', err f) e h c = h

  -- Where `Save` returns an error, every name but the temporary one holds what it held: no part of the
  -- upload is under another.
  pub save_refused :
      (raw : Runes) (u : Upload) (limit : ℕ) (s : K.Folder) (e : SaveError) (x : Runes)
      → (save K raw u limit s).1 ≡ err e
      → x ≢ partial_name u
      → K.content (save K raw u limit s).0 x ≡ K.content s x
  save_refused raw u limit s e x h =
      Saves-SameBut (partial_name u) (clean_name raw) u.body limit s (save K raw u limit s) e
        (save-Saves raw u limit s).0 h x
