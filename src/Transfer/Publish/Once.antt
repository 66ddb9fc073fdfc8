-- ===== src/Transfer/Publish/Once.antt =====
-- internal/transfer/save.go: `publish` replaces no file and takes the first free name.
use omarchy_vault.Prelude.{
  ℕ, zero, suc, ◌+◌, ◌≤◌, ◌<◌, ◌≡◌, ◌≢◌, refl, ap, sym, ◌∙◌, subst, ◌⊎◌, inl, inr, Bool, true,
  false, if-true, if-false, none, Result, ok, err, arith, Bool-cases,
}
use omarchy_vault.Transfer.Names.{Runes, candidate}
use omarchy_vault.Transfer.Publish.{
  Errno, eexist, einval, enosys, eopnotsupp, eperm, emlink, other, Kernel, no_free_name,
  unsupported, Turn, done, taken, stop, turn_of, turn_of_link, after_link, try_link, after_rename,
  take_turn, Outcome, after_turn, publish_from, publish,
}

module _ (K : Kernel) where
  -- The file of one name is under another that was free, and every third name is as before.
  abbrev pub Publishes : Runes → Runes → K.Folder → K.Folder → Type 0
  Publishes tmp final s s' =
      (K.content s final ≡ none)
      × (K.content s' final ≡ K.content s tmp)
      × ((x : Runes) → x ≢ tmp → x ≢ final → K.content s' x ≡ K.content s x)

  -- How a turn may end, with what it leaves.
  abbrev pub Ends : Runes → Runes → K.Folder → K.Folder × (Bool × Turn) → Type 0
  Ends tmp final s (s', (use_link, done)) = Publishes tmp final s s'
  Ends tmp final s (s', (use_link, taken)) = (s' ≡ s) × (K.content s final ≢ none)
  Ends tmp final s (s', (use_link, stop e)) = (s' ≡ s) × (e ≢ no_free_name)

  turn_of-Ends :
      (tmp final : Runes) (s s' : K.Folder) (b : Bool) (e : Errno)
      → s' ≡ s
      → (e ≡ eexist → K.content s final ≢ none)
      → Ends tmp final s (s', (b, turn_of e))
  turn_of-Ends tmp final s s' b eexist same h = (same, h refl)
  turn_of-Ends tmp final s s' b einval same h = (same, λ c. cc)
  turn_of-Ends tmp final s s' b enosys same h = (same, λ c. cc)
  turn_of-Ends tmp final s s' b eopnotsupp same h = (same, λ c. cc)
  turn_of-Ends tmp final s s' b eperm same h = (same, λ c. cc)
  turn_of-Ends tmp final s s' b emlink same h = (same, λ c. cc)
  turn_of-Ends tmp final s s' b (other n) same h = (same, λ c. cc)

  turn_of_link-Ends :
      (tmp final : Runes) (s s' : K.Folder) (b : Bool) (e : Errno)
      → s' ≡ s
      → (e ≡ eexist → K.content s final ≢ none)
      → Ends tmp final s (s', (b, turn_of_link e))
  turn_of_link-Ends tmp final s s' b eexist same h = (same, h refl)
  turn_of_link-Ends tmp final s s' b einval same h = (same, λ c. cc)
  turn_of_link-Ends tmp final s s' b enosys same h = (same, λ c. cc)
  turn_of_link-Ends tmp final s s' b eopnotsupp same h = (same, λ c. cc)
  turn_of_link-Ends tmp final s s' b eperm same h = (same, λ c. cc)
  turn_of_link-Ends tmp final s s' b emlink same h = (same, λ c. cc)
  turn_of_link-Ends tmp final s s' b (other n) same h = (same, λ c. cc)

  after_link-Ends :
      (tmp final : Runes) (s : K.Folder) (p : K.Folder × Result Errno (Unit {0}))
      → tmp ≢ final
      → K.link tmp final s ≡ p
      → Ends tmp final s (after_link K tmp p)
  after_link-Ends tmp final s (s', ok u) apart e =
      let (free, there, others) = K.link_ok tmp final s (ap (λ p. p.1) e) in
      let at = λ (x : Runes). ap (λ p. K.content p.0 x) e in
      (
        free,
        K.unlink_others tmp s' final (λ c. apart (sym c)) ∙ sym (at final) ∙ there,
        λ x not_tmp not_final. K.unlink_others tmp s' x not_tmp ∙ sym (at x) ∙ others x not_final,
      )
  after_link-Ends tmp final s (s', err f) apart e =
      let failed_so = ap (λ p. p.1) e in
      turn_of_link-Ends tmp final s s' true f
        (ap (λ p. p.0) (sym e) ∙ K.link_err tmp final s f failed_so)
        (λ same. K.link_exists tmp final s (failed_so ∙ ap err same))

  after_rename-Ends :
      (tmp final : Runes) (s : K.Folder) (p : K.Folder × Result Errno (Unit {0}))
      → tmp ≢ final
      → K.rename tmp final s ≡ p
      → Ends tmp final s (after_rename K tmp final p)
  after_rename-Ends tmp final s (s', ok u) apart e =
      let (free, there, others) = K.rename_ok tmp final s (ap (λ p. p.1) e) in
      let at = λ (x : Runes). ap (λ p. K.content p.0 x) e in
      (free, sym (at final) ∙ there, λ x not_tmp not_final. sym (at x) ∙ others x not_tmp not_final)
  after_rename-Ends tmp final s (s', err f) apart e =
      let failed_so = ap (λ p. p.1) e in
      let same = ap (λ p. p.0) (sym e) ∙ K.rename_err tmp final s f failed_so in
      elim (Bool-cases (unsupported f)) [
        | inl other_way ↦
            subst (Ends tmp final s)
              (ap (try_link K tmp final) (sym same) ∙ sym (if-true _ _ other_way))
              (after_link-Ends tmp final s (K.link tmp final s) apart refl)
        | inr final_word ↦ subst (Ends tmp final s) (sym (if-false _ _ final_word)) (
            turn_of-Ends tmp final s s' false f same
              (λ is. K.rename_exists tmp final s (failed_so ∙ ap err is)))
      ]

  take_turn-Ends :
      (use_link : Bool) (tmp final : Runes) (s : K.Folder)
      → tmp ≢ final
      → Ends tmp final s (take_turn K use_link tmp final s)
  unfolding take_turn
  take_turn-Ends true tmp final s apart =
      after_link-Ends tmp final s (K.link tmp final s) apart refl
  take_turn-Ends false tmp final s apart =
      after_rename-Ends tmp final s (K.rename tmp final s) apart refl

  -- What `publish` leaves: it has published under the first free candidate, or changed nothing, and then
  -- every candidate is taken if that is what it reports.
  abbrev pub IsOutcome : Runes → Runes → ℕ → ℕ → K.Folder → Outcome K → Type 0
  IsOutcome tmp name n i s (s', ok final) =
      Publishes tmp final s s'
      × ((k : ℕ) × (i ≤ k)
          × (k < i + n)
          × (final ≡ candidate name k)
          × ((j : ℕ) → i ≤ j → j < k → K.content s (candidate name j) ≢ none))
  IsOutcome tmp name n i s (s', err e) =
      (s' ≡ s)
      × ((e ≢ no_free_name) ⊎ ((j : ℕ) → i ≤ j → j < i + n → K.content s (candidate name j) ≢ none))

  one_more :
      (tmp name : Runes) (n i : ℕ) (s : K.Folder) (p : Outcome K)
      → K.content s (candidate name i) ≢ none
      → IsOutcome tmp name n (suc i) s p
      → IsOutcome tmp name (suc n) i s p
  one_more tmp name n i s (s', ok final) here (published, (k, low, high, is, all)) = (
    published,
    (
      k,
      omega arith,
      omega arith,
      is,
      λ j l h. elim (from_here j l) [
        | inl first ↦ subst (λ m. K.content s (candidate name m) ≢ none) (sym first) here
        | inr later ↦ all j later h
      ],
    ),
  )
    where
      from_here : (j : ℕ) → i ≤ j → (j ≡ i) ⊎ (suc i ≤ j)
      from_here j l = omega arith
  one_more tmp name n i s (s', err e) here (same, inl why) = (same, inl why)
  one_more tmp name n i s (s', err e) here (same, inr all) = (
    same,
    inr (λ j l h. elim (from_here j l) [
      | inl first ↦ subst (λ m. K.content s (candidate name m) ≢ none) (sym first) here
      | inr later ↦ all j later (omega arith)
    ]),
  )
    where
      from_here : (j : ℕ) → i ≤ j → (j ≡ i) ⊎ (suc i ≤ j)
      from_here j l = omega arith

  after_turn-IsOutcome :
      (tmp name : Runes) (n i : ℕ) (s : K.Folder) (p : K.Folder × (Bool × Turn))
      → ((b : Bool) (t : K.Folder)
          → IsOutcome tmp name n (suc i) t (publish_from K tmp name n (suc i) b t))
      → Ends tmp (candidate name i) s p
      → IsOutcome tmp name
          (suc n)
          i
          s
          (after_turn K (candidate name i) (λ b t. publish_from K tmp name n (suc i) b t) p)
  after_turn-IsOutcome tmp name n i s (s', (b, done)) rest published =
      (published, (i, omega arith, omega arith, refl, λ j l h. absurd (omega arith)))
  after_turn-IsOutcome tmp name n i s (s', (b, taken)) rest (same, here) =
      one_more tmp name n i s (publish_from K tmp name n (suc i) b s') here (
        subst (λ t. IsOutcome tmp name n (suc i) t (publish_from K tmp name n (suc i) b s')) same
          (rest b s'))
  after_turn-IsOutcome tmp name n i s (s', (b, stop e)) rest (same, why) = (same, inl why)

  publish_from-IsOutcome :
      (tmp name : Runes) (n i : ℕ) (use_link : Bool) (s : K.Folder)
      → ((j : ℕ) → tmp ≢ candidate name j)
      → IsOutcome tmp name n i s (publish_from K tmp name n i use_link s)
  unfolding publish_from
  publish_from-IsOutcome tmp name zero i use_link s apart =
      (refl, inr (λ j l h. absurd (omega arith)))
  publish_from-IsOutcome tmp name (suc n) i use_link s apart =
      after_turn-IsOutcome tmp name n i s (take_turn K use_link tmp (candidate name i) s)
        (λ b t. publish_from-IsOutcome tmp name n (suc i) b t apart)
        (take_turn-Ends use_link tmp (candidate name i) s (apart i))

  pub publish-IsOutcome :
      (tmp name : Runes) (s : K.Folder)
      → ((j : ℕ) → tmp ≢ candidate name j)
      → IsOutcome tmp name 10000 0 s (publish K tmp name s)
  unfolding publish
  publish-IsOutcome tmp name s apart = publish_from-IsOutcome tmp name 10000 0 false s apart
