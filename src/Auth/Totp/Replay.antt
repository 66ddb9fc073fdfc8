-- ===== src/Auth/Totp/Replay.antt =====
-- internal/auth/totp.go: an accepted code is fresh and in time.
use omarchy_vault.Prelude.{
  ℕ, ◌+◌, ◌/◌, ◌^◌, ◌≤◌, ◌<◌, ◌≡◌, ◌≢◌, refl, sym, GoString, str_eq, str_eq_iff, leb, length,
  Option, none, some, List, [], ◌∷◌, In, arith, Bool-cases, Option-cases, inl, inr, ◌⊎◌,
}
use omarchy_vault.Auth.Totp.{
  six_digits, clean_code, steps_near, totp_at, first_match, match_with, verify_totp, totp_step,
}

module _ (hmac_sha1 : GoString → List ℕ → List ℕ) (decode : GoString → Option GoString) where
  first_match_sound :
      (key code : GoString) (last : ℕ) (cs : List ℕ) (c : ℕ)
      → first_match hmac_sha1 decode key code last cs ≡ some c
      → In c cs × (last < c) × (totp_at hmac_sha1 decode key c ≡ code)
  unfolding first_match
  first_match_sound key code last [] c h = cc
  first_match_sound key code last (x ∷ cs) c h = elim (Bool-cases (leb x last)) [
    | inl used ↦ skip (first_match_sound key code last cs c (rw used at h))
    | inr free ↦ elim (Bool-cases (str_eq (totp_at hmac_sha1 decode key x) code)) [
      | inl same ↦
          let e : x ≡ c = ground arith in
          (inl (sym e), ground arith, rw (← e) ((str_eq_iff _ code).0 same))
      | inr other ↦ skip (first_match_sound key code last cs c (rw (free, other) at h))
    ]
  ]
    where
      skip :
          In c cs × (last < c) × (totp_at hmac_sha1 decode key c ≡ code)
          → ((c ≡ x) ⊎ In c cs) × (last < c) × (totp_at hmac_sha1 decode key c ≡ code)
      skip (m, l, e) = (inr m, l, e)

  first_match_complete :
      (key code : GoString) (last : ℕ) (cs : List ℕ) (c : ℕ)
      → In c cs
      → last < c
      → totp_at hmac_sha1 decode key c ≡ code
      → first_match hmac_sha1 decode key code last cs ≢ none
  unfolding first_match
  first_match_complete key code last [] c m l e h = elim m [ ]
  first_match_complete key code last (x ∷ cs) c (inl here) l e h =
      ground (arith, str_eq_iff (totp_at hmac_sha1 decode key x) code)
  first_match_complete key code last (x ∷ cs) c (inr later) l e h =
      ground (arith, first_match_complete key code last cs c later l e)

  near :
      (now c : ℕ) → 0 < now → now < 2 ^ 63 → In c (steps_near now) → (now ≤ c + 1) × (c ≤ now + 1)
  unfolding steps_near
  near now c pos small (inl e) = omega arith
  near now c pos small (inr (inl e)) = omega arith
  near now c pos small (inr (inr (inl e))) = omega arith
  near now c pos small (inr (inr (inr m))) = elim m [ ]

  -- A code that `VerifyTOTP` accepts, from the second time step on and before second 2 ^ 63, is the
  -- code of the step that it returns, for the decoded secret; the step is after the last accepted one
  -- and at most one beside the current one.
  pub verify_totp_sound :
      (secret code : GoString) (seconds last c : ℕ)
      → 30 ≤ seconds
      → seconds < 2 ^ 63
      → verify_totp hmac_sha1 decode secret code seconds last ≡ some c
      → (key : GoString) × (decode secret ≡ some key)
        × (totp_at hmac_sha1 decode key c ≡ clean_code code)
        × (last < c)
        × (seconds / totp_step ≤ c + 1)
        × (c ≤ seconds / totp_step + 1)
  unfolding verify_totp match_with
  verify_totp_sound secret code seconds last c late early h = elim (Option-cases (decode secret)) [
    | inl bad ↦ absurd (ground arith)
    | inr (key, good) ↦
        let matched : first_match hmac_sha1 decode key (clean_code code) last
              (steps_near (seconds / totp_step))
            ≡ some c =
          ground arith in
        let (m, l, e) = first_match_sound key (clean_code code) last _ c matched in
        let (lo, hi) = near (seconds / totp_step) c (omega arith) (omega arith) m in
        (key, good, e, l, lo, hi)
  ]

  -- The code of the current step is accepted if no later step was accepted before.
  pub verify_totp_complete :
      (secret code key : GoString) (seconds last : ℕ)
      → decode secret ≡ some key
      → clean_code code ≡ totp_at hmac_sha1 decode key (seconds / totp_step)
      → last < seconds / totp_step
      → verify_totp hmac_sha1 decode secret code seconds last ≢ none
  unfolding verify_totp match_with steps_near
  verify_totp_complete secret code key seconds last good same fresh =
      rw (same, good, six_long)
        (first_match_complete key _ last _ (seconds / totp_step) (inr (inl refl)) fresh refl)
    where
      six_long : length (totp_at hmac_sha1 decode key (seconds / totp_step)) ≡ 6
      six_long = unfold totp_at six_digits in refl

  -- at any time, the step that `VerifyTOTP` returns is after the last accepted one
  pub verify_totp-gt-last :
      (secret code : GoString) (seconds last c : ℕ)
      → verify_totp hmac_sha1 decode secret code seconds last ≡ some c
      → last < c
  unfolding verify_totp match_with
  verify_totp-gt-last secret code seconds last c h = elim (Option-cases (decode secret)) [
    | inl bad ↦ absurd (ground arith)
    | inr (key, good) ↦
        let matched : first_match hmac_sha1 decode key (clean_code code) last
              (steps_near (seconds / totp_step))
            ≡ some c =
          ground arith in
        let (_, later, _) = first_match_sound key (clean_code code) last _ c matched in later
  ]
