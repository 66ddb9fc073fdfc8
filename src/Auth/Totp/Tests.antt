-- ===== src/Auth/Totp/Tests.antt =====
-- internal/auth/totp.go: verification with a stand-in for HMAC-SHA-1.
use omarchy_vault.Prelude.{
  ℕ, ◌+◌, ◌/◌, ◌≤◌, ◌<◌, ◌≡◌, refl, GoString, codes, str_eq, Option, some, List, [], ◌∷◌, arith,
}
use omarchy_vault.Disks.Display.{trim_space}
use omarchy_vault.Auth.Totp.{
  put_uint64, six_digits, truncate, clean_code, steps_near, totp_at, first_match, match_with,
  verify_totp, totp_step,
}
use omarchy_vault.Auth.Totp.Replay.{verify_totp_sound}

-- twenty bytes, the last of which tells the step
abbrev mac : GoString → List ℕ → List ℕ
mac key (a ∷ b ∷ c ∷ d ∷ e ∷ f ∷ g ∷ h ∷ []) =
    0 ∷ 0 ∷ 0 ∷ 7 ∷ 0 ∷ 0 ∷ 0 ∷ 0 ∷ 0 ∷ 0 ∷ 0 ∷ 0 ∷ 0 ∷ 0 ∷ 0 ∷ 0 ∷ 0 ∷ 0 ∷ h ∷ 0 ∷ []
mac key _ = []

abbrev decode : GoString → Option GoString
decode s = some s

accepted : verify_totp mac decode (codes "ABC") (codes " 000 007") 60 1 ≡ some 2
unfolding verify_totp match_with first_match totp_at six_digits truncate clean_code steps_near
    put_uint64 trim_space str_eq
accepted = refl

verify_totp_sound_example :
    (key : GoString) × (decode (codes "ABC") ≡ some key)
    × (totp_at mac decode key 2 ≡ clean_code (codes " 000 007"))
    × (1 < 2)
    × (60 / totp_step ≤ 2 + 1)
    × (2 ≤ 60 / totp_step + 1)
verify_totp_sound_example =
    verify_totp_sound mac decode (codes "ABC") (codes " 000 007") 60 1 2 (omega arith) (omega arith)
      accepted

same_code : clean_code (codes " 000 007") ≡ totp_at mac decode (codes "ABC") (60 / totp_step)
unfolding totp_at six_digits truncate clean_code put_uint64 trim_space
same_code = refl
