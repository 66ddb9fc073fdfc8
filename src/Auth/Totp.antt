-- ===== src/Auth/Totp.antt =====
-- internal/auth/totp.go: time-based one-time codes. The base32 decoder and HMAC-SHA-1 are parameters.
pub mod Replay
mod Tests
use omarchy_vault.Prelude.{
  ℕ, zero, suc, ◌+◌, ◌-◌, ◌*◌, ◌/◌, ◌%◌, ◌^◌, GoString, str_eq, Bool, true, false, not, ◌==◌, leb,
  length, filter, Option, none, some, List, [], ◌∷◌, ◌++◌, if◌then◌else◌,
}
use omarchy_vault.Disks.Display.{trim_space}

abbrev pub totp_step : ℕ
totp_step = 30

abbrev pub totp_digits : ℕ
totp_digits = 6

-- `binary.BigEndian.PutUint64`
unfoldable pub put_uint64 : ℕ → List ℕ
put_uint64 v =
    (v / 2 ^ 56 % 256)
    ∷ (v / 2 ^ 48 % 256)
    ∷ (v / 2 ^ 40 % 256)
    ∷ (v / 2 ^ 32 % 256)
    ∷ (v / 2 ^ 24 % 256)
    ∷ (v / 2 ^ 16 % 256)
    ∷ (v / 2 ^ 8 % 256)
    ∷ (v % 256)
    ∷ []

-- `b[i]`, 0 out of range; a digest has 20 bytes, so no index of `totpAt` is out of range.
abbrev pub at : List ℕ → ℕ → ℕ
at [] i = 0
at (x ∷ xs) zero = x
at (x ∷ xs) (suc i) = at xs i

-- `%0*d` with six digits
unfoldable pub six_digits : ℕ → GoString
six_digits v =
    (48 + v / 100000 % 10)
    ∷ (48 + v / 10000 % 10)
    ∷ (48 + v / 1000 % 10)
    ∷ (48 + v / 100 % 10)
    ∷ (48 + v / 10 % 10)
    ∷ (48 + v % 10)
    ∷ []

-- the four bytes at the offset, without the top bit
unfoldable pub truncate : List ℕ → ℕ
truncate sum =
    let off = at sum (length sum - 1) % 16 in
    (at sum off * 2 ^ 24 + at sum (off + 1) * 2 ^ 16 + at sum (off + 2) * 2 ^ 8 + at sum (off + 3))
    % 2 ^ 31

-- `strings.ReplaceAll(strings.TrimSpace(code), " ", "")`
unfoldable pub clean_code : GoString → GoString
clean_code code = filter (λ c. not (c == 32)) (trim_space code)

-- `uint64(int64(now) + int64(d))` for d = -1, 0, 1: it wraps below 0
unfoldable pub steps_near : ℕ → List ℕ
steps_near now = ((now + 2 ^ 64 - 1) % 2 ^ 64) ∷ now ∷ ((now + 1) % 2 ^ 64) ∷ []

module _ (hmac_sha1 : GoString → List ℕ → List ℕ) (decode : GoString → Option GoString) where
  -- `totpAt`
  unfoldable pub totp_at : GoString → ℕ → GoString
  totp_at key counter = six_digits (truncate (hmac_sha1 key (put_uint64 counter)) % 1000000)

  -- the loop of `VerifyTOTP`: the accepted step, `none` for `(0, false)`
  unfoldable pub first_match : GoString → GoString → ℕ → List ℕ → Option ℕ
  first_match key code last [] = none
  first_match key code last (c ∷ cs) =
      if leb c last
      then first_match key code last cs
      else if str_eq (totp_at key c) code
      then some c
      else first_match key code last cs

  unfoldable pub match_with : Option GoString → GoString → ℕ → ℕ → Option ℕ
  match_with none code seconds last = none
  match_with (some key) code seconds last =
      first_match key code last (steps_near (seconds / totp_step))

  -- `VerifyTOTP`; `decode` is the base32 decoder after `strings.ToUpper`.
  unfoldable pub verify_totp : GoString → GoString → ℕ → ℕ → Option ℕ
  verify_totp secret code seconds last =
      if not (length (clean_code code) == totp_digits)
      then none
      else match_with (decode secret) (clean_code code) seconds last
