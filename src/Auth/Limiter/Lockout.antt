-- ===== src/Auth/Limiter/Lockout.antt =====
-- internal/auth/limiter.go: the length of a lock, for every number of failures.
use native.Mathlib.Nat.{pow-succ'}
use omarchy_vault.Prelude.{
  ℕ, zero, suc, ◌+◌, ◌-◌, ◌*◌, ◌^◌, ◌≤◌, ◌<◌, ◌≡◌, refl, ◌∙◌, Bool, true, false, ltb, ◌==◌, arith,
  if◌then◌else◌, ==_iff, ltb→lt, Bool-cases, inl, inr,
}
use omarchy_vault.Auth.Limiter.{shifted, lockout, base_lockout, max_lockout}

-- what the lock is meant to be: a minute, doubled for each further failure up to 15 minutes
unfoldable pub doubling : ℕ → ℕ
doubling n = if ltb n 4 then base_lockout * 2 ^ n else max_lockout

-- whether the lock is as meant for each of the first failures after the fourth
agree : ℕ → Bool
agree zero = true
agree (suc count) = if lockout (count + 5) == doubling count then agree count else false

agree_sound : (count : ℕ) → agree count ≡ true → (n : ℕ) → n < count → lockout (n + 5) ≡ doubling n
unfolding agree
agree_sound zero h n few = absurd (omega arith)
agree_sound (suc count) h n few = elim (Bool-cases (lockout (count + 5) == doubling count)) [
  | inr apart ↦ absurd (ground arith)
  | inl same ↦
      let earlier : n < count → lockout (n + 5) ≡ doubling n = agree_sound count (ground arith) n in
      elim (Bool-cases (ltb n count)) [
        | inl below ↦ earlier (ltb→lt n count below)
        | inr top ↦ let e : n ≡ count = ground arith in rw e ((==_iff _ _).0 same)
      ]
]

first_64 : agree 64 ≡ true
unfolding agree lockout doubling
first_64 = refl

-- From 53 doublings on, the 64-bit pattern is 0.
shifted_zero : (k : ℕ) → shifted (k + 53) ≡ 0
unfolding shifted
shifted_zero zero = refl
shifted_zero (suc k) =
    let same : suc k + 53 ≡ suc (k + 53) = omega arith in
    rw (same, pow-succ') (omega (arith, shifted_zero k))

lockout_of_zero : (f n : ℕ) → f - 5 ≡ n → shifted n ≡ 0 → lockout f ≡ max_lockout
unfolding lockout
lockout_of_zero f n e h = rw (e, h)

-- The lock after the fifth failure and later ones is a minute, doubled for each further failure and
-- never more than 15 minutes, however far the 64-bit shift overflows.
pub lockout_lem : (n : ℕ) → lockout (n + 5) ≡ doubling n
unfolding doubling
lockout_lem n = elim (Bool-cases (ltb n 64)) [
  | inl small ↦ agree_sound 64 first_64 n (ltb→lt n 64 small)
  | inr large ↦
      let same : n + 5 - 5 ≡ n - 53 + 53 = ground arith in
      lockout_of_zero (n + 5) _ same (shifted_zero (n - 53)) ∙ ground arith
]

doubling_bounds : (n : ℕ) → (base_lockout ≤ doubling n) × (doubling n ≤ max_lockout)
unfolding doubling
doubling_bounds zero = omega arith
doubling_bounds (suc zero) = omega arith
doubling_bounds (suc (suc zero)) = omega arith
doubling_bounds (suc (suc (suc zero))) = omega arith
doubling_bounds (suc (suc (suc (suc n)))) =
    let late : ltb (suc (suc (suc (suc n)))) 4 ≡ false = ground arith in rw late (omega arith)

-- No lock is shorter than a minute or longer than 15 minutes.
pub lockout_bounds :
    (failures : ℕ)
    → 5 ≤ failures
    → (base_lockout ≤ lockout failures) × (lockout failures ≤ max_lockout)
lockout_bounds failures h =
    let e : failures ≡ failures - 5 + 5 = omega arith in
    rw (e, lockout_lem) (doubling_bounds (failures - 5))
