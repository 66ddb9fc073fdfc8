-- ===== src/Auth/Limiter.antt =====
-- internal/auth/limiter.go: locks after failed sign-ins. Times are nanoseconds since the epoch, and
-- the zero time of a new `limitState` is 0. The mutex makes each method one step.
pub mod Lockout
pub mod Keys
mod Tests
use omarchy_vault.Prelude.{
  ℕ, ◌+◌, ◌-◌, ◌*◌, ◌%◌, ◌^◌, GoString, Bool, true, false, ◌||◌, ltb, leb, ◌==◌, Option, none, some,
  List, [], ◌∷◌, filter, if◌then◌else◌,
}
use omarchy_vault.Prelude.Dict

-- `limitState`
pub record LimitState : Type 0 where
  pub failures : ℕ
  pub until : ℕ
  pub last : ℕ

abbrev pub Limiter : Type 0
Limiter = List (GoString × LimitState)

abbrev pub free_attempts : ℕ
free_attempts = 5

abbrev pub second : ℕ
second = 1000000000

abbrev pub base_lockout : ℕ
base_lockout = 60 * second

abbrev pub max_lockout : ℕ
max_lockout = 900 * second

abbrev pub hour : ℕ
hour = 3600 * second

-- `baseLockout << n` as a 64-bit pattern; from 2 ^ 63 it stands for a negative duration.
unfoldable pub shifted : ℕ → ℕ
shifted n = base_lockout * 2 ^ n % 2 ^ 64

-- the lock that follows `failures` failures, at least `free_attempts` of them
unfoldable pub lockout : ℕ → ℕ
unfolding shifted
lockout failures =
    let d = shifted (failures - free_attempts) in
    if leb (2 ^ 63) d || (d == 0 || ltb max_lockout d) then max_lockout else d

-- `limitState{}`
abbrev pub fresh : LimitState
fresh = record { failures = 0; until = 0; last = 0 }

-- one key of the loop of `Fail`
unfoldable pub fail_state : ℕ → LimitState → LimitState
fail_state now s =
    if ltb (s.failures + 1) free_attempts
    then record s { failures = s.failures + 1; last = now }
    else record { failures = s.failures + 1; until = now + lockout (s.failures + 1); last = now }

abbrev pub state_or_fresh : Option LimitState → LimitState
state_or_fresh none = fresh
state_or_fresh (some s) = s

unfoldable pub fail_key : ℕ → GoString → Limiter → Limiter
fail_key now k l = Dict.insert k (fail_state now (state_or_fresh (Dict.lookup k l))) l

unfoldable pub fail_keys : ℕ → List GoString → Limiter → Limiter
fail_keys now [] l = l
fail_keys now (k ∷ ks) l = fail_keys now ks (fail_key now k l)

-- the states that `Fail` drops first: those of the last hour stay
abbrev pub is_recent : ℕ → GoString × LimitState → Bool
is_recent now (k, s) = leb (now - s.last) hour

-- `LoginLimiter.Fail`
unfoldable pub fail : ℕ → List GoString → Limiter → Limiter
fail now ks l = fail_keys now ks (filter (is_recent now) l)

-- `LoginLimiter.Succeed`
unfoldable pub succeed : List GoString → Limiter → Limiter
succeed [] l = l
succeed (k ∷ ks) l = succeed ks (Dict.delete k l)

abbrev pub wait_of : ℕ → Option LimitState → ℕ
wait_of now none = 0
wait_of now (some s) = if ltb now s.until then s.until - now else 0

-- how long one key is locked
unfoldable pub wait_for : ℕ → Limiter → GoString → ℕ
wait_for now l k = wait_of now (Dict.lookup k l)

abbrev pub longer : ℕ → ℕ → ℕ
longer wait d = if ltb wait d then d else wait

unfoldable pub longest_wait : ℕ → Limiter → ℕ → List GoString → ℕ
longest_wait now l wait [] = wait
longest_wait now l wait (k ∷ ks) = longest_wait now l (longer wait (wait_for now l k)) ks

-- `LoginLimiter.Blocked`
unfoldable pub blocked : ℕ → Limiter → List GoString → ℕ × Bool
blocked now l ks = let wait = longest_wait now l 0 ks in (wait, ltb 0 wait)
