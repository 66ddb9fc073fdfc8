-- ===== src/Auth/Limiter/Tests.antt =====
-- internal/auth/limiter.go: a key that fails five times.
use omarchy_vault.Prelude.{
  ◌+◌, ◌*◌, ◌≤◌, ◌<◌, ◌≡◌, refl, GoString, codes, str_eq, true, some, [], ◌∷◌, arith,
}
use omarchy_vault.Prelude.Dict
use mathlib.Core.List.{List}
use omarchy_vault.Auth.Limiter.{
  LimitState, Limiter, second, base_lockout, max_lockout, lockout, fail_state, fail_key, fail_keys,
  fail, wait_for,
}
use omarchy_vault.Auth.Limiter.Lockout.{lockout_lem, lockout_bounds, doubling}
use omarchy_vault.Auth.Limiter.Keys.{none_in}

abbrev four_failures : LimitState
four_failures = record { failures = 4; until = 0; last = 100 * second }

abbrev before : Limiter
before = (codes "ann", four_failures) ∷ []

abbrev ann : List GoString
ann = codes "ann" ∷ []

abbrev locked : LimitState
locked = record { failures = 5; until = 161 * second; last = 101 * second }

abbrev after : Limiter
after = (codes "ann", locked) ∷ []

fifth : fail (101 * second) ann before ≡ after
unfolding fail fail_keys fail_key fail_state lockout Dict.lookup Dict.insert str_eq
fifth = refl

lockout_lem_example : lockout (60 + 5) ≡ max_lockout
unfolding doubling
lockout_lem_example = lockout_lem 60

lockout_bounds_example : (base_lockout ≤ lockout 6) × (lockout 6 ≤ max_lockout)
lockout_bounds_example = lockout_bounds 6 (omega arith)

found : Dict.lookup (codes "ann") before ≡ some four_failures
unfolding Dict.lookup str_eq
found = refl

still_locked : 0 < wait_for (120 * second) after (codes "ann")
unfolding wait_for Dict.lookup str_eq
still_locked = omega arith

not_bob : none_in (codes "ann") (codes "bob" ∷ []) ≡ true
unfolding str_eq
not_bob = refl
