-- ===== src/Auth/Limiter/Keys.antt =====
-- internal/auth/limiter.go: what the methods do to each key.
use omarchy_vault.Prelude.{
  ℕ, ◌+◌, ◌-◌, ◌≤◌, ◌<◌, ◌≡◌, refl, ◌∙◌, GoString, str_eq, str_eq_refl, Bool, true, false, ltb, leb,
  some, List, [], ◌∷◌, filter, All, All-filter, In, arith, if◌then◌else◌, Bool-cases, Option-cases,
  inl, inr, ◌⊎◌, ◌↔◌,
}
use omarchy_vault.Prelude.Dict
use omarchy_vault.Prelude.Dict.{lookup-insert, lookup-delete}
use omarchy_vault.Auth.Limiter.Lockout.{lockout_bounds}
use omarchy_vault.Auth.Limiter.{
  LimitState, Limiter, max_lockout, hour, lockout, fail_state, state_or_fresh, fail_key, fail_keys,
  is_recent, fail, succeed, wait_for, wait_of, longer, longest_wait, blocked,
}

abbrev pub none_in : GoString → List GoString → Bool
none_in k [] = true
none_in k (j ∷ ks) = if str_eq j k then false else none_in k ks

-- The state of a key after the loop of `Fail`: another key's is untouched.
pub lookup-fail_key :
    (now : ℕ) (k j : GoString) (l : Limiter)
    → Dict.lookup j (fail_key now k l) ≡ (
        if str_eq k j
        then some (fail_state now (state_or_fresh (Dict.lookup k l)))
        else Dict.lookup j l)
unfolding fail_key
lookup-fail_key now k j l = lookup-insert k j _ l

lookup-fail_keys_other :
    (now : ℕ) (j : GoString) (ks : List GoString) (l : Limiter)
    → none_in j ks ≡ true
    → Dict.lookup j (fail_keys now ks l) ≡ Dict.lookup j l
unfolding fail_keys
lookup-fail_keys_other now j [] l h = refl
lookup-fail_keys_other now j (k ∷ ks) l h =
    ground (arith, lookup-fail_keys_other now j ks (fail_key now k l), lookup-fail_key now k j l)

pub lookup-filter :
    (now : ℕ) (k : GoString) (s : LimitState) (l : Limiter)
    → Dict.lookup k l ≡ some s
    → leb (now - s.last) hour ≡ true
    → Dict.lookup k (filter (is_recent now) l) ≡ some s
unfolding Dict.lookup
lookup-filter now k s [] h r = h
lookup-filter now k s ((j, t) ∷ l) h r = ground (arith, lookup-filter now k s l)

-- A state's lock ends within 15 minutes of its last failure.
abbrev EndsSoon : GoString × LimitState → Type 0
EndsSoon (k, s) = s.until ≤ s.last + max_lockout

abbrev pub IsBounded : Limiter → Type 0
IsBounded l = All EndsSoon l

IsBounded-insert :
    (k : GoString) (s : LimitState) (l : Limiter)
    → s.until ≤ s.last + max_lockout
    → IsBounded l
    → IsBounded (Dict.insert k s l)
unfolding Dict.insert
IsBounded-insert k s [] q h = (q, tt)
IsBounded-insert k s ((j, t) ∷ l) q (r, h) = elim (Bool-cases (str_eq j k)) [
  | inl same ↦ rw same (q, h)
  | inr other ↦ rw other (r, IsBounded-insert k s l q h)
]

-- the state found for a key ends soon, and so does a fresh one
lookup-EndsSoon :
    (k : GoString) (l : Limiter)
    → IsBounded l
    → (state_or_fresh (Dict.lookup k l)).until
      ≤ (state_or_fresh (Dict.lookup k l)).last + max_lockout
unfolding Dict.lookup
lookup-EndsSoon k [] h = omega arith
lookup-EndsSoon k ((j, t) ∷ l) (r, h) = elim (Bool-cases (str_eq j k)) [
  | inl same ↦ rw same r
  | inr other ↦ rw other (lookup-EndsSoon k l h)
]

-- time does not run backwards between failures
abbrev NotAfter : ℕ → GoString × LimitState → Type 0
NotAfter now (k, s) = s.last ≤ now

fail_state-EndsSoon :
    (now : ℕ) (s : LimitState)
    → s.last ≤ now
    → s.until ≤ s.last + max_lockout
    → (fail_state now s).until ≤ (fail_state now s).last + max_lockout
unfolding fail_state
fail_state-EndsSoon now s t h = ground (arith, lockout_bounds (s.failures + 1))

abbrev pub AllNotAfter : ℕ → Limiter → Type 0
AllNotAfter now l = All (NotAfter now) l

lookup-NotAfter :
    (now : ℕ) (k : GoString) (l : Limiter)
    → AllNotAfter now l
    → (state_or_fresh (Dict.lookup k l)).last ≤ now
unfolding Dict.lookup
lookup-NotAfter now k [] h = omega arith
lookup-NotAfter now k ((j, t) ∷ l) (r, h) = elim (Bool-cases (str_eq j k)) [
  | inl same ↦ rw same r
  | inr other ↦ rw other (lookup-NotAfter now k l h)
]

NotAfter-insert :
    (now : ℕ) (k : GoString) (s : LimitState) (l : Limiter)
    → s.last ≤ now
    → AllNotAfter now l
    → AllNotAfter now (Dict.insert k s l)
unfolding Dict.insert
NotAfter-insert now k s [] q h = (q, tt)
NotAfter-insert now k s ((j, t) ∷ l) q (r, h) = elim (Bool-cases (str_eq j k)) [
  | inl same ↦ rw same (q, h)
  | inr other ↦ rw other (r, NotAfter-insert now k s l q h)
]

fail_state-NotAfter : (now : ℕ) (s : LimitState) → (fail_state now s).last ≤ now
unfolding fail_state
fail_state-NotAfter now s = ground arith

fail_keys-IsBounded :
    (now : ℕ) (ks : List GoString) (l : Limiter)
    → IsBounded l
    → AllNotAfter now l
    → IsBounded (fail_keys now ks l) × AllNotAfter now (fail_keys now ks l)
unfolding fail_keys fail_key
fail_keys-IsBounded now [] l h t = (h, t)
fail_keys-IsBounded now (k ∷ ks) l h t =
    let s : LimitState = state_or_fresh (Dict.lookup k l) in
    fail_keys-IsBounded now ks (Dict.insert k (fail_state now s) l)
      (IsBounded-insert k (fail_state now s) l
        (fail_state-EndsSoon now s (lookup-NotAfter now k l t) (lookup-EndsSoon k l h)) h)
      (NotAfter-insert now k (fail_state now s) l (fail_state-NotAfter now s) t)

-- `Fail` keeps every lock within 15 minutes of the last failure, as long as the clock does not stand
-- before a recorded failure.
pub fail-IsBounded :
    (now : ℕ) (ks : List GoString) (l : Limiter)
    → IsBounded l
    → AllNotAfter now l
    → IsBounded (fail now ks l) × AllNotAfter now (fail now ks l)
unfolding fail
fail-IsBounded now ks l h t =
    fail_keys-IsBounded now ks _ (All-filter EndsSoon (is_recent now) l h)
      (All-filter (NotAfter now) (is_recent now) l t)

lookup-fail_other :
    (now : ℕ) (k : GoString) (ks : List GoString) (l : Limiter) (s : LimitState)
    → none_in k ks ≡ true
    → Dict.lookup k l ≡ some s
    → leb (now - s.last) hour ≡ true
    → Dict.lookup k (fail now ks l) ≡ some s
unfolding fail
lookup-fail_other now k ks l s other found recent =
    lookup-fail_keys_other now k ks _ other ∙ lookup-filter now k s l found recent

-- Where every lock ends within 15 minutes of the last failure of its key, the failures of other keys,
-- and the cleaning that comes with them, leave a lock in force as it is.
pub wait_for-fail_other :
    (now : ℕ) (k : GoString) (ks : List GoString) (l : Limiter)
    → IsBounded l
    → none_in k ks ≡ true
    → 0 < wait_for now l k
    → wait_for now (fail now ks l) k ≡ wait_for now l k
unfolding wait_for
wait_for-fail_other now k ks l bounded other locked = elim (Option-cases (Dict.lookup k l)) [
  | inl missing ↦ absurd (ground arith)
  | inr (s, found) ↦
      let ends : s.until ≤ s.last + max_lockout = rw found at (lookup-EndsSoon k l bounded) in
      let held : now < s.until = ground arith in
      rw (lookup-fail_other now k ks l s other found (ground arith), found)
]

lookup-fail_self :
    (now : ℕ) (k : GoString) (l : Limiter) (s : LimitState)
    → Dict.lookup k l ≡ some s
    → leb (now - s.last) hour ≡ true
    → Dict.lookup k (fail now (k ∷ []) l) ≡ some (fail_state now s)
unfolding fail fail_keys
lookup-fail_self now k l s found recent =
    lookup-fail_key now k k _ ∙ rw (str_eq_refl, lookup-filter now k s l found recent)

-- A failure of a key that has failed at least four times, the last time within an hour, locks it for
-- the time that goes with the number of its failures.
pub blocked-fail :
    (now : ℕ) (k : GoString) (l : Limiter) (s : LimitState)
    → Dict.lookup k l ≡ some s
    → now ≤ s.last + hour
    → 4 ≤ s.failures
    → blocked now (fail now (k ∷ []) l) (k ∷ []) ≡ (lockout (s.failures + 1), true)
unfolding blocked longest_wait wait_for
blocked-fail now k l s found recent many =
    rw (lookup-fail_self now k l s found (ground arith))
      (unfold fail_state in ground (arith, lockout_bounds (s.failures + 1)))

longest_wait-ge : (now : ℕ) (l : Limiter) (w : ℕ) (ks : List GoString) → w ≤ longest_wait now l w ks
unfolding longest_wait
longest_wait-ge now l w [] = omega arith
longest_wait-ge now l w (k ∷ ks) =
    let g = longest_wait-ge now l (longer w (wait_for now l k)) ks in ground (arith, g)

longest_wait-In :
    (now : ℕ) (l : Limiter) (w : ℕ) (ks : List GoString) (k : GoString)
    → In k ks
    → wait_for now l k ≤ longest_wait now l w ks
unfolding longest_wait
longest_wait-In now l w [] k m = elim m [ ]
longest_wait-In now l w (j ∷ ks) k (inl e) =
    let g = longest_wait-ge now l (longer w (wait_for now l j)) ks in rw e (ground (arith, g))
longest_wait-In now l w (j ∷ ks) k (inr m) =
    longest_wait-In now l (longer w (wait_for now l j)) ks k m

longest_wait_of :
    (now : ℕ) (l : Limiter) (w : ℕ) (ks : List GoString)
    → (longest_wait now l w ks ≡ w)
      ⊎ ((k : GoString) × In k ks × (longest_wait now l w ks ≡ wait_for now l k))
unfolding longest_wait
longest_wait_of now l w [] = inl refl
longest_wait_of now l w (j ∷ ks) = elim (longest_wait_of now l (longer w (wait_for now l j)) ks) [
  | inr (k, m, e) ↦ inr (k, inr m, e)
  | inl e ↦ elim (Bool-cases (ltb w (wait_for now l j))) [
    | inl more ↦ inr (j, inl refl, e ∙ ground arith)
    | inr less ↦ inl (e ∙ ground arith)
  ]
]

-- `Blocked` reports the longest wait of the keys, and blocks exactly when some key is locked.
pub blocked_lem :
    (now : ℕ) (l : Limiter) (ks : List GoString)
    → ((k : GoString) → In k ks → wait_for now l k ≤ (blocked now l ks).0)
      × (((blocked now l ks).1 ≡ true) ↔ ((k : GoString) × In k ks × (0 < wait_for now l k)))
unfolding blocked
blocked_lem now l ks = (longest_wait-In now l 0 ks, (to, from))
  where
    to : ltb 0 (longest_wait now l 0 ks) ≡ true → (k : GoString) × In k ks × (0 < wait_for now l k)
    to h = elim (longest_wait_of now l 0 ks) [
      | inl e ↦ absurd (ground arith)
      | inr (k, m, e) ↦ (k, m, ground arith)
    ]

    from :
        (k : GoString) × In k ks × (0 < wait_for now l k) → ltb 0 (longest_wait now l 0 ks) ≡ true
    from (k, m, h) = let g = longest_wait-In now l 0 ks k m in ground arith

wait_for-delete :
    (now : ℕ) (l : Limiter) (k j : GoString)
    → wait_for now (Dict.delete k l) j ≡ (if str_eq k j then 0 else wait_for now l j)
unfolding wait_for
wait_for-delete now l k j = elim (Bool-cases (str_eq k j)) [
  | inl same ↦ rw (lookup-delete k j l, wait_of, same)
  | inr other ↦ rw (lookup-delete k j l, wait_of, other)
]

-- After `Succeed` its keys are not locked, and every other key waits as before.
pub wait_for-succeed :
    (now : ℕ) (ks : List GoString) (l : Limiter) (j : GoString)
    → wait_for now (succeed ks l) j ≡ (if none_in j ks then wait_for now l j else 0)
unfolding succeed
wait_for-succeed now [] l j = refl
wait_for-succeed now (k ∷ ks) l j =
    ground (arith, wait_for-succeed now ks (Dict.delete k l) j, wait_for-delete now l k j)
