-- ===== src/Users/Store/Calls.antt =====
-- internal/users/users.go: the two ways in which a call of `Store` that writes can end, and sequences
-- of such calls.
use omarchy_vault.Prelude.{
  ◌≡◌, refl, sym, subst, ap, ◌⊎◌, inl, inr, GoString, Bool, true, false, some, List, [], ◌∷◌, ◌++◌,
  any, Result, ok, err, Result-cases, Bool-cases, Option-cases,
}
use omarchy_vault.Users.Accounts.{User}
use omarchy_vault.Users.Store
use omarchy_vault.Users.Store.{
  Store, UserError, has_name, check_new, stamp, find_last, set_last, check_changed, loses_admin,
  touch, without,
}

-- the store after a successful `save` of the list
abbrev pub committed : List User → Store
committed next = record { users = next; file = some (record { version = 1; users = next }) }

pub create_cases :
    (u : User) (ts : GoString) (saved : Bool) (s : Store)
    → ((e : UserError) × (Store.create u ts saved s ≡ (s, err e)))
      ⊎ ((check_new u ≡ ok tt)
          × (any (has_name u.username) s.users ≡ false)
          × (saved ≡ true)
          × (Store.create u ts saved s ≡ (committed (s.users ++ stamp ts u ∷ []), ok tt)))
unfolding Store.create
create_cases u ts saved s = elim (Result-cases (check_new u)) [
  | inr (e, bad) ↦ inl (e, rw bad refl)
  | inl (tt, good) ↦ elim (Bool-cases (any (has_name u.username) s.users)) [
    | inl taken ↦ inl (Store.exists, rw (good, taken) refl)
    | inr free ↦ elim (Bool-cases saved) [
      | inr lost ↦ inl (Store.save_failed, rw (good, free, lost) refl)
      | inl kept ↦ inr (good, free, kept, rw (good, free, kept) refl)
    ]
  ]
]

-- what a successful `Update` has found: the user, and what the caller's function made of it
abbrev pub Changes :
    GoString → (User → Result UserError User) → GoString → Store → User → User → Type 0
Changes name fn ts s u v =
    (find_last name s.users ≡ some u)
    × (fn u ≡ ok v)
    × (check_changed name v ≡ ok tt)
    × (loses_admin s.users (set_last name (touch ts v) s.users) ≡ false)

pub update_cases :
    (name : GoString) (fn : User → Result UserError User) (ts : GoString) (saved : Bool) (s : Store)
    → ((e : UserError) × (Store.update name fn ts saved s ≡ (s, err e)))
      ⊎ ((u : User) × (v : User) × Changes name fn ts s u v
          × (Store.update name fn ts saved s
              ≡ (committed (set_last name (touch ts v) s.users), ok (touch ts v))))
unfolding Store.update
update_cases name fn ts saved s = elim (Option-cases (find_last name s.users)) [
  | inl missing ↦ inl (Store.not_found, rw missing refl)
  | inr (u, found) ↦ elim (Result-cases (fn u)) [
    | inr (e, bad) ↦ inl (e, rw (found, bad) refl)
    | inl (v, made) ↦ elim (Result-cases (check_changed name v)) [
      | inr (e, bad) ↦ inl (e, rw (found, made, bad) refl)
      | inl (tt, good) ↦
          elim (Bool-cases (loses_admin s.users (set_last name (touch ts v) s.users))) [
            | inl loses ↦ inl (Store.last_admin, rw (found, made, good, loses) refl)
            | inr keeps ↦ elim (Bool-cases saved) [
              | inr lost ↦ inl (Store.save_failed, rw (found, made, good, keeps, lost) refl)
              | inl kept ↦
                  inr (u, v, (found, made, good, keeps), rw (found, made, good, keeps, kept) refl)
            ]
          ]
    ]
  ]
]

pub delete_cases :
    (name : GoString) (saved : Bool) (s : Store)
    → ((e : UserError) × (Store.delete name saved s ≡ (s, err e)))
      ⊎ ((any (has_name name) s.users ≡ true)
          × (loses_admin s.users (without name s.users) ≡ false)
          × (Store.delete name saved s ≡ (committed (without name s.users), ok tt)))
unfolding Store.delete
delete_cases name saved s = elim (Bool-cases (any (has_name name) s.users)) [
  | inr missing ↦ inl (Store.not_found, rw missing refl)
  | inl found ↦ elim (Bool-cases (loses_admin s.users (without name s.users))) [
    | inl loses ↦ inl (Store.last_admin, rw (found, loses) refl)
    | inr keeps ↦ elim (Bool-cases saved) [
      | inr lost ↦ inl (Store.save_failed, rw (found, keeps, lost) refl)
      | inl kept ↦ inr (found, keeps, rw (found, keeps, kept) refl)
    ]
  ]
]

-- A call of `Create`, `Update` or `Delete` with what its environment answers.
pub data Op : Type 0 where
  create : User → GoString → Bool → Op
  update : GoString → (User → Result UserError User) → GoString → Bool → Op
  delete : GoString → Bool → Op

unfoldable pub step : Op → Store → Store
step (create u ts saved) s = (Store.create u ts saved s).0
step (update name fn ts saved) s = (Store.update name fn ts saved s).0
step (delete name saved) s = (Store.delete name saved s).0

unfoldable pub run : List Op → Store → Store
run [] s = s
run (op ∷ ops) s = run ops (step op s)

abbrev is_err {ℓ} : {E A : Type ℓ} → Result E A → Bool
is_err (ok _) = false
is_err (err _) = true

-- whether the call reports an error
unfoldable pub fails : Op → Store → Bool
fails (create u ts saved) s = is_err (Store.create u ts saved s).1
fails (update name fn ts saved) s = is_err (Store.update name fn ts saved s).1
fails (delete name saved) s = is_err (Store.delete name saved s).1

-- What a call that succeeds has checked, and the list that it leaves.
abbrev pub Leaves : Op → Store → List User → Type 0
Leaves (create u ts saved) s next =
    (check_new u ≡ ok tt)
    × (any (has_name u.username) s.users ≡ false)
    × (next ≡ s.users ++ stamp ts u ∷ [])
Leaves (update name fn ts saved) s next =
    (u : User) × (v : User) × Changes name fn ts s u v × (next ≡ set_last name (touch ts v) s.users)
Leaves (delete name saved) s next =
    (any (has_name name) s.users ≡ true)
    × (loses_admin s.users (without name s.users) ≡ false)
    × (next ≡ without name s.users)

-- Every call either fails and leaves the store as it is, or saves a list of users and holds it.
pub step-cases :
    (op : Op) (s : Store)
    → ((fails op s ≡ true) × (step op s ≡ s))
      ⊎ ((fails op s ≡ false)
          × (next : List User) × Leaves op s next
          × (step op s ≡ committed next))
unfolding step fails
step-cases (create u ts saved) s = elim (create_cases u ts saved s) [
  | inl (e, h) ↦ inl (ap (λ r. is_err r.1) h, ap (λ r. r.0) h)
  | inr (good, free, _, h) ↦ inr (ap (λ r. is_err r.1) h, _, (good, free, refl), ap (λ r. r.0) h)
]
step-cases (update name fn ts saved) s = elim (update_cases name fn ts saved s) [
  | inl (e, h) ↦ inl (ap (λ r. is_err r.1) h, ap (λ r. r.0) h)
  | inr (u, v, c, h) ↦ inr (ap (λ r. is_err r.1) h, _, (u, v, c, refl), ap (λ r. r.0) h)
]
step-cases (delete name saved) s = elim (delete_cases name saved s) [
  | inl (e, h) ↦ inl (ap (λ r. is_err r.1) h, ap (λ r. r.0) h)
  | inr (found, keeps, h) ↦ inr (ap (λ r. is_err r.1) h, _, (found, keeps, refl), ap (λ r. r.0) h)
]

-- A property of the list that every successful call keeps holds after any sequence of calls.
pub run_keeps :
    (P : List User → Type 0)
    → ((op : Op) (s : Store) (next : List User) → Leaves op s next → P s.users → P next)
    → (ops : List Op) (s : Store) → P s.users
    → P (run ops s).users
unfolding run
run_keeps P keeps [] s h = h
run_keeps P keeps (op ∷ ops) s h = run_keeps P keeps ops (step op s) (elim (step-cases op s) [
  | inl (_, same) ↦ subst (λ t. P t.users) (sym same) h
  | inr (_, next, leaves, done) ↦ subst (λ t. P t.users) (sym done) (keeps op s next leaves h)
])
