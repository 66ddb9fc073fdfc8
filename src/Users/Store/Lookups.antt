-- ===== src/Users/Store/Lookups.antt =====
-- internal/users/users.go: what `Get` and `List` return after the calls that write.
use omarchy_vault.Prelude.{
  suc, ◌≡◌, refl, sym, ap, subst, ◌∙◌, ◌⊎◌, inl, inr, ◌↔◌, GoString, str_eq, str_eq_iff, str_lt,
  AreDistinct, Bool, true, false, if◌then◌else◌, none, some, List, [], ◌∷◌, ◌++◌, map, length, any,
  find?, Result, ok, arith, In, Bool-cases,
}
use omarchy_vault.Users.Accounts.{User}
use omarchy_vault.Users.Names.{admin}
use omarchy_vault.Users.Store
use omarchy_vault.Users.Store.{
  Store, UserError, has_name, without, find_last, set_last, touch, stamp, get, open_store,
  insert_user, sort_users, list, count,
}
use omarchy_vault.Users.Store.Calls.{
  Op, fails, step, run, step-cases, create_cases, update_cases, delete_cases, committed,
}
use omarchy_vault.Users.Store.Valid.{contains-names, In-find_last, changed_checks}

-- A call that reports an error leaves the list in memory and the file as they are.
pub step-fails : (op : Op) (s : Store) → fails op s ≡ true → step op s ≡ s
step-fails op s h = elim (step-cases op s) [
  | inl (_, same) ↦ same
  | inr (done, _, _, _) ↦ absurd (ground arith)
]

-- Opening the file gives the list in memory.
abbrev pub IsSaved : Store → Type 0
IsSaved s = open_store s.file ≡ some s

IsSaved-committed : (next : List User) → IsSaved (committed next)
unfolding open_store
IsSaved-committed next = refl

-- If opening the file gives the list in memory, it does so after any sequence of calls, failed or not.
pub run-IsSaved : (ops : List Op) (s : Store) → IsSaved s → IsSaved (run ops s)
unfolding run
run-IsSaved [] s h = h
run-IsSaved (op ∷ ops) s h = run-IsSaved ops (step op s) (elim (step-cases op s) [
  | inl (_, same) ↦ subst IsSaved (sym same) h
  | inr (_, next, _, done) ↦ subst IsSaved (sym done) (IsSaved-committed next)
])

find?-append :
    (p : User → Bool) (us : List User) (u : User)
    → any p us ≡ false
    → find? p (us ++ u ∷ []) ≡ (if p u then some u else none)
find?-append p [] u h = refl
find?-append p (v ∷ us) u h = ground (arith, find?-append p us u)

find?-append_other :
    (p : User → Bool) (us : List User) (u : User)
    → p u ≡ false
    → find? p (us ++ u ∷ []) ≡ find? p us
find?-append_other p [] u h = rw h refl
find?-append_other p (v ∷ us) u h = ground (arith, find?-append_other p us u h)

stamp_name : (ts : GoString) (u : User) → (stamp ts u).username ≡ u.username
stamp_name ts u = elim (Bool-cases (str_eq u.role admin)) [
  | inl is_admin ↦ rw is_admin refl
  | inr other ↦ rw other refl
]

touch_name : (ts : GoString) (u : User) → (touch ts u).username ≡ u.username
touch_name ts u = elim (Bool-cases (str_eq u.role admin)) [
  | inl is_admin ↦ rw is_admin refl
  | inr other ↦ rw other refl
]

-- After a successful `Create`, `Get` finds the new account under its name, stamped with the time and,
-- for an admin, without folders, and every other account as before.
pub get-create :
    (u : User) (ts name : GoString) (saved : Bool) (s : Store)
    → (Store.create u ts saved s).1 ≡ ok tt
    → get name (Store.create u ts saved s).0
      ≡ (if str_eq u.username name then some (stamp ts u) else get name s)
get-create u ts name saved s h = elim (create_cases u ts saved s) [
  | inl (e, bad) ↦ let failed = ap (λ r. r.1) bad in absurd (ground arith)
  | inr (_, free, _, done) ↦ rw done (elim (Bool-cases (str_eq u.username name)) [
    | inl same ↦
        let e = (str_eq_iff u.username name).0 same in
        let here : has_name name (stamp ts u) ≡ true = rw (stamp_name ts u) same in
        let new : any (has_name name) s.users ≡ false = rw (← e) free in
        rw same (find?-append (has_name name) s.users (stamp ts u) new ∙ rw here refl)
    | inr other ↦
        let elsewhere : has_name name (stamp ts u) ≡ false = rw (stamp_name ts u) other in
        rw other (find?-append_other (has_name name) s.users (stamp ts u) elsewhere)
  ])
]

find?-without :
    (name other : GoString) (us : List User)
    → find? (has_name other) (without name us)
      ≡ (if str_eq name other then none else find? (has_name other) us)
unfolding without
find?-without name other [] = ground arith
find?-without name other (u ∷ us) = ground (
  arith,
  find?-without name other us,
  str_eq_iff u.username name,
  str_eq_iff u.username other,
  str_eq_iff name other,
)

-- After a successful `Delete`, `Get` finds no account of the name, and every other account as before.
pub get-delete :
    (name other : GoString) (saved : Bool) (s : Store)
    → (Store.delete name saved s).1 ≡ ok tt
    → get other (Store.delete name saved s).0 ≡ (if str_eq name other then none else get other s)
get-delete name other saved s h = elim (delete_cases name saved s) [
  | inl (e, bad) ↦ let failed = ap (λ r. r.1) bad in absurd (ground arith)
  | inr (_, _, done) ↦ rw done (find?-without name other s.users)
]

find?-set_last :
    (name other : GoString) (v : User) (us : List User)
    → v.username ≡ name
    → AreDistinct (map (λ u. u.username) us)
    → any (has_name name) us ≡ true
    → find? (has_name other) (set_last name v us)
      ≡ (if str_eq name other then some v else find? (has_name other) us)
unfolding set_last AreDistinct
find?-set_last name other v [] e d h = cc
find?-set_last name other v (u ∷ us) e d h = ground (
  arith,
  find?-set_last name other v us e,
  contains-names u.username us,
  str_eq_iff u.username name,
  str_eq_iff u.username other,
  str_eq_iff v.username other,
  str_eq_iff name other,
)

find_last-any :
    (name : GoString) (us : List User) (u : User)
    → In u us
    → u.username ≡ name
    → any (has_name name) us ≡ true
find_last-any name [] u m e = elim m [ ]
find_last-any name (v ∷ us) u (inl i) e =
    let here : str_eq v.username name ≡ true =
      (str_eq_iff v.username name).1 (ap (λ x. x.username) (sym i) ∙ e) in
    rw here refl
find_last-any name (v ∷ us) u (inr m) e = ground (arith, find_last-any name us u m e)

-- Where no name occurs twice, `Get` finds after a successful `Update` the returned account under its
-- name, and every other account as before.
pub get-update :
    (name other : GoString) (fn : User → Result UserError User) (ts : GoString) (saved : Bool)
    (s : Store) (v : User)
    → AreDistinct (map (λ u. u.username) s.users)
    → (Store.update name fn ts saved s).1 ≡ ok v
    → get other (Store.update name fn ts saved s).0
      ≡ (if str_eq name other then some v else get other s)
get-update name other fn ts saved s v d h = elim (update_cases name fn ts saved s) [
  | inl (e, bad) ↦ let failed = ap (λ r. r.1) bad in absurd (ground arith)
  | inr (u, w, (found, _, good, _), done) ↦
      let made = ap (λ r. r.1) done in
      let e : touch ts w ≡ v = ground arith in
      let (same, _, _) = changed_checks name w good in
      let (i, named) = In-find_last name s.users u found in
      let kept : (touch ts w).username ≡ name = touch_name ts w ∙ same in
      rw (done, ← e)
        (find?-set_last name other (touch ts w) s.users kept d
          (find_last-any name s.users u i named))
]

str_lt_asym : (s t : GoString) → str_lt s t ≡ true → str_lt t s ≡ false
unfolding str_lt
str_lt_asym s [] h = cc
str_lt_asym [] (c ∷ t) h = refl
str_lt_asym (a ∷ s) (b ∷ t) h = ground (arith, str_lt_asym s t)

-- In the order of the names: no name is less than the one before it.
unfoldable pub IsSorted : List User → Type 0
IsSorted [] = Unit
IsSorted (u ∷ []) = Unit
IsSorted (u ∷ (v ∷ us)) = (str_lt v.username u.username ≡ false) × IsSorted (v ∷ us)

insert_user-IsSorted : (u : User) (us : List User) → IsSorted us → IsSorted (insert_user u us)
unfolding insert_user IsSorted
insert_user-IsSorted u [] h = tt
insert_user-IsSorted u (v ∷ []) h = ground (arith, str_lt_asym v.username u.username)
insert_user-IsSorted u (v ∷ (w ∷ us)) h =
    ground (arith, insert_user-IsSorted u (w ∷ us), str_lt_asym v.username u.username)

sort_users-IsSorted : (us : List User) → IsSorted (sort_users us)
unfolding sort_users IsSorted
sort_users-IsSorted [] = tt
sort_users-IsSorted (u ∷ us) = insert_user-IsSorted u (sort_users us) (sort_users-IsSorted us)

In-insert_user : (a u : User) (us : List User) → In a (insert_user u us) ↔ ((a ≡ u) ⊎ In a us)
unfolding insert_user
In-insert_user a u [] = ground arith
In-insert_user a u (v ∷ us) = grind (arith, In-insert_user a u us)

In-sort_users : (a : User) (us : List User) → In a (sort_users us) ↔ In a us
unfolding sort_users
In-sort_users a [] = ground arith
In-sort_users a (u ∷ us) = grind (arith, In-insert_user a u (sort_users us), In-sort_users a us)

length-insert_user : (u : User) (us : List User) → length (insert_user u us) ≡ suc (length us)
unfolding insert_user
length-insert_user u [] = refl
length-insert_user u (v ∷ us) = ground (arith, length-insert_user u us)

length-sort_users : (us : List User) → length (sort_users us) ≡ length us
unfolding sort_users
length-sort_users [] = refl
length-sort_users (u ∷ us) = length-insert_user u (sort_users us) ∙ ap suc (length-sort_users us)

-- `List` holds exactly the stored accounts, as many as `Count` says, in the order of their names.
pub list_lem :
    (s : Store)
    → ((u : User) → In u (list s) ↔ In u s.users) × (length (list s) ≡ count s) × IsSorted (list s)
list_lem s = (λ u. In-sort_users u s.users, length-sort_users s.users, sort_users-IsSorted s.users)
