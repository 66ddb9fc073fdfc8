-- ===== src/Users/Store/Valid.antt =====
-- internal/users/users.go: what `Create` and `Update` check stays true of every stored account.
use omarchy_vault.Prelude.{
  ◌≡◌, refl, sym, ap, subst, ◌∙◌, ◌⊎◌, inl, inr, GoString, str_eq, str_eq_iff, contains,
  AreDistinct, true, false, some, List, [], ◌∷◌, ◌++◌, map, any, Result, ok, err, >>-ok_iff, arith,
  All, All-append, All-In, In, Bool-cases, Option-cases,
}
use omarchy_vault.Users.Folders.{GrantError, validate_folders}
use omarchy_vault.Users.Folders.Grants.{IsGrant, validate_folders_iff}
use omarchy_vault.Users.Names.{
  admin, family, guest, is_role, reserved, NameError, validate_username, IsUsername,
  validate_username_iff,
}
use omarchy_vault.Users.Accounts.{User}
use omarchy_vault.Users.Store.{
  Store, has_name, name_error, grant_error, check_new, check_changed, without, find_last, set_last,
  touch, stamp, clear_folders,
}
use omarchy_vault.Users.Store.Calls.{Op, create, update, delete, Leaves, run, run_keeps}

-- An account with an allowed name, a known role and grants that are allowed; an admin has none.
abbrev pub IsAccount : User → Type 0
IsAccount u =
    IsUsername u.username
    × (contains reserved u.username ≡ false)
    × ((u.role ≡ admin) ⊎ (u.role ≡ family) ⊎ (u.role ≡ guest))
    × All IsGrant u.folders
    × AreDistinct (map (λ f. f.name) u.folders)
    × (u.role ≡ admin → u.folders ≡ [])

-- Every account is one, and no name occurs twice.
abbrev pub AreAccounts : List User → Type 0
AreAccounts us = All IsAccount us × AreDistinct (map (λ u. u.username) us)

name_ok : (r : Result NameError Unit) → name_error r ≡ ok tt → r ≡ ok tt
name_ok (ok tt) h = refl
name_ok (err e) h = cc

grants_ok : (r : Result GrantError Unit) → grant_error r ≡ ok tt → r ≡ ok tt
grants_ok (ok tt) h = refl
grants_ok (err e) h = cc

known_role : (r : GoString) → is_role r ≡ true → (r ≡ admin) ⊎ (r ≡ family) ⊎ (r ≡ guest)
known_role r h = ground (arith, str_eq_iff r admin, str_eq_iff r family, str_eq_iff r guest)

no_grants : AreDistinct []
unfolding AreDistinct
no_grants = tt

-- A user that passed the checks is an account once an admin's folders are cleared.
cleared-IsAccount :
    (u : User) (name : GoString)
    → u.username ≡ name
    → IsUsername name
    → contains reserved name ≡ false
    → is_role u.role ≡ true
    → validate_folders u.folders ≡ ok tt
    → IsAccount (clear_folders u) × ((clear_folders u).username ≡ name)
cleared-IsAccount u name same named free role grants =
    let known = known_role u.role role in
    let (fine, apart) = (validate_folders_iff u.folders).0 grants in
    let shape = subst IsUsername (sym same) named in
    let open_name : contains reserved u.username ≡ false = rw same free in
    elim (Bool-cases (str_eq u.role admin)) [
      | inl is_admin ↦
          let fits : IsAccount (record u { folders = [] }) =
            (shape, open_name, known, tt, no_grants, λ _. refl) in
          rw is_admin (fits, same)
      | inr other ↦
          let fits : IsAccount u = (
            shape,
            open_name,
            known,
            fine,
            apart,
            λ e. absurd (ground (arith, str_eq_iff u.role admin)),
          ) in
          rw other (fits, same)
    ]

pub contains-names :
    (name : GoString) (us : List User)
    → contains (map (λ v. v.username) us) name ≡ any (has_name name) us
unfolding contains
contains-names name [] = refl
contains-names name (u ∷ us) = ground (arith, contains-names name us)

any-append :
    (name : GoString) (us : List User) (u : User)
    → any (has_name name) (us ++ u ∷ []) ≡ any (has_name name) (u ∷ us)
any-append name [] u = refl
any-append name (v ∷ us) u = ground (arith, any-append name us u)

AreDistinct-append :
    (us : List User) (u : User)
    → any (has_name u.username) us ≡ false
    → AreDistinct (map (λ v. v.username) us)
    → AreDistinct (map (λ v. v.username) (us ++ u ∷ []))
unfolding AreDistinct contains
AreDistinct-append [] u h d = (refl, tt)
AreDistinct-append (v ∷ us) u h d = ground (
  arith,
  AreDistinct-append us u,
  contains-names v.username us,
  contains-names v.username (us ++ u ∷ []),
  any-append v.username us u,
  str_eq_iff v.username u.username,
  str_eq_iff u.username v.username,
)

any-without :
    (name other : GoString) (us : List User)
    → any (has_name other) us ≡ false
    → any (has_name other) (without name us) ≡ false
unfolding without
any-without name other [] h = refl
any-without name other (u ∷ us) h = ground (arith, any-without name other us)

AreAccounts-without :
    (name : GoString) (us : List User) → AreAccounts us → AreAccounts (without name us)
unfolding without AreDistinct
AreAccounts-without name [] h = h
AreAccounts-without name (u ∷ us) h =
    let (first, rest) = h.0 in
    let (new, apart) = h.1 in
    let (all, d) = AreAccounts-without name us (rest, apart) in
    elim (Bool-cases (has_name name u)) [
      | inl gone ↦ rw gone (all, d)
      | inr kept ↦
          let still : contains (map (λ v. v.username) (without name us)) u.username ≡ false =
            contains-names u.username (without name us)
            ∙ any-without name u.username us (sym (contains-names u.username us) ∙ new) in
          rw kept ((first, all), (still, d))
    ]

-- Setting the user of the index keeps the names and the accounts.
username-set_last :
    (name : GoString) (v : User) (us : List User)
    → v.username ≡ name
    → map (λ u. u.username) (set_last name v us) ≡ map (λ u. u.username) us
unfolding set_last
username-set_last name v [] e = refl
username-set_last name v (u ∷ us) e =
    ground (arith, username-set_last name v us e, str_eq_iff u.username name)

IsAccount-set_last :
    (name : GoString) (v : User) (us : List User)
    → IsAccount v
    → All IsAccount us
    → All IsAccount (set_last name v us)
unfolding set_last
IsAccount-set_last name v [] q h = tt
IsAccount-set_last name v (u ∷ us) q (p, h) = elim (Bool-cases (any (has_name name) us)) [
  | inl later ↦ rw later (p, IsAccount-set_last name v us q h)
  | inr none_later ↦ elim (Bool-cases (has_name name u)) [
    | inl here ↦ rw (none_later, here) (q, h)
    | inr other ↦ rw (none_later, other) (p, IsAccount-set_last name v us q h)
  ]
]

-- what the checks of `Create` and `Update` say
new_checks :
    (u : User)
    → check_new u ≡ ok tt
    → (validate_username u.username ≡ ok tt)
      × (is_role u.role ≡ true)
      × (validate_folders u.folders ≡ ok tt)
unfolding check_new
new_checks u h = ground (
  arith,
  >>-ok_iff _ _,
  name_ok (validate_username u.username),
  grants_ok (validate_folders u.folders),
)

pub changed_checks :
    (name : GoString) (u : User)
    → check_changed name u ≡ ok tt
    → (u.username ≡ name) × (is_role u.role ≡ true) × (validate_folders u.folders ≡ ok tt)
unfolding check_changed
changed_checks name u h =
    ground
      (arith, >>-ok_iff _ _, str_eq_iff u.username name, grants_ok (validate_folders u.folders))

pub In-find_last :
    (name : GoString) (us : List User) (u : User)
    → find_last name us ≡ some u
    → In u us × (u.username ≡ name)
unfolding find_last
In-find_last name [] u h = cc
In-find_last name (v ∷ us) u h = elim (Option-cases (find_last name us)) [
  | inr (w, later) ↦
      let e : w ≡ u = ground arith in
      let (i, same) = In-find_last name us u (later ∙ ap some e) in (inr i, same)
  | inl last ↦ elim (Bool-cases (has_name name v)) [
    | inl here ↦
        let e : v ≡ u = ground arith in
        (inl (sym e), ap (λ x. x.username) (sym e) ∙ (str_eq_iff v.username name).0 here)
    | inr other ↦ absurd (ground arith)
  ]
]

next-AreAccounts :
    (op : Op) (s : Store) (next : List User)
    → Leaves op s next
    → AreAccounts s.users
    → AreAccounts next
next-AreAccounts (create u ts saved) s next (good, free, e) (h, d) =
    let (name, role, grants) = new_checks u good in
    let (shape, open_name) = (validate_username_iff u.username).0 name in
    let (fits, same) =
      cleared-IsAccount (record u { created_at = ts; updated_at = ts }) u.username refl shape
        open_name role grants in
    let new : any (has_name (stamp ts u).username) s.users ≡ false = rw same free in
    subst AreAccounts (sym e)
      (All-append IsAccount s.users _ h (fits, tt), AreDistinct-append s.users _ new d)
next-AreAccounts (update name fn ts saved) s next (u, v, (found, _, good, _), e) (h, d) =
    let (same, role, grants) = changed_checks name v good in
    let (i, named) = In-find_last name s.users u found in
    let (shape, open_name, _, _, _, _) = All-In IsAccount u s.users h i in
    let (fits, kept) =
      cleared-IsAccount v name same (subst IsUsername named shape)
        (subst (λ n. contains reserved n ≡ false) named open_name) role grants in
    subst AreAccounts (sym e) (
      IsAccount-set_last name (touch ts v) s.users fits h,
      subst AreDistinct (sym (username-set_last name (touch ts v) s.users kept)) d,
    )
next-AreAccounts (delete name saved) s next (_, _, e) h =
    subst AreAccounts (sym e) (AreAccounts-without name s.users h)

-- If every stored account has an allowed name that is its own, a known role, allowed grants and, for
-- an admin, none, the same holds after any sequence of `Create`, `Update` and `Delete` calls.
pub run-AreAccounts :
    (ops : List Op) (s : Store) → AreAccounts s.users → AreAccounts (run ops s).users
run-AreAccounts = run_keeps AreAccounts next-AreAccounts
