-- ===== src/Api/SignIn/Replay.antt =====
-- internal/api/auth_handlers.go: a sign-in records the step of its code.
use omarchy_vault.Prelude.{
  ℕ, ◌≡◌, ◌≢◌, refl, ap, sym, ◌∙◌, subst, ◌⊎◌, inl, inr, GoString, str_eq, str_eq_iff, str_eq_refl,
  AreDistinct, Bool, true, false, if-true, Option, none, some, List, [], ◌∷◌, In-of_find?, All-In,
  map, any, find?, ok, arith, Bool-cases, Option-cases,
}
use omarchy_vault.Users.Names.{admin, family, guest, is_role}
use omarchy_vault.Users.Folders.{validate_folders}
use omarchy_vault.Users.Folders.Grants.{validate_folders_iff}
use omarchy_vault.Users.Accounts.{User, View, active_admins, is_active_admin}
use omarchy_vault.Users.Store
use omarchy_vault.Users.Store.{
  has_name, find_last, set_last, touch, clear_folders, check_changed, grant_error, loses_admin,
}
use omarchy_vault.Users.Store.Valid.{In-find_last, AreAccounts, IsAccount, contains-names}
use omarchy_vault.Users.Store.Lookups.{get-update}
use omarchy_vault.Auth.Totp.{verify_totp}
use omarchy_vault.Auth.Totp.Replay.{verify_totp-gt-last}
use omarchy_vault.Api.Server.{Server, Request}
use omarchy_vault.Api.SignIn.{LoginRequest, World, used, record_step, login_as, step_of}
use omarchy_vault.Api.SignIn.Sound.{PassesTotp, login_cases, users-welcome}

-- Where no name occurs twice, the last user of a name is the first.
find_last-find? :
    (name : GoString) (us : List User)
    → AreDistinct (map (λ u. u.username) us)
    → find_last name us ≡ find? (has_name name) us
unfolding find_last AreDistinct
find_last-find? name [] d = refl
find_last-find? name (u ∷ us) d = ground (
  arith,
  find_last-find? name us,
  contains-names u.username us,
  str_eq_iff u.username name,
  no_find name us,
)
  where
    no_find :
        (n : GoString) (vs : List User) → any (has_name n) vs ≡ false → find? (has_name n) vs ≡ none
    no_find n [] h = refl
    no_find n (v ∷ vs) h = ground (arith, no_find n vs)

active-touch : (ts : GoString) (u : User) → is_active_admin (touch ts u) ≡ is_active_admin u
active-touch ts u = elim (Bool-cases (str_eq u.role admin)) [
  | inl yes_admin ↦ rw (yes_admin, yes_admin) refl
  | inr other ↦ rw (other, other) refl
]

abbrev is_found : Option User → Bool
is_found none = false
is_found (some _) = true

any-find_last :
    (name : GoString) (us : List User) → any (has_name name) us ≡ is_found (find_last name us)
unfolding find_last
any-find_last name [] = refl
any-find_last name (u ∷ us) = elim (Option-cases (find_last name us)) [
  | inl last ↦ let ih = any-find_last name us in ground arith
  | inr (v, later) ↦ let ih = any-find_last name us in ground arith
]

-- An account whose rights are unchanged leaves the number of admins as it is.
active_admins-set_last :
    (name : GoString) (v : User) (us : List User) (u : User)
    → find_last name us ≡ some u
    → is_active_admin v ≡ is_active_admin u
    → active_admins (set_last name v us) ≡ active_admins us
unfolding find_last set_last active_admins
active_admins-set_last name v [] u h e = cc
active_admins-set_last name v (x ∷ us) u h e = elim (Option-cases (find_last name us)) [
  | inr (w, later) ↦
      let found : find_last name us ≡ some u = ground arith in
      let known : any (has_name name) us ≡ true = any-find_last name us ∙ ap is_found later in
      let ih = active_admins-set_last name v us u found e in rw known (ground arith)
  | inl last ↦
      let unknown : any (has_name name) us ≡ false = any-find_last name us ∙ ap is_found last in
      elim (Bool-cases (has_name name x)) [
        | inr other ↦ absurd (ground arith)
        | inl here ↦
            let same : x ≡ u = ground arith in
            let rights : is_active_admin v ≡ is_active_admin x =
              e ∙ ap is_active_admin (sym same) in
            rw (unknown, here) (ground arith)
      ]
]

role_known : (r : GoString) → (r ≡ admin) ⊎ (r ≡ family) ⊎ (r ≡ guest) → is_role r ≡ true
role_known r h = ground (arith, str_eq_iff r admin, str_eq_iff r family, str_eq_iff r guest)

-- An account in order passes the checks of `Update` again.
check_changed-IsAccount :
    (u : User) (counter : ℕ)
    → IsAccount u
    → check_changed u.username (record u { totp_last = counter }) ≡ ok tt
unfolding check_changed
check_changed-IsAccount u counter (_, _, known, grants, apart, _) =
    let fine : validate_folders u.folders ≡ ok tt =
      (validate_folders_iff u.folders).1 (grants, apart) in
    let role = role_known u.role known in rw (str_eq_refl, role, fine) refl

-- Recording the step of a code succeeds when the accounts can be saved.
update-used :
    (u : User) (counter : ℕ) (ts : GoString) (us : Store.Store)
    → AreAccounts us.users
    → Store.get u.username us ≡ some u
    → (Store.update u.username (used counter) ts true us).1
      ≡ ok (touch ts (record u { totp_last = counter }))
unfolding Store.update
update-used u counter ts us (valid, apart) found =
    let last = find_last-find? u.username us.users apart ∙ found in
    let (i, _) = In-find_last u.username us.users u last in
    let v = record u { totp_last = counter } in
    let passes = check_changed-IsAccount u counter (All-In IsAccount u us.users valid i) in
    let same = active_admins-set_last u.username (touch ts v) us.users u last (active-touch ts v) in
    let keeps : loses_admin us.users (set_last u.username (touch ts v) us.users) ≡ false =
      ground arith in
    rw (last, passes, keeps) refl

totp_last-touch :
    (ts : GoString) (u : User) (counter : ℕ)
    → (touch ts (record u { totp_last = counter })).totp_last ≡ counter
totp_last-touch ts u counter = elim (Bool-cases (str_eq u.role admin)) [
  | inl yes_admin ↦ rw yes_admin refl
  | inr other ↦ rw other refl
]

module _ (hash : GoString → GoString) (verify : GoString → GoString → Bool)
    (hmac_sha1 : GoString → List ℕ → List ℕ) (decode : GoString → Option GoString) where
  -- The step of a code is spent in the account as it is stored: it is the last one recorded, and against
  -- this account no code verifies for it at any time.
  abbrev pub IsSpent : GoString → ℕ → Server → Type 0
  IsSpent name counter s =
      (u : User) × (Store.get name s.users ≡ some u)
      × (u.totp_last ≡ counter)
      × ((code : GoString) (seconds : ℕ)
          → verify_totp hmac_sha1 decode u.totp_secret code seconds u.totp_last ≢ some counter)

  IsSpent-record_step :
      (u : User) (counter : ℕ) (w : World) (s : Server)
      → AreAccounts s.users.users
      → w.saved ≡ true
      → Store.get u.username s.users ≡ some u
      → IsSpent u.username counter (record_step counter u w s)
  IsSpent-record_step u counter w s valid saved found =
      let u' = touch w.stamp (record u { totp_last = counter }) in
      let last = totp_last-touch w.stamp u counter in
      let wrote =
        subst (λ b. (Store.update u.username (used counter) w.stamp b s.users).1 ≡ ok u')
          (sym saved) (update-used u counter w.stamp s.users valid found) in
      let stored =
        get-update u.username u.username (used counter) w.stamp w.saved s.users u' valid.1 wrote
        ∙ if-true _ _ (str_eq_refl u.username) in
      (
        u',
        stored,
        last,
        λ code seconds e.
            let later =
              verify_totp-gt-last hmac_sha1 decode u'.totp_secret code seconds u'.totp_last counter
                e in
            absurd (omega arith),
      )

  -- Where the accounts are in order and the change can be saved, a sign-in to an account with a second
  -- factor spends the step of its code: the account that is stored right after it has that step as the
  -- last one used, and against this account no code verifies for that step at any time.
  pub login_as-IsSpent :
      (name : GoString) (q : LoginRequest) (w : World) (r : Request) (s : Server) (v : View)
      → AreAccounts s.users.users
      → w.saved ≡ true
      → (login_as hash verify hmac_sha1 decode name q w r s).1 ≡ ok v
      → (u : User) × (Store.get name s.users ≡ some u)
        × ((u.totp_enabled ≡ false)
            ⊎ ((counter : ℕ) × (step_of hash verify hmac_sha1 decode q u w ≡ some counter)
                × IsSpent name counter (login_as hash verify hmac_sha1 decode name q w r s).0))
  login_as-IsSpent name q w r s v valid saved h =
      elim (login_cases hash verify hmac_sha1 decode name q w r s) [
        | inl held ↦ let e = ap (λ p. p.1) held in absurd (ground arith)
        | inr (free, inl (inl (f, bad))) ↦ let e = ap (λ p. p.1) bad in absurd (ground arith)
        | inr (free, inl (inr (f, bad))) ↦ let e = ap (λ p. p.1) bad in absurd (ground arith)
        | inr (free, inr (u, (found, _, _, _), (s', passes, good))) ↦ (
          u,
          found,
          spends u s' found passes (ap (λ p. p.0.users) good ∙ users-welcome hash u w r _ _),
        )
      ]
    where
      of_name : (u : User) → Store.get name s.users ≡ some u → u.username ≡ name
      of_name u found =
          let (_, same) = In-of_find? (has_name name) u s.users.users found in
          (str_eq_iff u.username name).0 same

      spends :
          (u : User) (s' : Server)
          → Store.get name s.users ≡ some u
          → PassesTotp hash verify hmac_sha1 decode q u w s s'
          → (login_as hash verify hmac_sha1 decode name q w r s).0.users ≡ s'.users
          → (u.totp_enabled ≡ false)
            ⊎ ((counter : ℕ) × (step_of hash verify hmac_sha1 decode q u w ≡ some counter)
                × IsSpent name counter (login_as hash verify hmac_sha1 decode name q w r s).0)
      spends u s' found (inl (off, _)) after = inl off
      spends u s' found (inr (_, (counter, step, e))) after =
          let same = of_name u found in
          let (u', stored, last, never) =
            IsSpent-record_step u counter w s valid saved
              (subst (λ n. Store.get n s.users ≡ some u) (sym same) found) in
          let users = after ∙ ap (λ (t : Server). t.users) e in
          let kept =
            ap (λ t. Store.get name t) users
            ∙ ap (λ n. Store.get n (record_step counter u w s).users) (sym same)
            ∙ stored in
          inr (counter, step, (u', kept, last, never))
