-- ===== src/Api/Accounts/Requests.antt =====
-- internal/api: sequences of requests, and what stays true of the accounts.
use omarchy_vault.Prelude.{
  ℕ, ◌<◌, ◌≡◌, refl, sym, ◌∙◌, subst, ◌⊎◌, inl, inr, GoString, str_eq, Bool, true, false, ltb,
  Option, List, [], ◌∷◌, In, length, any, Result, ok, err, arith, Bool-cases,
}
use omarchy_vault.Users.Names.{validate_username, admin}
use omarchy_vault.Users.Accounts.{User, active_admins, is_active_admin}
use omarchy_vault.Users.Store
use omarchy_vault.Users.Store.{stamp, has_name}
use omarchy_vault.Users.Store.Calls.{Op, create, update, delete, Leaves, step, run, step-cases}
use omarchy_vault.Users.Store.Admins.{active_admins-append, HasAdmin, run-HasAdmin}
use omarchy_vault.Users.Store.Valid.{In-find_last, AreAccounts, run-AreAccounts}
use omarchy_vault.Users.Store.Lookups.{IsSaved, run-IsSaved}
use omarchy_vault.Auth.Local.{Identity}
use omarchy_vault.Api.Server.{Server, Request, Refusal, Reply}
use omarchy_vault.Api.Gate.{accounts_exist}
use omarchy_vault.Api.SignIn.{LoginRequest, World, login_as}
use omarchy_vault.Api.Accounts.{
  NewUser, Changes, handle_update_user, handle_delete_user, account_user, with_account, setup_totp,
  confirm_totp, remove_totp, handle_reset_password, change_password, create_user,
}
use omarchy_vault.Api.Accounts.Managed.{
  Founds, Moves, update_user-Moves, delete_user-Moves, setup_totp-Moves, confirm_totp-Moves,
  remove_totp-Moves, reset_password-Moves, change_password-Moves, create_named-Moves,
  login_as-Moves,
}

-- The requests that may change an account, with what they carry and what the environment answers.
pub data Call : Type 0 where
  sign_in : GoString → LoginRequest → World → Request → Call
  add : NewUser → GoString → List GoString → World → Request → Call
  edit : GoString → Changes → World → Call
  remove : GoString → World → Call
  reset : GoString → GoString → World → Call
  change : Identity → GoString → GoString → World → Request → Call
  setup : Identity → Option GoString → World → Call
  confirm unlink : Identity → GoString → World → Call

-- No account yet, or one that can administer Vault.
abbrev pub IsAdministered : Server → Type 0
IsAdministered s = (accounts_exist s ≡ false) ⊎ HasAdmin s.users

empty_has_none : (us : List User) (u : User) → ltb 0 (length us) ≡ false → In u us → ⊥
empty_has_none [] u h m = elim m [ ]
empty_has_none (v ∷ us) u h m = ground arith

empty_knows_none :
    (name : GoString) (us : List User) → ltb 0 (length us) ≡ false → any (has_name name) us ≡ false
empty_knows_none name [] h = refl
empty_knows_none name (v ∷ us) h = absurd (ground arith)

stamped :
    (ts : GoString) (u : User) → is_active_admin u ≡ true → active_admins (stamp ts u ∷ []) ≡ 1
unfolding active_admins
stamped ts u h = elim (Bool-cases (str_eq u.role admin)) [
  | inl is_admin ↦ let on : u.disabled ≡ false = ground arith in rw (is_admin, is_admin, on) refl
  | inr other ↦ absurd (ground arith)
]

-- On a store without accounts, a call that succeeds is the creation of the first admin.
first_call :
    (op : Op) (us : Store.Store) (next : List User)
    → ltb 0 (length us.users) ≡ false
    → Founds op
    → Leaves op us next
    → 0 < active_admins next
first_call (create u ts saved) us next empty founds (_, _, e) =
    rw (e, active_admins-append us.users (stamp ts u ∷ []), stamped ts u founds) (omega arith)
first_call (update name fn ts saved) us next empty founds (u, v, (found, _, _, _), e) =
    let (i, _) = In-find_last name us.users u found in absurd (empty_has_none us.users u empty i)
first_call (delete name saved) us next empty founds (known, _, e) =
    let unknown = empty_knows_none name us.users empty in absurd (ground arith)

Moves-IsAdministered :
    (s : Server) (us : Store.Store)
    → Moves s us
    → IsAdministered s
    → (ltb 0 (Store.count us) ≡ false) ⊎ HasAdmin us
unfolding step run
Moves-IsAdministered s us (inl e) h =
    subst (λ t. (ltb 0 (Store.count t) ≡ false) ⊎ HasAdmin t) (sym e) h
Moves-IsAdministered s us (inr (op, founds, e)) (inr has) =
    inr (subst HasAdmin (sym e) (run-HasAdmin (op ∷ []) s.users has))
Moves-IsAdministered s us (inr (op, founds, e)) (inl empty) = elim (step-cases op s.users) [
  | inl (_, same) ↦ inl (subst (λ t. ltb 0 (Store.count t) ≡ false) (sym (e ∙ same)) empty)
  | inr (_, next, leaves, done) ↦
      inr (subst HasAdmin (sym (e ∙ done)) (first_call op s.users next empty (founds empty) leaves))
]

-- The accounts are in order: each is valid and its name is its own, the file holds them, and an active
-- admin is among them if there are any.
abbrev pub IsManaged : Server → Type 0
IsManaged s = IsAdministered s × AreAccounts s.users.users × IsSaved s.users

Moves-IsManaged : (s s' : Server) → Moves s s'.users → IsManaged s → IsManaged s'
unfolding step run
Moves-IsManaged s s' m (has, valid, saved) =
    (Moves-IsAdministered s s'.users m has, of_list m, of_store m)
  where
    of_list : Moves s s'.users → AreAccounts s'.users.users
    of_list (inl e) = subst (λ t. AreAccounts t.users) (sym e) valid
    of_list (inr (op, _, e)) =
        subst (λ t. AreAccounts t.users) (sym e) (run-AreAccounts (op ∷ []) s.users valid)

    of_store : Moves s s'.users → IsSaved s'.users
    of_store (inl e) = subst IsSaved (sym e) saved
    of_store (inr (op, _, e)) = subst IsSaved (sym e) (run-IsSaved (op ∷ []) s.users saved)

module _ (hash : GoString → GoString) (verify : GoString → GoString → Bool)
    (hmac_sha1 : GoString → List ℕ → List ℕ) (decode : GoString → Option GoString)
    (check : GoString → Bool) (stretch : GoString → Option GoString) where
  unfoldable pub serve : Call → Server → Server
  serve (sign_in name q w r) s = (login_as hash verify hmac_sha1 decode name q w r s).0
  serve (add q name available w r) s = (create_user check stretch hash q name available w r s).0
  serve (edit name c w) s = (handle_update_user name c w s).0
  serve (remove name w) s = (handle_delete_user name w s).0
  serve (reset name password w) s = (handle_reset_password check stretch name password w s).0
  serve (change id current next w r) s =
      (with_account (account_user id s)
        (λ u. change_password check stretch hash verify u current next w r) s).0
  serve (setup id secret w) s = (with_account (account_user id s) (λ u. setup_totp u secret w) s).0
  serve (confirm id code w) s =
      (with_account (account_user id s) (λ u. confirm_totp hmac_sha1 decode u code w) s).0
  serve (unlink id password w) s =
      (with_account (account_user id s) (λ u. remove_totp verify u password w) s).0

  unfoldable pub serve_all : List Call → Server → Server
  serve_all [] s = s
  serve_all (c ∷ cs) s = serve_all cs (serve c s)

  account-Moves :
      {A : Type 0} (o : Result Refusal User) (next : User → Server → Reply A) (s : Server)
      → ((u : User) → Moves s (next u s).0.users)
      → Moves s (with_account o next s).0.users
  account-Moves (err e) next s h = inl refl
  account-Moves (ok u) next s h = h u

  serve-Moves : (c : Call) (s : Server) → Moves s (serve c s).users
  unfolding serve create_user
  serve-Moves (sign_in name q w r) s = login_as-Moves hash verify hmac_sha1 decode name q w r s
  serve-Moves (add q name available w r) s =
      create_named-Moves check stretch (validate_username name) hash q name available w r s
  serve-Moves (edit name c w) s = update_user-Moves name c w s
  serve-Moves (remove name w) s = delete_user-Moves name w s
  serve-Moves (reset name password w) s = reset_password-Moves check stretch name password w s
  serve-Moves (change id current next w r) s =
      account-Moves (account_user id s) _ s
        (λ u. change_password-Moves check stretch hash verify u current next w r s)
  serve-Moves (setup id secret w) s =
      account-Moves (account_user id s) _ s (λ u. setup_totp-Moves u secret w s)
  serve-Moves (confirm id code w) s =
      account-Moves (account_user id s) _ s (λ u. confirm_totp-Moves hmac_sha1 decode u code w s)
  serve-Moves (unlink id password w) s =
      account-Moves (account_user id s) _ s (λ u. remove_totp-Moves verify u password w s)

  -- From accounts that are in order, or none, every sequence of requests ends with accounts that are in
  -- order: each valid and under its own name, the file as the memory, and an active admin among them if
  -- there are any, whichever requests fail and whatever cannot be saved.
  pub serve_all-IsManaged : (cs : List Call) (s : Server) → IsManaged s → IsManaged (serve_all cs s)
  unfolding serve_all
  serve_all-IsManaged [] s h = h
  serve_all-IsManaged (c ∷ cs) s h =
      serve_all-IsManaged cs (serve c s) (Moves-IsManaged s (serve c s) (serve-Moves c s) h)
