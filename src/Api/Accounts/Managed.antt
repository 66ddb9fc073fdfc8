-- ===== src/Api/Accounts/Managed.antt =====
-- internal/api: over any sequence of requests the accounts stay in order.
use omarchy_vault.Prelude.{
  ℕ, ◌/◌, ◌++◌, ◌≡◌, refl, ap, sym, ◌∙◌, subst, ◌⊎◌, inl, inr, GoString, codes, str_eq_refl,
  is_empty, Bool, true, false, not, if-true, if-false, Option, none, some, List, [], ◌∷◌, Result,
  ok, err, Bool-cases,
}
use omarchy_vault.Users.Folders.{Folder}
use omarchy_vault.Users.Names.{NameError}
use omarchy_vault.Users.Accounts.{User, View, view, is_active_admin, default_folders}
use omarchy_vault.Users.Store
use omarchy_vault.Users.Store.{UserError, stamp}
use omarchy_vault.Users.Store.Calls.{Op, create, update, delete, step}
use omarchy_vault.Auth.Limiter.{blocked}
use omarchy_vault.Auth.Totp.{verify_totp}
use omarchy_vault.Auth.Local
use omarchy_vault.Auth.Local.{Identity}
use omarchy_vault.Api.Server.{Server, Request, Reply}
use omarchy_vault.Api.Gate.{accounts_exist}
use omarchy_vault.Api.SignIn.{LoginRequest, World, used, sign_in, login_as}
use omarchy_vault.Api.SignIn.Sound.{
  login_cases, users-sign_in, users-welcome, state-reply_after, PassesTotp,
}
use omarchy_vault.Api.Accounts.{
  NewUser, Changes, after_update, handle_update_user, after_delete, handle_delete_user,
  apply_changes, ends_sessions, set_hash, after_reset, store_hash, new_account, set_secret,
  enable_totp, disable_totp, after_totp_change, setup_totp, confirmed, confirm_totp, remove_totp,
  handle_reset_password, after_change, change_password, greet, after_create, create_hashed, role_of,
  create_named, or_default,
}

-- A first account that such a call creates is an active admin's.
abbrev pub Founds : Op → Type 0
Founds (create u ts saved) = is_active_admin u ≡ true
Founds _ = Unit

-- What a request does to the accounts: nothing, or one call of their store.
abbrev pub Moves : Server → Store.Store → Type 0
Moves s us =
    (us ≡ s.users) ⊎ ((op : Op) × (accounts_exist s ≡ false → Founds op) × (us ≡ step op s.users))

users-after_update :
    (c : Changes) (name : GoString) (p : Store.Store × Result UserError User) (s : Server)
    → (after_update c name p s).0.users ≡ p.0
users-after_update c name (us, err e) s = refl
users-after_update c name (us, ok u) s = elim (Bool-cases (ends_sessions c)) [
  | inl ends ↦ ap (λ (t : Server). t.users) (if-true _ _ ends)
  | inr stays ↦ ap (λ (t : Server). t.users) (if-false _ _ stays)
]

users-after_delete :
    (name : GoString) (p : Store.Store × Result UserError (Unit {0})) (s : Server)
    → (after_delete name p s).0.users ≡ p.0
users-after_delete name (us, err e) s = refl
users-after_delete name (us, ok _) s = refl

users-after_reset :
    (name : GoString) (p : Store.Store × Result UserError User) (s : Server)
    → (after_reset name p s).0.users ≡ p.0
users-after_reset name (us, err e) s = refl
users-after_reset name (us, ok u) s = refl

users-after_totp_change :
    (p : Store.Store × Result UserError User) (s : Server) → (after_totp_change p s).0.users ≡ p.0
users-after_totp_change (us, err e) s = refl
users-after_totp_change (us, ok u) s = refl

-- every `Update` is such a call
by_update :
    (name : GoString) (fn : User → Result UserError User) (w : World) (s : Server)
    (us : Store.Store)
    → us ≡ (Store.update name fn w.stamp w.saved s.users).0
    → Moves s us
unfolding step
by_update name fn w s us e = inr (update name fn w.stamp w.saved, (λ _. tt), e)

pub update_user-Moves :
    (name : GoString) (c : Changes) (w : World) (s : Server)
    → Moves s (handle_update_user name c w s).0.users
unfolding handle_update_user
update_user-Moves name c w s =
    by_update name (apply_changes c) w s _ (users-after_update c name _ s)

pub delete_user-Moves :
    (name : GoString) (w : World) (s : Server) → Moves s (handle_delete_user name w s).0.users
unfolding handle_delete_user step
delete_user-Moves name w s = inr (delete name w.saved, (λ _. tt), users-after_delete name _ s)

store_hash-Moves :
    (name : GoString) (h : Option GoString) (w : World) (s : Server)
    → Moves s (store_hash name h w s).0.users
store_hash-Moves name none w s = inl refl
store_hash-Moves name (some h) w s = by_update name (set_hash h) w s _ (users-after_reset name _ s)

pub setup_totp-Moves :
    (u : User) (secret : Option GoString) (w : World) (s : Server)
    → Moves s (setup_totp u secret w s).0.users
unfolding setup_totp
setup_totp-Moves u secret w s = elim (Bool-cases u.totp_enabled) [
  | inl on ↦ inl (ap (λ (p : Reply View). p.0.users) (if-true _ _ on))
  | inr off ↦ elim secret as (λ k. Moves s (setup_totp u k w s).0.users) [
    | none ↦ inl (ap (λ (p : Reply View). p.0.users) (if-false _ _ off))
    | some k ↦
        by_update u.username (set_secret k) w s _
          (ap (λ (p : Reply View). p.0.users) (if-false _ _ off) ∙ users-after_totp_change _ s)
  ]
]

pub confirm_totp-Moves :
    (hmac_sha1 : GoString → List ℕ → List ℕ) (decode : GoString → Option GoString) (u : User)
    (code : GoString) (w : World) (s : Server)
    → Moves s (confirm_totp hmac_sha1 decode u code w s).0.users
unfolding confirm_totp
confirm_totp-Moves hmac_sha1 decode u code w s = elim (Bool-cases (is_empty u.totp_secret)) [
  | inl blank ↦ inl (ap (λ (p : Reply View). p.0.users) (if-true _ _ blank))
  | inr started ↦
      subst (Moves s) (sym (ap (λ (p : Reply View). p.0.users) (if-false _ _ started)))
        (chosen (verify_totp hmac_sha1 decode u.totp_secret code (w.totp_at / Local.second) 0))
]
  where
    chosen : (o : Option ℕ) → Moves s (confirmed u w s o).0.users
    chosen none = inl refl
    chosen (some counter) =
        by_update u.username (enable_totp counter) w s _ (users-after_totp_change _ s)

pub remove_totp-Moves :
    (verify : GoString → GoString → Bool) (u : User) (password : GoString) (w : World) (s : Server)
    → Moves s (remove_totp verify u password w s).0.users
unfolding remove_totp
remove_totp-Moves verify u password w s = elim (Bool-cases (verify password u.password_hash)) [
  | inr wrong ↦ inl (ap (λ (p : Reply View). p.0.users) (if-true _ _ (ap not wrong)))
  | inl right ↦ by_update u.username disable_totp w s _ (
      ap (λ (p : Reply View). p.0.users) (if-false _ _ (ap not right))
      ∙ users-after_totp_change _ s)
]

module _ (check : GoString → Bool) (stretch : GoString → Option GoString) where
  pub reset_password-Moves :
      (name password : GoString) (w : World) (s : Server)
      → Moves s (handle_reset_password check stretch name password w s).0.users
  unfolding handle_reset_password
  reset_password-Moves name password w s = elim (Bool-cases (check password)) [
    | inl strong ↦
        subst (Moves s) (sym (ap (λ (p : Reply User). p.0.users) (if-true _ _ strong)))
          (store_hash-Moves name (stretch password) w s)
    | inr weak ↦ inl (ap (λ (p : Reply User). p.0.users) (if-false _ _ weak))
  ]

  users-after_change :
      (hash : GoString → GoString) (w : World) (r : Request) (p : Reply User)
      → (after_change check stretch hash w r p).0.users ≡ p.0.users
  users-after_change hash w r (s, err e) = refl
  users-after_change hash w r (s, ok u) =
      ap (λ (t : Server). t.users) (state-reply_after tt (sign_in hash u w r s))
      ∙ users-sign_in hash u w r s

  pub change_password-Moves :
      (hash : GoString → GoString) (verify : GoString → GoString → Bool) (u : User)
      (current next : GoString) (w : World) (r : Request) (s : Server)
      → Moves s (change_password check stretch hash verify u current next w r s).0.users
  unfolding change_password
  change_password-Moves hash verify u current next w r s =
      elim (Bool-cases (blocked w.blocked_at s.limiter ((codes "user:" ++ u.username) ∷ [])).1) [
        | inl held ↦ inl (ap (λ (p : Reply (Unit {0})). p.0.users) (if-true _ _ held))
        | inr free ↦ elim (Bool-cases (verify current u.password_hash)) [
          | inr wrong ↦ inl (
              ap (λ (p : Reply (Unit {0})). p.0.users)
                (if-false _ _ free ∙ if-true _ _ (ap not wrong)))
          | inl right ↦
              subst (Moves s)
                (sym (
                  ap (λ (p : Reply (Unit {0})). p.0.users)
                    (if-false _ _ free ∙ if-false _ _ (ap not right))
                  ∙ users-after_change hash w r _))
                (reset_password-Moves u.username next w s)
        ]
      ]

  users-greet :
      (hash : GoString → GoString) (first : Bool) (w : World) (r : Request) (o : Option User)
      (s : Server)
      → (greet check stretch hash first w r o s).0.users ≡ s.users
  users-greet hash first w r none s = refl
  users-greet hash true w r (some u) s =
      ap (λ (t : Server). t.users) (state-reply_after (some (view u)) (sign_in hash u w r s))
      ∙ users-sign_in hash u w r s
  users-greet hash false w r (some u) s = refl

  users-after_create :
      (hash : GoString → GoString) (first : Bool) (w : World) (r : Request) (name : GoString)
      (p : Store.Store × Result UserError (Unit {0})) (s : Server)
      → (after_create check stretch hash first w r name p s).0.users ≡ p.0
  users-after_create hash first w r name (us, err e) s = refl
  users-after_create hash first w r name (us, ok _) s =
      users-greet hash first w r (Store.get name us) (record s { users = us })

  role_founds :
      (q : NewUser) (name h : GoString) (folders : List Folder) (s : Server)
      → accounts_exist s ≡ false
      → is_active_admin (new_account name (role_of check stretch q s) h folders) ≡ true
  role_founds q name h folders s first = rw (first, str_eq_refl) refl

  create_hashed-Moves :
      (hash : GoString → GoString) (q : NewUser) (name : GoString) (available : List GoString)
      (h : Option GoString) (w : World) (r : Request) (s : Server)
      → Moves s
          (create_hashed check stretch hash q name
            (role_of check stretch q s)
            available
            h
            w
            r
            s).0.users
  unfolding step
  create_hashed-Moves hash q name available none w r s = inl refl
  create_hashed-Moves hash q name available (some h) w r s =
      let role = role_of check stretch q s in
      let folders = or_default q.folders (default_folders role available) in
      inr (
        create (new_account name role h folders) w.stamp w.saved,
        role_founds q name h folders s,
        users-after_create hash (not (accounts_exist s)) w r name _ s,
      )

  pub create_named-Moves :
      (n : Result NameError (Unit {0})) (hash : GoString → GoString) (q : NewUser) (name : GoString)
      (available : List GoString) (w : World) (r : Request) (s : Server)
      → Moves s (create_named check stretch n hash q name available w r s).0.users
  create_named-Moves (err _) hash q name available w r s = inl refl
  create_named-Moves (ok _) hash q name available w r s = elim (Bool-cases (check q.password)) [
    | inl strong ↦
        subst (Moves s) (sym (ap (λ (p : Reply (Option View)). p.0.users) (if-true _ _ strong)))
          (create_hashed-Moves hash q name available (stretch q.password) w r s)
    | inr weak ↦ inl (ap (λ (p : Reply (Option View)). p.0.users) (if-false _ _ weak))
  ]

-- The sign-in of a user touches the accounts by at most one `Update`.
module _ (hash : GoString → GoString) (verify : GoString → GoString → Bool)
    (hmac_sha1 : GoString → List ℕ → List ℕ) (decode : GoString → Option GoString) where
  passes-Moves :
      (q : LoginRequest) (u : User) (w : World) (s s' : Server)
      → PassesTotp hash verify hmac_sha1 decode q u w s s'
      → Moves s s'.users
  passes-Moves q u w s s' (inl (_, e)) = inl (ap (λ t. t.users) e)
  passes-Moves q u w s s' (inr (_, (counter, _, e))) =
      by_update u.username (used counter) w s _ (ap (λ t. t.users) e)

  pub login_as-Moves :
      (name : GoString) (q : LoginRequest) (w : World) (r : Request) (s : Server)
      → Moves s (login_as hash verify hmac_sha1 decode name q w r s).0.users
  login_as-Moves name q w r s = elim (login_cases hash verify hmac_sha1 decode name q w r s) [
    | inl held ↦ inl (ap (λ p. p.0.users) held)
    | inr (free, inl (inl (e, bad))) ↦ inl (ap (λ p. p.0.users) bad)
    | inr (free, inl (inr (e, bad))) ↦ inl (ap (λ p. p.0.users) bad)
    | inr (free, inr (u, admits, (s', passes, good))) ↦
        subst (Moves s) (sym (ap (λ p. p.0.users) good ∙ users-welcome hash u w r _ _))
          (passes-Moves q u w s s' passes)
  ]
