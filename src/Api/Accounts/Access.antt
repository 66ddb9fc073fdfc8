-- ===== src/Api/Accounts/Access.antt =====
-- internal/api: a removed, disabled or demoted user, or one with a new password, is signed out.
use omarchy_vault.Prelude.{
  ℕ, ◌≡◌, ◌≢◌, refl, ap, subst, ◌⊎◌, inl, inr, GoString, Bool, true, false, ◌||◌, if-true, Option,
  none, some, Result, ok, err, arith, Bool-cases,
}
use omarchy_vault.Users.Accounts.{User, View}
use omarchy_vault.Users.Store
use omarchy_vault.Users.Store.{UserError}
use omarchy_vault.Auth.Local
use omarchy_vault.Auth.Local.Sessions.{session-end_sessions_for}
use omarchy_vault.Api.Server.{Server, Request}
use omarchy_vault.Api.Gate.{Shown, identity}
use omarchy_vault.Api.Gate.Sound.{Shows, identity_sound}
use omarchy_vault.Api.SignIn.{World}
use omarchy_vault.Api.Accounts.{
  store_hash, Changes, after_update, handle_update_user, after_delete, handle_delete_user,
  after_reset, handle_reset_password, ends_sessions, is_given,
}

or_true : (b : Bool) → (b || true) ≡ true
or_true true = refl
or_true false = refl

module _ (secret : GoString) (hash : GoString → GoString) where
  -- No request at any time shows the identity of the user; only the owner of the computer may bear the
  -- same name.
  abbrev Excludes : GoString → Server → Type 0
  Excludes name s =
      (now : ℕ) (r : Request) (shown : Shown)
      → (identity secret hash now r s).1 ≡ some shown
      → (shown.0.is_local ≡ true) ⊎ (shown.0.username ≢ name)

  ended-Excludes :
      (name : GoString) (l : Local.Local) (s : Server)
      → s.local ≡ Local.end_sessions_for name l
      → Excludes name s
  ended-Excludes name l s e now r shown h = by_way (identity_sound secret hash now r s shown h).0
    where
      by_way :
          Shows secret hash now r s shown.0 shown.1
          → (shown.0.is_local ≡ true) ⊎ (shown.0.username ≢ name)
      by_way (inl (_, _, owner, _)) = inl (ap (λ i. i.is_local) owner)
      by_way (inr (inl (_, _, owner, _))) = inl (ap (λ i. i.is_local) owner)
      by_way (inr (inr (_, (sid, _, found), _))) = inr (
          session-end_sessions_for hash name sid now l shown.0
            (subst (λ t. Local.session hash sid now t ≡ some shown.0) e found))

  after_delete-Excludes :
      (name : GoString) (p : Store.Store × Result UserError (Unit {0})) (s : Server)
      → (after_delete name p s).1 ≡ ok tt
      → Excludes name (after_delete name p s).0
  after_delete-Excludes name (us, err e) s h = absurd (ground arith)
  after_delete-Excludes name (us, ok _) s h = ended-Excludes name s.local _ refl

  after_reset-Excludes :
      (name : GoString) (p : Store.Store × Result UserError User) (s : Server) (u : User)
      → (after_reset name p s).1 ≡ ok u
      → Excludes name (after_reset name p s).0
  after_reset-Excludes name (us, err e) s u h = absurd (ground arith)
  after_reset-Excludes name (us, ok v) s u h = ended-Excludes name s.local _ refl

  after_update-Excludes :
      (c : Changes) (name : GoString) (p : Store.Store × Result UserError User) (s : Server)
      (v : View)
      → ends_sessions c ≡ true
      → (after_update c name p s).1 ≡ ok v
      → Excludes name (after_update c name p s).0
  after_update-Excludes c name (us, err e) s v ends h = absurd (ground arith)
  after_update-Excludes c name (us, ok u) s v ends h =
      ended-Excludes name s.local _ (ap (λ (t : Server). t.local) (if-true _ _ ends))

  -- After a user is deleted, whoever a request at any time shows is someone else or the owner of the
  -- computer.
  pub identity-handle_delete_user :
      (name : GoString) (w : World) (s : Server) (now : ℕ) (r : Request) (shown : Shown)
      → (handle_delete_user name w s).1 ≡ ok tt
      → (identity secret hash now r (handle_delete_user name w s).0).1 ≡ some shown
      → (shown.0.is_local ≡ true) ⊎ (shown.0.username ≢ name)
  unfolding handle_delete_user
  identity-handle_delete_user name w s now r shown h = after_delete-Excludes name _ s h now r shown

  -- An update that sets a role or disables the user ends the sessions.
  ends_sessions_lem :
      (c : Changes)
      → ((role : GoString) × (c.role ≡ some role)) ⊎ (c.disabled ≡ some true)
      → ends_sessions c ≡ true
  ends_sessions_lem c (inl (role, given)) = rw given refl
  ends_sessions_lem c (inr off) = rw off (or_true (is_given c.role))

  -- After an update that sets a role or disables the user, whoever a request at any time shows in the
  -- state that it leaves is someone else or the owner of the computer.
  pub identity-handle_update_user :
      (name : GoString) (c : Changes) (w : World) (s : Server) (v : View) (now : ℕ) (r : Request)
      (shown : Shown)
      → ((role : GoString) × (c.role ≡ some role)) ⊎ (c.disabled ≡ some true)
      → (handle_update_user name c w s).1 ≡ ok v
      → (identity secret hash now r (handle_update_user name c w s).0).1 ≡ some shown
      → (shown.0.is_local ≡ true) ⊎ (shown.0.username ≢ name)
  unfolding handle_update_user
  identity-handle_update_user name c w s v now r shown named h =
      after_update-Excludes c name _ s v (ends_sessions_lem c named) h now r shown

  store_hash-Excludes :
      (name : GoString) (h : Option GoString) (w : World) (s : Server) (u : User)
      → (store_hash name h w s).1 ≡ ok u
      → Excludes name (store_hash name h w s).0
  store_hash-Excludes name none w s u e = absurd (ground arith)
  store_hash-Excludes name (some h) w s u e = after_reset-Excludes name _ s u e

  -- After an admin gives a user a new password, whoever a request at any time shows in the state that it
  -- leaves is someone else or the owner of the computer.
  pub identity-handle_reset_password :
      (check : GoString → Bool) (stretch : GoString → Option GoString) (name password : GoString)
      (w : World) (s : Server) (u : User) (now : ℕ) (r : Request) (shown : Shown)
      → (handle_reset_password check stretch name password w s).1 ≡ ok u
      → (identity secret hash now r (handle_reset_password check stretch name password w s).0).1
        ≡ some shown
      → (shown.0.is_local ≡ true) ⊎ (shown.0.username ≢ name)
  unfolding handle_reset_password
  identity-handle_reset_password check stretch name password w s u now r shown h =
      elim (Bool-cases (check password)) [
        | inr weak ↦ absurd (ground arith)
        | inl strong ↦
            rw strong
              (store_hash-Excludes name (stretch password) w s u (rw strong at h) now r shown)
      ]
