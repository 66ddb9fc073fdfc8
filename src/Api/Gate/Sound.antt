-- ===== src/Api/Gate/Sound.antt =====
-- internal/api/auth_handlers.go: nobody passes `gate` without standing for an account that may.
use omarchy_vault.Prelude.{
  ℕ, ◌≡◌, refl, ap, sym, ◌∙◌, subst, ◌⊎◌, if-true, if-false, inl, inr, GoString, codes, str_eq,
  str_eq_iff, is_empty, Bool, true, false, not, ◌&&◌, ◌||◌, Option, none, some, ok, arith,
  Bool-cases,
}
use omarchy_vault.Users.Names.{admin}
use omarchy_vault.Users.Accounts.{User}
use omarchy_vault.Users.Store.{get}
use omarchy_vault.Auth.Local
use omarchy_vault.Auth.Local.{Identity}
use omarchy_vault.Api.Server.{Server, Request}
use omarchy_vault.Api.Gate.{
  Shown, local_identity, accounts_exist, is_read, has_local_token, recheck, by_session, by_cookie,
  identity, admit, decide,
}

module _ (secret : GoString) (hash : GoString → GoString) where
  -- The identity stands for an account that is stored, enabled and of the role, or for the owner of
  -- the computer.
  abbrev pub IsLive : Identity → Server → Type 0
  IsLive id s =
      (id.is_local ≡ true)
      ⊎ ((u : User) × (get id.username s.users ≡ some u)
          × (u.disabled ≡ false)
          × (u.role ≡ id.role))

  -- The three ways to show an identity.
  abbrev pub Shows : ℕ → Request → Server → Identity → Bool → Type 0
  Shows now r s id via_cookie =
      ((s.is_demo ≡ true)
        × (accounts_exist s ≡ false)
        × (id ≡ local_identity)
        × (via_cookie ≡ false))
      ⊎ ((r.from_socket ≡ true) × (r.token ≡ secret) × (id ≡ local_identity) × (via_cookie ≡ false))
      ⊎ ((via_cookie ≡ true)
          × ((sid : GoString) × (r.cookie ≡ some sid)
              × (Local.session hash sid now s.local ≡ some id))
          × IsLive id s)

  recheck_sound :
      (sid : GoString) (id : Identity) (o : Option User) (s : Server) (shown : Shown)
      → (recheck secret hash sid id o s).1 ≡ some shown
      → (shown ≡ (id, true))
        × ((recheck secret hash sid id o s).0 ≡ s)
        × ((u : User) × (o ≡ some u) × (u.disabled ≡ false) × (u.role ≡ id.role))
  recheck_sound sid id none s shown h = cc
  recheck_sound sid id (some u) s shown h =
      elim (Bool-cases (u.disabled || not (str_eq u.role id.role))) [
        | inl bad ↦ absurd (ground arith)
        | inr good ↦ (
          ground arith,
          rw good refl,
          (u, refl, ground arith, ground (arith, str_eq_iff u.role id.role)),
        )
      ]

  by_session_sound :
      (sid : GoString) (o : Option Identity) (s : Server) (shown : Shown)
      → (by_session secret hash sid o s).1 ≡ some shown
      → (o ≡ some shown.0)
        × (shown.1 ≡ true)
        × ((by_session secret hash sid o s).0 ≡ s)
        × IsLive shown.0 s
  by_session_sound sid none s shown h = cc
  by_session_sound sid (some id) s shown h = elim (Bool-cases id.is_local) [
    | inl owner ↦
        let e : shown ≡ (id, true) = ground arith in
        (ap some (sym (ap (λ p. p.0) e)), ap (λ p. p.1) e, rw owner refl, inl (rw e owner))
    | inr account ↦
        let branch =
          if-false (s, some (id, true)) (recheck secret hash sid id (get id.username s.users) s)
            account in
        let (e, same, (u, found, on, role)) =
          recheck_sound sid id (get id.username s.users) s shown (ap (λ p. p.1) (sym branch) ∙ h) in
        (
          ap some (sym (ap (λ p. p.0) e)),
          ap (λ p. p.1) e,
          ap (λ p. p.0) branch ∙ same,
          rw e (inr (u, found, on, role)),
        )
  ]

  by_cookie_sound :
      (now : ℕ) (c : Option GoString) (s : Server) (shown : Shown)
      → (by_cookie secret hash now c s).1 ≡ some shown
      → (shown.1 ≡ true)
        × ((by_cookie secret hash now c s).0 ≡ s)
        × ((sid : GoString) × (c ≡ some sid) × (Local.session hash sid now s.local ≡ some shown.0))
        × IsLive shown.0 s
  by_cookie_sound now none s shown h = cc
  by_cookie_sound now (some sid) s shown h =
      let (found, cookie, same, live) =
        by_session_sound sid (Local.session hash sid now s.local) s shown h in
      (cookie, same, (sid, refl, found), live)

  -- Whoever `identity` reports is the owner at first run of the demonstration, the owner by the local
  -- token over the control socket, or the holder of a session, which is one of the owner or of an
  -- account that is stored, enabled and of the role of the session. The state stays as it is.
  pub identity_sound :
      (now : ℕ) (r : Request) (s : Server) (shown : Shown)
      → (identity secret hash now r s).1 ≡ some shown
      → Shows now r s shown.0 shown.1 × ((identity secret hash now r s).0 ≡ s)
  unfolding identity
  identity_sound now r s shown h = elim (Bool-cases (s.is_demo && not (accounts_exist s))) [
    | inl demo ↦
        let e : shown ≡ (local_identity, false) = ground arith in
        (inl (ground arith, ground arith, ap (λ p. p.0) e, ap (λ p. p.1) e), rw demo refl)
    | inr plain ↦ elim (Bool-cases (is_empty r.token)) [
      | inr given ↦ elim (Bool-cases (has_local_token secret hash r)) [
        | inr wrong ↦ absurd (ground arith)
        | inl right ↦
            let e : shown ≡ (local_identity, false) = ground arith in
            (
              inr (
                  inl (
                    ground arith,
                    ground (arith, str_eq_iff r.token secret),
                    ap (λ p. p.0) e,
                    ap (λ p. p.1) e,
                  )),
              rw (plain, given) refl,
            )
      ]
      | inl no_token ↦
          let (cookie, same, found, live) =
            by_cookie_sound now r.cookie s shown (rw (plain, no_token) at h) in
          (inr (inr (cookie, found, live)), rw (plain, no_token) same)
    ]
  ]

  admit_sound :
      (admins : Bool) (r : Request) (shown : Option Shown) (s : Server) (id : Identity)
      → (admit secret hash admins r shown s).1 ≡ ok id
      → ((shown ≡ none) × (is_read r ≡ true) × (accounts_exist s ≡ false))
        ⊎ ((via_cookie : Bool) × (shown ≡ some (id, via_cookie))
            × ((admins ≡ false) ⊎ (id.role ≡ admin))
            × ((via_cookie ≡ false) ⊎ (is_read r ≡ true) ⊎ (r.intent ≡ codes "1")))
  admit_sound admins r none s id h = inl (refl, ground arith, ground arith)
  admit_sound admins r (some (id', via_cookie)) s id h =
      let e : id' ≡ id = ground arith in
      inr (
        via_cookie,
        ap (λ i. some (i, via_cookie)) e,
        subst (λ i. (admins ≡ false) ⊎ (i.role ≡ admin)) e
            (ground (arith, str_eq_iff id'.role admin)),
        ground (arith, str_eq_iff r.intent (codes "1")),
      )

  -- What `gate` lets through: a read before the first account exists, or a request that shows an
  -- identity, an admin's where the endpoint is for admins, and a write by cookie only with the header
  -- of the dashboard's own pages.
  abbrev pub MayPass : Bool → ℕ → Request → Server → Identity → Type 0
  MayPass admins now r s id =
      ((is_read r ≡ true) × (accounts_exist s ≡ false))
      ⊎ ((via_cookie : Bool) × Shows now r s id via_cookie
          × ((admins ≡ false) ⊎ (id.role ≡ admin))
          × ((via_cookie ≡ false) ⊎ (is_read r ≡ true) ⊎ (r.intent ≡ codes "1")))

  users-recheck :
      (sid : GoString) (id : Identity) (o : Option User) (s : Server)
      → (recheck secret hash sid id o s).0.users ≡ s.users
  users-recheck sid id none s = refl
  users-recheck sid id (some u) s = elim (Bool-cases (u.disabled || not (str_eq u.role id.role))) [
    | inl bad ↦ rw bad refl
    | inr good ↦ rw good refl
  ]

  users-by_session :
      (sid : GoString) (o : Option Identity) (s : Server)
      → (by_session secret hash sid o s).0.users ≡ s.users
  users-by_session sid none s = refl
  users-by_session sid (some id) s =
      let again = recheck secret hash sid id (get id.username s.users) s in
      elim (Bool-cases id.is_local) [
        | inl owner ↦ ap (λ p. p.0.users) (if-true (s, some (id, true)) again owner)
        | inr account ↦
            ap (λ p. p.0.users) (if-false (s, some (id, true)) again account)
            ∙ users-recheck sid id (get id.username s.users) s
      ]

  users-by_cookie :
      (now : ℕ) (c : Option GoString) (s : Server)
      → (by_cookie secret hash now c s).0.users ≡ s.users
  users-by_cookie now none s = refl
  users-by_cookie now (some sid) s = users-by_session sid (Local.session hash sid now s.local) s

  -- Asking who makes a request changes no account.
  pub users-identity :
      (now : ℕ) (r : Request) (s : Server) → (identity secret hash now r s).0.users ≡ s.users
  unfolding identity
  users-identity now r s = elim (Bool-cases (s.is_demo && not (accounts_exist s))) [
    | inl demo ↦ rw demo refl
    | inr plain ↦ elim (Bool-cases (is_empty r.token)) [
      | inr given ↦ rw (plain, given) refl
      | inl no_token ↦ rw (plain, no_token) (users-by_cookie now r.cookie s)
    ]
  ]

  -- `gate` runs its handler only for a read before the first account exists, or for a request that
  -- shows an identity: by the local token over the control socket, at the first run of the
  -- demonstration, or by the cookie of a session, which is one of the owner of the computer or of an
  -- account that is stored, enabled and of the role of the session. The identity is an admin's where the
  -- endpoint is for admins, and a write by cookie carries the intent header.
  pub decide_sound :
      (admins : Bool) (now : ℕ) (r : Request) (s : Server) (id : Identity)
      → (decide secret hash admins now r s).1 ≡ ok id
      → MayPass admins now r s id
  unfolding decide
  decide_sound admins now r s id h =
      elim (admit_sound admins r (identity secret hash now r s).1 (identity secret hash now r s).0
        id h) [
          | inl (_, read, empty) ↦ inl (read, rw (← users-identity now r s) empty)
          | inr (via_cookie, e, only, intent) ↦
              let (shows, _) = identity_sound now r s (id, via_cookie) e in
              inr (via_cookie, shows, only, intent)
        ]
