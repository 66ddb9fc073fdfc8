-- ===== src/Api/SignIn/Sound.antt =====
-- internal/api/auth_handlers.go: what a successful sign-in has checked, and what a refused one leaves.
use omarchy_vault.Prelude.{
  ℕ, ◌≤◌, ◌≡◌, refl, ap, sym, ◌∙◌, ◌⊎◌, inl, inr, GoString, is_empty, Bool, true, false, not,
  if-true, if-false, Option, none, some, List, length, ok, err, arith, Bool-cases,
}
use omarchy_vault.Disks.Display.{trim_space}
use omarchy_vault.Users.Accounts.{User, View, view}
use omarchy_vault.Users.Store
use omarchy_vault.Auth.Limiter.{blocked, fail, succeed}
use omarchy_vault.Auth.Local
use omarchy_vault.Auth.Local.{Identity}
use omarchy_vault.Api.Server.{
  Server, Request, Refusal, Reply, locked, bad_credentials, totp_required, bad_totp, internal,
}
use omarchy_vault.Api.SignIn.{
  LoginRequest, World, account_of, reply_after, max_password_len, keys_of, refuse_count, sign_in_as,
  sign_in, welcome, record_step, after_totp, step_of, is_wrong, check_totp, check_password,
  login_as,
}

-- Opening a session changes no account.
pub users-sign_in :
    (hash : GoString → GoString) (u : User) (w : World) (r : Request) (s : Server)
    → (sign_in hash u w r s).0.users ≡ s.users
unfolding sign_in
users-sign_in hash u w r s = go (Local.new_session hash _ w.session_at w.draw s.local)
  where
    go : (p : Local.Local × Option GoString) → (sign_in_as hash p r s).0.users ≡ s.users
    go (l, none) = refl
    go (l, some sid) = refl

-- The reply after `signIn` has the state that it left.
pub state-reply_after : {A : Type 0} (v : A) (p : Server × Bool) → (reply_after v p).0 ≡ p.0
state-reply_after v (s, true) = refl
state-reply_after v (s, false) = refl

pub users-welcome :
    (hash : GoString → GoString) (u : User) (w : World) (r : Request) (keys : List GoString)
    (s : Server)
    → (welcome hash u w r keys s).0.users ≡ s.users
users-welcome hash u w r keys s =
    ap (λ t. t.users) (state-reply_after (view u) (sign_in hash u w r _))
    ∙ users-sign_in hash u w r _

reply_after_ok : {A : Type 0} (x v : A) (p : Server × Bool) → (reply_after x p).1 ≡ ok v → v ≡ x
reply_after_ok x v (s, true) h = ground arith
reply_after_ok x v (s, false) h = absurd (ground arith)

-- A reply after `signIn` fails only where nothing could be drawn for the session, and then the state is
-- as it was.
reply_after_err :
    {A : Type 0} (hash : GoString → GoString) (x : A) (u : User) (w : World) (r : Request)
    (s : Server) (e : Refusal)
    → (reply_after x (sign_in hash u w r s)).1 ≡ err e
    → (e ≡ internal) × (w.draw ≡ none) × ((reply_after x (sign_in hash u w r s)).0 ≡ s)
unfolding sign_in Local.new_session
reply_after_err hash x u w r s e h = go w.draw refl h
  where
    go :
        (o : Option GoString)
        → w.draw ≡ o
        → (reply_after x
            (sign_in_as hash (Local.new_session hash (account_of u) w.session_at o s.local) r s)).1
          ≡ err e
        → (e ≡ internal)
          × (w.draw ≡ none)
          × ((reply_after x (
                sign_in_as hash
                  (Local.new_session hash (account_of u) w.session_at w.draw s.local)
                  r
                  s)).0
              ≡ s)
    go none drew k = (ground arith, drew, rw drew refl)
    go (some sid) drew k = absurd (ground arith)

module _ (hash : GoString → GoString) (verify : GoString → GoString → Bool)
    (hmac_sha1 : GoString → List ℕ → List ℕ) (decode : GoString → Option GoString) where
  -- The second factor has passed, with its trace in the state: nothing for an account without one, and
  -- the step of the code for the others.
  abbrev pub PassesTotp : LoginRequest → User → World → Server → Server → Type 0
  PassesTotp q u w s s' =
      ((u.totp_enabled ≡ false) × (s' ≡ s))
      ⊎ ((u.totp_enabled ≡ true)
          × ((counter : ℕ) × (step_of hash verify hmac_sha1 decode q u w ≡ some counter)
              × (s' ≡ record_step counter u w s)))

  after_totp_cases :
      (o : Option ℕ) (u : User) (w : World) (r : Request) (keys : List GoString) (s : Server)
      → ((e : Refusal) × (after_totp hash o u w r keys s ≡ refuse_count e w keys s))
        ⊎ ((counter : ℕ) × (o ≡ some counter)
            × (after_totp hash o u w r keys s
                ≡ welcome hash u w r keys (record_step counter u w s)))
  after_totp_cases none u w r keys s = inl (bad_totp, refl)
  after_totp_cases (some counter) u w r keys s = inr (counter, refl, refl)

  -- The ends of a sign-in for a name with its keys: a refusal that counts, one that does not and
  -- changes nothing, or a welcome.
  abbrev pub Refuses : World → List GoString → Server → Reply View → Type 0
  Refuses w keys s reply =
      ((e : Refusal) × (reply ≡ refuse_count e w keys s)) ⊎ ((e : Refusal) × (reply ≡ (s, err e)))

  check_totp_cases :
      (q : LoginRequest) (u : User) (w : World) (r : Request) (keys : List GoString) (s : Server)
      → Refuses w keys s (check_totp hash verify hmac_sha1 decode q u w r keys s)
        ⊎ ((s' : Server) × PassesTotp q u w s s'
            × (check_totp hash verify hmac_sha1 decode q u w r keys s ≡ welcome hash u w r keys s'))
  check_totp_cases q u w r keys s = elim (Bool-cases u.totp_enabled) [
    | inr off ↦ inr (s, inl (off, refl), if-true _ _ (ap not off))
    | inl on ↦ elim (Bool-cases (is_empty (trim_space q.totp))) [
      | inl missing ↦ inl (inr (totp_required, if-false _ _ (ap not on) ∙ if-true _ _ missing))
      | inr given ↦
          let here = if-false _ _ (ap not on) ∙ if-false _ _ given in
          elim (after_totp_cases (step_of hash verify hmac_sha1 decode q u w) u w r keys s) [
            | inl (e, bad) ↦ inl (inl (e, here ∙ bad))
            | inr (counter, step, good) ↦
                inr (record_step counter u w s, inr (on, (counter, step, refl)), here ∙ good)
          ]
    ]
  ]

  -- What a welcome has checked of the stored account: the password and that it is enabled.
  abbrev pub Admits : GoString → LoginRequest → Server → User → Type 0
  Admits name q s u =
      (Store.get name s.users ≡ some u)
      × (length q.password ≤ max_password_len)
      × (verify q.password u.password_hash ≡ true)
      × (u.disabled ≡ false)

  abbrev pub Welcomes :
      GoString → LoginRequest → World → Request → List GoString → Server → Reply View → Type 0
  Welcomes name q w r keys s reply =
      (u : User) × Admits name q s u
      × ((s' : Server) × PassesTotp q u w s s' × (reply ≡ welcome hash u w r keys s'))

  check_password_cases :
      (name : GoString) (q : LoginRequest) (o : Option User) (w : World) (r : Request)
      (keys : List GoString) (s : Server)
      → Store.get name s.users ≡ o
      → Refuses w keys s (check_password hash verify hmac_sha1 decode q o w r keys s)
        ⊎ Welcomes name q w r keys s (check_password hash verify hmac_sha1 decode q o w r keys s)
  check_password_cases name q none w r keys s found = inl (inl (bad_credentials, refl))
  check_password_cases name q (some u) w r keys s found =
      elim (Bool-cases (is_wrong hash verify hmac_sha1 decode q u)) [
        | inl wrong ↦ inl (inl (bad_credentials, if-true _ _ wrong))
        | inr right ↦ elim (check_totp_cases q u w r keys s) [
          | inl (inl (e, bad)) ↦ inl (inl (e, if-false _ _ right ∙ bad))
          | inl (inr (e, bad)) ↦ inl (inr (e, if-false _ _ right ∙ bad))
          | inr (s', passes, good) ↦ inr (
            u,
            (found, ground arith, ground arith, ground arith),
            (s', passes, if-false _ _ right ∙ good),
          )
        ]
      ]

  pub login_cases :
      (name : GoString) (q : LoginRequest) (w : World) (r : Request) (s : Server)
      → (login_as hash verify hmac_sha1 decode name q w r s ≡ (s, err locked))
        ⊎ (((blocked w.blocked_at s.limiter (keys_of name r)).1 ≡ false)
            × (Refuses w (keys_of name r) s (login_as hash verify hmac_sha1 decode name q w r s)
                ⊎ Welcomes name q w r
                    (keys_of name r)
                    s
                    (login_as hash verify hmac_sha1 decode name q w r s)))
  unfolding login_as
  login_cases name q w r s =
      let keys = keys_of name r in
      elim (Bool-cases (blocked w.blocked_at s.limiter keys).1) [
        | inl held ↦ inl (if-true _ _ held)
        | inr free ↦ inr (
          free,
          elim (check_password_cases name q (Store.get name s.users) w r keys s refl) [
            | inl (inl (e, bad)) ↦ inl (inl (e, if-false _ _ free ∙ bad))
            | inl (inr (e, bad)) ↦ inl (inr (e, if-false _ _ free ∙ bad))
            | inr (u, admits, (s', passes, good)) ↦
                inr (u, admits, (s', passes, if-false _ _ free ∙ good))
          ],
        )
      ]

  -- A sign-in that succeeds was not locked; the account of the name is stored and enabled, the password
  -- fits its hash, and where the account has a second factor, so does the code. The reply shows that
  -- account.
  pub login_as_sound :
      (name : GoString) (q : LoginRequest) (w : World) (r : Request) (s : Server) (v : View)
      → (login_as hash verify hmac_sha1 decode name q w r s).1 ≡ ok v
      → ((blocked w.blocked_at s.limiter (keys_of name r)).1 ≡ false)
        × ((u : User) × Admits name q s u
            × (v ≡ view u)
            × ((u.totp_enabled ≡ false)
                ⊎ ((counter : ℕ) × (step_of hash verify hmac_sha1 decode q u w ≡ some counter))))
  login_as_sound name q w r s v h = elim (login_cases name q w r s) [
    | inl held ↦ let e = ap (λ p. p.1) held in absurd (ground arith)
    | inr (free, inl (inl (f, bad))) ↦ let e = ap (λ p. p.1) bad in absurd (ground arith)
    | inr (free, inl (inr (f, bad))) ↦ let e = ap (λ p. p.1) bad in absurd (ground arith)
    | inr (free, inr (u, admits, (s', passes, good))) ↦
        let e = ap (λ p. p.1) good in
        (free, (u, admits, reply_after_ok (view u) v _ (sym e ∙ h), second u s' passes))
  ]
    where
      second :
          (u : User) (s' : Server)
          → PassesTotp q u w s s'
          → (u.totp_enabled ≡ false)
            ⊎ ((counter : ℕ) × (step_of hash verify hmac_sha1 decode q u w ≡ some counter))
      second u s' (inl (off, _)) = inl off
      second u s' (inr (_, (counter, step, _))) = inr (counter, step)

  -- Every check has passed, but no session could be drawn: the step of the code is recorded and the
  -- failures are forgotten, and nothing else changes.
  abbrev pub FailsLate : GoString → LoginRequest → World → Request → Server → Server → Type 0
  FailsLate name q w r s t =
      (w.draw ≡ none)
      × ((u : User) × Admits name q s u
          × ((s' : Server) × PassesTotp q u w s s'
              × (t ≡ record s' { limiter = succeed (keys_of name r) s'.limiter })))

  -- A sign-in that is refused changes nothing, or counts as a failure of the name and the address and
  -- changes nothing else; or, and then the answer is the internal error, it has passed every check but
  -- no session could be drawn: the step of its code is recorded if the account has a second factor, the
  -- failures of the name and the address are forgotten, and nothing else changes.
  pub login_as_refused :
      (name : GoString) (q : LoginRequest) (w : World) (r : Request) (s : Server) (e : Refusal)
      → (login_as hash verify hmac_sha1 decode name q w r s).1 ≡ err e
      → ((login_as hash verify hmac_sha1 decode name q w r s).0 ≡ s)
        ⊎ ((login_as hash verify hmac_sha1 decode name q w r s).0
            ≡ record s { limiter = fail w.failed_at (keys_of name r) s.limiter })
        ⊎ ((e ≡ internal)
            × FailsLate name q w r s (login_as hash verify hmac_sha1 decode name q w r s).0)
  login_as_refused name q w r s e h = elim (login_cases name q w r s) [
    | inl held ↦ inl (ap (λ p. p.0) held)
    | inr (free, inl (inl (f, bad))) ↦ inr (inl (ap (λ p. p.0) bad))
    | inr (free, inl (inr (f, bad))) ↦ inl (ap (λ p. p.0) bad)
    | inr (free, inr (u, admits, (s', passes, good))) ↦
        let c = ap (λ p. p.1) good in
        let (late, undrawn, same) =
          reply_after_err hash (view u) u w r
            (record s' { limiter = succeed (keys_of name r) s'.limiter }) e (sym c ∙ h) in
        inr (inr (late, (undrawn, (u, admits, (s', passes, ap (λ p. p.0) good ∙ same)))))
  ]
