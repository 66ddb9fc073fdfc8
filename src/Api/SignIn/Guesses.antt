-- ===== src/Api/SignIn/Guesses.antt =====
-- internal/api/auth_handlers.go: wrong passwords lock the account and the address, and a code of the
-- second factor works once.
use omarchy_vault.Prelude.{
  ℕ, ◌+◌, ◌≤◌, ◌<◌, ◌≡◌, refl, ap, ◌∙◌, ◌++◌, inl, GoString, codes, str_eq, str_eq_refl, Bool,
  false, if-true, Option, some, List, In, err, arith,
}
use omarchy_vault.Prelude.Dict
use omarchy_vault.Auth.Limiter.{
  Limiter, LimitState, lockout, hour, fail_state, wait_for, fail, fail_keys,
}
use omarchy_vault.Auth.Limiter.Keys.{lookup-fail_key, lookup-filter, blocked_lem}
use omarchy_vault.Api.Server.{Server, Request, locked}
use omarchy_vault.Api.SignIn.{LoginRequest, World, keys_of, login_as}

-- The failures of a name and of an address are counted apart.
keys_apart : (name ip : GoString) → str_eq (codes "ip:" ++ ip) (codes "user:" ++ name) ≡ false
unfolding str_eq
keys_apart name ip = refl

lookup-fail_user :
    (now : ℕ) (name : GoString) (r : Request) (l : Limiter) (st : LimitState)
    → Dict.lookup (codes "user:" ++ name) l ≡ some st
    → now ≤ st.last + hour
    → Dict.lookup (codes "user:" ++ name) (fail now (keys_of name r) l) ≡ some (fail_state now st)
unfolding fail fail_keys
lookup-fail_user now name r l st found recent =
    lookup-fail_key now (codes "ip:" ++ r.client_ip) (codes "user:" ++ name) _
    ∙ rw (keys_apart name r.client_ip) (
        lookup-fail_key now (codes "user:" ++ name) (codes "user:" ++ name) _
        ∙ rw (str_eq_refl, lookup-filter now (codes "user:" ++ name) st l found (ground arith))
            refl)

wait_for-fail_state :
    (now later : ℕ) (k : GoString) (l : Limiter) (st : LimitState)
    → Dict.lookup k l ≡ some (fail_state now st)
    → 4 ≤ st.failures
    → later < now + lockout (st.failures + 1)
    → 0 < wait_for later l k
unfolding wait_for fail_state
wait_for-fail_state now later k l st found many soon = rw found (ground arith)

module _ (hash : GoString → GoString) (verify : GoString → GoString → Bool)
    (hmac_sha1 : GoString → List ℕ → List ℕ) (decode : GoString → Option GoString) where
  -- While a key of the request is locked, the sign-in is refused as locked, whatever the password, and
  -- nothing changes.
  pub login_as-locked :
      (name : GoString) (q : LoginRequest) (w : World) (r : Request) (s : Server) (k : GoString)
      → In k (keys_of name r)
      → 0 < wait_for w.blocked_at s.limiter k
      → login_as hash verify hmac_sha1 decode name q w r s ≡ (s, err locked)
  unfolding login_as
  login_as-locked name q w r s k m h =
      if-true _ _ ((blocked_lem w.blocked_at s.limiter (keys_of name r)).1.1 (k, m, h))

  -- After a failure that is counted, where the name had four or more within the hour, every sign-in for
  -- that name, from any address and with any password, is refused as locked until the lock that goes
  -- with the number of failures has passed.
  pub login_as-login_as :
      (name : GoString) (q q' : LoginRequest) (w w' : World) (r r' : Request) (s : Server)
      (st : LimitState)
      → (login_as hash verify hmac_sha1 decode name q w r s).0
        ≡ record s { limiter = fail w.failed_at (keys_of name r) s.limiter }
      → Dict.lookup (codes "user:" ++ name) s.limiter ≡ some st
      → w.failed_at ≤ st.last + hour
      → 4 ≤ st.failures
      → w'.blocked_at < w.failed_at + lockout (st.failures + 1)
      → (login_as hash verify hmac_sha1 decode name q' w' r'
          (login_as hash verify hmac_sha1 decode name q w r s).0).1
        ≡ err locked
  login_as-login_as name q q' w w' r r' s st counted found recent many soon =
      let after = (login_as hash verify hmac_sha1 decode name q w r s).0 in
      let state = lookup-fail_user w.failed_at name r s.limiter st found recent in
      let held : Dict.lookup (codes "user:" ++ name) after.limiter
          ≡ some (fail_state w.failed_at st) =
        ap (λ t. Dict.lookup (codes "user:" ++ name) t.limiter) counted ∙ state in
      ap (λ p. p.1)
        (login_as-locked name q' w' r' after (codes "user:" ++ name) (inl refl) (
          wait_for-fail_state w.failed_at w'.blocked_at (codes "user:" ++ name) after.limiter st
            held many soon))
