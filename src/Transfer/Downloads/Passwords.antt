-- ===== src/Transfer/Downloads/Passwords.antt =====
-- internal/transfer/serve_download.go: a share link with a password is served only after a request gave
-- that password.
use omarchy_vault.Prelude.{
  ℕ, ◌≡◌, refl, ap, sym, ◌∙◌, subst, ◌⊎◌, inl, inr, GoString, str_eq, str_eq_iff, Bool, true, false,
  not, ltb, if◌then◌else◌, if-true, if-false, Option, none, some, List, [], ◌∷◌, length, In,
  In-of_filter, arith, Bool-cases,
}
use omarchy_vault.Prelude.Dict
use omarchy_vault.Auth.Limiter.{Limiter, blocked}
use omarchy_vault.Transfer.Session.{share, Session, check_password}
use omarchy_vault.Transfer.Store.{Looked, usable, refused, failed}
use omarchy_vault.Transfer.Store.Runs
use omarchy_vault.Transfer.Publish.{Kernel}
use omarchy_vault.Transfer.Receive.{Drive, Body, AllReply, lookup_kind, receive}
use omarchy_vault.Transfer.Downloads.{
  Grant, Phones, Fetch, FetchReply, sent, Access, denied, granted, usable_after, holds_for,
  grant_of, share_unlocked_for, serve_share, Unlock, UnlockReply, max_unlocked, new_grant,
  give_cookie, share_keys, unlock_session, unlock_after, share_unlock, look_up, share_file,
  download_file, is_open, prune_grants,
}
use omarchy_vault.Transfer.Downloads.Serving.{
  unlocked-share_file, unlocked-download_file, sent-send,
}

module _ {V : Type 0} where
  In-lookup :
      (k : GoString) (v : V) (m : List (GoString × V)) → Dict.lookup k m ≡ some v → In (k, v) m
  unfolding Dict.lookup
  In-lookup k v [] h = absurd (ground arith)
  In-lookup k v ((j, w) ∷ m) h = elim (Bool-cases (str_eq j k)) [
    | inl same ↦
        let e : w ≡ v = ground arith in
        inl (ap (λ x. (x, v)) (sym ((str_eq_iff j k).0 same)) ∙ ap (λ x. (j, x)) (sym e))
    | inr other ↦ inr (In-lookup k v m (rw other at h))
  ]

  In-insert :
      (k : GoString) (v : V) (m : List (GoString × V)) (p : GoString × V)
      → In p (Dict.insert k v m)
      → (p.1 ≡ v) ⊎ In p m
  unfolding Dict.insert
  In-insert k v [] p (inl e) = inl (ap (λ q. q.1) e)
  In-insert k v [] p (inr i) = elim i [ ]
  In-insert k v ((j, w) ∷ m) p i = elim (Bool-cases (str_eq j k)) [
    | inl same ↦ replaced (rw same at i)
    | inr other ↦ later (In-insert k v m p) (rw other at i)
  ]
    where
      replaced : (p ≡ (j, v)) ⊎ In p m → (p.1 ≡ v) ⊎ In p ((j, w) ∷ m)
      replaced (inl e) = inl (ap (λ q. q.1) e)
      replaced (inr there) = inr (inr there)

      later :
          (In p (Dict.insert k v m) → (p.1 ≡ v) ⊎ In p m)
          → (p ≡ (j, w)) ⊎ In p (Dict.insert k v m)
          → (p.1 ≡ v) ⊎ In p ((j, w) ∷ m)
      later rest (inl e) = inr (inl e)
      later rest (inr there) = elim (rest there) [ inl e ↦ inl e | inr found ↦ inr (inr found) ]

-- What phones, the dashboard and the housekeeping do: passwords, both kinds of downloads, uploads with
-- the folder that they find, any call of the store of links, and `pruneGrants`.
pub data Event (K : Kernel) : Type 0 where
  unlock : Unlock → Event K
  fetch_share : Fetch → GoString → Event K
  fetch : Fetch → Event K
  upload : GoString → GoString → ℕ → Bool → Drive → Body → K.Folder → Event K
  store : Runs.Op → Event K
  clean : ℕ → Event K

module _ (K : Kernel) (verify : GoString → GoString → Bool) (sha256 : GoString → GoString) where
  abbrev after_upload : Limiter × AllReply K → Phones → Phones
  after_upload (l, ((db, fs), r)) s = record s { limiter = l; db = db }

  unfoldable pub step : Event K → Phones → Phones
  step (unlock q) s = (share_unlock verify sha256 q s).0
  step (fetch_share f key) s = (share_file sha256 f key s).0
  step (fetch f) s = (download_file sha256 f s).0
  step (upload ip token now up drive body fs) s =
      after_upload (receive K sha256 ip token now up drive body s.limiter (s.db, fs)) s
  step (store op) s = record s { db = Runs.step sha256 op s.db }
  step (clean now) s = prune_grants now s

  unfoldable pub run : List (Event K) → Phones → Phones
  run [] s = s
  run (e ∷ es) s = run es (step e s)

  -- The event gives the password of the link with the id, which can be used.
  abbrev pub Opens : GoString → Event K → Phones → Type 0
  Opens id (unlock q) s =
      (sess : Session) × ((lookup_kind sha256 q.client_ip q.token share q.looked_at q.lookup_up s.db
          s.limiter).1
        ≡ usable sess)
      × (sess.id ≡ id)
      × (check_password verify sess q.password ≡ true)
  Opens id e s = ⊥

  -- One of the events does, in the state that the earlier ones leave.
  unfoldable pub Opened : GoString → List (Event K) → Phones → Type 0
  Opened id [] s = ⊥
  Opened id (e ∷ es) s = Opens id e s ⊎ Opened id es (step e s)

  -- A grant that is new is for a link whose password was given.
  abbrev Grows : Phones → Phones → (GoString → Type 0) → Type 0
  Grows s s' P = (p : GoString × Grant) → In p s'.unlocked → In p s.unlocked ⊎ P p.1.session

  give_cookie-Grows :
      (draw : Option GoString) (sess : Session) (q : Unlock) (s : Phones) (P : GoString → Type 0)
      → P sess.id
      → Grows s (give_cookie draw sess q s).0 P
  give_cookie-Grows none sess q s P h = λ p i. inl i
  give_cookie-Grows (some value) sess q s P h = λ p i.
      elim (In-insert value (new_grant sess q.granted_at)
        (if ltb max_unlocked (length s.unlocked) then [] else s.unlocked) p i) [
          | inl e ↦ inr (subst P (sym (ap (λ (g : Grant). g.session) e)) h)
          | inr there ↦ inl (kept p (Bool-cases (ltb max_unlocked (length s.unlocked))) there)
        ]
    where
      kept :
          (p : GoString × Grant)
          → (ltb max_unlocked (length s.unlocked) ≡ true)
            ⊎ (ltb max_unlocked (length s.unlocked) ≡ false)
          → In p (if ltb max_unlocked (length s.unlocked) then [] else s.unlocked)
          → In p s.unlocked
      kept p (inl many) i = absurd (subst (In p) (if-true _ _ many) i)
      kept p (inr few) i = subst (In p) (if-false _ _ few) i

  unlock_session-Grows :
      (sess : Session) (q : Unlock) (s : Phones) (P : GoString → Type 0)
      → (check_password verify sess q.password ≡ true → P sess.id)
      → Grows s (unlock_session verify sess q s).0 P
  unlock_session-Grows sess q s P h =
      elim (Bool-cases (blocked q.blocked_at s.limiter (share_keys q.client_ip)).1) [
        | inl held ↦
            subst (λ (r : Phones × UnlockReply). Grows s r.0 P) (sym (if-true _ _ held))
              (λ p i. inl i)
        | inr free ↦ elim (Bool-cases (check_password verify sess q.password)) [
          | inr wrong ↦
              subst (λ (r : Phones × UnlockReply). Grows s r.0 P)
                (sym (if-false _ _ free ∙ if-true _ _ (ap not wrong))) (λ p i. inl i)
          | inl right ↦
              subst (λ (r : Phones × UnlockReply). Grows s r.0 P)
                (sym (if-false _ _ free ∙ if-false _ _ (ap not right)))
                (give_cookie-Grows q.draw sess q _ P (h right))
        ]
      ]

  unlock_after-Grows :
      (l : Limiter × Looked) (q : Unlock) (s : Phones) (P : GoString → Type 0)
      → ((sess : Session)
          → l.1 ≡ usable sess
          → check_password verify sess q.password ≡ true
          → P sess.id)
      → Grows s (unlock_after verify l q s).0 P
  unlock_after-Grows (l, usable sess) q s P h =
      unlock_session-Grows sess q (record s { limiter = l }) P (h sess refl)
  unlock_after-Grows (l, refused sess e) q s P h = λ p i. inl i
  unlock_after-Grows (l, failed e) q s P h = λ p i. inl i

module _ (K : Kernel) (verify : GoString → GoString → Bool) (sha256 : GoString → GoString) where
  step-Opens :
      (e : Event K) (s : Phones) (p : GoString × Grant)
      → In p (step K verify sha256 e s).unlocked
      → In p s.unlocked ⊎ Opens K verify sha256 p.1.session e s
  unfolding step share_unlock prune_grants
  step-Opens (unlock q) s p i =
      unlock_after-Grows K verify sha256
        (lookup_kind sha256 q.client_ip q.token share q.looked_at q.lookup_up s.db s.limiter) q s
        (λ id. Opens K verify sha256 id (unlock q) s)
        (λ sess found right. (sess, found, refl, right)) p i
  step-Opens (fetch_share f key) s p i = inl (subst (In p) (unlocked-share_file sha256 f key s) i)
  step-Opens (fetch f) s p i = inl (subst (In p) (unlocked-download_file sha256 f s) i)
  step-Opens (upload ip token now up drive body fs) s p i =
      inl (unlocked_kept (receive K sha256 ip token now up drive body s.limiter (s.db, fs)) i)
    where
      unlocked_kept :
          (q : Limiter × AllReply K)
          → In p (after_upload K verify sha256 q s).unlocked
          → In p s.unlocked
      unlocked_kept (l, ((db, fs'), r)) j = j
  step-Opens (store op) s p i = inl i
  step-Opens (clean now) s p i = inl (In-of_filter (is_open now) p s.unlocked i).0

  run-Opened :
      (es : List (Event K)) (s : Phones) (p : GoString × Grant)
      → In p (run K verify sha256 es s).unlocked
      → In p s.unlocked ⊎ Opened K verify sha256 p.1.session es s
  unfolding run Opened
  run-Opened [] s p i = inl i
  run-Opened (e ∷ es) s p i = elim (run-Opened es (step K verify sha256 e s) p i) [
    | inr later ↦ inr (inr later)
    | inl before ↦ elim (step-Opens e s p before) [
      | inl first ↦ inl first
      | inr here ↦ inr (inl here)
    ]
  ]

holds_for_session :
    (sess : Session) (now : ℕ) (o : Option Grant)
    → holds_for sess now o ≡ true
    → (g : Grant) × (o ≡ some g) × (g.session ≡ sess.id)
holds_for_session sess now none h = absurd (ground arith)
holds_for_session sess now (some g) h = (g, refl, ground (arith, str_eq_iff g.session sess.id))

grant-In :
    (cookie : Option GoString) (s : Phones) (g : Grant)
    → grant_of cookie s ≡ some g
    → (c : GoString) × In (c, g) s.unlocked
grant-In none s g h = absurd (ground arith)
grant-In (some c) s g h = (c, In-lookup c g s.unlocked h)

-- A share link is served to a cookie that unlocks it, if it has a password.
serve_share_sound :
    (a : Access) (f : Fetch) (key : GoString) (s : Phones) (sess : Session)
    → (serve_share a f key s).1 ≡ sent sess
    → sess.has_password ≡ true
    → holds_for sess f.unlocked_at (grant_of f.cookie s) ≡ true
unfolding share_unlocked_for
serve_share_sound (denied e) f key s sess h locked = absurd (ground arith)
serve_share_sound (granted sess' counted) f key s sess h locked =
    elim (Bool-cases (share_unlocked_for f.cookie f.unlocked_at sess' s)) [
      | inr closed ↦
          let e = ap (λ (r : Phones × FetchReply). r.1) (sym (if-false _ _ closed)) ∙ h in
          absurd (ground arith)
      | inl shown ↦
          let same =
            sent-send sess' f key counted s sess
              (ap (λ (r : Phones × FetchReply). r.1) (sym (if-true _ _ shown)) ∙ h) in
          let shown' =
            subst (λ t. share_unlocked_for f.cookie f.unlocked_at t s ≡ true) same shown in
          sym (if-false true (holds_for sess f.unlocked_at (grant_of f.cookie s)) (ap not locked))
          ∙ shown'
    ]

-- From a server that has just started, after any passwords, downloads and uploads of phones, any calls of
-- the store of links, such as `Create`, `Revoke` and `Prune`, and any `pruneGrants`: a file of a share
-- link with a password is sent only if one of those requests gave the password of that link when the link
-- could be used.
pub share_file-Opened :
    (K : Kernel) (verify : GoString → GoString → Bool) (sha256 : GoString → GoString)
    (es : List (Event K)) (s : Phones) (f : Fetch) (key : GoString) (sess : Session)
    → s.unlocked ≡ []
    → (share_file sha256 f key (run K verify sha256 es s)).1 ≡ sent sess
    → sess.has_password ≡ true
    → Opened K verify sha256 sess.id es s
unfolding share_file
share_file-Opened K verify sha256 es s f key sess fresh h locked =
    let t = run K verify sha256 es s in
    let found = look_up sha256 share f t in
    let t' = record t { limiter = found.0 } in
    let holds =
      serve_share_sound (usable_after found.1 f.client_ip key f.counted_at t) f key t' sess h
        locked in
    let (g, given, for_link) = holds_for_session sess f.unlocked_at (grant_of f.cookie t') holds in
    let (c, i) = grant-In f.cookie t' g given in
    elim (run-Opened K verify sha256 es s (c, g) i) [
      | inl before ↦ absurd (subst (In (c, g)) fresh before)
      | inr opened ↦ subst (λ id. Opened K verify sha256 id es s) for_link opened
    ]
