-- ===== src/Auth/Local/Sessions.antt =====
-- internal/auth/local.go: login codes work once, sessions end.
use omarchy_vault.Prelude.{
  ℕ, ◌+◌, ◌≤◌, ◌<◌, ◌≡◌, ◌≢◌, refl, ap, ◌∙◌, GoString, str_eq, str_eq_iff, str_eq_refl, is_empty,
  Bool, true, false, not, ltb, leb, length, length-filter-le, filter, Option, none, some, [], ◌∷◌,
  arith, if◌then◌else◌, leb→le, leb→gt, Bool-cases, inl, inr,
}
use omarchy_vault.Prelude.Dict
use omarchy_vault.Prelude.Dict.{lookup-insert, lookup-delete}
use omarchy_vault.Auth.Local.{
  Identity, Entry, Entries, Local, code_ttl, session_ttl, max_sessions, max_codes, is_current, gc,
  older, oldest, drop_key, make_room, new_code, new_session, with_identity, redeem_entry, redeem,
  identity_at, session, end_sessions_for,
}

length-insert :
    (k : GoString) (e : Entry) (es : Entries) → length (Dict.insert k e es) ≤ length es + 1
unfolding Dict.insert
length-insert k e [] = omega arith
length-insert k e ((j, d) ∷ es) = ground (arith, length-insert k e es)

length-delete : (k : GoString) (es : Entries) → length (Dict.delete k es) ≤ length es
unfolding Dict.delete
length-delete k [] = omega arith
length-delete k ((j, d) ∷ es) = ground (arith, length-delete k es)

older_other :
    (j k : GoString) (exp t : ℕ) (o : Option (GoString × ℕ))
    → str_eq j k ≡ false
    → older j exp o ≡ some (k, t)
    → o ≡ some (k, t)
older_other j k exp t none other h = ground (arith, str_eq_iff j k)
older_other j k exp t (some (k', t')) other h = ground (arith, str_eq_iff j k)

oldest-none : (es : Entries) → oldest es ≡ none → ¬ (max_sessions ≤ length es)
unfolding oldest
oldest-none [] h many = elim many [ ]
oldest-none ((k, e) ∷ es) h many = older_some k e.exp (oldest es) h
  where
    older_some : (k : GoString) (exp : ℕ) (o : Option (GoString × ℕ)) → older k exp o ≡ none → ⊥
    older_some k exp none h = cc
    older_some k exp (some (k', t')) h = ground arith

-- taking out the oldest entry makes the table shorter
length-oldest :
    (k : GoString) (t : ℕ) (es : Entries)
    → oldest es ≡ some (k, t)
    → length (Dict.delete k es) < length es
unfolding oldest Dict.delete
length-oldest k t [] h = cc
length-oldest k t ((j, e) ∷ es) h = elim (Bool-cases (str_eq j k)) [
  | inl here ↦ rw here (omega (arith, length-delete k es))
  | inr other ↦
      let deeper : oldest es ≡ some (k, t) = older_other j k e.exp t (oldest es) other h in
      rw other (omega (arith, length-oldest k t es deeper))
]

length-make_room : (es : Entries) → length es ≤ max_sessions → length (make_room es) < max_sessions
unfolding make_room
length-make_room es h = elim (Bool-cases (leb max_sessions (length es))) [
  | inr few ↦ rw few (leb→gt max_sessions (length es) few)
  | inl full ↦ rw full (drop full (oldest es) refl)
]
  where
    drop :
        leb max_sessions (length es) ≡ true
        → (o : Option (GoString × ℕ)) → oldest es ≡ o
        → length (drop_key o es) < max_sessions
    drop full none e = absurd (oldest-none es e (leb→le max_sessions (length es) full))
    drop full (some (k, t)) e = omega (arith, length-oldest k t es e)

-- At most 64 sessions and 16 login codes.
pub record IsBounded (l : Local) : Type 0 where
  pub few_codes : length l.codes ≤ max_codes
  pub few_sessions : length l.sessions ≤ max_sessions

gc-IsBounded : (now : ℕ) (l : Local) → IsBounded l → IsBounded (gc now l)
unfolding gc
gc-IsBounded now l b =
    omega (
      arith,
      length-filter-le (is_current now) l.codes,
      length-filter-le (is_current now) l.sessions,
    )

lookup-filter-none :
    (p : GoString × Entry → Bool) (k : GoString) (es : Entries)
    → Dict.lookup k es ≡ none
    → Dict.lookup k (filter p es) ≡ none
unfolding Dict.lookup
lookup-filter-none p k [] h = refl
lookup-filter-none p k ((j, e) ∷ es) h = ground (arith, lookup-filter-none p k es)

module _ (hash : GoString → GoString) where
  codes-new_session :
      (id : Identity) (now : ℕ) (draw : Option GoString) (l : Local) (k : GoString)
      → Dict.lookup k l.codes ≡ none
      → Dict.lookup k (new_session hash id now draw l).0.codes ≡ none
  unfolding new_session
  codes-new_session id now none l k h = h
  codes-new_session id now (some sid) l k h = lookup-filter-none (is_current now) k l.codes h

  codes-redeem_entry :
      (o : Option Entry) (now now' : ℕ) (draw : Option GoString) (l : Local) (k : GoString)
      → Dict.lookup k l.codes ≡ none
      → Dict.lookup k (redeem_entry hash o now now' draw l).0.codes ≡ none
  codes-redeem_entry none now now' draw l k h = h
  codes-redeem_entry (some e) now now' draw l k h = elim (Bool-cases (ltb e.exp now)) [
    | inl late ↦ rw late h
    | inr live ↦
        rw (live, same_state e.id (new_session hash e.id now' draw l))
          (codes-new_session e.id now' draw l k h)
  ]
    where
      same_state : (id : Identity) (r : Local × Option GoString) → (with_identity hash id r).0 ≡ r.0
      same_state id (l', none) = refl
      same_state id (l', some sid) = refl

  spent :
      (code : GoString) (now now' : ℕ) (draw : Option GoString) (l : Local)
      → is_empty code ≡ false
      → Dict.lookup (hash code) (redeem hash code now now' draw l).0.codes ≡ none
  unfolding redeem
  spent code now now' draw l h = rw h (
      codes-redeem_entry (Dict.lookup (hash code) l.codes) now now' draw _ (hash code)
        (lookup-delete (hash code) (hash code) l.codes ∙ rw str_eq_refl))

  redeem_spent :
      (code : GoString) (now now' : ℕ) (draw : Option GoString) (l : Local)
      → Dict.lookup (hash code) l.codes ≡ none
      → (redeem hash code now now' draw l).1 ≡ none
  unfolding redeem
  redeem_spent code now now' draw l h = elim (Bool-cases (is_empty code)) [
    | inl blank ↦ rw blank
    | inr full ↦ rw (full, h)
  ]

  redeem_empty :
      (code : GoString) (now now' : ℕ) (draw : Option GoString) (l : Local)
      → is_empty code ≡ true
      → (redeem hash code now now' draw l).1 ≡ none
  unfolding redeem
  redeem_empty code now now' draw l h = rw h

  -- A login code works once: after `Redeem`, whether it succeeded or not, the same code is refused.
  pub redeem-redeem :
      (code : GoString) (t₁ t₂ t₃ t₄ : ℕ) (d₁ d₂ : Option GoString) (l : Local)
      → (redeem hash code t₃ t₄ d₂ (redeem hash code t₁ t₂ d₁ l).0).1 ≡ none
  redeem-redeem code t₁ t₂ t₃ t₄ d₁ d₂ l = elim (Bool-cases (is_empty code)) [
    | inl blank ↦ redeem_empty code t₃ t₄ d₂ _ blank
    | inr full ↦ redeem_spent code t₃ t₄ d₂ _ (spent code t₁ t₂ d₁ l full)
  ]

  -- A session that `NewSession` opens, with an id that is not empty, stands for its identity until 12
  -- hours have passed.
  pub session-new_session :
      (id : Identity) (now later : ℕ) (sid : GoString) (l : Local)
      → is_empty sid ≡ false
      → session hash sid later (new_session hash id now (some sid) l).0
        ≡ (if ltb later (now + session_ttl) then some id else none)
  unfolding session new_session
  session-new_session id now later sid l h =
      rw (h, lookup-insert (hash sid) (hash sid) _ _, str_eq_refl)

  new_code-IsBounded :
      (id : Identity) (now : ℕ) (code : GoString) (l : Local)
      → IsBounded l
      → IsBounded (new_code hash id now (some code) l).0
  unfolding new_code
  new_code-IsBounded id now code l b =
      let g = gc-IsBounded now l b in
      elim (Bool-cases (leb max_codes (length (gc now l).codes))) [
        | inl full ↦ rw full g
        | inr few ↦
            let grown =
              length-insert (hash code) (record { exp = now + code_ttl; id = id })
                (gc now l).codes in
            let short = leb→gt max_codes (length (gc now l).codes) few in
            rw few (record { few_codes = omega arith; few_sessions = g.few_sessions })
      ]

  -- `NewSession` and `NewCode` keep at most 64 sessions and 16 pending codes.
  pub new_session-IsBounded :
      (id : Identity) (now : ℕ) (draw : Option GoString) (l : Local)
      → IsBounded l
      → IsBounded (new_session hash id now draw l).0 × IsBounded (new_code hash id now draw l).0
  unfolding new_session new_code
  new_session-IsBounded id now none l b = (b, b)
  new_session-IsBounded id now (some s) l b =
      let g = gc-IsBounded now l b in
      let room = length-make_room (gc now l).sessions g.few_sessions in
      (
        record {
          few_codes = g.few_codes;
          few_sessions = omega (
            arith,
            length-insert (hash s) (record { exp = now + session_ttl; id = id })
                (make_room (gc now l).sessions),
            room,
          );
        },
        new_code-IsBounded id now s l b,
      )

lookup-ended :
    (username k : GoString) (e : Entry) (es : Entries)
    → Dict.lookup k (filter (λ (k, e). not (str_eq e.id.username username)) es) ≡ some e
    → str_eq e.id.username username ≡ false
unfolding Dict.lookup
lookup-ended username k e [] h = cc
lookup-ended username k e ((j, d) ∷ es) h = ground (arith, lookup-ended username k e es)

identity_at_inv :
    (hash : GoString → GoString) (now : ℕ) (o : Option Entry) (id : Identity)
    → identity_at hash now o ≡ some id
    → (e : Entry) × (o ≡ some e) × (e.id ≡ id)
identity_at_inv hash now none id h = cc
identity_at_inv hash now (some e) id h = (e, refl, ground arith)

-- After `EndSessionsFor` no session stands for the user.
pub session-end_sessions_for :
    (hash : GoString → GoString) (username sid : GoString) (now : ℕ) (l : Local) (id : Identity)
    → session hash sid now (end_sessions_for username l) ≡ some id
    → id.username ≢ username
unfolding session end_sessions_for
session-end_sessions_for hash username sid now l id h same = elim (Bool-cases (is_empty sid)) [
  | inl blank ↦ absurd (ground arith)
  | inr full ↦
      let (e, found, stands) = identity_at_inv hash now _ id (rw full at h) in
      let other = lookup-ended username (hash sid) e l.sessions found in
      ground (arith, str_eq_iff e.id.username username, ap (λ (i : Identity). i.username) stands)
]
