-- ===== src/Transfer/Store/Usable.antt =====
-- internal/transfer/store.go: when a link can be used. `Lookup`, `Session.Active` and the query of
-- `Active` test the same thing in three ways, the last in milliseconds.
use omarchy_vault.Prelude.{
  ℕ, ◌+◌, ◌≤◌, ◌<◌, ◌≡◌, refl, ap, ◌↔◌, ◌⊎◌, ◌∙◌, GoString, str_eq_refl, Bool, true, false, ltb,
  Option, none, some, List, [], ◌∷◌, ◌++◌, map, length, filter, find?, In, ok, arith, In-filter,
  In-of_filter, In-of_find?, In-map, find?-append_none,
}
use omarchy_vault.Transfer.Session.{Kind, upload, download, share, kind_eq, Session, active}
use mathlib.Core.Option.{some-injective}
use omarchy_vault.Transfer.Tables.{Row, Db, NewSession, not_found, unix_milli, from_milli, scan}
use omarchy_vault.Transfer.Store.{
  usable, failed, judge, or_not_found, create, has_token, lookup, is_live, newest_first,
  insert_newest, active_list, taken, new_row, new_session,
}

-- The three tests agree.
judge-eq-usable_iff :
    (s t : Session) (now : ℕ) → (judge s now ≡ usable t) ↔ ((s ≡ t) × (active t now ≡ true))
unfolding judge active
judge-eq-usable_iff s t now = ground arith

ltb_milli : (now e : ℕ) → ltb now (from_milli e) ≡ ltb (unix_milli now) e
ltb_milli now e = ground arith

active-scan : (r : Row) (now : ℕ) → active (scan r) now ≡ is_live (unix_milli now) r
unfolding active scan
active-scan r now = rw (ltb_milli now r.expires_at)

or_not_found-eq-usable_iff :
    (o : Option Row) (now : ℕ) (s : Session)
    → (or_not_found o now ≡ usable s)
      ↔ ((r : Row) × (o ≡ some r) × (scan r ≡ s) × (active s now ≡ true))
or_not_found-eq-usable_iff none now s = (λ e. cc, λ (r, e, _, _). cc (e))
or_not_found-eq-usable_iff (some r) now s =
    let (to, from) = judge-eq-usable_iff (scan r) s now in
    (
      λ e. (r, refl, (to e).0, (to e).1),
      λ (r', e, same, live). from (ap scan (some-injective r r' e) ∙ same, live),
    )

abbrev pub InRange : GoString → Type 0
InRange token = (40 ≤ length token) × (length token ≤ 64)

module _ (sha256 : GoString → GoString) (token : GoString) (kind : Kind) (now : ℕ) (db : Db) where
  lookup-InRange :
      InRange token
      → lookup sha256 token kind now true db
        ≡ or_not_found (find? (has_token sha256 token kind) db.sessions) now
  unfolding lookup
  lookup-InRange h = ground arith

  -- For a token of 40 to 64 bytes, `Lookup` gives out a session exactly when the first row with the
  -- token's hash and the kind stands for it and `Session.Active` holds of it now.
  pub lookup-eq-usable_iff :
      (s : Session)
      → InRange token
      → (lookup sha256 token kind now true db ≡ usable s) ↔ (
          (r : Row) × (find? (has_token sha256 token kind) db.sessions ≡ some r)
          × (scan r ≡ s)
          × (active s now ≡ true))
  lookup-eq-usable_iff s h = rw (lookup-InRange h) (or_not_found-eq-usable_iff _ now s)

  -- A token shorter than 40 or longer than 64 bytes is refused, whatever the table holds.
  pub lookup_not_InRange :
      (up : Bool) → ¬ InRange token → lookup sha256 token kind now up db ≡ failed not_found
  unfolding lookup
  lookup_not_InRange up h = ground (arith, h)

In-insert_newest : (a r : Row) (rs : List Row) → In a (insert_newest r rs) ↔ ((a ≡ r) ⊎ In a rs)
unfolding insert_newest
In-insert_newest a r [] = (λ m. m, λ m. m)
In-insert_newest a r (x ∷ xs) = grind (arith, In-insert_newest a r xs)

In-newest_first : (a : Row) (rs : List Row) → In a (newest_first rs) ↔ In a rs
unfolding newest_first
In-newest_first a [] = (λ m. m, λ m. m)
In-newest_first a (r ∷ rs) =
    grind (arith, In-insert_newest a r (newest_first rs), In-newest_first a rs)

taken-find? :
    (sha256 : GoString → GoString) (n : NewSession) (now : ℕ) (id token : GoString) (kind : Kind)
    (rows : List Row)
    → taken sha256 (new_row sha256 n now id token) rows ≡ false
    → find? (has_token sha256 token kind) rows ≡ none
unfolding taken new_row
taken-find? sha256 n now id token kind [] h = refl
taken-find? sha256 n now id token kind (r ∷ rows) h =
    ground (arith, taken-find? sha256 n now id token kind rows)

-- A stored link has its times cut to milliseconds.
abbrev pub stored : Session → Session
stored s = record s {
  created_at = from_milli (unix_milli s.created_at);
  expires_at = from_milli (unix_milli s.expires_at);
}

kind_eq_refl : (k : Kind) → kind_eq k k ≡ true
unfolding kind_eq
kind_eq_refl upload = refl
kind_eq_refl download = refl
kind_eq_refl share = refl

new_row-has_token :
    (sha256 : GoString → GoString) (n : NewSession) (now : ℕ) (id token : GoString)
    → has_token sha256 token n.kind (new_row sha256 n now id token) ≡ true
unfolding new_row
new_row-has_token sha256 n now id token = rw str_eq_refl (kind_eq_refl n.kind)

create_inv :
    (sha256 : GoString → GoString) (n : NewSession) (now : ℕ) (id token token' : GoString)
    (db db' : Db) (s : Session)
    → create sha256 n now (some id) (some token) true db ≡ (db', ok (s, token'))
    → (taken sha256 (new_row sha256 n now id token) db.sessions ≡ false)
      × (db'.sessions ≡ db.sessions ++ new_row sha256 n now id token ∷ [])
      × (s ≡ new_session sha256 n now id)
unfolding create
create_inv sha256 n now id token token' db db' s e = ground arith

-- `Lookup` by the token that `Create` returned gives out the created link, its times cut to
-- milliseconds, until it expires, if it may transfer at least one file and one byte.
pub lookup-create :
    (sha256 : GoString → GoString) (n : NewSession) (now later : ℕ) (id token : GoString)
    (db db' : Db) (s : Session)
    → create sha256 n now (some id) (some token) true db ≡ (db', ok (s, token))
    → InRange token
    → later < from_milli (unix_milli (now + n.ttl))
    → 0 < n.max_files
    → 0 < n.max_bytes
    → lookup sha256 token n.kind later true db' ≡ usable (stored s)
lookup-create sha256 n now later id token db db' s e fits early files bytes =
    let (fresh, rows, made) = create_inv sha256 n now id token token db db' s e in
    rw (rows, made)
      ((lookup-eq-usable_iff sha256 token n.kind later _ _ fits).1 (
        new_row sha256 n now id token,
        find?-append_none _ db.sessions _
              (taken-find? sha256 n now id token n.kind db.sessions fresh)
            ∙ rw (new_row-has_token sha256 n now id token),
        unfold scan new_row new_session in refl,
        unfold active new_session in ground (arith, early, files, bytes),
      ))

In-listed_iff :
    (now : ℕ) (s : Session) (rows : List Row)
    → In s (map scan (newest_first (filter (is_live (unix_milli now)) rows)))
      ↔ ((r : Row) × In r rows × (scan r ≡ s) × (active s now ≡ true))
In-listed_iff now s rows = (
  λ m.
      let (r, i, e) = (In-map scan s _).0 m in
      let (j, live) = In-of_filter _ r rows ((In-newest_first r _).0 i) in
      (r, j, e, rw (← e, active-scan r now) live),
  λ (r, i, e, live).
      (In-map scan s _).1
        (r, (In-newest_first r _).1 (In-filter _ r rows i (rw (← active-scan r now, e) live)), e),
)

-- `Active` lists exactly the sessions of the table of which `Session.Active` holds now.
pub active_list-In_iff :
    (now : ℕ) (db : Db) (l : List Session) (s : Session)
    → active_list now true db ≡ ok l
    → In s l ↔ ((r : Row) × In r db.sessions × (scan r ≡ s) × (active s now ≡ true))
unfolding active_list
active_list-In_iff now db l s e =
    let same : map scan (newest_first (filter (is_live (unix_milli now)) db.sessions)) ≡ l = cc in
    rw (← same) (In-listed_iff now s db.sessions)

-- A link that `Lookup` gives out is in the list that `Active` returns at the same time.
pub lookup-active_list :
    (sha256 : GoString → GoString) (token : GoString) (kind : Kind) (now : ℕ) (db : Db)
    (s : Session) (l : List Session)
    → InRange token
    → lookup sha256 token kind now true db ≡ usable s
    → active_list now true db ≡ ok l
    → In s l
lookup-active_list sha256 token kind now db s l fits found listed =
    let (r, first, same, live) = (lookup-eq-usable_iff sha256 token kind now db s fits).0 found in
    (active_list-In_iff now db l s listed).1 (r, (In-of_find? _ r db.sessions first).0, same, live)
