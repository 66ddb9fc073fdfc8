-- ===== src/Transfer/Store/Uses.antt =====
-- internal/transfer/store.go: `Reserve` and `Release` count the uses of a link.
use omarchy_vault.Prelude.{
  ℕ, ◌+◌, ◌-◌, ◌≤◌, ◌≡◌, refl, GoString, str_eq, str_eq_iff, str_eq_refl, Bool-cases, inl, inr,
  Bool, true, false, none, some, List, [], ◌∷◌, ◌++◌, length, filter, All, arith, if◌then◌else◌,
}
use omarchy_vault.Transfer.Tables.{Row, Db, NewSession, has_id, update}
use omarchy_vault.Transfer.Store
use omarchy_vault.Transfer.Store.{
  can_revoke, can_reserve, stop, use_once, give_back, add_bytes, recent_enough,
}
use omarchy_vault.Transfer.Store.RowInvariants.{sessions-revoke, sessions-prune}
use omarchy_vault.Transfer.Store.Runs.{
  Op, create, revoke, reserve, release, record_transfer, prune, step, run, grants, count_grants,
  releases, count_releases, DrawsOther,
}

-- How often the links with the id can still be used.
left_rows : GoString → List Row → ℕ
left_rows id [] = 0
left_rows id (r ∷ rows) = (if has_id id r then r.max_files - r.files else 0) + left_rows id rows

unfoldable pub left : GoString → Db → ℕ
unfolding left_rows
left id db = left_rows id db.sessions

-- The rows with the id.
unfoldable pub copies : GoString → Db → ℕ
copies id db = length (filter (has_id id) db.sessions)

left-append :
    (id : GoString) (rows : List Row) (r : Row)
    → str_eq r.id id ≡ false
    → left_rows id (rows ++ r ∷ []) ≡ left_rows id rows
unfolding left_rows
left-append id [] r h = ground arith
left-append id (x ∷ rows) r h = omega (arith, left-append id rows r h)

left-stop :
    (id id' : GoString) (now : ℕ) (rows : List Row)
    → left_rows id (update (can_revoke id') (stop now) rows) ≡ left_rows id rows
unfolding left_rows
left-stop id id' now [] = refl
left-stop id id' now (r ∷ rows) = ground (arith, left-stop id id' now rows)

left-add_bytes :
    (id id' : GoString) (size : ℕ) (rows : List Row)
    → left_rows id (update (has_id id') (add_bytes size) rows) ≡ left_rows id rows
unfolding left_rows
left-add_bytes id id' size [] = refl
left-add_bytes id id' size (r ∷ rows) = ground (arith, left-add_bytes id id' size rows)

left-filter :
    (id : GoString) (p : Row → Bool) (rows : List Row)
    → left_rows id (filter p rows) ≤ left_rows id rows
unfolding left_rows
left-filter id p [] = omega arith
left-filter id p (r ∷ rows) = ground (arith, left-filter id p rows)

left-give_back :
    (id id' : GoString) (rows : List Row)
    → left_rows id (update (has_id id') give_back rows)
      ≤ left_rows id rows + (if str_eq id' id then length (filter (has_id id) rows) else 0)
unfolding left_rows
left-give_back id id' [] = omega arith
left-give_back id id' (r ∷ rows) =
    ground (
      arith,
      left-give_back id id' rows,
      str_eq_iff r.id id,
      str_eq_iff r.id id',
      str_eq_iff id' id,
    )

left-use_once :
    (id : GoString) (rows : List Row)
    → length (filter (can_reserve id) rows) + left_rows id (update (can_reserve id) use_once rows)
      ≤ left_rows id rows
unfolding left_rows
left-use_once id [] = omega arith
left-use_once id (r ∷ rows) = ground (arith, left-use_once id rows)

left-use_other :
    (id id' : GoString) (rows : List Row)
    → str_eq id' id ≡ false
    → left_rows id (update (can_reserve id') use_once rows) ≡ left_rows id rows
unfolding left_rows
left-use_other id id' [] h = refl
left-use_other id id' (r ∷ rows) h =
    ground (
      arith,
      left-use_other id id' rows,
      str_eq_iff r.id id,
      str_eq_iff r.id id',
      str_eq_iff id' id,
    )

count-stop :
    (id : GoString) (p : Row → Bool) (f : Row → Row) (rows : List Row)
    → ((r : Row) → (f r).id ≡ r.id)
    → length (filter (has_id id) (update p f rows)) ≡ length (filter (has_id id) rows)
count-stop id p f [] h = refl
count-stop id p f (r ∷ rows) h = ground (arith, count-stop id p f rows h, h r)

count-filter :
    (id : GoString) (p : Row → Bool) (rows : List Row)
    → length (filter (has_id id) (filter p rows)) ≤ length (filter (has_id id) rows)
count-filter id p [] = omega arith
count-filter id p (r ∷ rows) = ground (arith, count-filter id p rows)

count-append :
    (id : GoString) (rows : List Row) (r : Row)
    → str_eq r.id id ≡ false
    → length (filter (has_id id) (rows ++ r ∷ [])) ≡ length (filter (has_id id) rows)
count-append id [] r h = ground arith
count-append id (x ∷ rows) r h = ground (arith, count-append id rows r)

module _ (sha256 : GoString → GoString) (id : GoString) where
  -- What one call does to the uses of the link.
  abbrev Bounded : Op → Db → Type 0
  Bounded op db =
      (copies id (step sha256 op db) ≤ copies id db)
      × ((if grants sha256 id op db then 1 else 0) + left id (step sha256 op db)
          ≤ left id db + (if releases id op then 1 else 0))

  create-Bounded :
      (n : NewSession) (now : ℕ) (id' token : GoString) (up : Bool) (db : Db)
      → str_eq id' id ≡ false
      → Bounded (create n now (some id') (some token) up) db
  unfolding step grants releases copies left Store.create Store.new_row
  create-Bounded n now id' token up db h =
      let r = Store.new_row sha256 n now id' token in
      ground (arith, left-append id db.sessions r h, count-append id db.sessions r h)

  reserve-Bounded : (id' : GoString) (db : Db) → Bounded (reserve id' true) db
  unfolding step grants releases copies left Store.reserve
  reserve-Bounded id' db = elim (Bool-cases (str_eq id' id)) [
    | inl same ↦
        let e : id' ≡ id = (str_eq_iff id' id).0 same in
        rw (e, str_eq_refl)
          (ground (
            arith,
            left-use_once id db.sessions,
            count-stop id (can_reserve id) use_once db.sessions (λ r. refl),
          ))
    | inr other ↦ ground (
      arith,
      left-use_other id id' db.sessions other,
      count-stop id (can_reserve id') use_once db.sessions (λ r. refl),
    )
  ]

  step-Bounded : (op : Op) (db : Db) → DrawsOther id op → copies id db ≤ 1 → Bounded op db
  unfolding step grants releases copies left
  step-Bounded (create n now none token up) db other one = unfold Store.create in omega arith
  step-Bounded (create n now (some id') none up) db other one = unfold Store.create in omega arith
  step-Bounded (create n now (some id') (some token) up) db other one =
      create-Bounded n now id' token up db other
  step-Bounded (revoke id' now false up₂) db other one = unfold Store.revoke in omega arith
  step-Bounded (revoke id' now true up₂) db other one = rw (sessions-revoke id' now up₂ db) (
      omega (
        arith,
        left-stop id id' now db.sessions,
        count-stop id (can_revoke id') (stop now) db.sessions (λ r. refl),
      ))
  step-Bounded (reserve id' false) db other one = unfold Store.reserve in ground arith
  step-Bounded (reserve id' true) db other one = reserve-Bounded id' db
  step-Bounded (release id' false) db other one = unfold Store.release in ground arith
  step-Bounded (release id' true) db other one =
      unfold Store.release in
      ground (
        arith,
        left-give_back id id' db.sessions,
        count-stop id (has_id id') give_back db.sessions (λ r. refl),
      )
  step-Bounded (record_transfer s name size now tx) db other one =
      unfold Store.record_transfer in
      ground (
        arith,
        left-add_bytes id s.id size db.sessions,
        count-stop id (has_id s.id) (add_bytes size) db.sessions (λ r. refl),
      )
  step-Bounded (prune now false up₂) db other one = unfold Store.prune in omega arith
  step-Bounded (prune now true up₂) db other one = rw (sessions-prune now up₂ db) (
      omega (
        arith,
        left-filter id (recent_enough now) db.sessions,
        count-filter id (recent_enough now) db.sessions,
      ))

  -- Where at most one row has the id, and no later `Create` draws the id again: the successful
  -- `Reserve`s of the link, with the uses that are left, are at most the uses that were left before
  -- and the calls of `Release`, whatever other calls stand between them.
  pub count_grants-le :
      (ops : List Op) (db : Db)
      → All (DrawsOther id) ops
      → copies id db ≤ 1
      → count_grants sha256 id ops db + left id (run sha256 ops db)
        ≤ left id db + count_releases id ops
  unfolding run count_grants count_releases
  count_grants-le [] db _ one = omega arith
  count_grants-le (op ∷ ops) db (other, others) one =
      let (fewer, now) = step-Bounded op db other one in
      let later = count_grants-le ops (step sha256 op db) others (omega arith) in omega arith
