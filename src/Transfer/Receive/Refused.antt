-- ===== src/Transfer/Receive/Refused.antt =====
-- internal/transfer/server.go: what an upload leaves alone, and what one that fails leaves.
use omarchy_vault.Prelude.{
  ℕ, ◌≤◌, ◌≡◌, ◌≢◌, refl, ap, sym, ◌∙◌, subst, inl, inr, GoString, Bool, true, false, Bool-cases,
  if-true, if-false, Option, none, some, List, [], ◌∷◌, filter, length, Result, ok, err, arith,
}
use omarchy_vault.Auth.Limiter.{Limiter}
use omarchy_vault.Transfer.Session.{Kind, Session}
use omarchy_vault.Transfer.Tables.{Row, Db, StoreError, update}
use omarchy_vault.Transfer.Store
use omarchy_vault.Transfer.Store.{Looked, usable, refused, failed, can_reserve, use_once}
use omarchy_vault.Transfer.Store.Uses.{copies}
use omarchy_vault.Transfer.Store.Retention.{release-reserve}
use omarchy_vault.Transfer.Names.{Runes}
use omarchy_vault.Transfer.Publish.{Kernel}
use omarchy_vault.Transfer.Save.{SaveError, save}
use omarchy_vault.Transfer.Save.Kept.{content-save}
use omarchy_vault.Transfer.Receive.{
  FilePart, Part, interrupted, skipped, file, Body, not_form, no_boundary, parts, Drive,
  UploadError, Saved, room_for, lookup_kind, Vault, OneReply, after_save, save_within,
  after_remaining, after_reserve, save_one, AllReply, after_one, receive_parts, receive_body,
  receive_for, receive,
}

module _ (K : Kernel) (x : Runes) where
  -- The file of the name is as it was, if there was one.
  abbrev Holds : K.Folder → K.Folder → Type 0
  Holds s s' = K.content s x ≢ none → K.content s' x ≡ K.content s x

  Holds-trans : (a b c : K.Folder) → Holds a b → Holds b c → Holds a c
  Holds-trans a b c h k held = k (λ e. held (sym (h held) ∙ e)) ∙ h held

  after_save-Holds :
      (sess : Session) (p : FilePart) (db : Db) (s : K.Folder)
      (q : K.Folder × Result SaveError Saved)
      → Holds s q.0
      → Holds s (after_save K sess p db q).0.1
  after_save-Holds sess p db s (fs, err e) h = h
  after_save-Holds sess p db s (fs, ok (name, size)) h = h

  save_within-Holds :
      (sess : Session) (p : FilePart) (o : Option ℕ) (v : Vault K)
      → Holds v.1 (save_within K sess p o v).0.1
  save_within-Holds sess p none (db, fs) = λ held. refl
  save_within-Holds sess p (some limit) (db, fs) =
      after_save-Holds sess p db fs (save K p.file_name p.upload limit fs)
        (content-save K p.file_name p.upload limit fs x)

  after_remaining-Holds :
      (sess : Session) (p : FilePart) (r : Result StoreError ℕ) (v : Vault K)
      → Holds v.1 (after_remaining K sess p r v).0.1
  after_remaining-Holds sess p (err e) (db, fs) = λ held. refl
  after_remaining-Holds sess p (ok rest) v = save_within-Holds sess p (room_for p.free rest) v

  after_reserve-Holds :
      (sess : Session) (p : FilePart) (fs : K.Folder) (q : Db × Result StoreError Unit)
      → Holds fs (after_reserve K sess p fs q).0.1
  after_reserve-Holds sess p fs (db, err e) = λ held. refl
  after_reserve-Holds sess p fs (db, ok u) =
      after_remaining-Holds sess p (Store.remaining sess.id p.remaining_up db) (db, fs)

  save_one-Holds :
      (sess : Session) (p : FilePart) (v : Vault K) → Holds v.1 (save_one K sess p v).0.1
  unfolding save_one
  save_one-Holds sess p (db, fs) =
      after_reserve-Holds sess p fs (Store.reserve sess.id p.reserve_up db)

  after_one-Holds :
      (next : Vault K → AllReply K) (q : OneReply K) (s : K.Folder)
      → Holds s q.0.1
      → ((v : Vault K) → Holds v.1 (next v).0.1)
      → Holds s (after_one K next q).0.1
  after_one-Holds next (v, err e) s h rest = h
  after_one-Holds next (v, ok item) s h rest = Holds-trans s v.1 (next v).0.1 h (rest v)

  receive_parts-Holds :
      (sess : Session) (ps : List Part) (v : Vault K) → Holds v.1 (receive_parts K sess ps v).0.1
  unfolding receive_parts
  receive_parts-Holds sess [] v = λ held. refl
  receive_parts-Holds sess (interrupted ∷ ps) v = λ held. refl
  receive_parts-Holds sess (skipped ∷ ps) v = receive_parts-Holds sess ps v
  receive_parts-Holds sess (file p ∷ ps) v =
      after_one-Holds (λ t. receive_parts K sess ps t) (save_one K sess p v) v.1
        (save_one-Holds sess p v) (λ t. receive_parts-Holds sess ps t)

  receive_body-Holds :
      (sess : Session) (opens : Bool) (body : Body) (v : Vault K)
      → Holds v.1 (receive_body K sess opens body v).0.1
  receive_body-Holds sess opens not_form v = λ held. refl
  receive_body-Holds sess opens no_boundary v = λ held. refl
  receive_body-Holds sess true (parts ps) v = receive_parts-Holds sess ps v
  receive_body-Holds sess false (parts ps) v = λ held. refl

  receive_for-Holds :
      (looked : Looked) (drive : Drive) (body : Body) (v : Vault K)
      → Holds v.1 (receive_for K looked drive body v).0.1
  receive_for-Holds (usable sess) drive body v = elim (Bool-cases drive.is_found) [
    | inl here ↦
        subst (λ (r : AllReply K). Holds v.1 r.0.1) (sym (if-true _ _ here))
          (receive_body-Holds sess drive.opens body v)
    | inr gone ↦ λ held. ap (λ (r : AllReply K). K.content r.0.1 x) (if-false _ _ gone)
  ]
  receive_for-Holds (refused s e) drive body v = λ held. refl
  receive_for-Holds (failed e) drive body v = λ held. refl

-- An upload by any phone with any token and body replaces no file: each that was in the folder holds
-- what it held.
pub content-receive :
    (K : Kernel) (sha256 : GoString → GoString) (ip token : GoString) (now : ℕ) (up : Bool)
    (drive : Drive) (body : Body) (l : Limiter) (db : Db) (fs : K.Folder) (x : Runes)
    → K.content fs x ≢ none
    → K.content (receive K sha256 ip token now up drive body l (db, fs)).1.0.1 x ≡ K.content fs x
unfolding receive
content-receive K sha256 ip token now up drive body l db fs x =
    receive_for-Holds K x (lookup_kind sha256 ip token Kind.upload now up db l).1 drive body
      (db, fs)

update_none :
    (p : Row → Bool) (f : Row → Row) (rows : List Row)
    → length (filter p rows) ≡ 0
    → update p f rows ≡ rows
update_none p f [] h = refl
update_none p f (r ∷ rows) h = ground (arith, update_none p f rows)

-- A `Reserve` that fails changes nothing.
reserve_fails :
    (id : GoString) (up : Bool) (db db' : Db) (e : StoreError)
    → Store.reserve id up db ≡ (db', err e)
    → db' ≡ db
unfolding Store.reserve
reserve_fails id false db db' e h = sym (ap (λ q. q.0) h)
reserve_fails id true db db' e h =
    let same = update_none (can_reserve id) use_once db.sessions in ground arith

reserve_up :
    (id : GoString) (up : Bool) (db db' : Db) (u : Unit {0})
    → Store.reserve id up db ≡ (db', ok u)
    → up ≡ true
unfolding Store.reserve
reserve_up id false db db' u h = absurd (ground arith)
reserve_up id true db db' u h = refl

module _ (K : Kernel) (sess : Session) (p : FilePart) (db : Db) where
  -- An error with the database as it was at first.
  abbrev Restores : OneReply K → Type 0
  Restores (v, err e) = v.0 ≡ db
  Restores (v, ok item) = Unit {0}

  module _ (db' : Db) (back : Store.release sess.id p.release_up db' ≡ db) where
    after_save-Restores :
        (q : K.Folder × Result SaveError Saved) → Restores (after_save K sess p db' q)
    after_save-Restores (fs, err e) = back
    after_save-Restores (fs, ok (name, size)) = tt

    save_within-Restores :
        (o : Option ℕ) (fs : K.Folder) → Restores (save_within K sess p o (db', fs))
    save_within-Restores none fs = back
    save_within-Restores (some limit) fs =
        after_save-Restores (save K p.file_name p.upload limit fs)

    after_remaining-Restores :
        (r : Result StoreError ℕ) (fs : K.Folder) → Restores (after_remaining K sess p r (db', fs))
    after_remaining-Restores (err e) fs = back
    after_remaining-Restores (ok rest) fs = save_within-Restores (room_for p.free rest) fs

  after_reserve-Restores :
      (fs : K.Folder) (q : Db × Result StoreError Unit)
      → copies sess.id db ≤ 1
      → p.release_up ≡ true
      → Store.reserve sess.id p.reserve_up db ≡ q
      → Restores (after_reserve K sess p fs q)
  after_reserve-Restores fs (db', err e) one up h = reserve_fails sess.id p.reserve_up db db' e h
  after_reserve-Restores fs (db', ok u) one up h =
      let was_up = reserve_up sess.id p.reserve_up db db' u h in
      let reserved = subst (λ b. Store.reserve sess.id b db ≡ (db', ok tt)) was_up h in
      let back =
        subst (λ b. Store.release sess.id b db' ≡ db) (sym up)
          (release-reserve sess.id db db' one reserved) in
      after_remaining-Restores db' back (Store.remaining sess.id p.remaining_up db') fs

  Restores-err : (q : OneReply K) (e : UploadError) → Restores q → q.1 ≡ err e → q.0.0 ≡ db
  Restores-err (v, err f) e h is = h
  Restores-err (v, ok item) e h is = absurd (ground arith)

  -- A file that cannot be saved costs the link nothing: where one row at most has the id and the
  -- statement of `Release` succeeds, the database is as it was.
  pub save_one_refused :
      (fs : K.Folder) (e : UploadError)
      → copies sess.id db ≤ 1
      → p.release_up ≡ true
      → (save_one K sess p (db, fs)).1 ≡ err e
      → (save_one K sess p (db, fs)).0.0 ≡ db
  unfolding save_one
  save_one_refused fs e one up h =
      Restores-err (save_one K sess p (db, fs)) e
        (after_reserve-Restores fs (Store.reserve sess.id p.reserve_up db) one up refl) h
