-- ===== src/Transfer/Receive/Counted.antt =====
-- internal/transfer/server.go: an upload is a run of the store's calls, in which every use that is
-- taken is a file that is saved or is given back.
use omarchy_vault.Prelude.{
  ℕ, suc, ◌+◌, ◌≤◌, ◌≡◌, refl, ap, ◌∙◌, subst, GoString, str_eq_refl, Option, none, some, List, [],
  ◌∷◌, ◌++◌, length, Result, ok, err, arith, All, All-append,
}
use omarchy_vault.Transfer.Session.{Session}
use omarchy_vault.Transfer.Tables.{Db, StoreError}
use omarchy_vault.Transfer.Store
use omarchy_vault.Transfer.Store.{Looked, usable, refused, failed}
use omarchy_vault.Transfer.Store.Runs.{
  Op, create, revoke, prune, reserve, release, record_transfer, step, run, grants, count_grants,
  releases, count_releases, DrawsOther,
}
use omarchy_vault.Transfer.Store.Uses.{left, copies, count_grants-le}
use omarchy_vault.Transfer.Names.{Runes}
use omarchy_vault.Transfer.Publish.{Kernel}
use omarchy_vault.Transfer.Save.{SaveError, save}
use omarchy_vault.Transfer.Receive.{
  FilePart, Part, interrupted, skipped, file, UploadError, Saved, room_for, utf8, Vault, OneReply,
  after_save, save_within, after_remaining, after_reserve, save_one, AllReply, after_one,
  receive_parts,
}

module _ (sha256 : GoString → GoString) (id : GoString) where
  run-append : (a b : List Op) (db : Db) → run sha256 (a ++ b) db ≡ run sha256 b (run sha256 a db)
  unfolding run
  run-append [] b db = refl
  run-append (op ∷ a) b db = run-append a b (step sha256 op db)

  count_grants-append :
      (a b : List Op) (db : Db)
      → count_grants sha256 id (a ++ b) db
        ≡ count_grants sha256 id a db + count_grants sha256 id b (run sha256 a db)
  unfolding run count_grants
  count_grants-append [] b db = omega arith
  count_grants-append (op ∷ a) b db = omega (arith, count_grants-append a b (step sha256 op db))

  count_releases-append :
      (a b : List Op) → count_releases id (a ++ b) ≡ count_releases id a + count_releases id b
  unfolding count_releases
  count_releases-append [] b = omega arith
  count_releases-append (op ∷ a) b = omega (arith, count_releases-append a b)

  -- The call is a `Reserve`, `Release` or `Record` of the link.
  abbrev pub OnLink : Op → Type 0
  OnLink (reserve id' up) = id' ≡ id
  OnLink (release id' up) = id' ≡ id
  OnLink (record_transfer sess name size now tx) = sess.id ≡ id
  OnLink _ = ⊥

  OnLink-DrawsOther : (op : Op) → OnLink op → DrawsOther id op
  OnLink-DrawsOther (create n now o token up) h = absurd h
  OnLink-DrawsOther (revoke id' now up up₂) h = absurd h
  OnLink-DrawsOther (reserve id' up) h = tt
  OnLink-DrawsOther (release id' up) h = tt
  OnLink-DrawsOther (record_transfer sess name size now tx) h = tt
  OnLink-DrawsOther (prune now up up₂) h = absurd h

  pub draw_other : (ops : List Op) → All OnLink ops → All (DrawsOther id) ops
  draw_other [] h = tt
  draw_other (op ∷ ops) (h, hs) = (OnLink-DrawsOther op h, draw_other ops hs)

  -- The second database comes from the first by calls of `Reserve`, `Release` and `Record` for the link
  -- alone, in which the successful calls of `Reserve` are the calls of `Release` and `n` more.
  abbrev pub Uses : ℕ → Db → Db → Type 0
  Uses n db db' =
      (ops : List Op) × (run sha256 ops db ≡ db')
      × All OnLink ops
      × (count_grants sha256 id ops db ≡ count_releases id ops + n)

  Uses-refl : (db : Db) → Uses 0 db db
  unfolding run count_grants count_releases
  Uses-refl db = ([], refl, tt, refl)

  Uses-trans : (n m : ℕ) (a b c : Db) → Uses n a b → Uses m b c → Uses (n + m) a c
  Uses-trans n m a b c (ops, to_b, draws, uses) (ops', to_c, draws', uses') =
      let more : count_grants sha256 id ops' (run sha256 ops a) ≡ count_releases id ops' + m =
        ap (count_grants sha256 id ops') to_b ∙ uses' in
      (
        ops ++ ops',
        run-append ops ops' a ∙ ap (run sha256 ops') to_b ∙ to_c,
        All-append OnLink ops ops' draws draws',
        omega (arith, count_grants-append ops ops' a, count_releases-append ops ops'),
      )

abbrev pub one_if : {A : Type 0} → Result UploadError A → ℕ
one_if (ok _) = 1
one_if (err _) = 0

module _ (sha256 : GoString → GoString) (K : Kernel) (sess : Session) where
  module _ (p : FilePart) (db db' : Db) where
    Uses-reserve_fails :
        (e : StoreError)
        → Store.reserve sess.id p.reserve_up db ≡ (db', err e)
        → Uses sha256 sess.id 0 db db'
    unfolding run step grants count_grants count_releases releases
    Uses-reserve_fails e h =
        (reserve sess.id p.reserve_up ∷ [], ap (λ q. q.0) h, (refl, tt), rw (str_eq_refl, h) refl)

    module _ (u : Unit {0}) (h : Store.reserve sess.id p.reserve_up db ≡ (db', ok u)) where
      Uses-release : Uses sha256 sess.id 0 db (Store.release sess.id p.release_up db')
      unfolding run step grants count_grants count_releases releases
      Uses-release = (
        reserve sess.id p.reserve_up ∷ release sess.id p.release_up ∷ [],
        ap (λ q. Store.release sess.id p.release_up q.0) h,
        (refl, (refl, tt)),
        rw (str_eq_refl, h) refl,
      )

      Uses-record_transfer :
          (name : Runes) (size : ℕ)
          → Uses sha256 sess.id 1 db (Store.record_transfer sess (utf8 name) size p.now p.tx db').0
      unfolding run step grants count_grants count_releases releases
      Uses-record_transfer name size = (
        reserve sess.id p.reserve_up ∷ record_transfer sess (utf8 name) size p.now p.tx ∷ [],
        ap (λ q. (Store.record_transfer sess (utf8 name) size p.now p.tx q.0).0) h,
        (refl, (refl, tt)),
        rw (str_eq_refl, h) refl,
      )

      after_save-Uses :
          (q : K.Folder × Result SaveError Saved)
          → Uses sha256 sess.id
              (one_if (after_save K sess p db' q).1)
              db
              (after_save K sess p db' q).0.0
      after_save-Uses (fs, err e) = Uses-release
      after_save-Uses (fs, ok (name, size)) = Uses-record_transfer name size

      save_within-Uses :
          (o : Option ℕ) (fs : K.Folder)
          → Uses sha256 sess.id
              (one_if (save_within K sess p o (db', fs)).1)
              db
              (save_within K sess p o (db', fs)).0.0
      save_within-Uses none fs = Uses-release
      save_within-Uses (some limit) fs = after_save-Uses (save K p.file_name p.upload limit fs)

      after_remaining-Uses :
          (r : Result StoreError ℕ) (fs : K.Folder)
          → Uses sha256 sess.id
              (one_if (after_remaining K sess p r (db', fs)).1)
              db
              (after_remaining K sess p r (db', fs)).0.0
      after_remaining-Uses (err e) fs = Uses-release
      after_remaining-Uses (ok rest) fs = save_within-Uses (room_for p.free rest) fs

  after_reserve-Uses :
      (p : FilePart) (db : Db) (fs : K.Folder) (q : Db × Result StoreError Unit)
      → Store.reserve sess.id p.reserve_up db ≡ q
      → Uses sha256 sess.id
          (one_if (after_reserve K sess p fs q).1)
          db
          (after_reserve K sess p fs q).0.0
  after_reserve-Uses p db fs (db', err e) h = Uses-reserve_fails p db db' e h
  after_reserve-Uses p db fs (db', ok u) h =
      after_remaining-Uses p db db' u h (Store.remaining sess.id p.remaining_up db') fs

  save_one-Uses :
      (p : FilePart) (v : Vault K)
      → Uses sha256 sess.id (one_if (save_one K sess p v).1) v.0 (save_one K sess p v).0.0
  unfolding save_one
  save_one-Uses p (db, fs) = after_reserve-Uses p db fs (Store.reserve sess.id p.reserve_up db) refl

  after_one-Uses :
      (next : Vault K → AllReply K) (q : OneReply K) (db : Db)
      → Uses sha256 sess.id (one_if q.1) db q.0.0
      → ((v : Vault K) → Uses sha256 sess.id (length (next v).1.0) v.0 (next v).0.0)
      → Uses sha256 sess.id (length (after_one K next q).1.0) db (after_one K next q).0.0
  after_one-Uses next (v, err e) db one rest = one
  after_one-Uses next (v, ok item) db one rest =
      let n = length (next v).1.0 in
      let more : 1 + n ≡ suc n = omega arith in
      subst (λ k. Uses sha256 sess.id k db (next v).0.0) more
        (Uses-trans sha256 sess.id 1 n db v.0 (next v).0.0 one (rest v))

  -- The parts of an upload that are received run calls of `Reserve`, `Release` and `Record` for the link
  -- and no others, in which the successful calls of `Reserve` are those of `Release` and one for each
  -- saved file.
  pub receive_parts-Uses :
      (ps : List Part) (v : Vault K)
      → Uses sha256 sess.id
          (length (receive_parts K sess ps v).1.0)
          v.0
          (receive_parts K sess ps v).0.0
  unfolding receive_parts
  receive_parts-Uses [] v = Uses-refl sha256 sess.id v.0
  receive_parts-Uses (interrupted ∷ ps) v = Uses-refl sha256 sess.id v.0
  receive_parts-Uses (skipped ∷ ps) v = receive_parts-Uses ps v
  receive_parts-Uses (file p ∷ ps) v =
      after_one-Uses (λ t. receive_parts K sess ps t) (save_one K sess p v) v.0 (save_one-Uses p v)
        (λ t. receive_parts-Uses ps t)

-- Where at most one row has the id of the link, an upload saves no more files than the link has uses
-- left, and each takes one.
pub length-receive_parts :
    (K : Kernel) (sess : Session) (ps : List Part) (v : Vault K)
    → copies sess.id v.0 ≤ 1
    → length (receive_parts K sess ps v).1.0 + left sess.id (receive_parts K sess ps v).0.0
      ≤ left sess.id v.0
length-receive_parts K sess ps v one =
    let (ops, same, draws, uses) = receive_parts-Uses (λ t. t) K sess ps v in
    let bound =
      count_grants-le (λ t. t) sess.id ops v.0 (draw_other (λ t. t) sess.id ops draws) one in
    let after = ap (left sess.id) same in omega arith
