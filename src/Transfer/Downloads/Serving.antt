-- ===== src/Transfer/Downloads/Serving.antt =====
-- internal/transfer/serve_download.go: what serving a file leaves alone, and whose file it is.
use omarchy_vault.Prelude.{
  ◌≡◌, refl, ap, sym, ◌∙◌, inl, inr, GoString, Bool, not, ◌&&◌, if-true, if-false, Option, none,
  some, [], Result, ok, err, arith, Bool-cases,
}
use omarchy_vault.Transfer.Session.{Kind, share, Session}
use omarchy_vault.Transfer.Tables.{Db, StoreError}
use omarchy_vault.Transfer.Store.{reserve}
use omarchy_vault.Transfer.Downloads.{
  Phones, FileInfo, Fetch, FetchReply, sent, Access, denied, granted, usable_after, after_reserve,
  count, send_open, send, share_unlocked_for, serve_share, serve_download, look_up, is_local,
  share_file, download_file,
}

-- Serving a file gives no grant.
unlocked-after_reserve :
    (sess : Session) (f : Fetch) (key : GoString) (info : FileInfo)
    (q : Db × Result StoreError Unit) (s : Phones)
    → (after_reserve sess f key info q s).0.unlocked ≡ s.unlocked
unlocked-after_reserve sess f key info (db, err e) s = refl
unlocked-after_reserve sess f key info (db, ok u) s = refl

unlocked-send_open :
    (sess : Session) (f : Fetch) (key : GoString) (counted : Bool) (o : Option FileInfo)
    (s : Phones)
    → (send_open sess f key counted o s).0.unlocked ≡ s.unlocked
unfolding count
unlocked-send_open sess f key counted none s = refl
unlocked-send_open sess f key counted (some info) s = elim (Bool-cases (not counted && f.is_get)) [
  | inl new ↦
      ap (λ (r : Phones × FetchReply). r.0.unlocked) (if-true _ _ new)
      ∙ unlocked-after_reserve sess f key info (reserve sess.id f.reserve_up s.db) s
  | inr old ↦ ap (λ (r : Phones × FetchReply). r.0.unlocked) (if-false _ _ old)
]

unlocked-send :
    (sess : Session) (f : Fetch) (key : GoString) (counted : Bool) (s : Phones)
    → (send sess f key counted s).0.unlocked ≡ s.unlocked
unfolding send
unlocked-send sess f key counted s = elim (Bool-cases f.opens) [
  | inl there ↦
      ap (λ (r : Phones × FetchReply). r.0.unlocked) (if-true _ _ there)
      ∙ unlocked-send_open sess f key counted f.found s
  | inr gone ↦ ap (λ (r : Phones × FetchReply). r.0.unlocked) (if-false _ _ gone)
]

unlocked-serve_share :
    (a : Access) (f : Fetch) (key : GoString) (s : Phones)
    → (serve_share a f key s).0.unlocked ≡ s.unlocked
unlocked-serve_share (denied e) f key s = refl
unlocked-serve_share (granted sess counted) f key s =
    elim (Bool-cases (share_unlocked_for f.cookie f.unlocked_at sess s)) [
      | inl shown ↦
          ap (λ (r : Phones × FetchReply). r.0.unlocked) (if-true _ _ shown)
          ∙ unlocked-send sess f key counted s
      | inr closed ↦ ap (λ (r : Phones × FetchReply). r.0.unlocked) (if-false _ _ closed)
    ]

unlocked-serve_download :
    (a : Access) (f : Fetch) (s : Phones) → (serve_download a f s).0.unlocked ≡ s.unlocked
unlocked-serve_download (denied e) f s = refl
unlocked-serve_download (granted sess counted) f s = elim (Bool-cases (is_local sess)) [
  | inl here ↦
      ap (λ (r : Phones × FetchReply). r.0.unlocked) (if-true _ _ here)
      ∙ unlocked-send_open sess f [] counted f.found s
  | inr there ↦
      ap (λ (r : Phones × FetchReply). r.0.unlocked) (if-false _ _ there)
      ∙ unlocked-send sess f [] counted s
]

pub unlocked-share_file :
    (sha256 : GoString → GoString) (f : Fetch) (key : GoString) (s : Phones)
    → (share_file sha256 f key s).0.unlocked ≡ s.unlocked
unfolding share_file
unlocked-share_file sha256 f key s =
    let found = look_up sha256 share f s in
    unlocked-serve_share (usable_after found.1 f.client_ip key f.counted_at s) f key
      (record s { limiter = found.0 })

pub unlocked-download_file :
    (sha256 : GoString → GoString) (f : Fetch) (s : Phones)
    → (download_file sha256 f s).0.unlocked ≡ s.unlocked
unfolding download_file
unlocked-download_file sha256 f s =
    let found = look_up sha256 Kind.download f s in
    unlocked-serve_download (usable_after found.1 f.client_ip [] f.counted_at s) f
      (record s { limiter = found.0 })

sent-after_reserve :
    (sess : Session) (f : Fetch) (key : GoString) (info : FileInfo)
    (q : Db × Result StoreError Unit) (s : Phones) (sess' : Session)
    → (after_reserve sess f key info q s).1 ≡ sent sess'
    → sess ≡ sess'
sent-after_reserve sess f key info (db, err e) s sess' h = absurd (ground arith)
sent-after_reserve sess f key info (db, ok u) s sess' h = ground arith

sent-send_open :
    (sess : Session) (f : Fetch) (key : GoString) (counted : Bool) (o : Option FileInfo)
    (s : Phones) (sess' : Session)
    → (send_open sess f key counted o s).1 ≡ sent sess'
    → sess ≡ sess'
unfolding count
sent-send_open sess f key counted none s sess' h = absurd (ground arith)
sent-send_open sess f key counted (some info) s sess' h =
    elim (Bool-cases (not counted && f.is_get)) [
      | inl new ↦
          sent-after_reserve sess f key info (reserve sess.id f.reserve_up s.db) s sess'
            (ap (λ (r : Phones × FetchReply). r.1) (sym (if-true _ _ new)) ∙ h)
      | inr old ↦
          let e = ap (λ (r : Phones × FetchReply). r.1) (sym (if-false _ _ old)) ∙ h in ground arith
    ]

pub sent-send :
    (sess : Session) (f : Fetch) (key : GoString) (counted : Bool) (s : Phones) (sess' : Session)
    → (send sess f key counted s).1 ≡ sent sess'
    → sess ≡ sess'
unfolding send
sent-send sess f key counted s sess' h = elim (Bool-cases f.opens) [
  | inl there ↦
      sent-send_open sess f key counted f.found s sess'
        (ap (λ (r : Phones × FetchReply). r.1) (sym (if-true _ _ there)) ∙ h)
  | inr gone ↦
      let e = ap (λ (r : Phones × FetchReply). r.1) (sym (if-false _ _ gone)) ∙ h in
      absurd (ground arith)
]
