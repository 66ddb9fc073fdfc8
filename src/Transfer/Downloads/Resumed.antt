-- ===== src/Transfer/Downloads/Resumed.antt =====
-- internal/transfer/serve_download.go: a device pays for a file once.
use omarchy_vault.Prelude.{
  ℕ, ◌<◌, ◌≡◌, refl, ap, sym, ◌∙◌, subst, ◌⊎◌, inl, inr, GoString, str_eq_refl, true, if-true,
  if-false, Option, none, some, Result, ok, err, arith, Bool-cases,
}
use omarchy_vault.Prelude.Dict
use omarchy_vault.Auth.Limiter.{Limiter}
use omarchy_vault.Transfer.Session.{Session}
use omarchy_vault.Transfer.Tables.{Db, StoreError, used_up}
use omarchy_vault.Transfer.Store.{Looked, usable, refused, reserve}
use omarchy_vault.Transfer.Downloads.{
  Phones, FileInfo, Fetch, FetchReply, sent, counted_key, was_counted, usable_after, granted,
  after_reserve, count, send_open, send, serve_share, share_unlocked_for, share_after,
}

-- The link can be used, or is used up.
abbrev pub IsKnown : Looked → Session → Type 0
IsKnown looked sess = (looked ≡ usable sess) ⊎ (looked ≡ refused sess used_up)

counted_after_reserve :
    (sess : Session) (f : Fetch) (key : GoString) (info : FileInfo)
    (q : Db × Result StoreError Unit) (s : Phones) (now : ℕ)
    → (after_reserve sess f key info q s).1 ≡ sent sess
    → now < sess.expires_at
    → was_counted sess.id f.client_ip key now (after_reserve sess f key info q s).0 ≡ true
unfolding was_counted
counted_after_reserve sess f key info (db, err e) s now h soon = absurd (ground arith)
counted_after_reserve sess f key info (db, ok u) s now h soon =
    let k = counted_key sess.id f.client_ip key in
    rw (Dict.lookup-insert k k sess.expires_at s.counted, str_eq_refl) (ground arith)

-- After a device was counted, the link is granted to it, used up or not, without another count.
granted-count :
    (sess sess' : Session) (f : Fetch) (key : GoString) (info : FileInfo) (s : Phones)
    (looked : Looked) (now : ℕ)
    → (count sess f key info s).1 ≡ sent sess
    → now < sess.expires_at
    → sess'.id ≡ sess.id
    → IsKnown looked sess'
    → usable_after looked f.client_ip key now (count sess f key info s).0 ≡ granted sess' true
unfolding count
granted-count sess sess' f key info s looked now h soon same known =
    let t = (count sess f key info s).0 in
    let was : was_counted sess'.id f.client_ip key now t ≡ true =
      subst (λ id. was_counted id f.client_ip key now t ≡ true) (sym same)
        (counted_after_reserve sess f key info (reserve sess.id f.reserve_up s.db) s now h soon) in
    elim known [
      | inl usable_so ↦
          ap (λ x. usable_after x f.client_ip key now t) usable_so ∙ ap (granted sess') was
      | inr full_so ↦ ap (λ x. usable_after x f.client_ip key now t) full_so ∙ if-true _ _ was
    ]

db-send_open :
    (sess : Session) (f : Fetch) (key : GoString) (o : Option FileInfo) (s : Phones)
    → (send_open sess f key true o s).0 ≡ s
db-send_open sess f key none s = refl
db-send_open sess f key (some info) s = refl

db-serve_share :
    (sess : Session) (f : Fetch) (key : GoString) (s : Phones)
    → (serve_share (granted sess true) f key s).0 ≡ s
unfolding send
db-serve_share sess f key s = elim (Bool-cases (share_unlocked_for f.cookie f.unlocked_at sess s)) [
  | inr closed ↦ ap (λ (r : Phones × FetchReply). r.0) (if-false _ _ closed)
  | inl shown ↦
      ap (λ (r : Phones × FetchReply). r.0) (if-true _ _ shown) ∙ elim (Bool-cases f.opens) [
        | inr gone ↦ ap (λ (r : Phones × FetchReply). r.0) (if-false _ _ gone)
        | inl there ↦
            ap (λ (r : Phones × FetchReply). r.0) (if-true _ _ there)
            ∙ db-send_open sess f key f.found s
      ]
]

-- In the state right after a device was counted for a file of a share link, before the link expires, and
-- where the look-up finds the link usable or used up, the same device fetches the file again at no cost:
-- the link is granted, and the database stays as it is.
pub share_after-count :
    (sess sess' : Session) (f f' : Fetch) (key : GoString) (info : FileInfo) (s : Phones)
    (l : Limiter) (looked : Looked)
    → (count sess f key info s).1 ≡ sent sess
    → f'.counted_at < sess.expires_at
    → f'.client_ip ≡ f.client_ip
    → sess'.id ≡ sess.id
    → IsKnown looked sess'
    → (usable_after looked f'.client_ip key f'.counted_at (count sess f key info s).0
        ≡ granted sess' true)
      × ((share_after (λ t. t) (l, looked) f' key (count sess f key info s).0).0.db
          ≡ (count sess f key info s).0.db)
share_after-count sess sess' f f' key info s l looked h soon device same known =
    let t = (count sess f key info s).0 in
    let given =
      subst (λ ip. usable_after looked ip key f'.counted_at t ≡ granted sess' true) (sym device)
        (granted-count sess sess' f key info s looked f'.counted_at h soon same known) in
    let t' = record t { limiter = l } in
    (
      given,
      ap (λ a. (serve_share a f' key t').0.db) given
          ∙ ap (λ (p : Phones). p.db) (db-serve_share sess' f' key t'),
    )
