-- ===== src/Transfer/Downloads.antt =====
-- internal/transfer/serve_download.go: downloads of links, which count once per device and file, and
-- the passwords of share links. What `Stat` and `Walk` say of a file, and its bytes, are left out.
pub mod Serving
pub mod Passwords
pub mod Resumed
mod Tests
use omarchy_vault.Prelude.{
  ℕ, ◌+◌, ◌*◌, ◌++◌, GoString, codes, str_eq, has_prefix, Bool, true, false, not, ◌&&◌, ltb,
  if◌then◌else◌, Option, none, some, List, [], ◌∷◌, length, filter, Result, ok, err,
}
use omarchy_vault.Prelude.Dict
use omarchy_vault.Auth.Limiter.{Limiter, blocked, fail, succeed}
use omarchy_vault.Transfer.Session.{Kind, download, share, Session, check_password}
use omarchy_vault.Transfer.Tables.{Db, StoreError, used_up}
use omarchy_vault.Transfer.Store.{
  Looked, usable, refused, failed, TxReplies, reserve, record_transfer,
}
use omarchy_vault.Transfer.Receive.{lookup_kind}

-- `grant`
pub record Grant : Type 0 where
  pub session : GoString
  pub expires : ℕ

-- `Server`, as far as downloads go
pub record Phones : Type 0 where
  pub db : Db
  pub limiter : Limiter
  pub counted : List (GoString × ℕ)
  pub unlocked : List (GoString × Grant)

pub record FileInfo : Type 0 where
  pub file_name : GoString
  pub size : ℕ

-- A request for a file: what it carries, the readings of the clock, and what the environment answers.
pub record Fetch : Type 0 where
  pub token : GoString
  pub client_ip : GoString
  pub is_get : Bool
  pub cookie : Option GoString
  pub looked_at : ℕ
  pub counted_at : ℕ
  pub unlocked_at : ℕ
  pub recorded_at : ℕ
  pub lookup_up : Bool
  pub reserve_up : Bool
  pub tx : TxReplies
  pub opens : Bool
  pub found : Option FileInfo

pub data FetchReply : Type 0 where
  ended : Looked → FetchReply
  to_password offline missing full : FetchReply
  sent : Session → FetchReply

abbrev pub counted_key : GoString → GoString → GoString → GoString
counted_key id ip key = id ++ codes "|" ++ ip ++ codes "|" ++ key

abbrev pub is_before : ℕ → Option ℕ → Bool
is_before now none = false
is_before now (some exp) = ltb now exp

-- `wasCounted`
unfoldable pub was_counted : GoString → GoString → GoString → ℕ → Phones → Bool
was_counted id ip key now s = is_before now (Dict.lookup (counted_key id ip key) s.counted)

-- `usable` gives a session, and whether the device was counted, or an error.
pub data Access : Type 0 where
  denied : Looked → Access
  granted : Session → Bool → Access

-- `usable` after the look-up
abbrev pub usable_after : Looked → GoString → GoString → ℕ → Phones → Access
usable_after (usable sess) ip key now s = granted sess (was_counted sess.id ip key now s)
usable_after (refused sess used_up) ip key now s =
    if was_counted sess.id ip key now s then granted sess true else denied (refused sess used_up)
usable_after looked ip key now s = denied looked

-- `count` after `Reserve`
abbrev pub after_reserve :
    Session
    → Fetch
    → GoString
    → FileInfo
    → Db × Result StoreError Unit
    → Phones
    → Phones × FetchReply
after_reserve sess f key info (db, err e) s = (record s { db = db }, full)
after_reserve sess f key info (db, ok _) s = (
  record s {
    db = (record_transfer sess info.file_name info.size f.recorded_at f.tx db).0;
    counted = Dict.insert (counted_key sess.id f.client_ip key) sess.expires_at s.counted;
  },
  sent sess,
)

-- `count`
unfoldable pub count : Session → Fetch → GoString → FileInfo → Phones → Phones × FetchReply
count sess f key info s = after_reserve sess f key info (reserve sess.id f.reserve_up s.db) s

-- `send`, and `sendLocal`, once the file is open
abbrev pub send_open :
    Session → Fetch → GoString → Bool → Option FileInfo → Phones → Phones × FetchReply
send_open sess f key counted none s = (s, missing)
send_open sess f key counted (some info) s =
    if not counted && f.is_get then count sess f key info s else (s, sent sess)

-- `send`
unfoldable pub send : Session → Fetch → GoString → Bool → Phones → Phones × FetchReply
send sess f key counted s = if f.opens then send_open sess f key counted f.found s else (s, offline)

abbrev pub holds_for : Session → ℕ → Option Grant → Bool
holds_for sess now none = false
holds_for sess now (some g) = str_eq g.session sess.id && ltb now g.expires

abbrev pub grant_of : Option GoString → Phones → Option Grant
grant_of none s = none
grant_of (some c) s = Dict.lookup c s.unlocked

-- `shareUnlockedFor`
unfoldable pub share_unlocked_for : Option GoString → ℕ → Session → Phones → Bool
share_unlocked_for cookie now sess s =
    if not sess.has_password then true else holds_for sess now (grant_of cookie s)

abbrev pub serve_share : Access → Fetch → GoString → Phones → Phones × FetchReply
serve_share (denied e) f key s = (s, ended e)
serve_share (granted sess counted) f key s =
    if share_unlocked_for f.cookie f.unlocked_at sess s
    then send sess f key counted s
    else (s, to_password)

-- `IsLocal`
abbrev pub is_local : Session → Bool
is_local sess = has_prefix sess.path (codes "/")

abbrev pub serve_download : Access → Fetch → Phones → Phones × FetchReply
serve_download (denied e) f s = (s, ended e)
serve_download (granted sess counted) f s =
    if is_local sess then send_open sess f [] counted f.found s else send sess f [] counted s

-- A request to unlock a share link, with the readings of the clock and the draw of the cookie.
pub record Unlock : Type 0 where
  pub token : GoString
  pub client_ip : GoString
  pub password : GoString
  pub looked_at : ℕ
  pub blocked_at : ℕ
  pub failed_at : ℕ
  pub granted_at : ℕ
  pub lookup_up : Bool
  pub draw : Option GoString

pub data UnlockReply : Type 0 where
  link_ended : Looked → UnlockReply
  locked wrong_password went_wrong : UnlockReply
  opened : GoString → UnlockReply

abbrev pub max_unlocked : ℕ
max_unlocked = 10000

abbrev pub twelve_hours : ℕ
twelve_hours = 12 * 3600 * 1000000000

abbrev pub new_grant : Session → ℕ → Grant
new_grant sess now = record {
  session = sess.id;
  expires =
      if ltb (now + twelve_hours) sess.expires_at then now + twelve_hours else sess.expires_at;
}

abbrev pub give_cookie : Option GoString → Session → Unlock → Phones → Phones × UnlockReply
give_cookie none sess q s = (s, went_wrong)
give_cookie (some value) sess q s =
    let grants = if ltb max_unlocked (length s.unlocked) then [] else s.unlocked in
    (record s { unlocked = Dict.insert value (new_grant sess q.granted_at) grants }, opened value)

abbrev pub share_keys : GoString → List GoString
share_keys ip = (codes "share:" ++ ip) ∷ []

module _ (verify : GoString → GoString → Bool) where
  abbrev pub unlock_session : Session → Unlock → Phones → Phones × UnlockReply
  unlock_session sess q s =
      if (blocked q.blocked_at s.limiter (share_keys q.client_ip)).1
      then (s, locked)
      else if not (check_password verify sess q.password)
      then (
        record s { limiter = fail q.failed_at (share_keys q.client_ip) s.limiter },
        wrong_password,
      )
      else give_cookie q.draw sess q
          (record s { limiter = succeed (share_keys q.client_ip) s.limiter })

  abbrev pub unlock_after : Limiter × Looked → Unlock → Phones → Phones × UnlockReply
  unlock_after (l, usable sess) q s = unlock_session sess q (record s { limiter = l })
  unlock_after (l, looked) q s = (record s { limiter = l }, link_ended looked)

  -- `shareUnlock`
  unfoldable pub share_unlock : (GoString → GoString) → Unlock → Phones → Phones × UnlockReply
  share_unlock sha256 q s =
      unlock_after
        (lookup_kind sha256 q.client_ip q.token share q.looked_at q.lookup_up s.db s.limiter) q s

module _ (sha256 : GoString → GoString) where
  abbrev pub look_up : Kind → Fetch → Phones → Limiter × Looked
  look_up kind f s =
      lookup_kind sha256 f.client_ip f.token kind f.looked_at f.lookup_up s.db s.limiter

  abbrev pub share_after : Limiter × Looked → Fetch → GoString → Phones → Phones × FetchReply
  share_after (l, looked) f key s =
      serve_share (usable_after looked f.client_ip key f.counted_at s) f key
        (record s { limiter = l })

  -- `shareFile` with the key of the file, and `shareZip` with the key "zip"
  unfoldable pub share_file : Fetch → GoString → Phones → Phones × FetchReply
  share_file f key s = share_after (look_up share f s) f key s

  abbrev pub download_after : Limiter × Looked → Fetch → Phones → Phones × FetchReply
  download_after (l, looked) f s =
      serve_download (usable_after looked f.client_ip [] f.counted_at s) f
        (record s { limiter = l })

  -- `downloadFile`
  unfoldable pub download_file : Fetch → Phones → Phones × FetchReply
  download_file f s = download_after (look_up download f s) f s

abbrev pub is_open : ℕ → GoString × Grant → Bool
is_open now (k, g) = ltb now g.expires

-- `pruneGrants`
unfoldable pub prune_grants : ℕ → Phones → Phones
prune_grants now s = record s {
  counted = filter (λ (k, exp). ltb now exp) s.counted;
  unlocked = filter (is_open now) s.unlocked;
}
