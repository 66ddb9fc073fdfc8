-- ===== src/Transfer/Receive.antt =====
-- internal/transfer/server.go: an upload from a phone, from the link to the folder. The parts of the
-- body come with what the environment answers to each.
pub mod Counted
pub mod Refused
mod Tests
use omarchy_vault.Prelude.{
  ℕ, ◌+◌, ◌-◌, ◌*◌, ◌/◌, ◌%◌, ◌^◌, ◌++◌, GoString, codes, Bool, true, false, not, ltb, leb,
  if◌then◌else◌, Option, none, some, List, [], ◌∷◌, length, Result, ok, err,
}
use omarchy_vault.Auth.Limiter.{Limiter, blocked, fail}
use omarchy_vault.Transfer.Session.{Kind, upload, Session}
use omarchy_vault.Transfer.Tables.{Db, StoreError, not_found}
use omarchy_vault.Transfer.Store
use omarchy_vault.Transfer.Store.{
  Looked, usable, refused, failed, TxReplies, lookup, reserve, remaining, release, record_transfer,
}
use omarchy_vault.Transfer.Names.{Runes}
use omarchy_vault.Transfer.Publish.{Kernel}
use omarchy_vault.Transfer.Save.{Upload, SaveError, save}

-- the bytes of a rune and of a name in UTF-8
abbrev pub utf8_rune : ℕ → GoString
utf8_rune r =
    if ltb r 128
    then r ∷ []
    else if ltb r 2048
    then (192 + r / 64) ∷ (128 + r % 64) ∷ []
    else if ltb r 65536
    then (224 + r / 4096) ∷ (128 + r / 64 % 64) ∷ (128 + r % 64) ∷ []
    else (240 + r / 262144) ∷ (128 + r / 4096 % 64) ∷ (128 + r / 64 % 64) ∷ (128 + r % 64) ∷ []

unfoldable pub utf8 : Runes → GoString
utf8 [] = []
utf8 (r ∷ rs) = utf8_rune r ++ utf8 rs

abbrev pub reserve_bytes : ℕ
reserve_bytes = 2 ^ 30

-- One file of the body: its name and bytes, whether the statements of the database succeed, and the
-- free bytes of the drive, `none` where `Statfs` fails.
pub record FilePart : Type 0 where
  pub file_name : Runes
  pub upload : Upload
  pub reserve_up : Bool
  pub remaining_up : Bool
  pub release_up : Bool
  pub free : Option ℕ
  pub now : ℕ
  pub tx : TxReplies

-- What `NextPart` yields: a file, a part that is skipped, or an error.
pub data Part : Type 0 where
  interrupted skipped : Part
  file : FilePart → Part

-- The body: no form, a form whose boundary is missing, or its parts.
pub data Body : Type 0 where
  not_form no_boundary : Body
  parts : List Part → Body

-- What is there of the Vault folder: `Dest` finds it, and `os.OpenRoot` opens it.
pub record Drive : Type 0 where
  pub is_found : Bool
  pub opens : Bool

pub data UploadError : Type 0 where
  link_full went_wrong vault_full broken_off : UploadError
  not_saved : SaveError → UploadError
  link_refused : Looked → UploadError
  offline bad_format : UploadError

-- `Saved`
abbrev pub Saved : Type 0
Saved = Runes × ℕ

-- what the drive leaves of the bytes that the link allows
abbrev pub room_for : Option ℕ → ℕ → Option ℕ
room_for none rest = some rest
room_for (some free) rest =
    if leb free reserve_bytes
    then none
    else some (if ltb (free - reserve_bytes) rest then free - reserve_bytes else rest)

-- `lookupKind`; the token's look-up in the table needs the clock and the database
unfoldable pub lookup_kind :
    (GoString → GoString) → GoString → GoString → Kind → ℕ → Bool → Db → Limiter → Limiter × Looked
lookup_kind sha256 ip token kind now up db l =
    let key = (codes "ip:" ++ ip) ∷ [] in
    if (blocked now l key).1
    then (l, failed not_found)
    else after (lookup sha256 token kind now up db)
  where
    after : Looked → Limiter × Looked
    after (failed not_found) = (fail now ((codes "ip:" ++ ip) ∷ []) l, failed not_found)
    after x = (l, x)

module _ (K : Kernel) where
  abbrev pub Vault : Type 0
  Vault = Db × K.Folder

  -- the database and the folder, with the file that was saved
  abbrev pub OneReply : Type 0
  OneReply = Vault × Result UploadError Saved

  abbrev pub give_up : UploadError → Session → FilePart → Vault → OneReply
  give_up e sess p (db, fs) = ((release sess.id p.release_up db, fs), err e)

  -- An error of `Record` is only logged.
  abbrev pub after_save : Session → FilePart → Db → K.Folder × Result SaveError Saved → OneReply
  after_save sess p db (fs, err e) = give_up (not_saved e) sess p (db, fs)
  after_save sess p db (fs, ok (name, size)) =
      (((record_transfer sess (utf8 name) size p.now p.tx db).0, fs), ok (name, size))

  abbrev pub save_within : Session → FilePart → Option ℕ → Vault → OneReply
  save_within sess p none v = give_up vault_full sess p v
  save_within sess p (some limit) (db, fs) =
      after_save sess p db (save K p.file_name p.upload limit fs)

  abbrev pub after_remaining : Session → FilePart → Result StoreError ℕ → Vault → OneReply
  after_remaining sess p (err e) v = give_up went_wrong sess p v
  after_remaining sess p (ok rest) v = save_within sess p (room_for p.free rest) v

  abbrev pub after_reserve : Session → FilePart → K.Folder → Db × Result StoreError Unit → OneReply
  after_reserve sess p fs (db, err e) = ((db, fs), err link_full)
  after_reserve sess p fs (db, ok _) =
      after_remaining sess p (remaining sess.id p.remaining_up db) (db, fs)

  -- `saveOne`
  unfoldable pub save_one : Session → FilePart → Vault → OneReply
  save_one sess p (db, fs) = after_reserve sess p fs (reserve sess.id p.reserve_up db)

  -- the saved files, and why the rest is not
  abbrev pub AllReply : Type 0
  AllReply = Vault × (List Saved × Option UploadError)

  abbrev pub with_item : Saved → AllReply → AllReply
  with_item item (v, (items, e)) = (v, (item ∷ items, e))

  abbrev pub after_one : (Vault → AllReply) → OneReply → AllReply
  after_one next (v, err e) = (v, ([], some e))
  after_one next (v, ok item) = with_item item (next v)

  -- the loop of `receive`
  unfoldable pub receive_parts : Session → List Part → Vault → AllReply
  unfolding save_one
  receive_parts sess [] v = (v, ([], none))
  receive_parts sess (interrupted ∷ ps) v = (v, ([], some broken_off))
  receive_parts sess (skipped ∷ ps) v = receive_parts sess ps v
  receive_parts sess (file p ∷ ps) v = after_one (λ t. receive_parts sess ps t) (save_one sess p v)

  abbrev pub refuse : UploadError → Vault → AllReply
  refuse e v = (v, ([], some e))

  abbrev pub receive_body : Session → Bool → Body → Vault → AllReply
  receive_body sess opens not_form v = refuse bad_format v
  receive_body sess opens no_boundary v = refuse (if opens then bad_format else offline) v
  receive_body sess opens (parts ps) v = if opens then receive_parts sess ps v else refuse offline v

  -- `receive` after the link was looked up
  abbrev pub receive_for : Looked → Drive → Body → Vault → AllReply
  receive_for (usable sess) drive body v =
      if drive.is_found then receive_body sess drive.opens body v else refuse offline v
  receive_for looked drive body v = refuse (link_refused looked) v

  -- `receive`, with the address of the phone
  unfoldable pub receive :
      (GoString → GoString)
      → GoString
      → GoString
      → ℕ
      → Bool
      → Drive
      → Body
      → Limiter
      → Vault
      → Limiter × AllReply
  unfolding lookup_kind receive_parts
  receive sha256 ip token now up drive body l (db, fs) =
      let (l', looked) = lookup_kind sha256 ip token Kind.upload now up db l in
      (l', receive_for looked drive body (db, fs))
