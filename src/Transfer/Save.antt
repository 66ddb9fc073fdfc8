-- ===== src/Transfer/Save.antt =====
-- internal/transfer/save.go: `Save`, with what the environment answers as arguments.
pub mod Kept
mod Tests
use omarchy_vault.Prelude.{
  ℕ, suc, ◌++◌, codes, Bool, true, false, not, ◌&&◌, ltb, if◌then◌else◌, Option, none, some, [],
  length, Result, ok, err,
}
use omarchy_vault.Transfer.Names.{Runes, take, clean_name, candidate}
use omarchy_vault.Transfer.Publish.{Bytes, Errno, Kernel, PublishError, publish}

-- What the environment answers: whether the folder is there, is no link and can be opened, the draw of
-- the temporary name, the bytes that the phone sends and whether reading them ends without an error,
-- and whether the file can be flushed and closed.
pub record Upload : Type 0 where
  pub is_there : Bool
  pub is_plain : Bool
  pub opens : Bool
  pub draw : Option Runes
  pub body : Bytes
  pub is_complete : Bool
  pub syncs : Bool
  pub closes : Bool

pub data SaveError : Type 0 where
  no_destination not_plain not_opened no_draw not_copied too_large not_synced not_closed : SaveError
  not_created : Errno → SaveError
  not_published : PublishError → SaveError

abbrev pub drawn : Option Runes → Runes
drawn none = []
drawn (some r) = r

-- the name of the temporary file
abbrev pub partial_name : Upload → Runes
partial_name u = codes ".vault-partial-" ++ drawn u.draw

-- what `io.LimitReader` lets through
abbrev pub copied : Upload → ℕ → Bytes
copied u limit = take u.body (suc limit)

module _ (K : Kernel) where
  -- the name and size, or an error
  abbrev pub SaveReply : Type 0
  SaveReply = K.Folder × Result SaveError (Runes × ℕ)

  abbrev pub clean_up : Runes → SaveError → K.Folder → SaveReply
  clean_up tmp e s = (K.unlink tmp s, err e)

  abbrev pub after_publish : Runes → ℕ → K.Folder × Result PublishError Runes → SaveReply
  after_publish tmp n (s, ok final) = (s, ok (final, n))
  after_publish tmp n (s, err e) = clean_up tmp (not_published e) s

  -- the file is written in full
  abbrev pub finish : Runes → Runes → ℕ → Upload → K.Folder → SaveReply
  finish tmp name n u s =
      if not u.syncs
      then clean_up tmp not_synced s
      else if not u.closes
      then clean_up tmp not_closed s
      else after_publish tmp n (publish K tmp name s)

  abbrev pub after_write : Runes → Runes → Upload → ℕ → K.Folder × Bool → SaveReply
  after_write tmp name u limit (s, wrote) =
      if not (wrote && u.is_complete)
      then clean_up tmp not_copied s
      else if ltb limit (length (copied u limit))
      then clean_up tmp too_large s
      else finish tmp name (length (copied u limit)) u s

  abbrev pub after_open :
      Runes → Runes → Upload → ℕ → K.Folder × Result Errno (Unit {0}) → SaveReply
  after_open tmp name u limit (s, err e) = (s, err (not_created e))
  after_open tmp name u limit (s, ok _) =
      after_write tmp name u limit (K.write tmp (copied u limit) s)

  abbrev pub is_drawn : Option Runes → Bool
  is_drawn none = false
  is_drawn (some _) = true

  -- `Save`
  unfoldable pub save : Runes → Upload → ℕ → K.Folder → SaveReply
  save raw u limit s =
      if not u.is_there
      then (s, err no_destination)
      else if not u.is_plain
      then (s, err not_plain)
      else if not u.opens
      then (s, err not_opened)
      else if not (is_drawn u.draw)
      then (s, err no_draw)
      else after_open (partial_name u) (clean_name raw) u limit (K.create (partial_name u) s)
