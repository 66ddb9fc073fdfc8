-- ===== src/Transfer/Publish.antt =====
-- internal/transfer/save.go: `publish`, which gives a finished upload its name. The kernel's calls on
-- the files of one folder are an interface; nobody else changes the folder during an upload.
pub mod Once
pub mod Disk
use omarchy_vault.Prelude.{
  ℕ, zero, suc, ◌≡◌, ◌≢◌, Bool, true, false, ◌||◌, if◌then◌else◌, Option, none, some, List, Result,
  ok, err,
}
use omarchy_vault.Transfer.Names.{Runes, candidate}

abbrev pub Bytes : Type 0
Bytes = List ℕ

-- the errors that `publish` tells apart
pub data Errno : Type 0 where
  eexist einval enosys eopnotsupp eperm emlink : Errno
  other : ℕ → Errno

-- The system calls on a folder: `rename` is renameat2 with RENAME_NOREPLACE, `link` is linkat, `create`
-- is an open with O_CREATE and O_EXCL. A call that fails changes nothing, and the first three fail where
-- the new name is taken.
pub record Kernel : Type 1 where
  pub Folder : Type 0
  pub content : Folder → Runes → Option Bytes
  pub rename : Runes → Runes → Folder → Folder × Result Errno (Unit {0})
  pub link : Runes → Runes → Folder → Folder × Result Errno (Unit {0})
  pub unlink : Runes → Folder → Folder
  pub create : Runes → Folder → Folder × Result Errno (Unit {0})
  pub write : Runes → Bytes → Folder → Folder × Bool
  pub rename_ok :
      (from to : Runes) (s : Folder)
      → (rename from to s).1 ≡ ok tt
      → (content s to ≡ none)
        × (content (rename from to s).0 to ≡ content s from)
        × ((x : Runes) → x ≢ from → x ≢ to → content (rename from to s).0 x ≡ content s x)
  pub rename_err :
      (from to : Runes) (s : Folder) (e : Errno)
      → (rename from to s).1 ≡ err e
      → (rename from to s).0 ≡ s
  pub rename_exists :
      (from to : Runes) (s : Folder) → (rename from to s).1 ≡ err eexist → content s to ≢ none
  pub link_ok :
      (from to : Runes) (s : Folder)
      → (link from to s).1 ≡ ok tt
      → (content s to ≡ none)
        × (content (link from to s).0 to ≡ content s from)
        × ((x : Runes) → x ≢ to → content (link from to s).0 x ≡ content s x)
  pub link_err :
      (from to : Runes) (s : Folder) (e : Errno)
      → (link from to s).1 ≡ err e
      → (link from to s).0 ≡ s
  pub link_exists :
      (from to : Runes) (s : Folder) → (link from to s).1 ≡ err eexist → content s to ≢ none
  pub unlink_others :
      (name : Runes) (s : Folder) (x : Runes) → x ≢ name → content (unlink name s) x ≡ content s x
  pub create_ok :
      (name : Runes) (s : Folder)
      → (create name s).1 ≡ ok tt
      → (content s name ≡ none)
        × ((x : Runes) → x ≢ name → content (create name s).0 x ≡ content s x)
  pub create_err :
      (name : Runes) (s : Folder) (e : Errno) → (create name s).1 ≡ err e → (create name s).0 ≡ s
  pub write_ok :
      (name : Runes) (d : Bytes) (s : Folder)
      → (write name d s).1 ≡ true
      → content (write name d s).0 name ≡ some d
  pub write_others :
      (name : Runes) (d : Bytes) (s : Folder) (x : Runes)
      → x ≢ name
      → content (write name d s).0 x ≡ content s x

pub data PublishError : Type 0 where
  no_safe_publish no_free_name : PublishError
  failed : Errno → PublishError

-- `unsupported`
abbrev pub unsupported : Errno → Bool
unsupported einval = true
unsupported enosys = true
unsupported eopnotsupp = true
unsupported eperm = true
unsupported _ = false

-- How one turn of the loop of `publish` ends.
pub data Turn : Type 0 where
  done taken : Turn
  stop : PublishError → Turn

-- the error of the last call
abbrev pub turn_of : Errno → Turn
turn_of eexist = taken
turn_of e = stop (failed e)

abbrev pub turn_of_link : Errno → Turn
turn_of_link emlink = stop no_safe_publish
turn_of_link e = if unsupported e then stop no_safe_publish else turn_of e

module _ (K : Kernel) where
  abbrev pub after_link : Runes → K.Folder × Result Errno (Unit {0}) → K.Folder × (Bool × Turn)
  after_link tmp (s, ok _) = (K.unlink tmp s, (true, done))
  after_link tmp (s, err e) = (s, (true, turn_of_link e))

  abbrev pub try_link : Runes → Runes → K.Folder → K.Folder × (Bool × Turn)
  try_link tmp final s = after_link tmp (K.link tmp final s)

  abbrev pub after_rename :
      Runes → Runes → K.Folder × Result Errno (Unit {0}) → K.Folder × (Bool × Turn)
  after_rename tmp final (s, ok _) = (s, (false, done))
  after_rename tmp final (s, err e) =
      if unsupported e then try_link tmp final s else (s, (false, turn_of e))

  -- one turn: the folder, whether links are used from now on, and how it ended
  unfoldable pub take_turn : Bool → Runes → Runes → K.Folder → K.Folder × (Bool × Turn)
  take_turn true tmp final s = try_link tmp final s
  take_turn false tmp final s = after_rename tmp final (K.rename tmp final s)

  abbrev pub Outcome : Type 0
  Outcome = K.Folder × Result PublishError Runes

  abbrev pub after_turn : Runes → (Bool → K.Folder → Outcome) → K.Folder × (Bool × Turn) → Outcome
  after_turn final next (s, (use_link, done)) = (s, ok final)
  after_turn final next (s, (use_link, taken)) = next use_link s
  after_turn final next (s, (use_link, stop e)) = (s, err e)

  -- the loop of `publish`, with the turns that are left and the number of the next candidate
  unfoldable pub publish_from : Runes → Runes → ℕ → ℕ → Bool → K.Folder → Outcome
  unfolding take_turn
  publish_from tmp name zero i use_link s = (s, err no_free_name)
  publish_from tmp name (suc n) i use_link s =
      after_turn (candidate name i) (λ b t. publish_from tmp name n (suc i) b t)
        (take_turn use_link tmp (candidate name i) s)

  -- `publish`
  unfoldable pub publish : Runes → Runes → K.Folder → Outcome
  unfolding publish_from
  publish tmp name s = publish_from tmp name 10000 0 false s
