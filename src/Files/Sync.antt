-- ===== src/Files/Sync.antt =====
-- internal/files/sync.go: the accounts of the file service. Its API is an interface; `lower` is
-- `strings.ToLower` followed by the loop over runes, `sha256` yields bytes.
pub mod Managed
pub mod Rights
mod Tests
use omarchy_vault.Prelude.{
  ℕ, ◌+◌, ◌/◌, ◌%◌, ◌++◌, GoString, codes, str_eq, contains, Bool, true, false, not, ◌&&◌, ◌||◌,
  ltb, leb, ◌==◌, if◌then◌else◌, Option, none, some, List, [], ◌∷◌, map, ◌≡◌,
}
use omarchy_vault.Users.Names.{admin, guest}
use omarchy_vault.Users.Folders.{Folder, read_write}
use omarchy_vault.Users.Accounts.{User}
use omarchy_vault.Storage.Paths.{join}
use omarchy_vault.Storage.Inspect.{later}
use omarchy_vault.Transfer.Names.{Runes, trim_left, trim_right}

-- SFTPGo's permissions by name
pub data Perm : Type 0 where
  can_list can_download can_upload can_overwrite can_delete can_rename can_create_dirs : Perm

abbrev pub perm_read_write : List Perm
perm_read_write =
    can_list ∷ can_download ∷ can_upload ∷ can_overwrite ∷ can_delete ∷ can_rename ∷ can_create_dirs
    ∷ []

abbrev pub perm_read_only : List Perm
perm_read_only = can_list ∷ can_download ∷ []

abbrev pub perm_list_only : List Perm
perm_list_only = can_list ∷ []

abbrev pub managed_tag : GoString
managed_tag = codes "managed by omarchy-vault"

-- `folder`
pub record SharedFolder : Type 0 where
  pub object_name : GoString
  pub mapped_path : GoString

-- `sftpUser`; the fixed limits and the description are left out
pub record SftpUser : Type 0 where
  pub username : GoString
  pub password : GoString
  pub is_enabled : Bool
  pub info : GoString
  pub home_dir : GoString
  pub write_disabled : Bool
  pub permissions : List (GoString × List Perm)
  pub virtual_folders : List (GoString × GoString)

abbrev pub slug_rune : ℕ → ℕ
slug_rune r = if (leb 97 r && leb r 122) || (leb 48 r && leb r 57) then r else 45

abbrev pub is_dash : ℕ → Bool
is_dash r = r == 45

abbrev pub hex_digit : ℕ → ℕ
hex_digit n = if ltb n 10 then 48 + n else 87 + n

unfoldable pub hex : List ℕ → GoString
hex [] = []
hex (b ∷ bs) = hex_digit (b / 16) ∷ hex_digit (b % 16) ∷ hex bs

abbrev pub first_three : List ℕ → List ℕ
first_three (a ∷ b ∷ c ∷ rest) = a ∷ b ∷ c ∷ []
first_three bs = bs

module _ (lower : GoString → Runes) (sha256 : GoString → List ℕ) where
  -- `FolderObjectName`
  unfoldable pub folder_object_name : GoString → GoString
  unfolding hex trim_left
  folder_object_name name =
      codes "vault-"
      ++ trim_right is_dash (trim_left is_dash (map slug_rune (lower name)))
      ++ codes "-"
      ++ hex (first_three (sha256 name))

  abbrev pub perms_for : User → Folder → List Perm
  perms_for u f =
      if str_eq f.access read_write && not (str_eq u.role guest)
      then perm_read_write
      else perm_read_only

  abbrev pub shared_folder : GoString → Folder → SharedFolder
  shared_folder root f = record {
    object_name = folder_object_name f.name;
    mapped_path = join root f.name;
  }

  abbrev pub is_admin : User → Bool
  is_admin u = str_eq u.role admin

  -- `Desired`
  unfoldable pub desired : User → GoString → GoString → GoString → SftpUser × List SharedFolder
  unfolding folder_object_name join
  desired u password root homes =
      let base : SftpUser = record {
        username = u.username;
        password = password;
        is_enabled = not u.disabled;
        info = managed_tag;
        home_dir = if is_admin u then root else join homes u.username;
        write_disabled = not (is_admin u) && str_eq u.role guest;
        permissions = (codes "/", if is_admin u then perm_read_write else perm_list_only) ∷ [];
        virtual_folders = [];
      } in
      if is_admin u then (base, []) else (
        record base {
          permissions =
              (codes "/", perm_list_only)
              ∷ map (λ f. (codes "/" ++ f.name, perms_for u f)) u.folders;
          virtual_folders = map (λ f. (folder_object_name f.name, codes "/" ++ f.name)) u.folders;
        },
        map (shared_folder root) u.folders,
      )

-- the map of the listed users: the last of a name
unfoldable pub lookup_user : GoString → List SftpUser → Option SftpUser
lookup_user name [] = none
lookup_user name (u ∷ us) =
    later (lookup_user name us) (if str_eq u.username name then some u else none)

-- The users and folders of SFTPGo: a call on one user leaves the others.
pub record Sftp : Type 1 where
  pub State : Type 0
  pub find : State → GoString → Option SftpUser
  pub list_users : State → List SftpUser
  pub post_user : SftpUser → State → State × Bool
  pub replace_user : SftpUser → State → State × Bool
  pub delete_user : GoString → State → State × Bool
  pub ensure_folder : SharedFolder → State → State × Bool
  pub list_users_stored :
      (s : State) (name : GoString) (u : SftpUser)
      → lookup_user name (list_users s) ≡ some u
      → find s name ≡ some u
  pub post_user_keeps :
      (u : SftpUser) (s : State) (name : GoString) (v : SftpUser)
      → find s name ≡ some v
      → find (post_user u s).0 name ≡ some v
  pub replace_user_others :
      (u : SftpUser) (s : State) (name : GoString)
      → str_eq u.username name ≡ false
      → find (replace_user u s).0 name ≡ find s name
  pub delete_user_others :
      (k : GoString) (s : State) (name : GoString)
      → str_eq k name ≡ false
      → find (delete_user k s).0 name ≡ find s name
  pub ensure_folder_users :
      (f : SharedFolder) (s : State) (name : GoString)
      → find (ensure_folder f s).0 name ≡ find s name

pub data SyncError : Type 0 where
  no_list no_password : SyncError
  no_home bad_folder not_ours not_put not_removed : GoString → SyncError

-- An account with what the environment answers for it: its password for SFTPGo, and whether its home
-- can be made.
pub record Wanted : Type 0 where
  pub user : User
  pub password : Option GoString
  pub home_made : Bool

abbrev pub is_managed : SftpUser → Bool
is_managed u = str_eq u.info managed_tag

abbrev pub is_foreign : Option SftpUser → Bool
is_foreign none = false
is_foreign (some u) = not (is_managed u)

abbrev pub is_ours : Option SftpUser → Bool
is_ours none = false
is_ours (some u) = is_managed u

abbrev pub is_there : Option SftpUser → Bool
is_there none = false
is_there (some _) = true

abbrev pub note_if : Bool → SyncError → List SyncError → List SyncError
note_if ok e es = if ok then es else e ∷ es

module _ (F : Sftp) where
  -- the state, and the errors so far, the last first
  abbrev pub SyncReply : Type 0
  SyncReply = F.State × List SyncError

  unfoldable pub ensure_all : List SharedFolder → List SyncError → F.State → SyncReply
  ensure_all [] es s = (s, es)
  ensure_all (f ∷ fs) es s =
      let step = F.ensure_folder f s in
      ensure_all fs (note_if step.1 (bad_folder f.mapped_path) es) step.0

  -- `putUser`
  abbrev pub put_user : SftpUser → Bool → F.State → F.State × Bool
  put_user su known s = if known then F.replace_user su s else F.post_user su s

  abbrev pub put_or_leave : SftpUser → Option SftpUser → SyncReply → SyncReply
  put_or_leave su prev (s, es) =
      if is_foreign prev
      then (s, not_ours su.username ∷ es)
      else let step = put_user su (is_there prev) s in
        (step.0, note_if step.1 (not_put su.username) es)

  -- the body of the first loop, once the password is there
  abbrev pub sync_user :
      Bool → Bool → SftpUser × List SharedFolder → Option SftpUser → SyncReply → SyncReply
  sync_user is_admin home_made (su, folders) prev (s, es) =
      if not is_admin && not home_made
      then (s, no_home su.home_dir ∷ es)
      else put_or_leave su prev (ensure_all folders es s)

  -- one turn of the second loop, for a name and what the map has for it
  abbrev pub remove_one : List GoString → GoString → Option SftpUser → SyncReply → SyncReply
  remove_one want name prev (s, es) =
      let step = F.delete_user name s in
      if not (contains want name) && is_ours prev
      then (step.0, note_if step.1 (not_removed name) es)
      else (s, es)

  -- the second loop, over the users that were listed
  unfoldable pub remove_old : List GoString → List SftpUser → List SftpUser → SyncReply → SyncReply
  unfolding lookup_user
  remove_old want have [] r = r
  remove_old want have (u ∷ us) r =
      remove_old want have us (remove_one want u.username (lookup_user u.username have) r)

  abbrev pub with_password :
      Option GoString → (GoString → SyncReply × Bool) → SyncReply → SyncReply × Bool
  with_password none next (s, es) = ((s, no_password ∷ es), false)
  with_password (some pw) next r = next pw

  module _ (lower : GoString → Runes) (sha256 : GoString → List ℕ) (root homes : GoString) where
    -- the first loop: the names that are wanted, or `none` where a password is missing and `Sync` returns
    unfoldable pub sync_all : List SftpUser → List Wanted → SyncReply → SyncReply × Bool
    unfolding desired lookup_user ensure_all
    sync_all have [] r = (r, true)
    sync_all have (w ∷ ws) r =
        with_password w.password
          (λ pw. sync_all have ws (
            sync_user (is_admin lower sha256 w.user) w.home_made
              (desired lower sha256 w.user pw root homes) (lookup_user w.user.username have) r))
          r

    abbrev pub after_all : List SftpUser → List Wanted → SyncReply × Bool → SyncReply
    after_all have ws (r, false) = r
    after_all have ws (r, true) = remove_old (map (λ w. w.user.username) ws) have have r

    -- `Sync`, where the users can be listed or not
    unfoldable pub sync : Bool → List Wanted → F.State → SyncReply
    unfolding sync_all remove_old
    sync false ws s = (s, no_list ∷ [])
    sync true ws s = let have = F.list_users s in after_all have ws (sync_all have ws (s, []))
