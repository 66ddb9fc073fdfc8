-- ===== src/Files/Sync/Tests.antt =====
-- internal/files/sync.go: a service with a user that Vault did not create.
use omarchy_vault.Prelude.{
  Bool, ◌≡◌, ◌≢◌, refl, ap, sym, arith, ◌∙◌, filter, not, contains, str_eq_iff, Bool-cases, inl,
  inr, GoString, codes, str_eq, true, false, if-false, if◌then◌else◌, Option, none, some, List, [],
  ◌∷◌, ◌++◌, In, ℕ,
}
use omarchy_vault.Users.Names.{admin, family}
use omarchy_vault.Users.Folders.{Folder, read_write}
use omarchy_vault.Users.Accounts.{User}
use omarchy_vault.Transfer.Names.{Runes}
use omarchy_vault.Storage.Inspect.{later}
use omarchy_vault.Files.Sync.{
  Perm, perm_read_write, SftpUser, Sftp, Wanted, managed_tag, desired, lookup_user, is_managed,
  ensure_all, remove_old, sync_all, sync,
}
use omarchy_vault.Files.Sync.Managed.{find-sync}
use omarchy_vault.Files.Sync.Rights.{IsGranted, desired-IsGranted}

abbrev lower : GoString → Runes
lower s = s

abbrev digest : GoString → List ℕ
digest s = s

abbrev shared : Folder
shared = record { name = codes "Shared"; access = read_write }

abbrev cat : User
cat = record {
  username = codes "cat";
  role = family;
  password_hash = codes "h";
  disabled = false;
  folders = shared ∷ [];
  totp_secret = [];
  totp_enabled = false;
  totp_last = 0;
  created_at = codes "t1";
  updated_at = codes "t1";
}

abbrev writes_shared : GoString × List Perm
writes_shared = (codes "/Shared", perm_read_write)

not_admin : cat.role ≢ admin
not_admin = λ c. cc

listed :
    In writes_shared
      (desired lower digest cat (codes "pw") (codes "/vault") (codes "/homes")).0.permissions
unfolding desired str_eq
listed = inr (inl refl)

desired-IsGranted_example : IsGranted lower digest cat writes_shared
desired-IsGranted_example =
    desired-IsGranted lower digest cat (codes "pw") (codes "/vault") (codes "/homes") writes_shared
      not_admin listed

-- A service that keeps a list of its users.
abbrev Users : Type 0
Users = List SftpUser

abbrev others_of : GoString → Users → Users
others_of k us = filter (λ u. not (str_eq u.username k)) us

lookup_user-append :
    (us : Users) (u : SftpUser) (name : GoString)
    → str_eq u.username name ≡ false
    → lookup_user name (us ++ u ∷ []) ≡ lookup_user name us
unfolding lookup_user
lookup_user-append [] u name apart = if-false _ _ apart
lookup_user-append (x ∷ us) u name apart =
    ap (λ o. later o (if str_eq x.username name then some x else none))
      (lookup_user-append us u name apart)

lookup_user-others_of :
    (k : GoString) (us : Users) (name : GoString)
    → str_eq k name ≡ false
    → lookup_user name (others_of k us) ≡ lookup_user name us
unfolding lookup_user
lookup_user-others_of k [] name apart = refl
lookup_user-others_of k (x ∷ us) name apart = elim (Bool-cases (str_eq x.username k)) [
  | inr stays ↦ rw stays (
      ap (λ o. later o (if str_eq x.username name then some x else none))
        (lookup_user-others_of k us name apart))
  | inl goes ↦
      let is : x.username ≡ k = (str_eq_iff x.username k).0 goes in
      let far : str_eq x.username name ≡ false = ap (λ n. str_eq n name) is ∙ apart in
      rw (goes, far) (lookup_user-others_of k us name apart ∙ none_later (lookup_user name us))
]
  where
    none_later : (o : Option SftpUser) → o ≡ later o none
    none_later none = refl
    none_later (some u) = refl

-- a creation fails where the name is taken
abbrev add_free : SftpUser → Option SftpUser → Users → Users × Bool
add_free u none s = (s ++ u ∷ [], true)
add_free u (some _) s = (s, false)

add_free-keeps :
    (u : SftpUser) (o : Option SftpUser) (s : Users) (name : GoString) (v : SftpUser)
    → lookup_user u.username s ≡ o
    → lookup_user name s ≡ some v
    → lookup_user name (add_free u o s).0 ≡ some v
add_free-keeps u (some w) s name v e h = h
add_free-keeps u none s name v e h = elim (Bool-cases (str_eq u.username name)) [
  | inr apart ↦ lookup_user-append s u name apart ∙ h
  | inl same ↦
      let taken : lookup_user name s ≡ none =
        ap (λ n. lookup_user n s) (sym ((str_eq_iff u.username name).0 same)) ∙ e in
      absurd (ground arith)
]

abbrev service : Sftp
service = record {
  State = Users;
  find = λ s name. lookup_user name s;
  list_users = λ s. s;
  post_user = λ u s. add_free u (lookup_user u.username s) s;
  replace_user = λ u s. (others_of u.username s ++ u ∷ [], true);
  delete_user = λ k s. (others_of k s, true);
  ensure_folder = λ f s. (s, true);
  list_users_stored = λ s name u e. e;
  post_user_keeps = λ u s name v. add_free-keeps u (lookup_user u.username s) s name v refl;
  replace_user_others = λ u s name apart.
      lookup_user-append (others_of u.username s) u name apart
      ∙ lookup_user-others_of u.username s name apart;
  delete_user_others = λ k s name. lookup_user-others_of k s name;
  ensure_folder_users = λ f s name. refl;
}

-- A user of somebody else's, and one of Vault's that is not wanted any more.
abbrev theirs : SftpUser
theirs = record {
  username = codes "cat";
  password = [];
  is_enabled = true;
  info = codes "backup";
  home_dir = codes "/srv";
  write_disabled = false;
  permissions = [];
  virtual_folders = [];
}

abbrev old : SftpUser
old = record theirs { username = codes "eve"; info = managed_tag }

abbrev wants : List Wanted
wants = record { user = cat; password = some (codes "pw"); home_made = true } ∷ []

there : lookup_user (codes "cat") (theirs ∷ old ∷ []) ≡ some theirs
unfolding lookup_user str_eq
there = refl

foreign : is_managed theirs ≡ false
unfolding str_eq
foreign = refl

find-sync_example :
    lookup_user
      (codes "cat")
      (sync service lower digest (codes "/vault") (codes "/homes") true wants (theirs ∷ old ∷ [])).0
    ≡ some theirs
find-sync_example =
    find-sync service lower digest (codes "/vault") (codes "/homes") true wants (theirs ∷ old ∷ [])
      (codes "cat") theirs there foreign

-- The other is gone.
removed :
    (sync service lower digest (codes "/vault") (codes "/homes") true wants (theirs ∷ old ∷ [])).0
    ≡ theirs ∷ []
unfolding sync sync_all desired lookup_user ensure_all remove_old str_eq contains
removed = refl
