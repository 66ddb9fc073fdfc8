-- ===== src/Files/Sync/Managed.antt =====
-- internal/files/sync.go: `Sync` leaves the users alone that Vault did not create.
use omarchy_vault.Prelude.{
  ◌≡◌, refl, ap, sym, ◌∙◌, subst, inl, inr, GoString, str_eq, str_eq_iff, contains, Bool, true,
  false, not, ◌&&◌, if-true, if-false, Bool-cases, Option, none, some, List, [], ◌∷◌, map, arith, ℕ,
}
use mathlib.Core.Option.{some-injective}
use omarchy_vault.Users.Accounts.{User}
use omarchy_vault.Transfer.Names.{Runes}
use omarchy_vault.Files.Sync.{
  SharedFolder, SftpUser, desired, lookup_user, Sftp, SyncError, Wanted, is_managed, is_foreign,
  is_ours, is_there, put_user, note_if, bad_folder, SyncReply, ensure_all, put_or_leave, sync_user,
  remove_one, remove_old, is_admin, with_password, sync_all, after_all, sync,
}

module _ (F : Sftp) (name : GoString) (v : SftpUser) (foreign : is_managed v ≡ false)
    (have : List SftpUser) (listed : (u : SftpUser) → lookup_user name have ≡ some u → u ≡ v) where
  -- The user is there.
  abbrev Has : F.State → Type 0
  Has s = F.find s name ≡ some v

  Has-ensure_all :
      (fs : List SharedFolder) (es : List SyncError) (s : F.State)
      → Has s
      → Has (ensure_all F fs es s).0
  unfolding ensure_all
  Has-ensure_all [] es s h = h
  Has-ensure_all (f ∷ fs) es s h =
      Has-ensure_all fs (note_if (F.ensure_folder f s).1 (bad_folder f.mapped_path) es)
        (F.ensure_folder f s).0 (F.ensure_folder_users f s name ∙ h)

  Has-put_user :
      (su : SftpUser) (prev : Option SftpUser) (s : F.State)
      → lookup_user su.username have ≡ prev
      → is_foreign prev ≡ false
      → Has s
      → Has (put_user F su (is_there prev) s).0
  Has-put_user su none s e ours h = F.post_user_keeps su s name v h
  Has-put_user su (some w) s e ours h = elim (Bool-cases (str_eq su.username name)) [
    | inr apart ↦ F.replace_user_others su s name apart ∙ h
    | inl same ↦
        let found : lookup_user name have ≡ some w =
          subst (λ n. lookup_user n have ≡ some w) ((str_eq_iff su.username name).0 same) e in
        let managed = ap is_managed (listed w found) in absurd (ground arith)
  ]

  Has-put_or_leave :
      (su : SftpUser) (r : SyncReply F)
      → Has r.0
      → Has (put_or_leave F su (lookup_user su.username have) r).0
  Has-put_or_leave su (s, es) h = elim (Bool-cases (is_foreign (lookup_user su.username have))) [
    | inl other ↦ subst (λ (q : SyncReply F). Has q.0) (sym (if-true _ _ other)) h
    | inr ours ↦
        subst (λ (q : SyncReply F). Has q.0) (sym (if-false _ _ ours))
          (Has-put_user su (lookup_user su.username have) s refl ours h)
  ]

  -- The user is not listed as one of Vault's.
  listed_foreign : (o : Option SftpUser) → lookup_user name have ≡ o → is_ours o ≡ false
  listed_foreign none e = refl
  listed_foreign (some w) e = ap is_managed (listed w e) ∙ foreign

  Has-sync_user :
      (is_admin home_made : Bool) (p : SftpUser × List SharedFolder) (r : SyncReply F)
      → Has r.0
      → Has (sync_user F is_admin home_made p (lookup_user p.0.username have) r).0
  Has-sync_user is_admin home_made (su, folders) (s, es) h =
      elim (Bool-cases (not is_admin && not home_made)) [
        | inl out ↦ subst (λ (q : SyncReply F). Has q.0) (sym (if-true _ _ out)) h
        | inr here ↦
            subst (λ (q : SyncReply F). Has q.0) (sym (if-false _ _ here))
              (Has-put_or_leave su (ensure_all F folders es s) (Has-ensure_all folders es s h))
      ]

  Has-remove_one :
      (want : List GoString) (k : GoString) (r : SyncReply F)
      → Has r.0
      → Has (remove_one F want k (lookup_user k have) r).0
  Has-remove_one want k (s, es) h =
      elim (Bool-cases (not (contains want k) && is_ours (lookup_user k have))) [
        | inr stays ↦ subst (λ (q : SyncReply F). Has q.0) (sym (if-false _ _ stays)) h
        | inl goes ↦ elim (Bool-cases (str_eq k name)) [
          | inr apart ↦
              subst (λ (q : SyncReply F). Has q.0) (sym (if-true _ _ goes))
                (F.delete_user_others k s name apart ∙ h)
          | inl same ↦
              let found =
                ap (λ n. is_ours (lookup_user n have)) ((str_eq_iff k name).0 same)
                ∙ listed_foreign (lookup_user name have) refl in
              absurd (ground arith)
        ]
      ]

  Has-remove_old :
      (want : List GoString) (us : List SftpUser) (r : SyncReply F)
      → Has r.0
      → Has (remove_old F want have us r).0
  unfolding remove_old
  Has-remove_old want [] r h = h
  Has-remove_old want (u ∷ us) r h =
      Has-remove_old want us (remove_one F want u.username (lookup_user u.username have) r)
        (Has-remove_one want u.username r h)

  Has-with_password :
      (o : Option GoString) (next : GoString → SyncReply F × Bool) (r : SyncReply F)
      → Has r.0
      → ((pw : GoString) → Has (next pw).0.0)
      → Has (with_password F o next r).0.0
  Has-with_password none next (s, es) h k = h
  Has-with_password (some pw) next r h k = k pw

  module _ (lower : GoString → Runes) (sha256 : GoString → List ℕ) (root homes : GoString) where
    username-desired :
        (u : User) (pw : GoString) → (desired lower sha256 u pw root homes).0.username ≡ u.username
    unfolding desired
    username-desired u pw = elim (Bool-cases (is_admin lower sha256 u)) [
      | inl chief ↦ ap (λ (p : SftpUser × List SharedFolder). p.0.username) (if-true _ _ chief)
      | inr other ↦ ap (λ (p : SftpUser × List SharedFolder). p.0.username) (if-false _ _ other)
    ]

    Has-sync_all :
        (ws : List Wanted) (r : SyncReply F)
        → Has r.0
        → Has (sync_all F lower sha256 root homes have ws r).0.0
    unfolding sync_all
    Has-sync_all [] r h = h
    Has-sync_all (w ∷ ws) r h = Has-with_password w.password _ r h (λ pw.
        Has-sync_all ws
          (sync_user F (is_admin lower sha256 w.user) w.home_made
            (desired lower sha256 w.user pw root homes) (lookup_user w.user.username have) r)
          (subst
            (λ n.
              Has
                (sync_user F (is_admin lower sha256 w.user) w.home_made
                  (desired lower sha256 w.user pw root homes) (lookup_user n have) r).0)
            (username-desired w.user pw)
            (Has-sync_user (is_admin lower sha256 w.user) w.home_made
              (desired lower sha256 w.user pw root homes) r h)))

    Has-after_all :
        (ws : List Wanted) (p : SyncReply F × Bool)
        → Has p.0.0
        → Has (after_all F lower sha256 root homes have ws p).0
    Has-after_all ws (r, false) h = h
    Has-after_all ws (r, true) h = Has-remove_old (map (λ w. w.user.username) ws) have r h

-- A user of the file service that Vault did not create is as it was after `Sync`, whatever accounts there
-- are, whichever calls fail and whether or not the listing shows that user, if the listing shows users as
-- they are, a creation replaces no user, an update and a removal leave the users that they do not name,
-- and the calls for folders leave all users.
pub find-sync :
    (F : Sftp) (lower : GoString → Runes) (sha256 : GoString → List ℕ) (root homes : GoString)
    (answers : Bool) (ws : List Wanted) (s : F.State) (name : GoString) (v : SftpUser)
    → F.find s name ≡ some v
    → is_managed v ≡ false
    → F.find (sync F lower sha256 root homes answers ws s).0 name ≡ some v
unfolding sync
find-sync F lower sha256 root homes false ws s name v there foreign = there
find-sync F lower sha256 root homes true ws s name v there foreign =
    let have = F.list_users s in
    let listed : (u : SftpUser) → lookup_user name have ≡ some u → u ≡ v =
      λ u e. some-injective u v (sym (F.list_users_stored s name u e) ∙ there) in
    Has-after_all F name v foreign have listed lower sha256 root homes ws
      (sync_all F lower sha256 root homes have ws (s, []))
      (Has-sync_all F name v foreign have listed lower sha256 root homes ws (s, []) there)
