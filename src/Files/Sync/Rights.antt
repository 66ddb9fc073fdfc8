-- ===== src/Files/Sync/Rights.antt =====
-- internal/files/sync.go: what `Desired` lets a user do.
use omarchy_vault.Prelude.{
  ◌≡◌, ◌≢◌, ap, sym, ◌∙◌, subst, ◌⊎◌, inl, inr, GoString, codes, str_eq, str_eq_iff, false, not,
  ◌&&◌, ◌++◌, if-true, if-false, Bool-cases, List, In, In-map, map, arith, ℕ,
}
use omarchy_vault.Users.Names.{admin, guest}
use omarchy_vault.Users.Folders.{Folder, read_write}
use omarchy_vault.Users.Accounts.{User}
use omarchy_vault.Transfer.Names.{Runes}
use omarchy_vault.Files.Sync.{
  Perm, perm_read_write, perm_read_only, perm_list_only, SharedFolder, SftpUser, perms_for,
  is_admin, desired,
}

module _ (lower : GoString → Runes) (sha256 : GoString → List ℕ) where
  -- A right that the grants of the account give: to see the top level, to read a granted folder, or to
  -- write one that is granted so, for anybody but a guest.
  abbrev pub IsGranted : User → GoString × List Perm → Type 0
  IsGranted u p =
      ((p.0 ≡ codes "/") × (p.1 ≡ perm_list_only))
      ⊎ ((f : Folder) × In f u.folders
          × (p.0 ≡ codes "/" ++ f.name)
          × ((p.1 ≡ perm_read_only)
              ⊎ ((p.1 ≡ perm_read_write) × (f.access ≡ read_write) × (u.role ≢ guest))))

  perms_for_cases :
      (u : User) (f : Folder)
      → (perms_for lower sha256 u f ≡ perm_read_only)
        ⊎ ((perms_for lower sha256 u f ≡ perm_read_write)
            × (f.access ≡ read_write)
            × (u.role ≢ guest))
  perms_for_cases u f =
      elim (Bool-cases (str_eq f.access read_write && not (str_eq u.role guest))) [
        | inr no_write ↦ inl (if-false _ _ no_write)
        | inl writes ↦
            let not_guest : str_eq u.role guest ≡ false = ground arith in
            inr (
              if-true _ _ writes,
              (str_eq_iff f.access read_write).0 (ground arith),
              λ e. (let is_guest = (str_eq_iff u.role guest).1 e in absurd (ground arith)),
            )
      ]

  -- Each right that `Desired` gives to a user that is no admin is one that the grants of the account give.
  pub desired-IsGranted :
      (u : User) (password root homes : GoString) (p : GoString × List Perm)
      → u.role ≢ admin
      → In p (desired lower sha256 u password root homes).0.permissions
      → IsGranted u p
  unfolding desired
  desired-IsGranted u password root homes p other i = elim (Bool-cases (is_admin lower sha256 u)) [
    | inl chief ↦ absurd (other ((str_eq_iff u.role admin).0 chief))
    | inr plain ↦ by_entry (
        subst (In p)
          (ap (λ (r : SftpUser × List SharedFolder). r.0.permissions) (if-false _ _ plain)) i)
  ]
    where
      by_entry :
          (p ≡ (codes "/", perm_list_only))
            ⊎ In p (map (λ f. (codes "/" ++ f.name, perms_for lower sha256 u f)) u.folders)
          → IsGranted u p
      by_entry (inl e) = inl (ap (λ q. q.0) e, ap (λ q. q.1) e)
      by_entry (inr m) =
          let (f, there, e) =
            (In-map (λ (f : Folder). (codes "/" ++ f.name, perms_for lower sha256 u f)) p
                u.folders).0
              m in
          inr (
            f,
            there,
            ap (λ q. q.0) (sym e),
            elim (perms_for_cases u f) [
              | inl reads ↦ inl (ap (λ q. q.1) (sym e) ∙ reads)
              | inr (writes, access, role) ↦ inr (ap (λ q. q.1) (sym e) ∙ writes, access, role)
            ],
          )
