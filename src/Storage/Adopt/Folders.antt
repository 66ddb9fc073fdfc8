-- ===== src/Storage/Adopt/Folders.antt =====
-- internal/storage/adopt.go: the folders that `Adopt` makes sure of are folders, not links.
use omarchy_vault.Prelude.{
  ◌++◌, ◌≡◌, ◌≢◌, refl, ap, sym, ◌∙◌, ◌⊎◌, inl, inr, arith, All, GoString, Bool, List, [], ◌∷◌,
  Result, ok, err,
}
use omarchy_vault.Storage.Paths.{clean, join_slash}
use omarchy_vault.Storage.Adopt.{
  Entry, missing, folder, file, link, unreadable, Made, made, exists, failed, Root, AdoptCode,
  after_mkdir, ensure_entry, ensure_dir, after_part, make_path,
}
use omarchy_vault.Storage.Adopt.Kept.{Keeps, make_path-Keeps}

module _ (R : Root) where
  -- A plain folder, which a link to one is not.
  abbrev pub IsFolder : R.Files → GoString → Type 0
  IsFolder s rel = R.lstat s rel ≡ folder

  -- the Vault folder and those on the way to it, from the mount
  abbrev pub paths : List GoString → List GoString → List GoString
  paths before [] = []
  paths before (p ∷ ps) = clean (join_slash (before ++ p ∷ [])) ∷ paths (before ++ p ∷ []) ps

  pub Keeps-IsFolder :
      (s t : R.Files) (rel : GoString) → Keeps R s t → IsFolder s rel → IsFolder t rel
  Keeps-IsFolder s t rel kept h = kept rel (λ e. cc) ∙ h

  after_mkdir-IsFolder :
      (rel : GoString) (s : R.Files) (p : R.Files × Made) (b : Bool)
      → R.mkdir rel s ≡ p
      → R.lstat s rel ≡ missing
      → (after_mkdir R p).1 ≡ ok b
      → IsFolder (after_mkdir R p).0 rel
  after_mkdir-IsFolder rel s (t, made) b e free h =
      let (_, now, _) = R.mkdir_made rel s (ap (λ q. q.1) e) in
      ap (λ q. R.lstat q.0 rel) (sym e) ∙ now
  after_mkdir-IsFolder rel s (t, exists) b e free h =
      let (taken, _) = R.mkdir_exists rel s (ap (λ q. q.1) e) in absurd (taken free)
  after_mkdir-IsFolder rel s (t, failed) b e free h = absurd (ground arith)

  ensure_entry-IsFolder :
      (rel : GoString) (e : Entry) (s : R.Files) (b : Bool)
      → R.lstat s rel ≡ e
      → (ensure_entry R rel e s).1 ≡ ok b
      → IsFolder (ensure_entry R rel e s).0 rel
  ensure_entry-IsFolder rel link s b e h = absurd (ground arith)
  ensure_entry-IsFolder rel file s b e h = absurd (ground arith)
  ensure_entry-IsFolder rel folder s b e h = e
  ensure_entry-IsFolder rel missing s b e h = after_mkdir-IsFolder rel s (R.mkdir rel s) b refl e h
  ensure_entry-IsFolder rel unreadable s b e h = absurd (ground arith)

  -- Where `ensureDir` succeeds, there is a folder.
  ensure_dir-IsFolder :
      (rel : GoString) (s : R.Files) (b : Bool)
      → (ensure_dir R rel s).1 ≡ ok b
      → IsFolder (ensure_dir R rel s).0 rel
  unfolding ensure_dir
  ensure_dir-IsFolder rel s b h = ensure_entry-IsFolder rel (R.lstat s rel) s b refl h

  after_part-IsFolder :
      (next : R.Files → R.Files × Result AdoptCode Bool) (before ps : List GoString)
      (rel : GoString) (q : R.Files × Result AdoptCode Bool) (b : Bool)
      → ((t : R.Files) → Keeps R t (next t).0)
      → ((t : R.Files) (c : Bool) → (next t).1 ≡ ok c → All (IsFolder (next t).0) (paths before ps))
      → ((c : Bool) → q.1 ≡ ok c → IsFolder q.0 rel)
      → (after_part R next ps q).1 ≡ ok b
      → All (IsFolder (after_part R next ps q).0) (rel ∷ paths before ps)
  after_part-IsFolder next before [] rel (t, r) b kept later here h = (here b h, tt)
  after_part-IsFolder next before (p ∷ ps) rel (t, err e) b kept later here h =
      absurd (ground arith)
  after_part-IsFolder next before (p ∷ ps) rel (t, ok c) b kept later here h =
      (Keeps-IsFolder t (next t).0 rel (kept t) (here c refl), later t b h)

  -- Where the Vault folder could be made, it and those on the way to it are folders.
  pub make_path-IsFolder :
      (before ps : List GoString) (s : R.Files) (b : Bool)
      → (make_path R before ps s).1 ≡ ok b
      → All (IsFolder (make_path R before ps s).0) (paths before ps)
  unfolding make_path
  make_path-IsFolder before [] s b h = tt
  make_path-IsFolder before (p ∷ ps) s b h =
      let so_far = before ++ p ∷ [] in
      let rel = clean (join_slash so_far) in
      after_part-IsFolder (λ t. make_path R so_far ps t) so_far ps rel (ensure_dir R rel s) b
        (λ t. make_path-Keeps R so_far ps t) (λ t c e. make_path-IsFolder so_far ps t c e)
        (λ c e. ensure_dir-IsFolder rel s c e) h

  -- What is a folder now, and was kept if it was there, was a folder or not there.
  pub folder_before :
      (s t : R.Files) (rel : GoString)
      → Keeps R s t
      → IsFolder t rel
      → (R.lstat s rel ≡ missing) ⊎ (R.lstat s rel ≡ folder)
  folder_before s t rel kept h = go (R.lstat s rel) refl
    where
      was : R.lstat s rel ≢ missing → R.lstat s rel ≡ folder
      was there = sym (kept rel there) ∙ h

      go : (e : Entry) → R.lstat s rel ≡ e → (R.lstat s rel ≡ missing) ⊎ (R.lstat s rel ≡ folder)
      go missing e = inl e
      go folder e = inr e
      go file e = inr (was (λ m. absurd (ground arith)))
      go link e = inr (was (λ m. absurd (ground arith)))
      go unreadable e = inr (was (λ m. absurd (ground arith)))

  pub Keeps-All :
      (s t : R.Files) (xs : List GoString) → Keeps R s t → All (IsFolder s) xs → All (IsFolder t) xs
  Keeps-All s t [] kept h = tt
  Keeps-All s t (x ∷ xs) kept (h, hs) = (Keeps-IsFolder s t x kept h, Keeps-All s t xs kept hs)

  -- Now a folder, and a folder or not there before.
  abbrev pub WasMade : R.Files → R.Files → GoString → Type 0
  WasMade s t rel =
      (R.lstat t rel ≡ folder) × ((R.lstat s rel ≡ missing) ⊎ (R.lstat s rel ≡ folder))

  pub Keeps-WasMade :
      (s t : R.Files) (xs : List GoString)
      → Keeps R s t
      → All (IsFolder t) xs
      → All (WasMade s t) xs
  Keeps-WasMade s t [] kept h = tt
  Keeps-WasMade s t (x ∷ xs) kept (h, hs) =
      ((h, folder_before s t x kept h), Keeps-WasMade s t xs kept hs)
