-- ===== src/Storage/Adopt/Kept.antt =====
-- internal/storage/adopt.go: making folders changes nothing that was there.
use omarchy_vault.Prelude.{
  ◌++◌, ◌≡◌, ◌≢◌, refl, ap, sym, ◌∙◌, GoString, Bool, true, false, List, [], ◌∷◌, Result, ok, err,
}
use omarchy_vault.Storage.Paths.{clean, join, join_slash}
use omarchy_vault.Storage.Adopt.{
  Entry, missing, folder, file, link, unreadable, Made, made, exists, failed, Root, AdoptResult,
  AdoptCode, after_mkdir, ensure_entry, ensure_dir, after_part, make_path, note_folder,
  make_defaults,
}

module _ (R : Root) where
  -- Whatever was there is as it was.
  abbrev pub Keeps : R.Files → R.Files → Type 0
  Keeps s s' = (x : GoString) → R.lstat s x ≢ missing → R.lstat s' x ≡ R.lstat s x

  pub Keeps-trans : (a b c : R.Files) → Keeps a b → Keeps b c → Keeps a c
  Keeps-trans a b c h k = λ x there. k x (λ e. there (sym (h x there) ∙ e)) ∙ h x there

  pub Keeps-refl : (s : R.Files) → Keeps s s
  Keeps-refl s = λ x there. refl

  after_mkdir-Keeps :
      (rel : GoString) (s : R.Files) (p : R.Files × Made)
      → R.mkdir rel s ≡ p
      → Keeps s (after_mkdir R p).0
  after_mkdir-Keeps rel s (t, made) e = λ x there.
      let (_, _, others) = R.mkdir_made rel s (ap (λ q. q.1) e) in
      ap (λ q. R.lstat q.0 x) (sym e) ∙ others x there
  after_mkdir-Keeps rel s (t, exists) e = λ x there.
      ap (λ q. R.lstat q.0 x) (sym e)
      ∙ ap (λ v. R.lstat v x) (R.mkdir_exists rel s (ap (λ q. q.1) e)).1
  after_mkdir-Keeps rel s (t, failed) e = λ x there.
      ap (λ q. R.lstat q.0 x) (sym e)
      ∙ ap (λ v. R.lstat v x) (R.mkdir_failed rel s (ap (λ q. q.1) e))

  ensure_entry-Keeps :
      (rel : GoString) (e : Entry) (s : R.Files) → Keeps s (ensure_entry R rel e s).0
  ensure_entry-Keeps rel link s = Keeps-refl s
  ensure_entry-Keeps rel file s = Keeps-refl s
  ensure_entry-Keeps rel folder s = Keeps-refl s
  ensure_entry-Keeps rel missing s = after_mkdir-Keeps rel s (R.mkdir rel s) refl
  ensure_entry-Keeps rel unreadable s = Keeps-refl s

  ensure_dir-Keeps : (rel : GoString) (s : R.Files) → Keeps s (ensure_dir R rel s).0
  unfolding ensure_dir
  ensure_dir-Keeps rel s = ensure_entry-Keeps rel (R.lstat s rel) s

  after_part-Keeps :
      (next : R.Files → R.Files × Result AdoptCode Bool) (ps : List GoString) (s : R.Files)
      (q : R.Files × Result AdoptCode Bool)
      → Keeps s q.0
      → ((t : R.Files) → Keeps t (next t).0)
      → Keeps s (after_part R next ps q).0
  after_part-Keeps next [] s (t, r) h k = h
  after_part-Keeps next (p ∷ ps) s (t, err e) h k = h
  after_part-Keeps next (p ∷ ps) s (t, ok b) h k = Keeps-trans s t (next t).0 h (k t)

  pub make_path-Keeps :
      (before ps : List GoString) (s : R.Files) → Keeps s (make_path R before ps s).0
  unfolding make_path
  make_path-Keeps before [] s = Keeps-refl s
  make_path-Keeps before (p ∷ ps) s =
      after_part-Keeps (λ t. make_path R (before ++ p ∷ []) ps t) ps s
        (ensure_dir R (clean (join_slash (before ++ p ∷ []))) s)
        (ensure_dir-Keeps (clean (join_slash (before ++ p ∷ []))) s)
        (λ t. make_path-Keeps (before ++ p ∷ []) ps t)

  pub make_defaults-Keeps :
      (vault : GoString) (ns : List GoString) (r : AdoptResult) (s : R.Files)
      → Keeps s (make_defaults R vault ns r s).0
  unfolding make_defaults
  make_defaults-Keeps vault [] r s = Keeps-refl s
  make_defaults-Keeps vault (n ∷ ns) r s =
      let step = ensure_dir R (join vault n) s in
      Keeps-trans s step.0 (make_defaults R vault ns (note_folder R n step.1 r) step.0).0
        (ensure_dir-Keeps (join vault n) s)
        (make_defaults-Keeps vault ns (note_folder R n step.1 r) step.0)

  source-note_folder :
      (n : GoString) (o : Result AdoptCode Bool) (r : AdoptResult)
      → (note_folder R n o r).source ≡ r.source
  source-note_folder n (ok true) r = refl
  source-note_folder n (ok false) r = refl
  source-note_folder n (err e) r = refl

  pub source-make_defaults :
      (vault : GoString) (ns : List GoString) (r : AdoptResult) (s : R.Files)
      → (make_defaults R vault ns r s).1.source ≡ r.source
  unfolding make_defaults
  source-make_defaults vault [] r s = refl
  source-make_defaults vault (n ∷ ns) r s =
      let step = ensure_dir R (join vault n) s in
      source-make_defaults vault ns (note_folder R n step.1 r) step.0
      ∙ source-note_folder n step.1 r
