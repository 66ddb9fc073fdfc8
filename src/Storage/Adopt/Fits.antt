-- ===== src/Storage/Adopt/Fits.antt =====
-- internal/storage/adopt.go: the checks and the work on the drive, step by step.
use omarchy_vault.Prelude.{
  ◌≡◌, refl, sym, subst, inl, inr, GoString, str_eq, str_eq_iff, is_empty, Bool, true, false, not,
  ◌&&◌, if-true, if-false, Bool-cases, [], ◌∷◌, All, Result, ok, err, arith,
}
use omarchy_vault.Storage.Paths.{MountTable, containing}
use omarchy_vault.Storage.Inspect.{Source, data_dir}
use omarchy_vault.Storage.Adopt.{
  Root, AdoptRequest, AdoptAnswers, AdoptResult, AdoptCode, default_folders, make_path,
  make_defaults, AdoptReply, refuse_if, with_ok, finish, check_place, after_path, parts_of, prepare,
}
use omarchy_vault.Storage.Adopt.Folders.{IsFolder, paths, make_path-IsFolder, Keeps-All}
use omarchy_vault.Storage.Adopt.Kept.{
  Keeps, Keeps-refl, Keeps-trans, make_path-Keeps, make_defaults-Keeps, source-make_defaults,
}

module _ (R : Root) where
  -- What was there is as it was, and the drive and a source that is returned are as the second argument
  -- says.
  pub Fits : R.Files → (R.Files → Source → Type 0) → AdoptReply R → Type 0
  Fits s P (s', ok r) = Keeps R s s' × P s' r.source
  Fits s P (s', err e) = Keeps R s s'

  pub Fits-err :
      (s t : R.Files) (P : R.Files → Source → Type 0) (e : AdoptCode)
      → Keeps R s t
      → Fits s P (t, err e)
  unfolding Fits
  Fits-err s t P e kept = kept

  Fits-ok :
      (s t : R.Files) (P : R.Files → Source → Type 0) (r : AdoptResult)
      → Keeps R s t
      → P t r.source
      → Fits s P (t, ok r)
  unfolding Fits
  Fits-ok s t P r kept h = (kept, h)

  pub refuse_if-Fits :
      (c : Bool) (e : AdoptCode) (s t : R.Files) (P : R.Files → Source → Type 0)
      (rest : AdoptReply R)
      → Keeps R s t
      → (c ≡ false → Fits s P rest)
      → Fits s P (refuse_if R c e t rest)
  unfolding refuse_if
  refuse_if-Fits true e s t P rest kept h = Fits-err s t P e kept
  refuse_if-Fits false e s t P rest kept h = h refl

  finish-Fits :
      (q : AdoptRequest) (uploads : GoString) (a : AdoptAnswers) (r : AdoptResult) (s t : R.Files)
      (P : R.Files → Source → Type 0)
      → Keeps R s t
      → ((t' : R.Files) → Keeps R t t' → P t' r.source)
      → Fits s P (finish R q uploads a r t)
  finish-Fits q uploads a r s t P kept h = elim (Bool-cases q.create_folders) [
    | inr off ↦
        subst (Fits s P) (sym (if-false _ _ off)) (Fits-ok s t P r kept (h t (Keeps-refl R t)))
    | inl on ↦
        let all = make_defaults R q.folder (default_folders uploads) r t in
        subst (Fits s P) (sym (if-true _ _ on)) (
          refuse_if-Fits (not (is_empty q.folder) && not a.folder_opens) AdoptCode.io_error s t P
            (with_ok R all) kept
            (λ _.
              Fits-ok s all.0 P all.1
                (Keeps-trans R s t all.0 kept
                  (make_defaults-Keeps R q.folder (default_folders uploads) r t))
                (subst (P all.0)
                  (sym (source-make_defaults R q.folder (default_folders uploads) r t))
                  (h all.0 (make_defaults-Keeps R q.folder (default_folders uploads) r t)))))
  ]

  check_place-Fits :
      (mounts : MountTable) (q : AdoptRequest) (uploads : GoString) (a : AdoptAnswers)
      (r : AdoptResult) (s t : R.Files) (P : R.Files → Source → Type 0)
      → Keeps R s t
      → (containing mounts (data_dir r.source) ≡ r.source.path
          → (t' : R.Files) → Keeps R t t'
          → P t' r.source)
      → Fits s P (check_place R mounts q uploads a r t)
  check_place-Fits mounts q uploads a r s t P kept h =
      refuse_if-Fits _ AdoptCode.io_error s t P _ kept (λ _.
        refuse_if-Fits _ AdoptCode.io_error s t P _ kept (λ _.
          refuse_if-Fits _ AdoptCode.unsafe_path s t P _ kept (λ _.
            refuse_if-Fits (not (str_eq (containing mounts (data_dir r.source)) r.source.path))
              AdoptCode.unsafe_path s t P _ kept
              (λ same. finish-Fits q uploads a r s t P kept (
                h (
                  (str_eq_iff (containing mounts (data_dir r.source)) r.source.path).0
                    (ground arith)))))))

  after_path-Fits :
      (mounts : MountTable) (q : AdoptRequest) (uploads : GoString) (a : AdoptAnswers)
      (r : AdoptResult) (s : R.Files) (p : R.Files × Result AdoptCode Bool)
      (P : R.Files → Source → Type 0)
      → Keeps R s p.0
      → (containing mounts (data_dir r.source) ≡ r.source.path
          → (b : Bool) → p.1 ≡ ok b
          → (t' : R.Files) → Keeps R p.0 t'
          → P t' r.source)
      → Fits s P (after_path R mounts q uploads a r p)
  after_path-Fits mounts q uploads a r s (t, err e) P kept h = Fits-err s t P e kept
  after_path-Fits mounts q uploads a r s (t, ok true) P kept h =
      check_place-Fits mounts q uploads a (record r { made_folders = q.folder ∷ [] }) s t P kept
        (λ placed. h placed true refl)
  after_path-Fits mounts q uploads a r s (t, ok false) P kept h =
      check_place-Fits mounts q uploads a r s t P kept (λ placed. h placed false refl)

  pub prepare-Fits :
      (mounts : MountTable) (q : AdoptRequest) (uploads : GoString) (a : AdoptAnswers)
      (r : AdoptResult) (s : R.Files) (P : R.Files → Source → Type 0)
      → (containing mounts (data_dir r.source) ≡ r.source.path
          → (t : R.Files) → All (IsFolder R t) (paths R [] (parts_of R q.folder))
          → P t r.source)
      → Fits s P (prepare R mounts q uploads a r s)
  prepare-Fits mounts q uploads a r s P h =
      refuse_if-Fits (not a.opens) AdoptCode.io_error s s P _ (Keeps-refl R s) (λ _.
        let parts = parts_of R q.folder in
        let made = make_path R [] parts s in
        after_path-Fits mounts q uploads a r s made P (make_path-Keeps R [] parts s)
          (λ placed b e t kept.
            h placed t
              (Keeps-All R made.0 t (paths R [] parts) kept (make_path-IsFolder R [] parts s b e))))

  pub Fits-source :
      (s : R.Files) (P : R.Files → Source → Type 0) (p : AdoptReply R) (r : AdoptResult)
      → Fits s P p
      → p.1 ≡ ok r
      → P p.0 r.source
  unfolding Fits
  Fits-source s P (t, ok r') r (_, h) e =
      let same : r' ≡ r = ground arith in subst (λ x. P t x.source) same h
  Fits-source s P (t, err f) r h e = absurd (ground arith)

  pub Fits-kept :
      (s : R.Files) (P : R.Files → Source → Type 0) (p : AdoptReply R) → Fits s P p → Keeps R s p.0
  unfolding Fits
  Fits-kept s P (t, ok r) (h, _) = h
  Fits-kept s P (t, err e) h = h
