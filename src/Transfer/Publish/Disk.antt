-- ===== src/Transfer/Publish/Disk.antt =====
-- internal/transfer/save.go: the interface of the kernel is met by a folder on a filesystem that has no
-- RENAME_NOREPLACE.
use omarchy_vault.Prelude.{
  ◌≡◌, ◌≢◌, refl, inl, inr, str_eq, str_eq_iff, str_eq_refl, true, if-true, if-false, if◌then◌else◌,
  Option, none, some, [], Result, ok, err, arith, Bool-cases,
}
use omarchy_vault.Transfer.Names.{Runes}
use omarchy_vault.Transfer.Publish.{Bytes, Errno, Kernel, eexist, einval}

abbrev pub Files : Type 0
Files = Runes → Option Bytes

abbrev pub put : Runes → Option Bytes → Files → Files
put name d s = λ x. if str_eq x name then d else s x

abbrev pub add : Option Bytes → Option Bytes → Runes → Files → Files × Result Errno (Unit {0})
add none d to s = (put to d s, ok tt)
add (some _) d to s = (s, err eexist)

pub other_name :
    (s : Files) (name : Runes) (d : Option Bytes) (x : Runes) → x ≢ name → put name d s x ≡ s x
other_name s name d x apart = elim (Bool-cases (str_eq x name)) [
  | inl same ↦ absurd (apart ((str_eq_iff x name).0 same))
  | inr off ↦ if-false _ _ off
]

pub same_name : (s : Files) (name : Runes) (d : Option Bytes) → put name d s name ≡ d
same_name s name d = if-true _ _ (str_eq_refl name)

pub add_ok :
    (held d : Option Bytes) (to : Runes) (s : Files)
    → (add held d to s).1 ≡ ok tt
    → (held ≡ none)
      × ((add held d to s).0 to ≡ d)
      × ((x : Runes) → x ≢ to → (add held d to s).0 x ≡ s x)
add_ok none d to s h = (refl, same_name s to d, other_name s to d)
add_ok (some b) d to s h = absurd (ground arith)

pub add_err :
    (held d : Option Bytes) (to : Runes) (s : Files) (e : Errno)
    → (add held d to s).1 ≡ err e
    → (add held d to s).0 ≡ s
add_err none d to s e h = absurd (ground arith)
add_err (some b) d to s e h = refl

pub add_exists :
    (held d : Option Bytes) (to : Runes) (s : Files)
    → (add held d to s).1 ≡ err eexist
    → held ≢ none
add_exists none d to s h = absurd (ground arith)
add_exists (some b) d to s h = λ c. cc

abbrev pub Answer : Type 0
Answer = Result Errno (Unit {0})

-- A refusal is neither a success nor another refusal.
pub not_ok : {X : Type 0} (e : Errno) (a : Answer) → a ≡ err e → a ≡ ok tt → X
not_ok e a h c = absurd (ground arith)

pub not_taken : {X : Type 0} (a : Answer) → a ≡ err einval → a ≡ err eexist → X
not_taken a h c = absurd (ground arith)

-- A filesystem without RENAME_NOREPLACE: every rename is refused.
abbrev pub disk : Kernel
disk = record {
  Folder = Files;
  content = λ s x. s x;
  rename = λ from to s. (s, err einval);
  link = λ from to s. add (s to) (s from) to s;
  unlink = λ name s. put name none s;
  create = λ name s. add (s name) (some []) name s;
  write = λ name d s. (put name (some d) s, true);
  rename_ok = λ from to s. not_ok einval (err einval) refl;
  rename_err = λ from to s e h. refl;
  rename_exists = λ from to s. not_taken (err einval) refl;
  link_ok = λ from to s. add_ok (s to) (s from) to s;
  link_err = λ from to s. add_err (s to) (s from) to s;
  link_exists = λ from to s. add_exists (s to) (s from) to s;
  unlink_others = λ name s. other_name s name none;
  create_ok =
      λ name s h. ((add_ok (s name) (some []) name s h).0, (add_ok (s name) (some []) name s h).2);
  create_err = λ name s. add_err (s name) (some []) name s;
  write_ok = λ name d s h. same_name s name (some d);
  write_others = λ name d s. other_name s name (some d);
}
