-- ===== src/Config/Folders/Components.antt =====
-- internal/config/config.go: the paths that `ValidateFolder` accepts, by their components.
use omarchy_vault.Prelude.{
  ℕ, ◌≤◌, ◌≡◌, ◌≢◌, refl, ◌↔◌, ◌⊎◌, GoString, codes, str_eq_iff, is_empty, has_prefix, true, false,
  ◌||◌, ◌==◌, List, [], ◌∷◌, length, any, ok, >>-ok_iff, All, arith, Bool-cases, inl, inr,
}
use omarchy_vault.Config.Folders.{
  slash, backslash, has_byte, ends_with, split, is_control, check_component, check_components,
  validate_folder,
}

-- A component that stands for one folder, below its parent: not empty, not `.`, not `..`, of at most
-- 255 bytes, with no backslash and no control character.
abbrev pub IsComponent : GoString → Type 0
IsComponent p =
    (p ≢ [])
    × (p ≢ codes ".")
    × (p ≢ codes "..")
    × (length p ≤ 255)
    × All (λ b. (32 ≤ b) × (b ≢ 127) × (b ≢ backslash)) p

bytes_fine :
    (p : GoString)
    → ((has_byte backslash p ≡ false) × (any is_control p ≡ false))
      ↔ All (λ b. (32 ≤ b) × (b ≢ 127) × (b ≢ backslash)) p
bytes_fine [] = ground arith
bytes_fine (c ∷ p) = ground (arith, bytes_fine p)

empty_iff : (p : GoString) → (is_empty p ≡ true) ↔ (p ≡ [])
empty_iff [] = ground arith
empty_iff (c ∷ p) = ground arith

IsComponent-iff :
    (p : GoString) → ((check_component p ≡ ok tt) × (has_byte backslash p ≡ false)) ↔ IsComponent p
unfolding check_component
IsComponent-iff p =
    ground (arith, empty_iff p, str_eq_iff p (codes "."), str_eq_iff p (codes ".."), bytes_fine p)

components_iff :
    (ps : List GoString)
    → ((check_components ps ≡ ok tt) × (any (has_byte backslash) ps ≡ false)) ↔ All IsComponent ps
unfolding check_components
components_iff [] = ground arith
components_iff (p ∷ ps) = ground (
  arith,
  IsComponent-iff p,
  components_iff ps,
  >>-ok_iff (check_component p) (check_components ps),
)

split_cases : (s : GoString) → (p : GoString) × (ps : List GoString) × (split slash s ≡ p ∷ ps)
unfolding split
split_cases [] = ([], [], refl)
split_cases (c ∷ s) =
    let (p, ps, e) = split_cases s in
    elim (Bool-cases (c == slash)) [
      | inl here ↦ ([], p ∷ ps, rw (here, e) refl)
      | inr other ↦ (c ∷ p, ps, rw (other, e) refl)
    ]

-- a byte other than the separator is in the text when it is in a component
has_byte-split :
    (b : ℕ) (s : GoString) → b ≢ slash → any (has_byte b) (split slash s) ≡ has_byte b s
unfolding split
has_byte-split b [] h = refl
has_byte-split b (c ∷ s) h =
    let (p, ps, e) = split_cases s in
    let ih = rw e at (has_byte-split b s h) in rw e (ground (arith, ih))

tail : List GoString → List GoString
tail [] = []
tail (p ∷ ps) = ps

any-tail : (ps : List GoString) → any is_empty (tail ps) ≡ true → any is_empty ps ≡ true
unfolding tail
any-tail [] h = h
any-tail (p ∷ ps) h = ground arith

-- a text that ends with the separator has an empty component after the first
ends_empty : (s : GoString) → ends_with slash s ≡ true → any is_empty (tail (split slash s)) ≡ true
unfolding split ends_with tail
ends_empty [] h = cc
ends_empty (c ∷ []) h = rw h refl
ends_empty (c ∷ (d ∷ s)) h = elim (Bool-cases (c == slash)) [
  | inl here ↦ rw here (any-tail (split slash (d ∷ s)) (ends_empty (d ∷ s) h))
  | inr other ↦
      let (p, ps, e) = split_cases (d ∷ s) in
      let ih = rw e at (ends_empty (d ∷ s) h) in rw (other, e) ih
]

starts_empty :
    (s : GoString) → has_prefix s (codes "/") ≡ true → any is_empty (split slash s) ≡ true
unfolding split has_prefix
starts_empty [] h = cc
starts_empty (c ∷ s) h = let here : c == slash ≡ true = ground arith in rw here refl

none_empty : (ps : List GoString) → All IsComponent ps → any is_empty ps ≡ false
none_empty [] h = refl
none_empty (p ∷ ps) h = ground (arith, empty_iff p, none_empty ps)

control_nul : (s : GoString) → any is_control s ≡ false → has_byte 0 s ≡ false
control_nul [] h = refl
control_nul (c ∷ s) h = ground (arith, control_nul s)

no_nul : (ps : List GoString) → All IsComponent ps → any (has_byte 0) ps ≡ false
no_nul [] h = refl
no_nul (p ∷ ps) h = ground (arith, component_nul, no_nul ps)
  where
    component_nul : has_byte 0 p ≡ false
    component_nul = let (_, _, _, _, q) = h.0 in control_nul p ((bytes_fine p).1 q).1

-- The path is relative and has none of the bytes that `ValidateFolder` refuses anywhere.
fine_whole :
    (f : GoString)
    → All IsComponent (split slash f)
    → (has_byte 0 f || has_byte backslash f || has_prefix f (codes "/") || ends_with slash f)
      ≡ false
fine_whole f h =
    let (_, slashed) = (components_iff (split slash f)).1 h in
    let filled = none_empty (split slash f) h in
    ground (
      arith,
      has_byte-split 0 f,
      has_byte-split backslash f,
      no_nul (split slash f) h,
      starts_empty f,
      ends_empty f,
      any-tail (split slash f),
    )

-- `ValidateFolder` accepts exactly the empty path and the paths of at most four components, each of
-- which stands for one folder below the one before.
pub validate_folder_iff :
    (f : GoString)
    → (validate_folder f ≡ ok tt)
      ↔ ((f ≡ []) ⊎ ((length (split slash f) ≤ 4) × All IsComponent (split slash f)))
unfolding validate_folder
validate_folder_iff f =
    ground
      (arith, empty_iff f, components_iff (split slash f), has_byte-split backslash f, fine_whole f)

-- a text without the separator is one component
split-whole : (s : GoString) → has_byte slash s ≡ false → split slash s ≡ s ∷ []
unfolding split
split-whole [] h = refl
split-whole (c ∷ s) h = ground (arith, split-whole s)

pub validate_folder-name_iff :
    (f : GoString)
    → is_empty f ≡ false
    → has_byte slash f ≡ false
    → (validate_folder f ≡ ok tt) ↔ IsComponent f
validate_folder-name_iff f full flat =
    let whole = rw (split-whole f flat) at (validate_folder_iff f) in ground (arith, empty_iff f)
