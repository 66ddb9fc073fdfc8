-- ===== src/Config/Folders.antt =====
-- internal/config/config.go: `ValidateFolder`.
pub mod Components
use omarchy_vault.Prelude.{
  ℕ, GoString, codes, str_eq, is_empty, has_prefix, Bool, true, false, ◌||◌, ltb, ◌==◌,
  if◌then◌else◌, List, [], ◌∷◌, length, any, Result, ok, err, ◌>>◌,
}

pub data FolderError : Type 0 where
  not_relative too_deep bad_component control_character : FolderError

-- the bytes `/`, `\` and NUL
abbrev pub slash : ℕ
slash = 47

abbrev pub backslash : ℕ
backslash = 92

-- `strings.ContainsAny` for one byte
abbrev pub has_byte : ℕ → GoString → Bool
has_byte b s = any (λ c. c == b) s

-- `strings.HasSuffix` for one byte
unfoldable pub ends_with : ℕ → GoString → Bool
ends_with b [] = false
ends_with b (c ∷ []) = c == b
ends_with b (c ∷ (d ∷ s)) = ends_with b (d ∷ s)

abbrev pub cons_head : ℕ → List GoString → List GoString
cons_head c [] = (c ∷ []) ∷ []
cons_head c (p ∷ ps) = (c ∷ p) ∷ ps

-- `strings.Split` for a separator of one byte
unfoldable pub split : ℕ → GoString → List GoString
split sep [] = [] ∷ []
split sep (c ∷ s) = let rest = split sep s in if c == sep then [] ∷ rest else cons_head c rest

-- `r < 0x20 || r == 0x7f`. A rune of several bytes has no byte below 0x80, so the test may go by byte.
abbrev pub is_control : ℕ → Bool
is_control r = ltb r 32 || r == 127

unfoldable pub check_component : GoString → Result FolderError Unit
check_component p =
    if is_empty p || str_eq p (codes ".") || str_eq p (codes "..") || ltb 255 (length p)
    then err bad_component
    else if any is_control p
    then err control_character
    else ok tt

unfoldable pub check_components : List GoString → Result FolderError Unit
check_components [] = ok tt
check_components (p ∷ ps) = check_component p >> check_components ps

-- `ValidateFolder`
unfoldable pub validate_folder : GoString → Result FolderError Unit
validate_folder f =
    if is_empty f
    then ok tt
    else if has_byte 0 f || has_byte backslash f || has_prefix f (codes "/") || ends_with slash f
    then err not_relative
    else if ltb 4 (length (split slash f))
    then err too_deep
    else check_components (split slash f)
