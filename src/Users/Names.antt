-- ===== src/Users/Names.antt =====
-- internal/users/users.go: usernames and roles.
use omarchy_vault.Prelude.{
  ℕ, ◌≤◌, ◌≡◌, ◌⊎◌, ◌↔◌, GoString, codes, str_eq, contains, Bool, true, false, not, ◌||◌, ◌&&◌, leb,
  ◌==◌, if◌then◌else◌, List, [], ◌∷◌, length, all, Result, ok, err, All, arith,
}

abbrev pub admin : GoString
admin = codes "admin"

abbrev pub family : GoString
family = codes "family"

abbrev pub guest : GoString
guest = codes "guest"

-- `Role.Valid`
abbrev pub is_role : GoString → Bool
is_role r = str_eq r admin || str_eq r family || str_eq r guest

abbrev pub reserved : List GoString
reserved = codes "local" ∷ codes "root" ∷ codes "vault" ∷ codes "vault-admin" ∷ codes "system" ∷ []

abbrev is_lower : ℕ → Bool
is_lower c = leb 97 c && leb c 122

-- `[a-z0-9_-]`
abbrev is_name_byte : ℕ → Bool
is_name_byte c = is_lower c || (leb 48 c && leb c 57) || c == 95 || c == 45

-- `usernameRe`: `^[a-z][a-z0-9_-]{1,31}$`
unfoldable pub matches_name : GoString → Bool
matches_name [] = false
matches_name (c ∷ s) = is_lower c && all is_name_byte s && leb 1 (length s) && leb (length s) 31

pub data NameError : Type 0 where
  bad_name reserved_name : NameError

-- `ValidateUsername`
unfoldable pub validate_username : GoString → Result NameError Unit
validate_username name =
    if not (matches_name name)
    then err bad_name
    else if contains reserved name
    then err reserved_name
    else ok tt

-- A lower case letter.
abbrev pub IsLower : ℕ → Type 0
IsLower c = (97 ≤ c) × (c ≤ 122)

-- A byte of a name after its first: a lower case letter, a digit, `_` or `-`.
abbrev pub IsNameByte : ℕ → Type 0
IsNameByte c = IsLower c ⊎ ((48 ≤ c) × (c ≤ 57)) ⊎ (c ≡ 95) ⊎ (c ≡ 45)

-- A name of 2 to 32 bytes that starts with a letter.
abbrev pub IsUsername : GoString → Type 0
IsUsername [] = ⊥
IsUsername (c ∷ s) = IsLower c × All IsNameByte s × (1 ≤ length s) × (length s ≤ 31)

name_bytes : (s : GoString) → (all is_name_byte s ≡ true) ↔ All IsNameByte s
name_bytes [] = ground arith
name_bytes (c ∷ s) = ground (arith, name_bytes s)

-- `ValidateUsername` accepts exactly the names of 2 to 32 lower case letters, digits, `_` and `-` that
-- start with a letter and are not reserved.
pub validate_username_iff :
    (name : GoString)
    → (validate_username name ≡ ok tt) ↔ (IsUsername name × (contains reserved name ≡ false))
unfolding validate_username matches_name
validate_username_iff [] = ground arith
validate_username_iff (c ∷ s) = ground (arith, name_bytes s)
