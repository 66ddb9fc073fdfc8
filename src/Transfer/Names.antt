-- ===== src/Transfer/Names.antt =====
-- internal/transfer/save.go: `CleanName` and `candidate`. A name is the list of runes that Go's loop
-- over a text yields, a byte that is no UTF-8 as U+FFFD.
pub mod Pieces
pub mod Safe
pub mod Candidates
use mathlib.Core.List.{reverse}
use omarchy_vault.Prelude.{
  ℕ, zero, suc, ◌+◌, ◌-◌, ◌/◌, ◌%◌, GoString, codes, str_eq, is_empty, Bool, true, false, not, ◌&&◌,
  ◌||◌, leb, ltb, ◌==◌, if◌then◌else◌, List, [], ◌∷◌, ◌++◌, map, filter, length, any,
}

abbrev pub Runes : Type 0
Runes = List ℕ

abbrev pub max_name_bytes : ℕ
max_name_bytes = 200

-- the bytes of a rune in UTF-8
abbrev pub rune_len : ℕ → ℕ
rune_len r = if ltb r 128 then 1 else if ltb r 2048 then 2 else if ltb r 65536 then 3 else 4

-- `len` of the text
unfoldable pub bytes : Runes → ℕ
bytes [] = 0
bytes (r ∷ rs) = rune_len r + bytes rs

-- `unicode.IsSpace`
abbrev pub is_space : ℕ → Bool
is_space r =
    (leb 9 r && leb r 13)
    || r == 32
    || r == 133
    || r == 160
    || r == 5760
    || (leb 8192 r && leb r 8202)
    || r == 8232
    || r == 8233
    || r == 8239
    || r == 8287
    || r == 12288

-- `unicode.IsControl`
abbrev pub is_control : ℕ → Bool
is_control r = ltb r 32 || (leb 127 r && ltb r 160)

-- `strings.TrimLeft` by a test
unfoldable pub trim_left : (ℕ → Bool) → Runes → Runes
trim_left p [] = []
trim_left p (r ∷ rs) = let rest = trim_left p rs in if p r then rest else r ∷ rs

abbrev pub trim_right : (ℕ → Bool) → Runes → Runes
trim_right p rs = reverse (trim_left p (reverse rs))

-- the runes after the last slash
unfoldable pub after_slash : Runes → Runes
after_slash [] = []
after_slash (r ∷ rs) =
    let rest = after_slash rs in
    if any (λ c. c == 47) rs then rest else if r == 47 then rs else r ∷ rs

abbrev pub base_of : Runes → Runes
base_of [] = 47 ∷ []
base_of (r ∷ rs) = after_slash (r ∷ rs)

-- `path.Base`
unfoldable pub base : Runes → Runes
unfolding after_slash trim_left
base [] = 46 ∷ []
base (r ∷ rs) = base_of (trim_right (λ c. c == 47) (r ∷ rs))

-- the loop over the runes
unfoldable pub scrub : Runes → Runes
scrub [] = []
scrub (r ∷ rs) =
    let rest = scrub rs in
    if r == 65533 || r == 47 || r == 0
    then 95 ∷ rest
    else if is_control r || r == 8238 || r == 8237
    then rest
    else r ∷ rest

-- `path.Ext`, going back from the end: found, stopped by a slash, or neither yet
pub data Scan : Type 0 where
  found : Runes → Scan
  stopped none_yet : Scan

abbrev pub scan_step : ℕ → Runes → Scan → Scan
scan_step r rs none_yet = if r == 47 then stopped else if r == 46 then found (r ∷ rs) else none_yet
scan_step r rs s = s

unfoldable pub scan_ext : Runes → Scan
scan_ext [] = none_yet
scan_ext (r ∷ rs) = scan_step r rs (scan_ext rs)

abbrev pub of_scan : Scan → Runes
of_scan (found e) = e
of_scan _ = []

abbrev pub ext : Runes → Runes
ext rs = of_scan (scan_ext rs)

abbrev pub take : Runes → ℕ → Runes
take [] n = []
take (r ∷ rs) zero = []
take (r ∷ rs) (suc n) = r ∷ take rs n

-- the text without its last runes, as many as the other has
abbrev pub without_end : Runes → Runes → Runes
without_end rs e = take rs (length rs - length e)

-- the loop that shortens the stem, on the stem from its end
unfoldable pub shorten : ℕ → Runes → Runes
unfolding bytes
shorten room [] = []
shorten room (r ∷ rs) =
    let rest = shorten room rs in if leb (bytes (r ∷ rs)) room then r ∷ rs else rest

abbrev pub short_ext : Runes → Runes
short_ext name = let e = ext name in if ltb 16 (bytes e) then [] else e

-- the name with its stem shortened to make room for the extension
unfoldable pub cut_to : Runes → Runes → Runes
unfolding shorten bytes
cut_to e name = reverse (shorten (max_name_bytes - bytes e) (reverse (without_end name e))) ++ e

unfoldable pub fit : Runes → Runes
unfolding bytes scan_ext cut_to
fit name = if ltb max_name_bytes (bytes name) then cut_to (short_ext name) name else name

abbrev pub or_upload : Runes → Runes
or_upload name =
    if is_empty name || str_eq name (codes ".") || str_eq name (codes "..")
    then codes "upload"
    else name

-- `CleanName` before the length is cut
unfoldable pub plain_name : Runes → Runes
unfolding base scrub trim_left
plain_name raw = or_upload (
    trim_left (λ r. r == 46 || r == 32)
      (trim_right is_space
        (trim_left is_space (scrub (base (map (λ r. if r == 92 then 47 else r) raw))))))

-- `CleanName`
unfoldable pub clean_name : Runes → Runes
unfolding plain_name fit
clean_name raw = fit (plain_name raw)

-- a number in decimal digits, with fuel for each digit
unfoldable pub digits : ℕ → ℕ → GoString → GoString
digits zero n acc = acc
digits (suc f) n acc =
    let more = digits f (n / 10) ((48 + n % 10) ∷ acc) in if ltb n 10 then (48 + n) ∷ acc else more

abbrev pub decimal : ℕ → GoString
decimal n = digits (suc n) n []

-- the extension, unless it is the whole name
abbrev pub own_ext : Runes → Runes
own_ext name = if str_eq (ext name) name then [] else ext name

abbrev pub numbered : Runes → ℕ → Runes → Runes
numbered name i e = without_end name e ++ (codes " (" ++ decimal i ++ codes ")" ++ e)

-- `candidate`
unfoldable pub candidate : Runes → ℕ → Runes
unfolding scan_ext digits
candidate name zero = name
candidate name (suc i) = numbered name (suc i) (own_ext name)
