-- ===== src/Transfer/Names/Pieces.antt =====
-- internal/transfer/save.go: the steps of `CleanName`, one by one.
use mathlib.Core.List.{reverse, reverse-append, append-nil}
use omarchy_vault.Prelude.{
  ℕ, ◌+◌, ◌-◌, ◌≤◌, ◌<◌, ◌≡◌, ◌≢◌, refl, ap, sym, ◌∙◌, ◌⊎◌, inl, inr, codes, str_eq, is_empty, Bool,
  true, false, not, ◌&&◌, ◌||◌, leb, ltb, ◌==◌, if◌then◌else◌, [], ◌∷◌, ◌++◌, map, length,
  length-append, all, arith, Bool-cases, leb→le, leb→gt,
}
use omarchy_vault.Transfer.Names.{
  Runes, bytes, is_space, is_control, trim_left, trim_right, base, scrub, Scan, found, scan_step,
  scan_ext, of_scan, ext, take, without_end, shorten, short_ext, or_upload, plain_name,
}

-- neither a separator nor a control character
abbrev pub is_fine : ℕ → Bool
is_fine r = not (r == 47) && not (is_control r)

-- whether the first rune passes a test
abbrev pub starts : (ℕ → Bool) → Runes → Bool
starts p [] = false
starts p (r ∷ rs) = p r

abbrev pub hides : ℕ → Bool
hides r = r == 46 || r == 32

module _ (p : ℕ → Bool) where
  pub all-append : (xs ys : Runes) → all p (xs ++ ys) ≡ (all p xs && all p ys)
  all-append [] ys = refl
  all-append (x ∷ xs) ys = ground (arith, all-append xs ys)

  all-reverse : (xs : Runes) → all p (reverse xs) ≡ all p xs
  all-reverse [] = refl
  all-reverse (x ∷ xs) =
      ap (all p) (reverse-append (x ∷ []) xs)
      ∙ all-append (reverse xs) (x ∷ [])
      ∙ ground (arith, all-reverse xs)

  all-trim_left : (q : ℕ → Bool) (xs : Runes) → all p xs ≡ true → all p (trim_left q xs) ≡ true
  unfolding trim_left
  all-trim_left q [] h = refl
  all-trim_left q (x ∷ xs) h = ground (arith, all-trim_left q xs)

  all-trim_right : (q : ℕ → Bool) (xs : Runes) → all p xs ≡ true → all p (trim_right q xs) ≡ true
  all-trim_right q xs h =
      all-reverse (trim_left q (reverse xs)) ∙ all-trim_left q (reverse xs) (all-reverse xs ∙ h)

  starts-trim_left : (xs : Runes) → starts p (trim_left p xs) ≡ false
  unfolding trim_left
  starts-trim_left [] = refl
  starts-trim_left (x ∷ xs) = elim (Bool-cases (p x)) [
    | inl gone ↦ rw gone (starts-trim_left xs)
    | inr kept ↦ rw kept kept
  ]

  pub starts-append : (xs ys : Runes) → xs ≢ [] → starts p (xs ++ ys) ≡ starts p xs
  starts-append [] ys h = absurd (h refl)
  starts-append (x ∷ xs) ys h = refl

all-scrub : (rs : Runes) → all is_fine (scrub rs) ≡ true
unfolding scrub
all-scrub [] = refl
all-scrub (r ∷ rs) = ground (arith, all-scrub rs)

-- The three things that hold of a name before it is cut.
abbrev pub IsPlain : Runes → Type 0
IsPlain name = (name ≢ []) × (all is_fine name ≡ true) × (starts hides name ≡ false)

or_upload-IsPlain :
    (name : Runes) → all is_fine name ≡ true → starts hides name ≡ false → IsPlain (or_upload name)
or_upload-IsPlain name fine shown =
    elim (Bool-cases (is_empty name || str_eq name (codes ".") || str_eq name (codes ".."))) [
      | inl bad ↦ rw bad ((λ e. cc), refl, refl)
      | inr good ↦ rw good (filled name (ground arith), fine, shown)
    ]
  where
    filled : (rs : Runes) → is_empty rs ≡ false → rs ≢ []
    filled [] h = cc
    filled (r ∷ rs) h = λ e. cc

pub plain_name-IsPlain : (raw : Runes) → IsPlain (plain_name raw)
unfolding plain_name
plain_name-IsPlain raw =
    let scrubbed = scrub (base (map (λ r. if r == 92 then 47 else r) raw)) in
    let left = trim_left is_space scrubbed in
    let trimmed = trim_right is_space left in
    or_upload-IsPlain (trim_left hides trimmed)
      (all-trim_left is_fine hides trimmed (
        all-trim_right is_fine is_space left (
          all-trim_left is_fine is_space scrubbed
            (all-scrub (base (map (λ r. if r == 92 then 47 else r) raw))))))
      (starts-trim_left hides trimmed)

scan_step-found :
    (r : ℕ) (rs : Runes) (s : Scan) (e : Runes)
    → scan_step r rs s ≡ found e
    → (s ≡ found e) ⊎ (e ≡ r ∷ rs)
scan_step-found r rs (found x) e h = inl h
scan_step-found r rs Scan.stopped e h = absurd (ground arith)
scan_step-found r rs Scan.none_yet e h = elim (Bool-cases (r == 47)) [
  | inl stop ↦ absurd (ground arith)
  | inr on ↦ elim (Bool-cases (r == 46)) [
    | inl dot ↦ inr (ground arith)
    | inr other ↦ absurd (ground arith)
  ]
]

-- the extension is an end of the name
scan_ext-suffix : (rs e : Runes) → scan_ext rs ≡ found e → (p : Runes) × (rs ≡ p ++ e)
unfolding scan_ext
scan_ext-suffix [] e h = cc
scan_ext-suffix (r ∷ rs) e h = elim (scan_step-found r rs (scan_ext rs) e h) [
  | inl earlier ↦ let (p, same) = scan_ext-suffix rs e earlier in (r ∷ p, ap (λ t. r ∷ t) same)
  | inr here ↦ ([], sym here)
]

pub of_scan-suffix : (rs : Runes) (s : Scan) → scan_ext rs ≡ s → (p : Runes) × (rs ≡ p ++ of_scan s)
of_scan-suffix rs (found e) h = scan_ext-suffix rs e h
of_scan-suffix rs Scan.stopped h = (rs, sym (append-nil rs))
of_scan-suffix rs Scan.none_yet h = (rs, sym (append-nil rs))

pub short_ext-suffix :
    (name : Runes) → (p : Runes) × (name ≡ p ++ short_ext name) × (bytes (short_ext name) ≤ 16)
unfolding bytes
short_ext-suffix name = elim (Bool-cases (ltb 16 (bytes (ext name)))) [
  | inl long ↦ (name, rw long (sym (append-nil name)), rw long (omega arith))
  | inr short ↦
      let (p, same) = of_scan-suffix name (scan_ext name) refl in
      (p, rw short same, rw short (ground arith))
]

pub take-append : (p e : Runes) → take (p ++ e) (length p) ≡ p
take-append [] [] = refl
take-append [] (r ∷ e) = refl
take-append (r ∷ p) e = ap (λ t. r ∷ t) (take-append p e)

pub without_end-append : (p e : Runes) → without_end (p ++ e) e ≡ p
without_end-append p e =
    let n : length (p ++ e) - length e ≡ length p = omega (arith, length-append p e) in
    rw n (take-append p e)

pub bytes-append : (xs ys : Runes) → bytes (xs ++ ys) ≡ bytes xs + bytes ys
unfolding bytes
bytes-append [] ys = omega arith
bytes-append (x ∷ xs) ys = omega (arith, bytes-append xs ys)

pub bytes-reverse : (xs : Runes) → bytes (reverse xs) ≡ bytes xs
unfolding bytes
bytes-reverse [] = refl
bytes-reverse (x ∷ xs) =
    ap bytes (reverse-append (x ∷ []) xs)
    ∙ omega (arith, bytes-append (reverse xs) (x ∷ []), bytes-reverse xs)

-- `shorten` takes runes off the front until the rest fits, and leaves as much as it can.
pub shorten-bytes : (room : ℕ) (rs : Runes) → bytes (shorten room rs) ≤ room
unfolding shorten bytes
shorten-bytes room [] = omega arith
shorten-bytes room (r ∷ rs) = elim (Bool-cases (leb (bytes (r ∷ rs)) room)) [
  | inl fits ↦ rw fits (leb→le _ _ fits)
  | inr big ↦ rw big (shorten-bytes room rs)
]

shorten-all : (room : ℕ) (rs : Runes) → bytes rs ≤ room → shorten room rs ≡ rs
unfolding shorten bytes
shorten-all room [] h = refl
shorten-all room (r ∷ rs) h = ground arith

pub shorten-most : (room : ℕ) (rs : Runes) → room < bytes rs → room ≤ bytes (shorten room rs) + 3
unfolding shorten bytes
shorten-most room [] h = absurd (omega arith)
shorten-most room (r ∷ rs) h = elim (Bool-cases (leb (bytes rs) room)) [
  | inl fits ↦
      let big : leb (bytes (r ∷ rs)) room ≡ false = ground arith in
      rw (big, shorten-all room rs (leb→le _ _ fits)) (ground arith)
  | inr large ↦
      let big : leb (bytes (r ∷ rs)) room ≡ false = ground arith in
      rw big (shorten-most room rs (leb→gt _ _ large))
]

pub shorten-suffix : (room : ℕ) (rs : Runes) → (t : Runes) × (rs ≡ t ++ shorten room rs)
unfolding shorten
shorten-suffix room [] = ([], refl)
shorten-suffix room (r ∷ rs) = elim (Bool-cases (leb (bytes (r ∷ rs)) room)) [
  | inl fits ↦ ([], rw fits refl)
  | inr big ↦ let (t, same) = shorten-suffix room rs in (r ∷ t, rw big (ap (λ x. r ∷ x) same))
]
