-- ===== src/Storage/Paths.antt =====
-- internal/storage/mounts.go: which filesystem contains a path. `clean` and `join` are
-- `filepath.Clean` and `filepath.Join` for two elements.
use mathlib.Core.List.{reverse}
use omarchy_vault.Prelude.{
  GoString, codes, str_eq, is_empty, has_prefix, Bool, ◌||◌, ltb, if◌then◌else◌, List, [], ◌∷◌,
  ◌++◌, length, any,
}
use omarchy_vault.Config.Folders.{slash, split}

abbrev pub MountTable : Type 0
MountTable = List GoString

-- one component onto the reversed path, which `..` takes one off where it can
abbrev pub push_component : Bool → GoString → List GoString → List GoString
push_component rooted p [] =
    if is_empty p || str_eq p (codes ".")
    then []
    else if rooted
    then (if str_eq p (codes "..") then [] else p ∷ [])
    else p ∷ []
push_component rooted p (t ∷ ts) =
    if is_empty p || str_eq p (codes ".")
    then t ∷ ts
    else if str_eq p (codes "..")
    then (if str_eq t (codes "..") then p ∷ t ∷ ts else ts)
    else p ∷ t ∷ ts

unfoldable pub push_components : Bool → List GoString → List GoString → List GoString
push_components rooted [] acc = acc
push_components rooted (p ∷ ps) acc = push_components rooted ps (push_component rooted p acc)

unfoldable pub join_slash : List GoString → GoString
join_slash [] = []
join_slash (p ∷ []) = p
join_slash (p ∷ (q ∷ ps)) = p ++ slash ∷ join_slash (q ∷ ps)

abbrev pub or_dot : GoString → GoString
or_dot [] = codes "."
or_dot (c ∷ s) = c ∷ s

unfoldable pub clean : GoString → GoString
unfolding push_components join_slash
clean s =
    let rooted = has_prefix s (codes "/") in
    let body = join_slash (reverse (push_components rooted (split slash s) [])) in
    if rooted then slash ∷ body else or_dot body

unfoldable pub join : GoString → GoString → GoString
unfolding clean
join a b =
    if is_empty a
    then (if is_empty b then [] else clean b)
    else if is_empty b
    then clean a
    else clean (a ++ slash ∷ b)

-- `strings.TrimSuffix(m, "/")`
unfoldable pub trim_slash : GoString → GoString
trim_slash [] = []
trim_slash (c ∷ []) = if str_eq (c ∷ []) (codes "/") then [] else c ∷ []
trim_slash (c ∷ (d ∷ s)) = c ∷ trim_slash (d ∷ s)

-- the test in the loop of `Containing`
abbrev pub holds_path : GoString → GoString → Bool
holds_path m path =
    str_eq m path || str_eq m (codes "/") || has_prefix path (trim_slash m ++ codes "/")

unfoldable pub longest : GoString → GoString → MountTable → GoString
longest path best [] = best
longest path best (m ∷ ms) =
    longest path
      (if holds_path m path then (if ltb (length best) (length m) then m else best) else best) ms

-- `MountTable.Containing`
unfoldable pub containing : MountTable → GoString → GoString
containing t path = longest (clean path) [] t

-- `MountTable.IsMountPoint`
unfoldable pub is_mount_point : MountTable → GoString → Bool
is_mount_point t path = any (λ m. str_eq m (clean path)) t
