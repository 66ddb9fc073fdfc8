-- ===== src/Users/Store/Admins.antt =====
-- internal/users/users.go: the last active admin.
use omarchy_vault.Prelude.{
  ◌+◌, ◌<◌, ◌≡◌, refl, ap, inl, inr, ◌↔◌, GoString, Bool, true, false, ◌==◌, List, [], ◌∷◌, ◌++◌,
  any, err, arith, All, In, ltb→lt, Bool-cases,
}
use omarchy_vault.Users.Accounts.{User, active_admins, is_active_admin}
use omarchy_vault.Users.Store
use omarchy_vault.Users.Store.{
  Store, has_name, loses_admin, without, set_last, touch, UserError, last_admin,
}
use omarchy_vault.Users.Store.Calls.{Op, create, update, delete, Leaves, run, run_keeps}

pub active_admins-append :
    (us vs : List User) → active_admins (us ++ vs) ≡ active_admins us + active_admins vs
unfolding active_admins
active_admins-append [] vs = omega arith
active_admins-append (u ∷ us) vs = ground (arith, active_admins-append us vs)

-- Some account can administer Vault.
abbrev pub HasAdmin : Store → Type 0
HasAdmin s = 0 < active_admins s.users

not_lost :
    (before after : List User)
    → 0 < active_admins before
    → loses_admin before after ≡ false
    → 0 < active_admins after
not_lost before after h keeps = ground arith

next-HasAdmin :
    (op : Op) (s : Store) (next : List User)
    → Leaves op s next
    → 0 < active_admins s.users
    → 0 < active_admins next
next-HasAdmin (create u ts saved) s next (_, _, e) h = rw (e, active_admins-append) (omega arith)
next-HasAdmin (update name fn ts saved) s next (u, v, (_, _, _, keeps), e) h =
    rw e (not_lost s.users _ h keeps)
next-HasAdmin (delete name saved) s next (_, keeps, e) h = rw e (not_lost s.users _ h keeps)

-- If Vault has an active admin, it has one after any sequence of `Create`, `Update` and `Delete`
-- calls, whatever the callers' functions do and whichever of them fail to save.
pub run-HasAdmin : (ops : List Op) (s : Store) → HasAdmin s → HasAdmin (run ops s)
run-HasAdmin = run_keeps (λ us. 0 < active_admins us) next-HasAdmin

some_admin :
    (us : List User) → 0 < active_admins us → (u : User) × In u us × (is_active_admin u ≡ true)
unfolding active_admins
some_admin [] h = absurd (omega arith)
some_admin (u ∷ us) h = elim (Bool-cases (is_active_admin u)) [
  | inl here ↦ (u, inl refl, here)
  | inr other ↦ let (v, i, e) = some_admin us (rw other at h) in (v, inr i, e)
]

an_admin : (us : List User) (u : User) → In u us → is_active_admin u ≡ true → 0 < active_admins us
unfolding active_admins
an_admin [] u m h = elim m [ ]
an_admin (v ∷ us) u (inl e) h = let same = ap is_active_admin e in ground arith
an_admin (v ∷ us) u (inr m) h = ground (arith, an_admin us u m h)

only_named :
    (name : GoString) (us : List User)
    → ((active_admins (without name us) == 0) ≡ true)
      ↔ All (λ u. is_active_admin u ≡ true → has_name name u ≡ true) us
unfolding active_admins without
only_named name [] = ground arith
only_named name (u ∷ us) = ground (arith, only_named name us)

refused_iff :
    (name : GoString) (saved : Bool) (s : Store)
    → any (has_name name) s.users ≡ true
    → ((Store.delete name saved s).1 ≡ err last_admin)
      ↔ (loses_admin s.users (without name s.users) ≡ true)
unfolding Store.delete
refused_iff name true s found = ground arith
refused_iff name false s found = ground arith

-- A `Delete` of a known name is refused for want of an admin exactly when there is an active admin and
-- every active admin has that name.
pub delete_refused_iff :
    (name : GoString) (saved : Bool) (s : Store)
    → any (has_name name) s.users ≡ true
    → ((Store.delete name saved s).1 ≡ err last_admin) ↔ (
        ((u : User) × In u s.users × (is_active_admin u ≡ true))
        × All (λ u. is_active_admin u ≡ true → has_name name u ≡ true) s.users)
delete_refused_iff name saved s found =
    let (to, from) = refused_iff name saved s found in
    let (zero_named, named_zero) = only_named name s.users in
    (
      λ h.
          let e = to h in
          (some_admin s.users (ltb→lt _ _ (ground arith)), zero_named (ground arith)),
      λ ((u, m, h), named).
          let some = an_admin s.users u m h in from (ground (arith, named_zero named)),
    )
