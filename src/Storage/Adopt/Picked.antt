-- ===== src/Storage/Adopt/Picked.antt =====
-- internal/storage/adopt.go: the volume that `Adopt` works on is one of the inventory.
use omarchy_vault.Prelude.{
  ◌≡◌, refl, ap, sym, ◌∙◌, subst, inl, inr, GoString, str_eq, str_eq_iff, Bool, true, false,
  if◌then◌else◌, Option, none, some, List, [], ◌∷◌, In, arith,
}
use omarchy_vault.Disks.Inventory.{Volume, Disk}
use omarchy_vault.Storage.Inspect.{later}
use omarchy_vault.Storage.Adopt.{pick_volume, pick}

In-pick_volume :
    (name : GoString) (d : Disk) (vs : List Volume) (p : Disk × Volume)
    → pick_volume name d vs ≡ some p
    → (p.0 ≡ d) × In p.1 vs × (p.1.name ≡ name)
unfolding pick_volume
In-pick_volume name d [] p h = absurd (ground arith)
In-pick_volume name d (v ∷ vs) p h =
    last (pick_volume name d vs) refl h (In-pick_volume name d vs p)
  where
    here :
        (o : Bool)
        → str_eq v.name name ≡ o
        → (if o then some (d, v) else none) ≡ some p
        → (p.0 ≡ d) × (p.1 ≡ v) × (p.1.name ≡ name)
    here true e k =
        let same : (d, v) ≡ p = ground arith in
        (
          sym (ap (λ q. q.0) same),
          sym (ap (λ q. q.1) same),
          ap (λ (q : Disk × Volume). q.1.name) (sym same) ∙ (str_eq_iff v.name name).0 e,
        )
    here false e k = absurd (ground arith)

    last :
        (o : Option (Disk × Volume))
        → pick_volume name d vs ≡ o
        → later o (if str_eq v.name name then some (d, v) else none) ≡ some p
        → (pick_volume name d vs ≡ some p → (p.0 ≡ d) × In p.1 vs × (p.1.name ≡ name))
        → (p.0 ≡ d) × In p.1 (v ∷ vs) × (p.1.name ≡ name)
    last none e k rest = let (a, b, c) = here (str_eq v.name name) refl k in (a, inl b, c)
    last (some q) e k rest = let (a, b, c) = rest (e ∙ k) in (a, inr b, c)

-- The volume that `Adopt` picks is one of the inventory, of the name of the request.
pub In-pick :
    (name : GoString) (ds : List Disk) (p : Disk × Volume)
    → pick name ds ≡ some p
    → In p.0 ds × In p.1 p.0.volumes × (p.1.name ≡ name)
unfolding pick
In-pick name [] p h = absurd (ground arith)
In-pick name (d ∷ ds) p h = last (pick name ds) refl h (In-pick name ds p)
  where
    last :
        (o : Option (Disk × Volume))
        → pick name ds ≡ o
        → later o (pick_volume name d d.volumes) ≡ some p
        → (pick name ds ≡ some p → In p.0 ds × In p.1 p.0.volumes × (p.1.name ≡ name))
        → In p.0 (d ∷ ds) × In p.1 p.0.volumes × (p.1.name ≡ name)
    last none e k rest =
        let (a, b, c) = In-pick_volume name d d.volumes p k in
        (inl a, subst (λ x. In p.1 x.volumes) (sym a) b, c)
    last (some q) e k rest = let (a, b, c) = rest (e ∙ k) in (inr a, b, c)
