-- ===== src/Disks/Build/Totals.antt =====
-- internal/disks/disks.go: the counts of `summarize`.
use omarchy_vault.Prelude.{ℕ, ◌+◌, ◌≡◌, List, [], ◌∷◌, length, arith}
use omarchy_vault.Disks.Inventory.{
  Disk, Summary, DiskStatus, system, available, unmounted, unsupported, read_only, Health, healthy,
  warning, critical, unknown,
}
use omarchy_vault.Disks.Build.{count_status, count_health, count_from, no_disks, summarize}

abbrev pub by_status : Summary → ℕ
by_status s = s.system + s.available + s.unmounted + s.unsupported

abbrev pub by_health : Summary → ℕ
by_health s = s.healthy + s.warning + s.critical + s.unknown

status_counted :
    (st : DiskStatus) (s : Summary)
    → (by_status (count_status st s) ≡ by_status s + 1)
      × (by_health (count_status st s) ≡ by_health s)
      × ((count_status st s).total ≡ s.total)
unfolding count_status
status_counted system s = omega arith
status_counted available s = omega arith
status_counted unmounted s = omega arith
status_counted unsupported s = omega arith
status_counted read_only s = omega arith

health_counted :
    (h : Health) (s : Summary)
    → (by_status (count_health h s) ≡ by_status s)
      × (by_health (count_health h s) ≡ by_health s + 1)
      × ((count_health h s).total ≡ s.total)
unfolding count_health
health_counted healthy s = omega arith
health_counted warning s = omega arith
health_counted critical s = omega arith
health_counted unknown s = omega arith

counted :
    (ds : List Disk) (s : Summary)
    → (by_status (count_from s ds) ≡ by_status s + length ds)
      × (by_health (count_from s ds) ≡ by_health s + length ds)
      × ((count_from s ds).total ≡ s.total)
unfolding count_from
counted [] s = omega arith
counted (d ∷ ds) s =
    let (a, b, c) = status_counted d.status s in
    let (a', b', c') = health_counted d.health (count_status d.status s) in
    let (a'', b'', c'') = counted ds (count_health d.health (count_status d.status s)) in
    omega arith

-- Every drive is counted once by status and once by health.
pub summarize_totals :
    (ds : List Disk)
    → ((summarize ds).total ≡ length ds)
      × (by_status (summarize ds) ≡ length ds)
      × (by_health (summarize ds) ≡ length ds)
unfolding summarize
summarize_totals ds = omega (arith, counted ds (no_disks (length ds)))
