-- ===== src/Health/Tests.antt =====
-- internal/health: a drive with a clean report.
use omarchy_vault.Prelude.{◌≡◌, ◌↔◌, ◌⊎◌, codes, true, false, none, some, [], ◌∷◌}
use omarchy_vault.Health.{pos, SmartOutput, healthy, critical, has_bit, is_unreadable, parse}
use omarchy_vault.Health.Verdict.{IsFine, parse-healthy_iff, parse-critical_iff}

abbrev clean : SmartOutput
clean = record {
  exit_status = 0;
  error_message = none;
  smart_passed = some true;
  temperature = some (pos 35);
  power_on_time = some (pos 1000);
  attributes =
      record { id = pos 5; value = pos 0; when_failed = codes "-"; name = codes "Reallocated" }
      ∷ [];
  nvme = none;
}

parse-healthy_iff_example : ((parse clean).status ≡ healthy) ↔ IsFine clean
parse-healthy_iff_example = parse-healthy_iff clean

parse-critical_iff_example : ((parse clean).status ≡ critical) ↔ (
    (clean.smart_passed ≡ some false)
    ⊎ ((is_unreadable clean ≡ false) × (has_bit 3 clean.exit_status ≡ true)))
parse-critical_iff_example = parse-critical_iff clean
