-- ===== src/Health/Verdict.antt =====
-- internal/health/smart.go: when a drive is called healthy, and when critical.
use omarchy_vault.Prelude.{
  ℕ, ◌≡◌, ◌≢◌, refl, ◌↔◌, ◌⊎◌, inl, inr, codes, str_eq, Bool, true, false, ◌||◌, if◌then◌else◌,
  Option, none, some, List, [], ◌∷◌, ◌++◌, All, arith, Bool-cases,
}
use omarchy_vault.Health.{
  ℤ, Status, Attribute, NvmeLog, SmartOutput, Reason, healthy, critical, at_least, is_positive,
  is_number, has_bit, when, attribute_reasons, table_reasons, nvme_reasons, limit_reason,
  failed_check, is_critical, all_reasons, verdict, last_value, of_nvme, temperature_of,
  is_unreadable, parse, is_known,
}

-- An attribute that is not failing and, for the uncorrectable errors 187 and 198, counts none.
abbrev pub IsQuiet : Attribute → Type 0
IsQuiet a =
    (str_eq a.when_failed (codes "now") ≡ false)
    × (is_number 198 a.id || is_number 187 a.id ≡ true → is_positive a.value ≡ false)

-- The value is not known or below the limit.
abbrev pub IsBelow : ℕ → Option ℤ → Type 0
IsBelow limit none = Unit
IsBelow limit (some v) = at_least limit v ≡ false

-- No critical warning in the log of an NVMe drive, if there is one.
abbrev pub IsUnflagged : Option NvmeLog → Type 0
IsUnflagged none = Unit
IsUnflagged (some n) = is_number 0 n.critical_warning ≡ true

-- What Vault means by a healthy drive.
abbrev pub IsFine : SmartOutput → Type 0
IsFine s =
    (s.smart_passed ≡ some true)
    × All IsQuiet s.attributes
    × IsUnflagged s.nvme
    × (has_bit 3 s.exit_status ≡ false)
    × (has_bit 4 s.exit_status ≡ false)
    × (has_bit 6 s.exit_status ≡ false)
    × IsBelow 1 (last_value 5 s.attributes)
    × IsBelow 1 (last_value 197 s.attributes)
    × IsBelow 1 (of_nvme (λ n. n.media_errors) s.nvme)
    × IsBelow 90 (of_nvme (λ n. n.percentage_used) s.nvme)
    × IsBelow 60 (temperature_of s)

append_nil : (xs ys : List Reason) → (xs ++ ys ≡ []) ↔ ((xs ≡ []) × (ys ≡ []))
append_nil [] ys = (λ h. (refl, h), λ (_, h). h)
append_nil (x ∷ xs) ys = ground arith

when_nil : (b : Bool) (r : Reason) → (when b r ≡ []) ↔ (b ≡ false)
when_nil true r = ground arith
when_nil false r = ground arith

limit_nil : (n : ℕ) (r : ℤ → Reason) (o : Option ℤ) → (limit_reason n r o ≡ []) ↔ IsBelow n o
limit_nil n r none = (λ _. tt, λ _. refl)
limit_nil n r (some v) = when_nil (at_least n v) (r v)

table_nil : (rows : List Attribute) → (table_reasons rows ≡ []) ↔ All IsQuiet rows
unfolding table_reasons
table_nil [] = (λ _. tt, λ _. refl)
table_nil (a ∷ rows) = ground (
  arith,
  append_nil (attribute_reasons a) (table_reasons rows),
  append_nil _ _,
  when_nil _ _,
  table_nil rows,
)

nvme_nil : (n : Option NvmeLog) → (nvme_reasons n ≡ []) ↔ IsUnflagged n
nvme_nil none = (λ _. tt, λ _. refl)
nvme_nil (some n) = ground (arith, when_nil _ _)

reasons_nil :
    (s : SmartOutput)
    → s.smart_passed ≡ some true
    → (all_reasons s ≡ []) ↔ (
        All IsQuiet s.attributes
        × IsUnflagged s.nvme
        × (has_bit 3 s.exit_status ≡ false)
        × (has_bit 4 s.exit_status ≡ false)
        × (has_bit 6 s.exit_status ≡ false)
        × IsBelow 1 (last_value 5 s.attributes)
        × IsBelow 1 (last_value 197 s.attributes)
        × IsBelow 1 (of_nvme (λ n. n.media_errors) s.nvme)
        × IsBelow 90 (of_nvme (λ n. n.percentage_used) s.nvme)
        × IsBelow 60 (temperature_of s))
unfolding all_reasons
reasons_nil s passed =
    let none_failed : failed_check s.smart_passed ≡ false = rw passed refl in
    ground (
      arith,
      append_nil _ _,
      when_nil _ _,
      limit_nil _ _ _,
      table_nil s.attributes,
      nvme_nil s.nvme,
    )

verdict_healthy :
    (b : Bool) (rs : List Reason) (o : Option Bool)
    → (verdict b rs o ≡ healthy) ↔ ((b ≡ false) × (rs ≡ []) × (is_known o ≡ true))
unfolding verdict
verdict_healthy true rs o = ground arith
verdict_healthy false (r ∷ rs) o = ground arith
verdict_healthy false [] (some p) = (λ _. (refl, refl, refl), λ _. refl)
verdict_healthy false [] none = ground arith

verdict_critical :
    (b : Bool) (rs : List Reason) (o : Option Bool) → (verdict b rs o ≡ critical) ↔ (b ≡ true)
unfolding verdict
verdict_critical true rs o = (λ _. refl, λ _. refl)
verdict_critical false (r ∷ rs) o = ground arith
verdict_critical false [] (some p) = ground arith
verdict_critical false [] none = ground arith

-- the status of a report, with the branch for a drive that could not be read
status_lem :
    (s : SmartOutput)
    → (parse s).status ≡ (
        if is_unreadable s
        then Status.unknown
        else verdict (is_critical s) (all_reasons s) s.smart_passed)
unfolding parse
status_lem s = elim (Bool-cases (is_unreadable s)) [
  | inl bad ↦ rw bad refl
  | inr good ↦ rw good refl
]

failed_iff : (o : Option Bool) → (failed_check o ≡ true) ↔ (o ≡ some false)
failed_iff none = ground arith
failed_iff (some true) = ground arith
failed_iff (some false) = (λ _. refl, λ _. refl)

readable_known : (s : SmartOutput) → is_known s.smart_passed ≡ true → is_unreadable s ≡ false
readable_known s h = ground arith

branch_iff :
    (b : Bool) (v w : Status)
    → w ≢ Status.unknown
    → ((if b then Status.unknown else v) ≡ w) ↔ ((b ≡ false) × (v ≡ w))
branch_iff true v w h = ground arith
branch_iff false v w h = (λ e. (refl, e), λ (_, e). e)

known_of : (o : Option Bool) (b : Bool) → o ≡ some b → is_known o ≡ true
known_of o b e = rw e refl

-- `Parse` calls a drive critical exactly when its overall check failed, or smartctl could read it and
-- says that it is failing.
pub parse-critical_iff :
    (s : SmartOutput)
    → ((parse s).status ≡ critical) ↔ (
        (s.smart_passed ≡ some false)
        ⊎ ((is_unreadable s ≡ false) × (has_bit 3 s.exit_status ≡ true)))
unfolding is_critical
parse-critical_iff s =
    let split =
      branch_iff (is_unreadable s) (verdict (is_critical s) (all_reasons s) s.smart_passed) critical
        (λ e. cc) in
    ground (
      arith,
      status_lem s,
      verdict_critical (is_critical s) (all_reasons s) s.smart_passed,
      failed_iff s.smart_passed,
      known_of s.smart_passed false,
      readable_known s,
    )

passed_known : (o : Option Bool) → is_known o ≡ true → failed_check o ≡ false → o ≡ some true
passed_known none h k = cc
passed_known (some true) h k = refl
passed_known (some false) h k = cc

-- `Parse` calls a drive healthy exactly when its overall check passed, the status bits 3, 4 and 6 are
-- clear (failing, an attribute below its threshold, errors in the log), no attribute is failing, no
-- reallocated, pending or uncorrectable sector and no media error is counted, the NVMe log has no
-- critical warning, and wear and temperature are below their limits.
pub parse-healthy_iff : (s : SmartOutput) → ((parse s).status ≡ healthy) ↔ IsFine s
unfolding is_critical
parse-healthy_iff s =
    let split =
      branch_iff (is_unreadable s) (verdict (is_critical s) (all_reasons s) s.smart_passed) healthy
        (λ e. cc) in
    ground (
      arith,
      status_lem s,
      verdict_healthy (is_critical s) (all_reasons s) s.smart_passed,
      failed_iff s.smart_passed,
      known_of s.smart_passed true,
      passed_known s.smart_passed,
      readable_known s,
      reasons_nil s,
    )
