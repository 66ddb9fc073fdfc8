-- ===== src/Health.antt =====
-- internal/health/smart.go: the verdict on one drive, from the decoded output of smartctl.
pub mod Verdict
mod Tests
use omarchy_vault.Prelude.{
  ℕ, ◌+◌, ◌/◌, ◌%◌, ◌^◌, ◌≤◌, GoString, codes, str_eq, Bool, true, false, not, ◌&&◌, ◌||◌, leb, ltb,
  ◌==◌, if◌then◌else◌, Option, none, some, List, [], ◌∷◌, ◌++◌,
}

-- A Go integer: the number, or one less than its negation.
pub data ℤ : Type 0 where
  pos negsuc : ℕ → ℤ

-- `n <= v` for a natural number `n`
abbrev pub at_least : ℕ → ℤ → Bool
at_least n (pos v) = leb n v
at_least n (negsuc v) = false

-- `v > 0`
abbrev pub is_positive : ℤ → Bool
is_positive v = at_least 1 v

-- `v == n`
abbrev pub is_number : ℕ → ℤ → Bool
is_number n (pos v) = v == n
is_number n (negsuc v) = false

pub data Status : Type 0 where
  healthy warning critical unknown : Status

-- one row of `ata_smart_attributes.table`
pub record Attribute : Type 0 where
  pub id : ℤ
  pub value : ℤ
  pub when_failed : GoString
  pub name : GoString

-- `nvme_smart_health_information_log`
pub record NvmeLog : Type 0 where
  pub critical_warning : ℤ
  pub temperature : ℤ
  pub percentage_used : ℤ
  pub media_errors : ℤ
  pub power_on_hours : ℤ

-- `smartJSON`; `exit_status` is the bit pattern, and `error_message` the first message of severity
-- error.
pub record SmartOutput : Type 0 where
  pub exit_status : ℕ
  pub error_message : Option GoString
  pub smart_passed : Option Bool
  pub temperature : Option ℤ
  pub power_on_time : Option ℤ
  pub attributes : List Attribute
  pub nvme : Option NvmeLog

-- The sentences of `Reasons`, each with what it prints.
pub data Reason : Type 0 where
  uncorrectable : GoString → ℤ → Reason
  failing_now : GoString → Reason
  nvme_warning reallocated_sectors pending_sectors media_failures worn hot : ℤ → Reason
  check_failed disk_failing below_threshold log_errors : Reason

pub data Message : Type 0 where
  unavailable no_verdict : Message
  reported : GoString → Message

pub record Report : Type 0 where
  pub status : Status
  pub smart_passed : Option Bool
  pub temperature_c : Option ℤ
  pub power_on_hours : Option ℤ
  pub reallocated : Option ℤ
  pub pending : Option ℤ
  pub media_errors : Option ℤ
  pub percent_used : Option ℤ
  pub reasons : List Reason
  pub message : Option Message

abbrev pub has_bit : ℕ → ℕ → Bool
has_bit k exit = exit / 2 ^ k % 2 == 1

abbrev pub if_positive : Option ℤ → Option ℤ
if_positive none = none
if_positive (some t) = if is_positive t then some t else none

abbrev pub or_else : Option ℤ → Option ℤ → Option ℤ
or_else none v = v
or_else (some t) v = some t

-- the value of the last attribute of the id, as the loop leaves it
unfoldable pub last_value : ℕ → List Attribute → Option ℤ
last_value id [] = none
last_value id (a ∷ rows) =
    or_else (last_value id rows) (if is_number id a.id then some a.value else none)

abbrev pub when : Bool → Reason → List Reason
when b r = if b then r ∷ [] else []

-- what one attribute adds to the reasons
abbrev pub attribute_reasons : Attribute → List Reason
attribute_reasons a =
    when (is_positive a.value && (is_number 198 a.id || is_number 187 a.id))
      (uncorrectable a.name a.value)
    ++ when (str_eq a.when_failed (codes "now")) (failing_now a.name)

unfoldable pub table_reasons : List Attribute → List Reason
table_reasons [] = []
table_reasons (a ∷ rows) = attribute_reasons a ++ table_reasons rows

abbrev pub nvme_reasons : Option NvmeLog → List Reason
nvme_reasons none = []
nvme_reasons (some n) =
    when (not (is_number 0 n.critical_warning)) (nvme_warning n.critical_warning)

abbrev pub of_nvme : (NvmeLog → ℤ) → Option NvmeLog → Option ℤ
of_nvme f none = none
of_nvme f (some n) = some (f n)

-- a reason for a value that is known and reaches the limit
abbrev pub limit_reason : ℕ → (ℤ → Reason) → Option ℤ → List Reason
limit_reason limit r none = []
limit_reason limit r (some v) = when (at_least limit v) (r v)

abbrev pub failed_check : Option Bool → Bool
failed_check none = false
failed_check (some passed) = not passed

unfoldable pub is_critical : SmartOutput → Bool
is_critical s = failed_check s.smart_passed || has_bit 3 s.exit_status

abbrev pub temperature_of : SmartOutput → Option ℤ
temperature_of s =
    or_else (if_positive s.temperature) (if_positive (of_nvme (λ n. n.temperature) s.nvme))

-- `r.Reasons` before the final switch
unfoldable pub all_reasons : SmartOutput → List Reason
unfolding table_reasons last_value
all_reasons s =
    when (failed_check s.smart_passed) check_failed
    ++ table_reasons s.attributes
    ++ nvme_reasons s.nvme
    ++ when (has_bit 3 s.exit_status) disk_failing
    ++ when (has_bit 4 s.exit_status) below_threshold
    ++ when (has_bit 6 s.exit_status) log_errors
    ++ limit_reason 1 reallocated_sectors (last_value 5 s.attributes)
    ++ limit_reason 1 pending_sectors (last_value 197 s.attributes)
    ++ limit_reason 1 media_failures (of_nvme (λ n. n.media_errors) s.nvme)
    ++ limit_reason 90 worn (of_nvme (λ n. n.percentage_used) s.nvme)
    ++ limit_reason 60 hot (temperature_of s)

abbrev pub is_known {ℓ} : {A : Type ℓ} → Option A → Bool
is_known none = false
is_known (some _) = true

-- the final switch
unfoldable pub verdict : Bool → List Reason → Option Bool → Status
verdict true rs passed = critical
verdict false (r ∷ rs) passed = warning
verdict false [] (some _) = healthy
verdict false [] none = unknown

abbrev pub empty_report : Report
empty_report = record {
  status = unknown;
  smart_passed = none;
  temperature_c = none;
  power_on_hours = none;
  reallocated = none;
  pending = none;
  media_errors = none;
  percent_used = none;
  reasons = [];
  message = none;
}

abbrev pub message_of : Option GoString → Message
message_of none = unavailable
message_of (some m) = reported m

-- `exit&(bitCmdLineError|bitOpenFailed) != 0 && s.SmartStatus == nil`
abbrev pub is_unreadable : SmartOutput → Bool
is_unreadable s =
    (has_bit 0 s.exit_status || has_bit 1 s.exit_status) && not (is_known s.smart_passed)

-- `Parse`, after the JSON is decoded; `reported` stands for the message before it is reworded.
unfoldable pub parse : SmartOutput → Report
unfolding is_critical all_reasons
parse s =
    if is_unreadable s
    then record empty_report { message = some (message_of s.error_message) }
    else let v = verdict (is_critical s) (all_reasons s) s.smart_passed in
      record {
        status = v;
        smart_passed = s.smart_passed;
        temperature_c = temperature_of s;
        power_on_hours = or_else s.power_on_time (of_nvme (λ n. n.power_on_hours) s.nvme);
        reallocated = last_value 5 s.attributes;
        pending = last_value 197 s.attributes;
        media_errors = of_nvme (λ n. n.media_errors) s.nvme;
        percent_used = of_nvme (λ n. n.percentage_used) s.nvme;
        reasons = all_reasons s;
        message = elim v [ unknown ↦ some no_verdict | _ ↦ none ];
      }
