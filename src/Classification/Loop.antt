-- ===== src/Classification/Loop.antt =====
-- The loop of `DeviceClassifier.classify` over any rule list.
use network_mapper.Prelude.{
  ◌≡◌, ◌≢◌, refl, sym, ap, ap₂, subst, Option, none, some, List, [], ◌∷◌, ◌++◌, map, All,
}
use network_mapper.Devices.{Device, DeviceType, RuleResult, set_device_type}
use network_mapper.Classification.Classifier.{Rule, decision, continue_with, run_rules}

-- The rule leaves the device to the rules after it.
abbrev pub Declines : Device → Rule → Type 0
Declines device rule = decision (rule device) ≡ none

-- When every rule before a rule declines and that rule decides for a type, the loop assigns this
-- type and records the results of exactly the rules up to that rule, whatever the rules after it.
pub run_rules_first_match :
    (before : List Rule) (rule : Rule) (after : List Rule) (device : Device) (type : DeviceType)
    → All (Declines device) before
    → decision (rule device) ≡ some type
    → run_rules (before ++ rule ∷ after) device ≡ (type, map (λ r. r device) (before ++ rule ∷ []))
unfolding run_rules
run_rules_first_match [] rule after device type none_before decided =
    ap (λ o. continue_with o (rule device) (run_rules after device)) decided
run_rules_first_match (r ∷ before) rule after device type none_before decided =
    ap₂ (λ o rest. continue_with o (r device) rest) none_before.0
      (run_rules_first_match before rule after device type none_before.1 decided)

-- When every rule declines, the loop assigns `UNKNOWN` and records the result of every rule.
pub run_rules_no_match :
    (rules : List Rule) (device : Device)
    → All (Declines device) rules
    → run_rules rules device ≡ (DeviceType.unknown, map (λ r. r device) rules)
unfolding run_rules
run_rules_no_match [] device declines = refl
run_rules_no_match (r ∷ rules) device declines =
    ap₂ (λ o rest. continue_with o (r device) rest) declines.0
      (run_rules_no_match rules device declines.1)

continue_with-ne :
    (o : Option DeviceType) (result : RuleResult) (rest : DeviceType × List RuleResult)
    (type : DeviceType)
    → o ≢ some type
    → rest.0 ≢ type
    → (continue_with o result rest).0 ≢ type
continue_with-ne (some t) result rest type here later = λ p. here (ap some p)
continue_with-ne none result rest type here later = later

-- A type that no rule decides for, other than `UNKNOWN`, is not the outcome.
pub run_rules-not :
    (rules : List Rule) (device : Device) (type : DeviceType)
    → (DeviceType.unknown ≢ type)
    → All (λ rule. decision (rule device) ≢ some type) rules
    → (run_rules rules device).0 ≢ type
unfolding run_rules
run_rules-not [] device type distinct never = distinct
run_rules-not (r ∷ rules) device type distinct never =
    continue_with-ne (decision (r device)) (r device) _ type never.0
      (run_rules-not rules device type distinct never.1)

-- A decision with another type ends the loop before the rules after it.
pub run_rules-not_after :
    (before : List Rule) (rule : Rule) (after : List Rule) (device : Device)
    (type other : DeviceType)
    → All (λ r. decision (r device) ≢ some type) before
    → decision (rule device) ≡ some other
    → other ≢ type
    → (run_rules (before ++ rule ∷ after) device).0 ≢ type
unfolding run_rules
run_rules-not_after [] rule after device type other never decided distinct =
    subst (λ o. (continue_with o (rule device) (run_rules after device)).0 ≢ type) (sym decided)
      distinct
run_rules-not_after (r ∷ before) rule after device type other never decided distinct =
    continue_with-ne (decision (r device)) (r device) _ type never.0
      (run_rules-not_after before rule after device type other never.1 decided distinct)

-- Rules that do not read the type give the same outcome for a device with any type.
pub run_rules-set_device_type :
    (rules : List Rule) (device : Device) (type : DeviceType)
    → All (λ rule. rule (set_device_type type device) ≡ rule device) rules
    → run_rules rules (set_device_type type device) ≡ run_rules rules device
unfolding run_rules
run_rules-set_device_type [] device type same = refl
run_rules-set_device_type (r ∷ rules) device type same =
    ap₂ (λ result rest. continue_with (decision result) result rest) same.0
      (run_rules-set_device_type rules device type same.1)
