-- ===== src/Db/Columns/Findings.antt =====
-- The severity of a finding and how it was resolved (src/db/columns.ts).
use nightshift0s.Prelude.{ℕ, String, ◌≡◌, ◌↔◌, Bool, true, arith, nat_eq, Eq}

pub data FindingSeverity : Type 0 where
  critical high medium low nit : FindingSeverity

abbrev pub severity_text : FindingSeverity → String
severity_text critical = "critical"
severity_text high = "high"
severity_text medium = "medium"
severity_text low = "low"
severity_text nit = "nit"

abbrev finding_severity_code : FindingSeverity → ℕ
finding_severity_code critical = 0
finding_severity_code high = 1
finding_severity_code medium = 2
finding_severity_code low = 3
finding_severity_code nit = 4

abbrev pub finding_severity_eq : FindingSeverity → FindingSeverity → Bool
finding_severity_eq a b = nat_eq (finding_severity_code a) (finding_severity_code b)

pub finding_severity_eq_iff : (a b : FindingSeverity) → (finding_severity_eq a b ≡ true) ↔ (a ≡ b)
finding_severity_eq_iff a b = ground arith

instance abbrev pub finding_severity_Eq : Eq FindingSeverity
finding_severity_Eq = record { eqb = finding_severity_eq; eqb_iff = finding_severity_eq_iff }

pub data FindingResolutionState : Type 0 where
  open_finding fixed rebutted withdrawn accepted_risk : FindingResolutionState

abbrev finding_resolution_state_code : FindingResolutionState → ℕ
finding_resolution_state_code open_finding = 0
finding_resolution_state_code fixed = 1
finding_resolution_state_code rebutted = 2
finding_resolution_state_code withdrawn = 3
finding_resolution_state_code accepted_risk = 4

abbrev pub finding_resolution_state_eq : FindingResolutionState → FindingResolutionState → Bool
finding_resolution_state_eq a b =
    nat_eq (finding_resolution_state_code a) (finding_resolution_state_code b)

pub finding_resolution_state_eq_iff :
    (a b : FindingResolutionState) → (finding_resolution_state_eq a b ≡ true) ↔ (a ≡ b)
finding_resolution_state_eq_iff a b = ground arith

instance abbrev pub finding_resolution_state_Eq : Eq FindingResolutionState
finding_resolution_state_Eq = record {
  eqb = finding_resolution_state_eq;
  eqb_iff = finding_resolution_state_eq_iff;
}
