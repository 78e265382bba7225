-- ===== src/Db/Columns/Tasks.antt =====
-- Task states, categories and risk tiers (src/db/columns.ts).
use nightshift0s.Prelude.{ℕ, ◌≡◌, ◌↔◌, Bool, true, arith, nat_eq, Eq, List, [], ◌∷◌}

pub data TaskState : Type 0 where
  draft backlog ready coding review approved merging needs_human done failed cancelled : TaskState

abbrev task_state_code : TaskState → ℕ
task_state_code draft = 0
task_state_code backlog = 1
task_state_code ready = 2
task_state_code coding = 3
task_state_code review = 4
task_state_code approved = 5
task_state_code merging = 6
task_state_code needs_human = 7
task_state_code done = 8
task_state_code failed = 9
task_state_code cancelled = 10

abbrev pub task_state_eq : TaskState → TaskState → Bool
task_state_eq a b = nat_eq (task_state_code a) (task_state_code b)

pub task_state_eq_iff : (a b : TaskState) → (task_state_eq a b ≡ true) ↔ (a ≡ b)
task_state_eq_iff a b = ground arith

instance abbrev pub task_state_Eq : Eq TaskState
task_state_Eq = record { eqb = task_state_eq; eqb_iff = task_state_eq_iff }

abbrev pub task_states : List TaskState
task_states =
    draft ∷ backlog ∷ ready ∷ coding ∷ review ∷ approved ∷ merging ∷ needs_human ∷ done ∷ failed
    ∷ cancelled ∷ []

pub data RiskTier : Type 0 where
  trivial lite full : RiskTier

abbrev risk_tier_code : RiskTier → ℕ
risk_tier_code trivial = 0
risk_tier_code lite = 1
risk_tier_code full = 2

abbrev pub risk_tier_eq : RiskTier → RiskTier → Bool
risk_tier_eq a b = nat_eq (risk_tier_code a) (risk_tier_code b)

pub risk_tier_eq_iff : (a b : RiskTier) → (risk_tier_eq a b ≡ true) ↔ (a ≡ b)
risk_tier_eq_iff a b = ground arith

instance abbrev pub risk_tier_Eq : Eq RiskTier
risk_tier_Eq = record { eqb = risk_tier_eq; eqb_iff = risk_tier_eq_iff }

pub data TaskCategory : Type 0 where
  functional style chore security : TaskCategory
