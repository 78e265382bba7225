-- ===== src/Db/Columns/Runs.antt =====
-- Run states, the terminal ones, and the run kinds (src/db/columns.ts).
use nightshift0s.Prelude.{ℕ, ◌≡◌, ◌↔◌, Bool, true, arith, nat_eq, Eq, List, [], ◌∷◌}

pub data RunState : Type 0 where
  queued starting running awaiting_input background_waiting finishing succeeded failed killed
        interrupted :
      RunState

abbrev run_state_code : RunState → ℕ
run_state_code queued = 0
run_state_code starting = 1
run_state_code running = 2
run_state_code awaiting_input = 3
run_state_code background_waiting = 4
run_state_code finishing = 5
run_state_code succeeded = 6
run_state_code failed = 7
run_state_code killed = 8
run_state_code interrupted = 9

abbrev pub run_state_eq : RunState → RunState → Bool
run_state_eq a b = nat_eq (run_state_code a) (run_state_code b)

pub run_state_eq_iff : (a b : RunState) → (run_state_eq a b ≡ true) ↔ (a ≡ b)
run_state_eq_iff a b = ground arith

instance abbrev pub run_state_Eq : Eq RunState
run_state_Eq = record { eqb = run_state_eq; eqb_iff = run_state_eq_iff }

abbrev pub run_states : List RunState
run_states =
    queued ∷ starting ∷ running ∷ awaiting_input ∷ background_waiting ∷ finishing ∷ succeeded
    ∷ failed ∷ killed ∷ interrupted ∷ []

abbrev pub run_terminal_states : List RunState
run_terminal_states = succeeded ∷ failed ∷ killed ∷ interrupted ∷ []

pub data RunKind : Type 0 where
  coder reviewer planner judge utility experiment : RunKind

abbrev run_kind_code : RunKind → ℕ
run_kind_code coder = 0
run_kind_code reviewer = 1
run_kind_code planner = 2
run_kind_code judge = 3
run_kind_code utility = 4
run_kind_code experiment = 5

abbrev pub run_kind_eq : RunKind → RunKind → Bool
run_kind_eq a b = nat_eq (run_kind_code a) (run_kind_code b)

pub run_kind_eq_iff : (a b : RunKind) → (run_kind_eq a b ≡ true) ↔ (a ≡ b)
run_kind_eq_iff a b = ground arith

instance abbrev pub run_kind_Eq : Eq RunKind
run_kind_Eq = record { eqb = run_kind_eq; eqb_iff = run_kind_eq_iff }
