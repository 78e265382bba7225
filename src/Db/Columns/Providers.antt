-- ===== src/Db/Columns/Providers.antt =====
-- Authentication lanes, provider kinds and modes, and the circuit states (src/db/columns.ts).
use nightshift0s.Prelude.{ℕ, ◌≡◌, ◌↔◌, Bool, true, arith, nat_eq, Eq}

pub data AuthLane : Type 0 where
  subscription api_key local : AuthLane

abbrev auth_lane_code : AuthLane → ℕ
auth_lane_code subscription = 0
auth_lane_code api_key = 1
auth_lane_code local = 2

abbrev pub auth_lane_eq : AuthLane → AuthLane → Bool
auth_lane_eq a b = nat_eq (auth_lane_code a) (auth_lane_code b)

pub auth_lane_eq_iff : (a b : AuthLane) → (auth_lane_eq a b ≡ true) ↔ (a ≡ b)
auth_lane_eq_iff a b = ground arith

instance abbrev pub auth_lane_Eq : Eq AuthLane
auth_lane_Eq = record { eqb = auth_lane_eq; eqb_iff = auth_lane_eq_iff }

pub data ProviderKind : Type 0 where
  cli api : ProviderKind

pub data ProviderAuthMode : Type 0 where
  subscription api_key : ProviderAuthMode

pub data CircuitState : Type 0 where
  closed open_circuit half_open : CircuitState

abbrev circuit_state_code : CircuitState → ℕ
circuit_state_code closed = 0
circuit_state_code open_circuit = 1
circuit_state_code half_open = 2

abbrev pub circuit_state_eq : CircuitState → CircuitState → Bool
circuit_state_eq a b = nat_eq (circuit_state_code a) (circuit_state_code b)

pub circuit_state_eq_iff : (a b : CircuitState) → (circuit_state_eq a b ≡ true) ↔ (a ≡ b)
circuit_state_eq_iff a b = ground arith

instance abbrev pub circuit_state_Eq : Eq CircuitState
circuit_state_Eq = record { eqb = circuit_state_eq; eqb_iff = circuit_state_eq_iff }
