-- ===== src/Providers/Capacity.antt =====
-- Capacity pools (src/providers/capacity.ts). A cooldown is the instant that its text names; a text
-- that is empty or cannot be parsed stands for no cooldown, as `cooldownActive` reads it.
pub mod Closed
pub mod Probe
pub mod Probing
pub mod Blocked
use nightshift0s.Prelude.{
  ℕ, suc, ◌+◌, ◌*◌, String, Bool, true, false, not, ◌&&◌, Option, none, some, List, [], ◌∷◌, ◌++◌,
  ◌==◌, string_Eq, find, keep, length, ltb, leb, if◌then◌else◌, or_else,
}
use nightshift0s.Db.Columns.Providers.{
  AuthLane, ProviderKind, ProviderAuthMode, CircuitState, closed, open_circuit, half_open,
  auth_lane_Eq, circuit_state_Eq,
}
use nightshift0s.Db.Columns.Providers
use nightshift0s.Db.Schema.{ProviderRow, RunRow}
use nightshift0s.Db.Events.{EventInput, capacity_changed}
use nightshift0s.Db.State.{Db, update_rows, emit}
use nightshift0s.Runs.Machine.{is_terminal_run_state}

pub data SignalKind : Type 0 where
  too_many_requests auth_limit ok error : SignalKind

abbrev pub signal_text : SignalKind → String
signal_text too_many_requests = "429"
signal_text auth_limit = "auth_limit"
signal_text ok = "ok"
signal_text error = "error"

pub record CapacitySignal : Type 0 where
  pub provider : String
  pub kind : SignalKind
  pub detail : Option String

pub data Refusal : Type 0 where
  unknown_provider disabled circuit_open cooldown at_cap : Refusal

pub data CapacityDecision : Type 0 where
  allowed : AuthLane → CapacityDecision
  refused : Refusal → CapacityDecision

pub record CapacityDeps : Type 0 where
  pub cooldown_seconds : ℕ
  pub overflow_to_api_key : Bool

abbrev pub get_provider : Db → String → Option ProviderRow
get_provider db name = find (λ p. p.name == name) db.providers

abbrev pub cooldown_active : Option ℕ → ℕ → Bool
cooldown_active none now = false
cooldown_active (some until) now = ltb now until

-- The runs of a provider that are not in a terminal state.
abbrev pub is_active_at : String → RunRow → Bool
is_active_at provider r = r.provider == provider && not (is_terminal_run_state r.state)

abbrev pub active_run_count : Db → String → ℕ
active_run_count db provider = length (keep (is_active_at provider) db.runs)

abbrev pub capacity_event : ProviderRow → SignalKind → EventInput
capacity_event p signal = record {
  project_id = none;
  run_id = none;
  task_id = none;
  kind = "capacity.state_changed";
  payload =
      capacity_changed p.name (signal_text signal) p.circuit_state p.cooldown_until p.last_error;
}

-- The UPDATE by name, and the event about the patched row.
unfoldable pub update_provider :
    Db → ℕ → String → ProviderRow → SignalKind → (ProviderRow → ProviderRow) → Db
update_provider db now name row signal patch =
    emit (record db { providers = update_rows (λ p. p.name == name) patch db.providers }) now
      (capacity_event (patch row) signal)

pub record ProviderInput : Type 0 where
  pub name : String
  pub kind : ProviderKind
  pub auth_mode : ProviderAuthMode
  pub concurrency_cap : ℕ

abbrev pub seeded : ProviderInput → ProviderRow
seeded input = record {
  name = input.name;
  kind = input.kind;
  auth_mode = input.auth_mode;
  concurrency_cap = input.concurrency_cap;
  enabled = true;
  circuit_state = closed;
  cooldown_until = none;
  last_error = none;
}

abbrev pub refreshed : ProviderInput → ProviderRow → ProviderRow
refreshed input p = record p {
  kind = input.kind;
  auth_mode = input.auth_mode;
  concurrency_cap = input.concurrency_cap;
}

unfoldable pub ensure_provider : Db → ProviderInput → Db
ensure_provider db input = elim (get_provider db input.name) [
  | none ↦ record db { providers = db.providers ++ seeded input ∷ [] }
  | some existing ↦ record db {
    providers = update_rows (λ p. p.name == input.name) (refreshed input) db.providers;
  }
]

abbrev pub half_opened : ProviderRow → ProviderRow
half_opened p = record p { circuit_state = half_open }

-- The row is read again in the link, and flipped only if it is still open.
unfoldable pub flip_to_half_open : Db → ℕ → String → Db
flip_to_half_open db now provider = elim (get_provider db provider) [
  | none ↦ db
  | some row ↦
      if row.circuit_state == open_circuit
      then update_provider db now provider row ok half_opened
      else db
]

-- The concurrency cap, against the runs at the time of the count.
unfoldable pub gate_cap : Db → String → AuthLane → ℕ → Db × CapacityDecision
gate_cap db provider lane cap =
    if leb cap (active_run_count db provider) then (db, refused at_cap) else (db, allowed lane)

unfoldable pub gate_circuit :
    CapacityDeps → Db → ℕ → String → AuthLane → ProviderRow → CircuitState → Db × CapacityDecision
gate_circuit deps db now provider lane row open_circuit =
    if cooldown_active row.cooldown_until now
    then (db, refused circuit_open)
    else gate_cap (flip_to_half_open db now provider) provider lane 1
gate_circuit deps db now provider lane row half_open = gate_cap db provider lane 1
gate_circuit deps db now provider lane row closed =
    if cooldown_active row.cooldown_until now
    then (if lane == Providers.AuthLane.subscription && deps.overflow_to_api_key
        then (db, allowed Providers.AuthLane.api_key)
        else (db, refused cooldown))
    else gate_cap db provider lane row.concurrency_cap

unfoldable pub can_spawn : CapacityDeps → Db → ℕ → String → AuthLane → Db × CapacityDecision
can_spawn deps db now provider lane = elim (get_provider db provider) [
  | none ↦ (db, refused unknown_provider)
  | some row ↦
      if row.enabled
      then gate_circuit deps db now provider lane row row.circuit_state
      else (db, refused disabled)
]

abbrev detail_or_kind : CapacitySignal → String
detail_or_kind signal = or_else signal.detail (signal_text signal.kind)

abbrev pub tripped : CapacityDeps → ℕ → CapacitySignal → ProviderRow → ProviderRow
tripped deps now signal p = record p {
  cooldown_until = some (now + deps.cooldown_seconds * 1000);
  last_error = some (detail_or_kind signal);
  circuit_state = open_circuit;
}

abbrev pub noted : CapacitySignal → ProviderRow → ProviderRow
noted signal p = record p { last_error = some (detail_or_kind signal) }

abbrev pub healed : ProviderRow → ProviderRow
healed p = record p { circuit_state = closed; cooldown_until = none; last_error = none }

unfoldable pub apply_signal : CapacityDeps → Db → ℕ → CapacitySignal → ProviderRow → SignalKind → Db
apply_signal deps db now signal row too_many_requests =
    update_provider db now signal.provider row too_many_requests (tripped deps now signal)
apply_signal deps db now signal row auth_limit =
    update_provider db now signal.provider row auth_limit (tripped deps now signal)
apply_signal deps db now signal row error =
    update_provider db now signal.provider row error (noted signal)
apply_signal deps db now signal row ok =
    if row.circuit_state == half_open
    then update_provider db now signal.provider row ok healed
    else db

unfoldable pub observe : CapacityDeps → Db → ℕ → CapacitySignal → Db
observe deps db now signal = elim (get_provider db signal.provider) [
  | none ↦ db
  | some row ↦ apply_signal deps db now signal row signal.kind
]
