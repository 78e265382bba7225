-- ===== src/Providers/Examples.antt =====
-- The theorems about capacity pools and failback at small inputs.
use nightshift0s.Prelude.{
  ℕ, ◌≤◌, ◌≡◌, refl, true, Option, none, some, [], ◌∷◌, ◌++◌, string_Eq, arith,
}
use nightshift0s.Db.Columns.Runs.{running}
use nightshift0s.Db.Columns.Providers.{CircuitState, closed, open_circuit, half_open, cli}
use nightshift0s.Db.Columns.Providers
use nightshift0s.Db.Schema.{ProviderRow}
use nightshift0s.Db.State.{Db}
use nightshift0s.Tasks.Examples.{board}
use nightshift0s.Runs.Examples.{run}
use nightshift0s.Providers.Capacity.{
  CapacityDeps, CapacitySignal, too_many_requests, ok, get_provider, observe, apply_signal,
  update_provider, can_spawn, gate_circuit, gate_cap, flip_to_half_open, allowed, refused,
  circuit_open, active_run_count,
}
use nightshift0s.Providers.Capacity.Closed.{start, signal, can_spawn-keeps_lane}
use nightshift0s.Providers.Capacity.Blocked.{observe-blocks}
use nightshift0s.Providers.Capacity.Probe.{MayUse, can_spawn-MayUse}
use nightshift0s.Providers.Capacity.Probing.{Probing, IsTripped, IsRefused, can_spawn-single_probe}
use nightshift0s.Prelude.{List, string_Eq}
use nightshift0s.Providers.Failback.{
  FailureClass, FailbackInput, PriorCoderRun, retryable, failback_model,
}
use nightshift0s.Providers.Failback
use nightshift0s.Providers.Capacity
use nightshift0s.Providers.Failback.{
  rate_limit, auth, avoid_providers, failed_providers, routing_decision,
}
use nightshift0s.Providers.Classify.{classify_failure, signal_from_exit_reason}
use nightshift0s.Providers.Router.{Capabilities, required_capabilities, qualifies, select_driver}
use nightshift0s.Db.Columns.Runs.{coder, reviewer}
use nightshift0s.Prelude.{false, String}

abbrev pub claude : CircuitState → Option ℕ → ProviderRow
claude circuit cooldown = record {
  name = "claude";
  kind = cli;
  auth_mode = Providers.ProviderAuthMode.subscription;
  concurrency_cap = 2;
  enabled = true;
  circuit_state = circuit;
  cooldown_until = cooldown;
  last_error = none;
}

abbrev pub pool : CircuitState → Option ℕ → Db
pool circuit cooldown = record board { providers = claude circuit cooldown ∷ [] }

abbrev deps : CapacityDeps
deps = record { cooldown_seconds = 60; overflow_to_api_key = true }

abbrev limit : CapacitySignal
limit = record { provider = "claude"; kind = too_many_requests; detail = none }

-- The probe's signal closes the circuit again.
abbrev healthy : CapacitySignal
healthy = record { provider = "claude"; kind = ok; detail = none }

can_spawn-keeps_lane_example : Providers.AuthLane.subscription ≡ Providers.AuthLane.subscription
unfolding can_spawn gate_circuit gate_cap observe apply_signal update_provider
can_spawn-keeps_lane_example =
    can_spawn-keeps_lane deps {a = pool half_open (some 5)}
      {b = observe deps (pool half_open (some 5)) 9 healthy} 10 "claude"
      Providers.AuthLane.subscription (cc, tt) (signal 9 healthy start) refl

observe-blocks_example :
    let db = observe deps (pool closed none) 9 limit in
    can_spawn deps db 60008 "claude" Providers.AuthLane.subscription ≡ (db, refused circuit_open)
observe-blocks_example =
    observe-blocks deps (pool closed none) (observe deps (pool closed none) 9 limit) 9 60008 limit
      Providers.AuthLane.subscription tt refl refl refl (omega arith)

can_spawn-MayUse_example :
    (row : ProviderRow) × (get_provider (pool closed none) "claude" ≡ some row)
    × (row.enabled ≡ true)
    × MayUse deps
        (pool closed none)
        9
        "claude"
        Providers.AuthLane.api_key
        row
        Providers.AuthLane.api_key
unfolding can_spawn gate_circuit gate_cap
can_spawn-MayUse_example =
    can_spawn-MayUse deps (pool closed none) 9 "claude" Providers.AuthLane.api_key refl

-- The probe of an open circuit has been allowed, and its run inserted.
abbrev probed : Db
probed =
    let db' =
      (can_spawn deps (pool open_circuit (some 5)) 9 "claude" Providers.AuthLane.subscription).0 in
    record db' { runs = db'.runs ++ run 1 (some 3) running none ∷ [] }

probe_allowed :
    (can_spawn deps (pool open_circuit (some 5)) 9 "claude" Providers.AuthLane.subscription).1
    ≡ allowed Providers.AuthLane.subscription
unfolding can_spawn gate_circuit gate_cap flip_to_half_open update_provider
probe_allowed = refl

-- A second request before the run is inserted is allowed as well.
probed_twice :
    (can_spawn deps
      (can_spawn deps (pool open_circuit (some 5)) 9 "claude" Providers.AuthLane.subscription).0
      10
      "claude"
      Providers.AuthLane.subscription).1
    ≡ allowed Providers.AuthLane.subscription
unfolding can_spawn gate_circuit gate_cap flip_to_half_open update_provider
probed_twice = refl

pool-IsTripped : IsTripped "claude" (pool open_circuit (some 5))
pool-IsTripped = record { known = refl; off = (λ e c. cc c, tt) }

probe_busy : 1 ≤ active_run_count probed "claude"
unfolding can_spawn gate_circuit gate_cap flip_to_half_open update_provider
probe_busy = ground arith

can_spawn-single_probe_example : IsRefused "claude" deps probed 10 Providers.AuthLane.api_key
unfolding can_spawn gate_circuit gate_cap flip_to_half_open update_provider
can_spawn-single_probe_example =
    can_spawn-single_probe deps 10 "claude" Providers.AuthLane.api_key pool-IsTripped
      (Probing.other {c = probed} refl
        (Probing.spawn 9 "claude" Providers.AuthLane.subscription Probing.start))
      probe_busy

abbrev third_attempt : FailbackInput
third_attempt = record {
  provider = "codex";
  model = "o3";
  failure_class = retryable;
  attempt = 3;
  max_attempts = 3;
}

abbrev prior : List PriorCoderRun
prior = record { provider = "codex"; model = "o3"; exit_reason = none; state = "failed" } ∷ []

readings :
    (classify_failure (some "HTTP 429: Rate limit") ≡ rate_limit)
    × (signal_from_exit_reason (some "HTTP 429: Rate limit") ≡ too_many_requests)
    × (classify_failure (some "Error: ETIMEDOUT, request timed out") ≡ retryable)
    × (classify_failure none ≡ Failback.unknown)
unfolding classify_failure signal_from_exit_reason
readings = (refl, refl, refl, refl)

-- The class knows two texts more than the signal does.
readings_differ :
    (classify_failure (some "too many requests") ≡ rate_limit)
    × (signal_from_exit_reason (some "too many requests") ≡ Capacity.error)
    × (classify_failure (some "invalid api key") ≡ auth)
    × (signal_from_exit_reason (some "invalid api key") ≡ Capacity.error)
unfolding classify_failure signal_from_exit_reason
readings_differ = (refl, refl, refl, refl)

abbrev plain : Capabilities
plain = record {
  interactive = false;
  resume = true;
  fork = false;
  structured_output = false;
  cost_reporting = false;
  auth = [];
  roles = coder ∷ reviewer ∷ [];
}

selections :
    (select_driver {Driver = String} (("plain", plain) ∷ []) coder ≡ some "plain")
    × (select_driver {Driver = String} (("plain", plain) ∷ []) reviewer ≡ none)
unfolding select_driver qualifies required_capabilities
selections = (refl, refl)

routed : routing_decision prior ≡ record {
  avoid_providers = avoid_providers prior;
  reason = "avoiding providers with prior failed runs: codex";
}
unfolding routing_decision avoid_providers failed_providers
routed = refl
