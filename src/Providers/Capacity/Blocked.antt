-- ===== src/Providers/Capacity/Blocked.antt =====
-- The circuit after a signal that trips it (src/providers/capacity.ts).
use nightshift0s.Prelude.{
  ℕ, ◌+◌, ◌*◌, ◌<◌, ◌≡◌, refl, sym, subst, true, some, ◌==◌, string_Eq, find, arith,
}
use nightshift0s.Db.Columns.Providers.{AuthLane, auth_lane_Eq, circuit_state_Eq}
use nightshift0s.Db.Schema.{ProviderRow}
use nightshift0s.Db.State.{Db}
use nightshift0s.Db.Rows.{find-update_rows}
use nightshift0s.Providers.Capacity.{
  SignalKind, too_many_requests, auth_limit, ok, error, CapacitySignal, circuit_open, refused,
  CapacityDeps, get_provider, cooldown_active, update_provider, gate_circuit, can_spawn, tripped,
  apply_signal, observe,
}

-- The signals that trip the circuit.
abbrev pub Trips : SignalKind → Type 0
Trips too_many_requests = Unit
Trips auth_limit = Unit
Trips _ = ⊥

tripped_row :
    (deps : CapacityDeps) (db : Db) (now : ℕ) (signal : CapacitySignal) (row : ProviderRow)
    (kind : SignalKind)
    → Trips kind
    → get_provider db signal.provider ≡ some row
    → get_provider (apply_signal deps db now signal row kind) signal.provider
      ≡ some (tripped deps now signal row)
unfolding apply_signal update_provider
tripped_row deps db now signal row too_many_requests t found =
    find-update_rows (λ p. p.name == signal.provider) (tripped deps now signal) db.providers
      (λ p. refl) found
tripped_row deps db now signal row auth_limit t found =
    find-update_rows (λ p. p.name == signal.provider) (tripped deps now signal) db.providers
      (λ p. refl) found
tripped_row deps db now signal row ok t found = elim t [ ]
tripped_row deps db now signal row error t found = elim t [ ]

observe-tripped :
    (deps : CapacityDeps) (db : Db) (now : ℕ) (signal : CapacitySignal) {row : ProviderRow}
    → Trips signal.kind
    → get_provider db signal.provider ≡ some row
    → get_provider (observe deps db now signal) signal.provider ≡ some (tripped deps now signal row)
unfolding observe
observe-tripped deps db now signal {row = row} t found =
    rw (found, observe) (tripped_row deps db now signal row signal.kind t found)

cooling :
    (deps : CapacityDeps) (now later : ℕ)
    → later < now + deps.cooldown_seconds * 1000
    → cooldown_active (some (now + deps.cooldown_seconds * 1000)) later ≡ true
cooling deps now later h = ground arith

-- Once a signal of a rate or an authentication limit was observed of an enabled provider, a spawn is
-- refused because of the open circuit at each instant before the cooldown ends, whatever else
-- changed meanwhile, as long as the providers did not; and the refusal changes nothing.
pub observe-blocks :
    (deps : CapacityDeps) (db db' : Db) (now later : ℕ) (signal : CapacitySignal) (lane : AuthLane)
    {row : ProviderRow}
    → Trips signal.kind
    → get_provider db signal.provider ≡ some row
    → row.enabled ≡ true
    → db'.providers ≡ (observe deps db now signal).providers
    → later < now + deps.cooldown_seconds * 1000
    → can_spawn deps db' later signal.provider lane ≡ (db', refused circuit_open)
unfolding can_spawn gate_circuit
observe-blocks deps db db' now later signal lane {row = row} t found on same early =
    let found' =
      subst (λ ps. find (λ p. p.name == signal.provider) ps ≡ some (tripped deps now signal row))
        (sym same) (observe-tripped deps db now signal t found) in
    rw (found', can_spawn) (rw (on, cooling deps now later early, gate_circuit) refl)
