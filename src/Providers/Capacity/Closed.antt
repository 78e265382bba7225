-- ===== src/Providers/Capacity/Closed.antt =====
-- The cooldown of a closed circuit, over all uses of a pool (src/providers/capacity.ts).
use nightshift0s.Prelude.{
  ℕ, String, ◌≡◌, refl, sym, subst, inl, inr, false, none, [], ◌∷◌, ◌==◌, string_Eq, All,
  All-append, All-find, arith, Bool-cases, Option-cases,
}
use nightshift0s.Db.Columns.Providers.{
  AuthLane, CircuitState, closed, open_circuit, half_open, auth_lane_Eq, circuit_state_Eq,
}
use nightshift0s.Db.Schema.{ProviderRow}
use nightshift0s.Db.State.{Db}
use nightshift0s.Db.Rows.{All-update_rows}
use nightshift0s.Providers.Capacity.{
  SignalKind, too_many_requests, auth_limit, ok, error, CapacitySignal, allowed, CapacityDeps,
  get_provider, cooldown_active, update_provider, ProviderInput, seeded, refreshed, ensure_provider,
  half_opened, flip_to_half_open, gate_cap, gate_circuit, can_spawn, tripped, noted, healed,
  apply_signal, observe,
}

abbrev pub IsQuiet : ProviderRow → Type 0
IsQuiet p = p.circuit_state ≡ closed → p.cooldown_until ≡ none

update_provider-IsQuiet :
    (db : Db) (now : ℕ) (name : String) (row : ProviderRow) (signal : SignalKind)
    (patch : ProviderRow → ProviderRow)
    → ((p : ProviderRow) → IsQuiet p → IsQuiet (patch p))
    → All IsQuiet db.providers
    → All IsQuiet (update_provider db now name row signal patch).providers
unfolding update_provider
update_provider-IsQuiet db now name row signal patch f h =
    All-update_rows IsQuiet (λ p. p.name == name) patch db.providers (λ p hit q. f p q) h

ensure_provider-IsQuiet :
    (db : Db) (input : ProviderInput)
    → All IsQuiet db.providers
    → All IsQuiet (ensure_provider db input).providers
unfolding ensure_provider
ensure_provider-IsQuiet db input h = elim (Option-cases (get_provider db input.name)) [
  | inl new ↦
      rw (new, ensure_provider)
        (All-append IsQuiet db.providers (seeded input ∷ []) h (λ e. refl, tt))
  | inr (row, old) ↦
      rw (old, ensure_provider)
        (All-update_rows IsQuiet (λ p. p.name == input.name) (refreshed input) db.providers
          (λ p hit q. q) h)
]

flip-IsQuiet :
    (db : Db) (now : ℕ) (provider : String)
    → All IsQuiet db.providers
    → All IsQuiet (flip_to_half_open db now provider).providers
unfolding flip_to_half_open
flip-IsQuiet db now provider h = elim (Option-cases (get_provider db provider)) [
  | inl none_such ↦ rw (none_such, flip_to_half_open) h
  | inr (row, found) ↦
      rw (found, flip_to_half_open)
        (elim (Bool-cases (row.circuit_state == open_circuit)) [
          | inl hit ↦
              rw hit (update_provider-IsQuiet db now provider row ok half_opened (λ p q. cc) h)
          | inr miss ↦ rw miss h
        ])
]

gate_cap-db :
    (db : Db) (provider : String) (lane : AuthLane) (cap : ℕ)
    → (gate_cap db provider lane cap).0 ≡ db
unfolding gate_cap
gate_cap-db db provider lane cap = ground arith

gate_circuit-IsQuiet :
    (deps : CapacityDeps) (db : Db) (now : ℕ) (provider : String) (lane : AuthLane)
    (row : ProviderRow) (circuit : CircuitState)
    → All IsQuiet db.providers
    → All IsQuiet (gate_circuit deps db now provider lane row circuit).0.providers
unfolding gate_circuit
gate_circuit-IsQuiet deps db now provider lane row closed h =
    ground (arith, h, gate_cap-db db provider lane row.concurrency_cap)
gate_circuit-IsQuiet deps db now provider lane row half_open h = rw gate_cap-db h
gate_circuit-IsQuiet deps db now provider lane row open_circuit h =
    elim (Bool-cases (cooldown_active row.cooldown_until now)) [
      | inl cooling ↦ rw cooling h
      | inr over ↦ rw (over, gate_cap-db) (flip-IsQuiet db now provider h)
    ]

can_spawn-IsQuiet :
    (deps : CapacityDeps) (db : Db) (now : ℕ) (provider : String) (lane : AuthLane)
    → All IsQuiet db.providers
    → All IsQuiet (can_spawn deps db now provider lane).0.providers
unfolding can_spawn gate_circuit
can_spawn-IsQuiet deps db now provider lane h = elim (Option-cases (get_provider db provider)) [
  | inl none_such ↦ rw (none_such, can_spawn) h
  | inr (row, found) ↦
      rw (found, can_spawn)
        (elim (Bool-cases row.enabled) [
          | inl on ↦ rw on (gate_circuit-IsQuiet deps db now provider lane row row.circuit_state h)
          | inr off ↦ rw off h
        ])
]

apply_signal-IsQuiet :
    (deps : CapacityDeps) (db : Db) (now : ℕ) (signal : CapacitySignal) (row : ProviderRow)
    (kind : SignalKind)
    → All IsQuiet db.providers
    → All IsQuiet (apply_signal deps db now signal row kind).providers
unfolding apply_signal
apply_signal-IsQuiet deps db now signal row too_many_requests h =
    update_provider-IsQuiet db now signal.provider row too_many_requests (tripped deps now signal)
      (λ p q. cc) h
apply_signal-IsQuiet deps db now signal row auth_limit h =
    update_provider-IsQuiet db now signal.provider row auth_limit (tripped deps now signal)
      (λ p q. cc) h
apply_signal-IsQuiet deps db now signal row error h =
    update_provider-IsQuiet db now signal.provider row error (noted signal) (λ p q. q) h
apply_signal-IsQuiet deps db now signal row ok h =
    elim (Bool-cases (row.circuit_state == half_open)) [
      | inl hit ↦
          rw hit (update_provider-IsQuiet db now signal.provider row ok healed (λ p q e. refl) h)
      | inr miss ↦ rw miss h
    ]

observe-IsQuiet :
    (deps : CapacityDeps) (db : Db) (now : ℕ) (signal : CapacitySignal)
    → All IsQuiet db.providers
    → All IsQuiet (observe deps db now signal).providers
unfolding observe
observe-IsQuiet deps db now signal h = elim (Option-cases (get_provider db signal.provider)) [
  | inl none_such ↦ rw (none_such, observe) h
  | inr (row, found) ↦
      rw (found, observe) (apply_signal-IsQuiet deps db now signal row signal.kind h)
]

-- What may happen to the providers: the operations of the pool, and links that leave them alone.
pub data Steps (deps : CapacityDeps) : Db → Db → Type 0 where
  start : {db : Db} → Steps deps db db
  ensure :
      {a b : Db} → (input : ProviderInput) → Steps deps a b → Steps deps a (ensure_provider b input)
  spawn :
      {a b : Db}
      → (now : ℕ) → (provider : String) → (lane : AuthLane) → Steps deps a b
      → Steps deps a (can_spawn deps b now provider lane).0
  signal :
      {a b : Db}
      → (now : ℕ) → (s : CapacitySignal) → Steps deps a b
      → Steps deps a (observe deps b now s)
  other : {a b c : Db} → c.providers ≡ b.providers → Steps deps a b → Steps deps a c

Steps-IsQuiet :
    (deps : CapacityDeps) {a b : Db}
    → Steps deps a b
    → All IsQuiet a.providers
    → All IsQuiet b.providers
Steps-IsQuiet deps start h = h
Steps-IsQuiet deps (ensure {b = b} input s) h =
    ensure_provider-IsQuiet b input (Steps-IsQuiet deps s h)
Steps-IsQuiet deps (spawn {b = b} now provider lane s) h =
    can_spawn-IsQuiet deps b now provider lane (Steps-IsQuiet deps s h)
Steps-IsQuiet deps (signal {b = b} now x s) h =
    observe-IsQuiet deps b now x (Steps-IsQuiet deps s h)
Steps-IsQuiet deps (other same s) h = subst (All IsQuiet) (sym same) (Steps-IsQuiet deps s h)

gate_cap-lane :
    (db : Db) (provider : String) (lane : AuthLane) (cap : ℕ) {l : AuthLane}
    → (gate_cap db provider lane cap).1 ≡ allowed l
    → l ≡ lane
unfolding gate_cap
gate_cap-lane db provider lane cap h = ground arith

not_cooling :
    (row : ProviderRow) (now : ℕ)
    → IsQuiet row
    → row.circuit_state ≡ closed
    → cooldown_active row.cooldown_until now ≡ false
not_cooling row now quiet shut = rw (quiet shut) refl

gate_circuit-lane :
    (deps : CapacityDeps) (db : Db) (now : ℕ) (provider : String) (lane : AuthLane)
    (row : ProviderRow) (circuit : CircuitState) {l : AuthLane}
    → (circuit ≡ closed → cooldown_active row.cooldown_until now ≡ false)
    → (gate_circuit deps db now provider lane row circuit).1 ≡ allowed l
    → l ≡ lane
unfolding gate_circuit
gate_circuit-lane deps db now provider lane row closed {l = l} quiet h =
    ground (arith, quiet refl, gate_cap-lane db provider lane row.concurrency_cap {l = l})
gate_circuit-lane deps db now provider lane row half_open quiet h =
    gate_cap-lane db provider lane 1 h
gate_circuit-lane deps db now provider lane row open_circuit {l = l} quiet h =
    ground (arith, gate_cap-lane (flip_to_half_open db now provider) provider lane 1 {l = l})

-- From a state in which no closed circuit has a cooldown, however the pool is used, a spawn is only
-- ever allowed on the lane that was asked for, whether or not the overflow is switched on.
pub can_spawn-keeps_lane :
    (deps : CapacityDeps) {a b : Db} (now : ℕ) (provider : String) (lane : AuthLane) {l : AuthLane}
    → All IsQuiet a.providers
    → Steps deps a b
    → (can_spawn deps b now provider lane).1 ≡ allowed l
    → l ≡ lane
unfolding can_spawn
can_spawn-keeps_lane deps {b = b} now provider lane {l = l} quiet steps h =
    elim (Option-cases (get_provider b provider)) [
      | inl none_such ↦ ground (arith, none_such)
      | inr (row, found) ↦ ground (
        arith,
        found,
        gate_circuit-lane deps b now provider lane row row.circuit_state {l = l} (
            not_cooling row now (
              All-find IsQuiet (λ p. p.name == provider) b.providers
                (Steps-IsQuiet deps steps quiet) found)),
      )
    ]
