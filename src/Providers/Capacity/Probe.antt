-- ===== src/Providers/Capacity/Probe.antt =====
-- What an allowed spawn presupposes, and the probe of a circuit (src/providers/capacity.ts).
use nightshift0s.Prelude.{
  ℕ, ◌<◌, String, ◌≡◌, refl, subst, ◌⊎◌, inl, inr, true, false, some, ◌==◌, string_Eq, keep, length,
  if◌then◌else◌, arith, Bool-cases, Option-cases,
}
use nightshift0s.Db.Columns.Providers.{
  AuthLane, CircuitState, closed, open_circuit, half_open, auth_lane_Eq, circuit_state_Eq,
  circuit_state_eq_iff,
}
use nightshift0s.Db.Columns.Providers
use nightshift0s.Db.Schema.{ProviderRow}
use nightshift0s.Db.State.{Db}
use nightshift0s.Providers.Capacity.{
  allowed, CapacityDeps, get_provider, cooldown_active, is_active_at, active_run_count,
  update_provider, flip_to_half_open, gate_cap, gate_circuit, can_spawn,
}

abbrev effective_cap : ProviderRow → ℕ
effective_cap p = if p.circuit_state == closed then p.concurrency_cap else 1

-- The conditions under which a spawn may be allowed on a lane.
abbrev pub MayUse : CapacityDeps → Db → ℕ → String → AuthLane → ProviderRow → AuthLane → Type 0
MayUse deps db now provider lane p l =
    ((l ≡ lane)
      × (active_run_count db provider < effective_cap p)
      × (cooldown_active p.cooldown_until now ≡ false ⊎ (p.circuit_state ≡ half_open)))
    ⊎ ((l ≡ Providers.AuthLane.api_key)
        × (lane ≡ Providers.AuthLane.subscription)
        × (deps.overflow_to_api_key ≡ true)
        × (p.circuit_state ≡ closed))

gate_cap-free :
    (db : Db) (provider : String) (lane : AuthLane) (cap : ℕ) {l : AuthLane}
    → (gate_cap db provider lane cap).1 ≡ allowed l
    → (l ≡ lane) × (active_run_count db provider < cap)
unfolding gate_cap
gate_cap-free db provider lane cap h = ground arith

pub runs-flip :
    (db : Db) (now : ℕ) (provider : String) → (flip_to_half_open db now provider).runs ≡ db.runs
unfolding flip_to_half_open update_provider
runs-flip db now provider = elim (Option-cases (get_provider db provider)) [
  | inl none_such ↦ rw (none_such, flip_to_half_open) refl
  | inr (row, found) ↦ rw (found, flip_to_half_open) (ground arith)
]

gate_circuit-MayUse :
    (deps : CapacityDeps) (db : Db) (now : ℕ) (provider : String) (lane : AuthLane)
    (row : ProviderRow) (circuit : CircuitState) {l : AuthLane}
    → row.circuit_state ≡ circuit
    → (gate_circuit deps db now provider lane row circuit).1 ≡ allowed l
    → MayUse deps db now provider lane row l
unfolding gate_circuit
gate_circuit-MayUse deps db now provider lane row closed {l = l} same h =
    elim (Bool-cases (cooldown_active row.cooldown_until now)) [
      | inl hot ↦ inr (ground (arith, hot, same))
      | inr cold ↦
          inl
            (ground (arith, cold, same, gate_cap-free db provider lane row.concurrency_cap {l = l}))
    ]
gate_circuit-MayUse deps db now provider lane row half_open {l = l} same h =
    rw same (let free = gate_cap-free db provider lane 1 h in inl (free.0, free.1, inr refl))
gate_circuit-MayUse deps db now provider lane row open_circuit {l = l} same h =
    elim (Bool-cases (cooldown_active row.cooldown_until now)) [
      | inl hot ↦ ground (arith, hot)
      | inr cold ↦ rw same (
          let free =
            gate_cap-free (flip_to_half_open db now provider) provider lane 1 {l = l}
              (ground (arith, cold)) in
          inl (
            free.0,
            subst (λ rs. length (keep (is_active_at provider) rs) < 1) (runs-flip db now provider)
                free.1,
            inl cold,
          ))
    ]

-- A spawn is only allowed at a known and enabled provider: on the lane asked for, below the cap,
-- which is one unless the circuit is closed, and outside a cooldown or as the probe of a half-open
-- circuit; or, as the overflow, on the api key in place of a subscription at a closed circuit.
pub can_spawn-MayUse :
    (deps : CapacityDeps) (db : Db) (now : ℕ) (provider : String) (lane : AuthLane) {l : AuthLane}
    → (can_spawn deps db now provider lane).1 ≡ allowed l
    → (row : ProviderRow) × (get_provider db provider ≡ some row)
      × (row.enabled ≡ true)
      × MayUse deps db now provider lane row l
unfolding can_spawn
can_spawn-MayUse deps db now provider lane {l = l} h =
    elim (Option-cases (get_provider db provider)) [
      | inl none_such ↦ ground (arith, none_such)
      | inr (row, found) ↦ elim (Bool-cases row.enabled) [
        | inl on ↦ (
          row,
          found,
          on,
          gate_circuit-MayUse deps db now provider lane row row.circuit_state refl
              (ground (arith, found, on)),
        )
        | inr off ↦ ground (arith, found, off)
      ]
    ]
