-- ===== src/Providers/Capacity/Probing.antt =====
-- The probe of a circuit that is not closed, while its run is active (src/providers/capacity.ts).
use nightshift0s.Prelude.{
  ℕ, ◌≤◌, String, ◌≡◌, refl, sym, subst, ap, ◌∙◌, ◌≢◌, inl, inr, Bool, true, none, List, [], ◌∷◌,
  ◌++◌, ◌==◌, string_Eq, eq_true, keep, length, any, find-none, find-true, All, All-append,
  All-find, arith, Bool-cases, Option-cases,
}
use nightshift0s.Db.Columns.Providers.{
  AuthLane, CircuitState, closed, open_circuit, half_open, circuit_state_Eq, auth_lane_Eq,
}
use nightshift0s.Db.Schema.{ProviderRow}
use nightshift0s.Db.State.{Db, update_rows}
use nightshift0s.Db.Rows.{All-update_rows}
use nightshift0s.Providers.Capacity.Probe.{runs-flip}
use nightshift0s.Providers.Capacity.{
  SignalKind, too_many_requests, auth_limit, ok, error, CapacitySignal, Refusal, disabled,
  unknown_provider, circuit_open, at_cap, refused, CapacityDeps, get_provider, cooldown_active,
  is_active_at, active_run_count, update_provider, ProviderInput, seeded, refreshed,
  ensure_provider, half_opened, flip_to_half_open, gate_cap, gate_circuit, can_spawn, tripped,
  noted, healed, apply_signal, observe,
}

-- The provider is known, and its circuit is not closed.
abbrev pub IsOff : String → ProviderRow → Type 0
IsOff provider p = p.name ≡ provider → p.circuit_state ≢ closed

pub record IsTripped (provider : String) (db : Db) : Type 0 where
  pub known : any (λ p. p.name == provider) db.providers ≡ true
  pub off : All (IsOff provider) db.providers

any-update_rows :
    (p test : ProviderRow → Bool) (patch : ProviderRow → ProviderRow) (rows : List ProviderRow)
    → ((x : ProviderRow) → p (patch x) ≡ p x)
    → any p (update_rows test patch rows) ≡ any p rows
any-update_rows p test patch [] same = refl
any-update_rows p test patch (x ∷ rows) same = elim (Bool-cases (test x)) [
  | inl hit ↦ rw (hit, same x, any-update_rows p test patch rows same) refl
  | inr miss ↦ rw (miss, any-update_rows p test patch rows same) refl
]

module _ (provider : String) where
  update_provider-IsTripped :
      (db : Db) (now : ℕ) (name : String) (row : ProviderRow) (signal : SignalKind)
      (patch : ProviderRow → ProviderRow)
      → ((p : ProviderRow) → (patch p).name ≡ p.name)
      → ((p : ProviderRow) → (p.name == name) ≡ true → IsOff provider p → IsOff provider (patch p))
      → IsTripped provider db
      → IsTripped provider (update_provider db now name row signal patch)
  unfolding update_provider
  update_provider-IsTripped db now name row signal patch names f t = record {
    known =
        any-update_rows (λ p. p.name == provider) (λ p. p.name == name) patch db.providers
          (λ x. ap (λ n. n == provider) (names x))
        ∙ t.known;
    off = All-update_rows (IsOff provider) (λ p. p.name == name) patch db.providers f t.off;
  }

  flip-IsTripped :
      (db : Db) (now : ℕ) (name : String)
      → IsTripped provider db
      → IsTripped provider (flip_to_half_open db now name)
  unfolding flip_to_half_open
  flip-IsTripped db now name t = elim (Option-cases (get_provider db name)) [
    | inl none_such ↦ rw (none_such, flip_to_half_open) t
    | inr (row, found) ↦
        rw (found, flip_to_half_open)
          (elim (Bool-cases (row.circuit_state == open_circuit)) [
            | inl hit ↦ rw hit (
                update_provider-IsTripped db now name row ok half_opened (λ p. refl)
                  (λ p at q e. λ c. cc c) t)
            | inr miss ↦ rw miss t
          ])
  ]

  gate_cap-db :
      (db : Db) (name : String) (lane : AuthLane) (cap : ℕ) → (gate_cap db name lane cap).0 ≡ db
  unfolding gate_cap
  gate_cap-db db name lane cap = ground arith

  gate_circuit-IsTripped :
      (deps : CapacityDeps) (db : Db) (now : ℕ) (name : String) (lane : AuthLane)
      (row : ProviderRow) (circuit : CircuitState)
      → IsTripped provider db
      → IsTripped provider (gate_circuit deps db now name lane row circuit).0
  unfolding gate_circuit
  gate_circuit-IsTripped deps db now name lane row closed t =
      ground (arith, t, gate_cap-db db name lane row.concurrency_cap)
  gate_circuit-IsTripped deps db now name lane row half_open t = rw gate_cap-db t
  gate_circuit-IsTripped deps db now name lane row open_circuit t =
      elim (Bool-cases (cooldown_active row.cooldown_until now)) [
        | inl cooling ↦ rw cooling t
        | inr over ↦ rw (over, gate_cap-db) (flip-IsTripped db now name t)
      ]

  can_spawn-IsTripped :
      (deps : CapacityDeps) (db : Db) (now : ℕ) (name : String) (lane : AuthLane)
      → IsTripped provider db
      → IsTripped provider (can_spawn deps db now name lane).0
  unfolding can_spawn gate_circuit
  can_spawn-IsTripped deps db now name lane t = elim (Option-cases (get_provider db name)) [
    | inl none_such ↦ rw (none_such, can_spawn) t
    | inr (row, found) ↦
        rw (found, can_spawn)
          (elim (Bool-cases row.enabled) [
            | inl on ↦ rw on (gate_circuit-IsTripped deps db now name lane row row.circuit_state t)
            | inr off ↦ rw off t
          ])
  ]

  apply_signal-IsTripped :
      (deps : CapacityDeps) (db : Db) (now : ℕ) (signal : CapacitySignal) (row : ProviderRow)
      (kind : SignalKind)
      → (kind ≡ ok → signal.provider ≢ provider)
      → IsTripped provider db
      → IsTripped provider (apply_signal deps db now signal row kind)
  unfolding apply_signal
  apply_signal-IsTripped deps db now signal row too_many_requests other t =
      update_provider-IsTripped db now signal.provider row too_many_requests
        (tripped deps now signal) (λ p. refl) (λ p at q e. λ c. cc c) t
  apply_signal-IsTripped deps db now signal row auth_limit other t =
      update_provider-IsTripped db now signal.provider row auth_limit (tripped deps now signal)
        (λ p. refl) (λ p at q e. λ c. cc c) t
  apply_signal-IsTripped deps db now signal row error other t =
      update_provider-IsTripped db now signal.provider row error (noted signal) (λ p. refl)
        (λ p at q. q) t
  apply_signal-IsTripped deps db now signal row ok other t =
      elim (Bool-cases (row.circuit_state == half_open)) [
        | inl hit ↦ rw hit (
            update_provider-IsTripped db now signal.provider row ok healed (λ p. refl)
              (λ p at q e. absurd (other refl (sym (eq_true p.name signal.provider at) ∙ e))) t)
        | inr miss ↦ rw miss t
      ]

  observe-IsTripped :
      (deps : CapacityDeps) (db : Db) (now : ℕ) (signal : CapacitySignal)
      → (signal.kind ≡ ok → signal.provider ≢ provider)
      → IsTripped provider db
      → IsTripped provider (observe deps db now signal)
  unfolding observe
  observe-IsTripped deps db now signal other t =
      elim (Option-cases (get_provider db signal.provider)) [
        | inl none_such ↦ rw (none_such, observe) t
        | inr (row, found) ↦
            rw (found, observe) (apply_signal-IsTripped deps db now signal row signal.kind other t)
      ]

  any-append :
      (p : ProviderRow → Bool) (rows : List ProviderRow) (row : ProviderRow)
      → any p rows ≡ true
      → any p (rows ++ row ∷ []) ≡ true
  any-append p [] row h = cc h
  any-append p (x ∷ rows) row h = ground (arith, any-append p rows row)

  new_name :
      (db : Db) (name : String)
      → IsTripped provider db
      → get_provider db name ≡ none
      → name ≢ provider
  new_name db name t missing same = cc (
    find-none (λ p. p.name == name) db.providers missing,
    ap (λ n. any (λ p. p.name == n) db.providers) same,
    t.known,
  )

  ensure_provider-IsTripped :
      (db : Db) (input : ProviderInput)
      → IsTripped provider db
      → IsTripped provider (ensure_provider db input)
  unfolding ensure_provider
  ensure_provider-IsTripped db input t = elim (Option-cases (get_provider db input.name)) [
    | inl new ↦
        rw (new, ensure_provider)
          (record {
            known = any-append (λ p. p.name == provider) db.providers (seeded input) t.known;
            off =
                All-append (IsOff provider) db.providers (seeded input ∷ []) t.off
                  (λ e. absurd (new_name db input.name t new e), tt);
          })
    | inr (row, old) ↦
        rw (old, ensure_provider)
          (record {
            known =
                any-update_rows (λ p. p.name == provider) (λ p. p.name == input.name)
                  (refreshed input) db.providers (λ x. refl)
                ∙ t.known;
            off =
                All-update_rows (IsOff provider) (λ p. p.name == input.name) (refreshed input)
                  db.providers (λ p at q. q) t.off;
          })
  ]

  -- Any uses of the pool but a signal of success at this provider, and any other links while they
  -- leave the providers alone.
  pub data Probing (deps : CapacityDeps) : Db → Db → Type 0 where
    start : {db : Db} → Probing deps db db
    ensure :
        {a b : Db}
        → (input : ProviderInput) → Probing deps a b
        → Probing deps a (ensure_provider b input)
    spawn :
        {a b : Db}
        → (now : ℕ) → (name : String) → (lane : AuthLane) → Probing deps a b
        → Probing deps a (can_spawn deps b now name lane).0
    -- The flip of a request runs as a link of its own.
    flip :
        {a b : Db}
        → (now : ℕ) → (name : String) → Probing deps a b
        → Probing deps a (flip_to_half_open b now name)
    signal :
        {a b : Db}
        → (now : ℕ) → (s : CapacitySignal) → (s.kind ≡ ok → s.provider ≢ provider)
        → Probing deps a b
        → Probing deps a (observe deps b now s)
    other : {a b c : Db} → c.providers ≡ b.providers → Probing deps a b → Probing deps a c

  same-IsTripped :
      (b c : Db) → c.providers ≡ b.providers → IsTripped provider b → IsTripped provider c
  same-IsTripped b c same t = record {
    known = ap (any (λ p. p.name == provider)) same ∙ t.known;
    off = subst (All (IsOff provider)) (sym same) t.off;
  }

  Probing-IsTripped :
      (deps : CapacityDeps) {a b : Db}
      → Probing deps a b
      → IsTripped provider a
      → IsTripped provider b
  Probing-IsTripped deps start t = t
  Probing-IsTripped deps (ensure {b = b} input s) t =
      ensure_provider-IsTripped b input (Probing-IsTripped deps s t)
  Probing-IsTripped deps (spawn {b = b} now name lane s) t =
      can_spawn-IsTripped deps b now name lane (Probing-IsTripped deps s t)
  Probing-IsTripped deps (flip {b = b} now name s) t =
      flip-IsTripped b now name (Probing-IsTripped deps s t)
  Probing-IsTripped deps (signal {b = b} now x quiet s) t =
      observe-IsTripped deps b now x quiet (Probing-IsTripped deps s t)
  Probing-IsTripped deps (other {b = b} {c = c} same s) t =
      same-IsTripped b c same (Probing-IsTripped deps s t)

  full :
      (db : Db) (lane : AuthLane)
      → 1 ≤ active_run_count db provider
      → gate_cap db provider lane 1 ≡ (db, refused at_cap)
  unfolding gate_cap
  full db lane h = ground arith

  abbrev pub IsRefused : CapacityDeps → Db → ℕ → AuthLane → Type 0
  IsRefused deps db now lane =
      (reason : Refusal) × ((can_spawn deps db now provider lane).1 ≡ refused reason)

  circuit_refused :
      (deps : CapacityDeps) (db : Db) (now : ℕ) (lane : AuthLane) (row : ProviderRow)
      (circuit : CircuitState)
      → circuit ≢ closed
      → 1 ≤ active_run_count db provider
      → (reason : Refusal) × ((gate_circuit deps db now provider lane row circuit).1
          ≡ refused reason)
  unfolding gate_circuit
  circuit_refused deps db now lane row closed shut busy = absurd (shut refl)
  circuit_refused deps db now lane row half_open shut busy =
      (at_cap, ap (λ r. r.1) (full db lane busy))
  circuit_refused deps db now lane row open_circuit shut busy =
      elim (Bool-cases (cooldown_active row.cooldown_until now)) [
        | inl cooling ↦ rw cooling (circuit_open, refl)
        | inr over ↦ rw over (
          at_cap,
          ap (λ r. r.1)
              (full (flip_to_half_open db now provider) lane (
                subst (λ runs. 1 ≤ length (keep (is_active_at provider) runs))
                  (sym (runs-flip db now provider)) busy)),
        )
      ]

  tripped-IsRefused :
      (deps : CapacityDeps) (db : Db) (now : ℕ) (lane : AuthLane)
      → IsTripped provider db
      → 1 ≤ active_run_count db provider
      → IsRefused deps db now lane
  unfolding can_spawn gate_circuit
  tripped-IsRefused deps db now lane t busy = elim (Option-cases (get_provider db provider)) [
    | inl none_such ↦ rw (none_such, can_spawn) (unknown_provider, refl)
    | inr (row, found) ↦
        rw (found, can_spawn)
          (elim (Bool-cases row.enabled) [
            | inl on ↦ rw on (
                circuit_refused deps db now lane row row.circuit_state
                  (All-find (IsOff provider) (λ p. p.name == provider) db.providers t.off found
                    (eq_true row.name provider
                      (find-true (λ p. p.name == provider) db.providers found)))
                  busy)
            | inr off ↦ rw off (disabled, refl)
          ])
  ]

-- From a state in which a provider is known and its circuit is not closed, however the pool is used, its
-- runs inserted and ended: if no signal of success for the provider has arrived, then while a run is
-- active there, as that of the probe, every request is refused, on either lane.
pub can_spawn-single_probe :
    (deps : CapacityDeps) {db after : Db} (now : ℕ) (provider : String) (lane : AuthLane)
    → IsTripped provider db
    → Probing provider deps db after
    → 1 ≤ active_run_count after provider
    → IsRefused provider deps after now lane
can_spawn-single_probe deps {after = after} now provider lane t steps busy =
    tripped-IsRefused provider deps after now lane (Probing-IsTripped provider deps steps t) busy
