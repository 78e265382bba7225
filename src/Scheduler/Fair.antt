-- ===== src/Scheduler/Fair.antt =====
-- The pass against a description of what it may do with the ready tasks and the free slots
-- (src/scheduler/scheduler.ts).
use nightshift0s.Prelude.{
  ℕ, zero, suc, ◌-◌, ◌≤◌, ◌<◌, String, ◌≡◌, refl, sym, subst, ◌⊎◌, inl, inr, false, List, [], ◌∷◌,
  map, ◌==◌, nat_Eq, length, leb, leb→le, if◌then◌else◌, arith, Bool-cases,
}
use nightshift0s.Db.Schema.{TaskRow}
use nightshift0s.Db.State.{Db}
use nightshift0s.Scheduler.{
  Verdict, SchedulerDeps, TickReport, count_active_coder_runs, count_review_wip, try_spawn_one,
  list_ready, add_outcome, slots_left, fill, log_tick, tick_once,
}
use nightshift0s.Scheduler

-- With so many free slots and these candidates, in order: which are started and which are skipped.
-- The pass stops only when no slot is free or no candidate is left; it takes each candidate once.
pub data Filled : ℕ → List ℕ → List ℕ → List ℕ → Type 0 where
  all_seen : {free : ℕ} → Filled free [] [] []
  no_slot : {ids : List ℕ} → Filled 0 ids [] []
  start :
      {free id : ℕ} {ids started skipped : List ℕ}
      → Filled free ids started skipped
      → Filled (suc free) (id ∷ ids) (id ∷ started) skipped
  skip :
      {free id : ℕ} {ids started skipped : List ℕ}
      → Filled (suc free) ids started skipped
      → Filled (suc free) (id ∷ ids) started (id ∷ skipped)

abbrev pub ids_of : List (ℕ × String) → List ℕ
ids_of skipped = map (λ s. s.0) skipped

one_less : (n : ℕ) → suc n - 1 ≡ n
one_less n = omega arith

step-Filled :
    (free id : ℕ) (ids : List ℕ) (v : Verdict (Unit {0})) (rest : List ℕ × List (ℕ × String))
    → Filled (slots_left (suc free) v) ids rest.0 (ids_of rest.1)
    → Filled (suc free) (id ∷ ids) (add_outcome id v rest).0 (ids_of (add_outcome id v rest).1)
step-Filled free id ids (Scheduler.yes done) rest h =
    start (subst (λ n. Filled n ids rest.0 (ids_of rest.1)) (one_less free) h)
step-Filled free id ids (Scheduler.no reason) rest h = skip h

abbrev lists_of : Db × (List ℕ × List (ℕ × String)) → List ℕ × List (ℕ × String)
lists_of r = r.1

not_zero : (n : ℕ) → (suc n == 0) ≡ false
not_zero n = ground arith

fill-Filled :
    (deps : SchedulerDeps) (db : Db) (free : ℕ) (tasks : List TaskRow)
    → let r = (fill deps db free tasks).1 in Filled free (map (λ t. t.id) tasks) r.0 (ids_of r.1)
unfolding fill
fill-Filled deps db free [] = all_seen
fill-Filled deps db zero (task ∷ tasks) = no_slot
fill-Filled deps db (suc free) (task ∷ tasks) =
    let r = try_spawn_one deps db task in
    let rest = fill deps r.0 (slots_left (suc free) r.1) tasks in
    subst
      (λ b.
        let made : List ℕ × List (ℕ × String) =
          lists_of (if b then (db, ([], [])) else (rest.0, add_outcome task.id r.1 rest.1)) in
        Filled (suc free) (task.id ∷ map (λ t. t.id) tasks) made.0 (ids_of made.1))
      (sym (not_zero free))
      (step-Filled free task.id (map (λ t. t.id) tasks) r.1 rest.1
        (fill-Filled deps r.0 (slots_left (suc free) r.1) tasks))

pub Filled-length :
    {free : ℕ} {ids started skipped : List ℕ}
    → Filled free ids started skipped
    → length started ≤ free
Filled-length all_seen = omega arith
Filled-length no_slot = omega arith
Filled-length (start h) = omega (arith, Filled-length h)
Filled-length (skip h) = omega (arith, Filled-length h)

leb-lt : (a b : ℕ) → leb a b ≡ false → b < a
leb-lt a b h = ground arith

log_tick-lists :
    (now active : ℕ) (r : Db × (List ℕ × List (ℕ × String)))
    → ((log_tick now active r).1.started ≡ r.1.0) × ((log_tick now active r).1.skipped ≡ r.1.1)
unfolding log_tick
log_tick-lists now active (db, (started, skipped)) = (refl, refl)

-- A tick changes nothing where the slots are taken or the review queue is full. Otherwise it fills
-- the free slots from the ready tasks, which are `list_ready db`, in their order: each is started or
-- skipped once, and the pass ends when no slot or no task is left.
pub tick_once-Filled :
    (deps : SchedulerDeps) (db : Db) (now : ℕ)
    → let r = tick_once deps db now in
      let active = count_active_coder_runs db in
      ((r.0 ≡ db)
        × (r.1.started ≡ [])
        × (r.1.skipped ≡ [])
        × ((deps.max_parallel_slots ≤ active) ⊎ (deps.max_review_wip ≤ count_review_wip db)))
      ⊎ ((active < deps.max_parallel_slots)
          × (count_review_wip db < deps.max_review_wip)
          × Filled
              (deps.max_parallel_slots - active)
              (map (λ t. t.id) (list_ready db))
              r.1.started
              (ids_of r.1.skipped))
unfolding tick_once
tick_once-Filled deps db now = elim (Bool-cases (leb deps.max_parallel_slots active)) [
  | inl taken ↦
      inl (
        rw (taken, tick_once) (refl, refl, refl, inl (leb→le deps.max_parallel_slots active taken)))
  | inr open_slots ↦ elim (Bool-cases (leb deps.max_review_wip wip)) [
    | inl full ↦ inl (
        rw (open_slots, full, tick_once)
          (refl, refl, refl, inr (leb→le deps.max_review_wip wip full)))
    | inr room ↦ inr (
      leb-lt deps.max_parallel_slots active open_slots,
      leb-lt deps.max_review_wip wip room,
      rw (open_slots, room, tick_once)
          (let lists = log_tick-lists now active filled in
            subst
              (λ x.
                Filled free (map (λ t. t.id) (list_ready db)) x
                  (ids_of (log_tick now active filled).1.skipped))
              (sym lists.0)
              (subst (λ x. Filled free (map (λ t. t.id) (list_ready db)) filled.1.0 (ids_of x))
                (sym lists.1) (fill-Filled deps db free (list_ready db)))),
    )
  ]
]
  where
    active : ℕ
    active = count_active_coder_runs db

    wip : ℕ
    wip = count_review_wip db

    free : ℕ
    free = deps.max_parallel_slots - active

    filled : Db × (List ℕ × List (ℕ × String))
    filled = fill deps db free (list_ready db)
