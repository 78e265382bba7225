-- ===== src/Tasks/Drafts/Promoted.antt =====
-- What a promotion of src/tasks/draftLane.ts leaves on the board and in the log.
use nightshift0s.Prelude.{
  ℕ, String, ◌≡◌, refl, sym, ◌∙◌, ap, subst, ◌⊎◌, inl, inr, Bool, true, false, ◌||◌, Option, none,
  some, List, All, find-true, arith, eq_true, if◌then◌else◌, [], ◌∷◌, ◌++◌, map, ◌==◌, find, nat_Eq,
  string_Eq, Bool-cases,
}
use nightshift0s.Db.Columns.Tasks.{TaskState, draft, backlog, task_state_Eq, task_state_eq_iff}
use nightshift0s.Db.Schema.{TaskRow}
use nightshift0s.Db.State.{Db, update_rows}
use nightshift0s.Db.Rows.{IsUnique, All-map, found_unique, map-update_rows, find-update_rows}
use nightshift0s.Db.Events.{EventRow, task_changed}
use nightshift0s.Tasks.Fields.{Checked, ValidationError, valid, invalid}
use nightshift0s.Tasks.Crud.{
  TaskPatch, UpdateTaskInput, update_task, updated, patched, check_update,
}
use nightshift0s.Tasks.Crud.Kept.{place}
use nightshift0s.Tasks.Transitions.{guard, transition_task, transition_patch}
use nightshift0s.Tasks.Machine.{TaskTransition, find_transition}
use nightshift0s.Tasks.Transitions.Success.{transition_task-made}
use nightshift0s.Tasks.Transitions.Outcome.{IsOk, transition_task-Outcome}
use nightshift0s.Tasks.Transitions.Audit.{patch-id, patch-state}
use nightshift0s.Tasks.Drafts.{
  PromoteReason, not_found, not_draft, planner_error, DraftLaneDeps, PlannerFn, PlannerResult,
  PromoteResult, promoted, refused, promotion, answer, fills, expansion, to_backlog, after_update,
  planned, expand_draft, promote_found, promote_draft,
}

abbrev pub IsPromoted : PromoteResult → Type 0
IsPromoted (promoted task expanded) = Unit
IsPromoted _ = ⊥

-- Why a promotion cannot go through: no such task, no draft, a planner that rejects, or one whose
-- texts the update rejects.
pub data IsHindered (deps : DraftLaneDeps) (now id : ℕ) (db : Db) : Type 0 where
  missing : find (λ t. t.id == id) db.tasks ≡ none → IsHindered deps now id db
  no_draft :
      (t : TaskRow)
      → find (λ t. t.id == id) db.tasks ≡ some t
      → (t.state == draft) ≡ false
      → IsHindered deps now id db
  unplanned :
      (t : TaskRow) (planner : PlannerFn)
      → find (λ t. t.id == id) db.tasks ≡ some t
      → deps.planner ≡ some planner
      → planner t.title t.description ≡ none
      → IsHindered deps now id db
  unfit :
      (t : TaskRow) (planner : PlannerFn) (plan : PlannerResult) (e : ValidationError)
      → find (λ t. t.id == id) db.tasks ≡ some t
      → deps.planner ≡ some planner
      → planner t.title t.description ≡ some plan
      → (update_task db now id (expansion t plan)).1 ≡ invalid e
      → IsHindered deps now id db

-- The promotion fails for a reason, no task is in another state, and nothing is logged.
pub record IsFailure (deps : DraftLaneDeps) (now id : ℕ) (db : Db) (r : Db × PromoteResult)
    : Type 0 where
  pub failed : IsPromoted r.1 → ⊥
  pub hindered : IsHindered deps now id db
  pub same_places : map place r.0.tasks ≡ map place db.tasks
  pub same_events : r.0.events ≡ db.events

-- The place of a task after the promotion of one.
abbrev pub moved : ℕ → ℕ × TaskState → ℕ × TaskState
moved id (i, state) = if i == id then (i, backlog) else (i, state)

-- The task, and no other, goes from draft to backlog, by one event.
pub record IsPromotion (db : Db) (id : ℕ) (actor : String) (r : Db × PromoteResult) : Type 0 where
  pub task : TaskRow
  pub expanded : Bool
  pub event : EventRow
  pub trigger : String
  pub result : r.1 ≡ promoted task expanded
  pub about : task.id ≡ id
  pub in_backlog : task.state ≡ backlog
  pub places : map place r.0.tasks ≡ map (moved id) (map place db.tasks)
  pub logged : r.0.events ≡ db.events ++ event ∷ []
  pub payload : event.payload ≡ task_changed id draft backlog actor trigger

abbrev pub Promotion : DraftLaneDeps → ℕ → ℕ → String → Db → Db × PromoteResult → Type 0
Promotion deps now id actor db r = IsFailure deps now id db r ⊎ IsPromotion db id actor r

draft_edge : (e : TaskTransition) × (find_transition draft backlog ≡ some e)
unfolding find_transition
draft_edge = (_, refl)

guarded_id : (id : ℕ) (from : TaskState) (t : TaskRow) → guard id from t ≡ true → t.id ≡ id
guarded_id id from t h = ground arith

-- Only the row of the task passes the guard.
update_rows-moved :
    (id : ℕ) (patch : TaskRow → TaskRow) (rows : List TaskRow)
    → ((x : TaskRow) → (patch x).id ≡ x.id)
    → ((x : TaskRow) → (patch x).state ≡ backlog)
    → All (λ x. x.id ≡ id → x.state ≡ draft) rows
    → map place (update_rows (guard id draft) patch rows) ≡ map (moved id) (map place rows)
update_rows-moved id patch [] ids states h = refl
update_rows-moved id patch (x ∷ rows) ids states h = elim (Bool-cases (x.id == id)) [
  | inl here ↦
      let same = eq_true x.id id here in
      let drafted = (task_state_eq_iff x.state draft).1 (h.0 same) in
      rw (here, drafted, ids x, states x, update_rows-moved id patch rows ids states h.1) refl
  | inr away ↦ rw (away, update_rows-moved id patch rows ids states h.1) refl
]

transition-IsPromotion :
    (db : Db) (now id : ℕ) (actor : String) (expanded : Bool) (t : TaskRow)
    → IsUnique (map (λ t. t.id) db.tasks)
    → find (λ t. t.id == id) db.tasks ≡ some t
    → t.state ≡ draft
    → IsPromotion db id actor (answer expanded (transition_task db now (promotion id actor)))
transition-IsPromotion db now id actor expanded t unique found drafted =
    elim (transition_task-Outcome db now (promotion id actor)) [
      | inl stays ↦ absurd (
          stays.1 (
            subst IsOk
              (sym
                (transition_task-made db now (promotion id actor) found
                  (subst (λ s. find_transition s backlog ≡ some draft_edge.0) (sym drafted)
                    draft_edge.1)
                  (ap some (sym drafted)) refl).1)
              tt))
      | inr m ↦ rw m.result (record {
        task = transition_patch db.tasks m.current now (promotion id actor) m.edge.trigger m.row;
        expanded = expanded;
        event = _;
        trigger = m.edge.trigger;
        result = refl;
        about =
            patch-id db.tasks m.current now (promotion id actor) m.edge.trigger m.row
            ∙ guarded_id id m.from m.row (find-true (guard id m.from) db.tasks m.hit);
        places =
            subst
              (λ from.
                map place (
                  update_rows (guard id from)
                    (transition_patch db.tasks m.current now (promotion id actor) m.edge.trigger)
                    db.tasks)
                ≡ map (moved id) (map place db.tasks))
              (sym m.pinned)
              (update_rows-moved id
                (transition_patch db.tasks m.current now (promotion id actor) m.edge.trigger)
                db.tasks (patch-id db.tasks m.current now (promotion id actor) m.edge.trigger)
                (patch-state db.tasks m.current now (promotion id actor) m.edge.trigger)
                (All-map db.tasks (λ x only e. ap (λ r. r.state) (only e) ∙ drafted)
                  (found_unique (λ t. t.id) db.tasks id unique found)));
        in_backlog = patch-state db.tasks m.current now (promotion id actor) m.edge.trigger m.row;
        logged = refl;
        payload = ap (λ from. task_changed id from backlog actor m.edge.trigger) m.pinned;
      })
    ]

-- What an update of a draft leaves as it was.
pub record IsEdit (id : ℕ) (db after : Db) : Type 0 where
  pub edit_places : map place after.tasks ≡ map place db.tasks
  pub edit_ids : map (λ t. t.id) after.tasks ≡ map (λ t. t.id) db.tasks
  pub edit_events : after.events ≡ db.events
  pub edited : TaskRow
  pub edit_found : find (λ t. t.id == id) after.tasks ≡ some edited
  pub edit_draft : edited.state ≡ draft

module _ (db : Db) (now id : ℕ) (t : TaskRow) (found : find (λ t. t.id == id) db.tasks ≡ some t)
    (drafted : t.state ≡ draft) where
  updated-IsEdit : (p : Checked TaskPatch) → IsEdit id db (updated db now id p).0
  updated-IsEdit (invalid e) = record {
    edit_places = refl;
    edit_ids = refl;
    edit_events = refl;
    edited = t;
    edit_found = found;
    edit_draft = drafted;
  }
  updated-IsEdit (valid p) = record {
    edit_places = map-update_rows (λ t. t.id == id) (patched now p) place (λ x. refl) db.tasks;
    edit_ids = map-update_rows (λ t. t.id == id) (patched now p) (λ t. t.id) (λ x. refl) db.tasks;
    edit_events = refl;
    edited = patched now p t;
    edit_found = find-update_rows (λ t. t.id == id) (patched now p) db.tasks (λ x. refl) found;
    edit_draft = drafted;
  }

  update_task-IsEdit : (input : UpdateTaskInput) → IsEdit id db (update_task db now id input).0
  unfolding update_task
  update_task-IsEdit input = updated-IsEdit (check_update input)

IsPromotion-after :
    (db after : Db) (id : ℕ) (actor : String) (r : Db × PromoteResult)
    → after.events ≡ db.events
    → map place after.tasks ≡ map place db.tasks
    → IsPromotion after id actor r
    → IsPromotion db id actor r
IsPromotion-after db after id actor r e same m = record {
  task = m.task;
  expanded = m.expanded;
  event = m.event;
  trigger = m.trigger;
  result = m.result;
  about = m.about;
  in_backlog = m.in_backlog;
  places = m.places ∙ ap (map (moved id)) same;
  logged = m.logged ∙ ap (λ log. log ++ m.event ∷ []) e;
  payload = m.payload;
}

module _ (deps : DraftLaneDeps) (now id : ℕ) (actor : String)
    (quiet_planning : (d : Db) → deps.while_planning d ≡ d)
    (quiet_waiting : (d : Db) → deps.while_waiting d ≡ d) where
  to_backlog-IsPromotion :
      (db : Db) (expanded : Bool) (t : TaskRow)
      → IsUnique (map (λ t. t.id) db.tasks)
      → find (λ t. t.id == id) db.tasks ≡ some t
      → t.state ≡ draft
      → IsPromotion db id actor (to_backlog deps now id actor db expanded)
  to_backlog-IsPromotion db expanded t u found drafted =
      rw quiet_waiting (transition-IsPromotion db now id actor expanded t u found drafted)

  after_update-Promotion :
      (db after : Db) (c : Checked (Option TaskRow))
      → ((e : ValidationError) → c ≡ invalid e → IsHindered deps now id db)
      → IsUnique (map (λ t. t.id) db.tasks)
      → IsEdit id db after
      → Promotion deps now id actor db (after_update deps now id actor (after, c))
  after_update-Promotion db after (valid row) why u e = inr (
      IsPromotion-after db after id actor _ e.edit_events e.edit_places (
        to_backlog-IsPromotion after true e.edited (subst IsUnique (sym e.edit_ids) u) e.edit_found
          e.edit_draft))
  after_update-Promotion db after (invalid err) why u e = inl (record {
    failed = λ x. x;
    hindered = why err refl;
    same_places = e.edit_places;
    same_events = e.edit_events;
  })

  hindered-Promotion :
      (db : Db) (reason : PromoteReason)
      → IsHindered deps now id db
      → Promotion deps now id actor db (db, refused reason)
  hindered-Promotion db reason h =
      inl (record { failed = λ x. x; hindered = h; same_places = refl; same_events = refl })

  planned-Promotion :
      (db : Db) (t : TaskRow) (planner : PlannerFn) (plan : Option PlannerResult)
      → IsUnique (map (λ t. t.id) db.tasks)
      → find (λ t. t.id == id) db.tasks ≡ some t
      → t.state ≡ draft
      → deps.planner ≡ some planner
      → planner t.title t.description ≡ plan
      → Promotion deps now id actor db (planned deps now id actor db t plan)
  planned-Promotion db t planner none u found drafted given asked =
      hindered-Promotion db planner_error (unplanned t planner found given asked)
  planned-Promotion db t planner (some plan) u found drafted given asked =
      elim (Bool-cases (
        fills t.description plan.description
        || fills t.acceptance_criteria plan.acceptance_criteria)) [
          | inl needed ↦ rw needed (
              after_update-Promotion db (update_task db now id (expansion t plan)).0
                (update_task db now id (expansion t plan)).1
                (λ e bad. unfit t planner plan e found given asked bad) u
                (update_task-IsEdit db now id t found drafted (expansion t plan)))
          | inr full ↦ rw full (inr (to_backlog-IsPromotion db false t u found drafted))
        ]

  expand_draft-Promotion :
      (db : Db) (t : TaskRow) (planner : Option PlannerFn)
      → IsUnique (map (λ t. t.id) db.tasks)
      → find (λ t. t.id == id) db.tasks ≡ some t
      → t.state ≡ draft
      → deps.planner ≡ planner
      → Promotion deps now id actor db (expand_draft deps now id actor db t planner)
  expand_draft-Promotion db t none u found drafted given =
      inr (to_backlog-IsPromotion db false t u found drafted)
  expand_draft-Promotion db t (some planner) u found drafted given =
      rw quiet_planning
        (planned-Promotion db t planner (planner t.title t.description) u found drafted given refl)

  promote_found-Promotion :
      (db : Db) (o : Option TaskRow)
      → IsUnique (map (λ t. t.id) db.tasks)
      → find (λ t. t.id == id) db.tasks ≡ o
      → Promotion deps now id actor db (promote_found deps now id actor db o)
  promote_found-Promotion db none u found = hindered-Promotion db not_found (missing found)
  promote_found-Promotion db (some t) u found = elim (Bool-cases (t.state == draft)) [
    | inl drafted ↦ rw drafted (
        expand_draft-Promotion db t deps.planner u found
          ((task_state_eq_iff t.state draft).0 drafted) refl)
    | inr other ↦ rw other (hindered-Promotion db not_draft (no_draft t found other))
  ]

  -- With unique ids, and where no other link runs meanwhile: a promotion succeeds, and then the task of
  -- that id has gone from draft to backlog, every other task is in the state it was in, and exactly one
  -- event has been logged, of that step; or the task is missing or no draft, or the planner rejects,
  -- or the update rejects its texts, and then the promotion fails, no task is added, lost or in another
  -- state than before, and nothing is logged.
  pub promote_draft-Promotion :
      (db : Db)
      → IsUnique (map (λ t. t.id) db.tasks)
      → Promotion deps now id actor db (promote_draft deps now id actor db)
  unfolding promote_draft
  promote_draft-Promotion db u = promote_found-Promotion db (find (λ t. t.id == id) db.tasks) u refl
