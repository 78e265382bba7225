-- ===== src/Tasks/Transitions/Audit.antt =====
-- The events of task transitions, and the states that the log gives (src/tasks/transitions.ts).
use nightshift0s.Prelude.{
  ℕ, ◌+◌, String, ◌≡◌, refl, sym, ◌∙◌, ◌≢◌, true, false, Option, none, some, List, [], ◌∷◌, ◌++◌,
  All, arith, ◌==◌, nat_Eq, string_Eq, inl, inr, ◌⊎◌, eq_self, Bool-cases, ap, find, map, or_else,
  or_keep, subst, find-true, nat_eq_iff, if◌then◌else◌,
}
use nightshift0s.Db.Columns.Tasks.{TaskState, task_state_eq_iff, task_state_Eq}
use nightshift0s.Db.Schema.{TaskRow}
use nightshift0s.Db.Events.{EventRow, Payload, task_changed, new_event, max_seq}
use nightshift0s.Db.State.{Db}
use nightshift0s.Db.Rows.{All-update_rows_cases, IsUnique, found_unique, map-update_rows, All-and}
use nightshift0s.Tasks.Machine.{is_legal_transition}
use nightshift0s.Tasks.Transitions.{
  TransitionInput, guard, transition_patch, transition_task, state_event,
}
use nightshift0s.Tasks.Transitions.Outcome.{IsOk, transition_task-Outcome}

-- The state to which a payload says that the task moved.
abbrev pub moved_to : Payload → ℕ → Option TaskState
moved_to (task_changed k from to actor trigger) id = if k == id then some to else none
moved_to _ id = none

-- The state that the log gives a task last.
unfoldable pub logged_state : List EventRow → ℕ → Option TaskState
logged_state [] id = none
logged_state (e ∷ es) id = or_keep (logged_state es id) (moved_to e.payload id)

pub logged_state-append :
    (es : List EventRow) (e : EventRow) (id : ℕ)
    → logged_state (es ++ e ∷ []) id ≡ or_keep (moved_to e.payload id) (logged_state es id)
unfolding logged_state
logged_state-append [] e id = ground arith
logged_state-append (x ∷ es) e id = ground (arith, logged_state-append es e id)

-- The log does not contradict the row.
abbrev pub IsLogged : List EventRow → TaskRow → Type 0
IsLogged log t = or_else (logged_state log t.id) t.state ≡ t.state

pub patch-id :
    (rows : List TaskRow) (current : TaskRow) (now : ℕ) (input : TransitionInput) (trigger : String)
    (t : TaskRow)
    → (transition_patch rows current now input trigger t).id ≡ t.id
unfolding transition_patch
patch-id rows current now input trigger t = ground arith

pub patch-state :
    (rows : List TaskRow) (current : TaskRow) (now : ℕ) (input : TransitionInput) (trigger : String)
    (t : TaskRow)
    → (transition_patch rows current now input trigger t).state ≡ input.to
unfolding transition_patch
patch-state rows current now input trigger t = ground arith

-- Ids are never changed by a transition.
pub ids-transition_task :
    (db : Db) (now : ℕ) (input : TransitionInput)
    → map (λ t. t.id) (transition_task db now input).0.tasks ≡ map (λ t. t.id) db.tasks
ids-transition_task db now input = elim (transition_task-Outcome db now input) [
  | inl stays ↦ rw stays.0
  | inr m ↦ rw m.result (
      map-update_rows _ _ (λ t. t.id) (patch-id db.tasks m.current now input m.edge.trigger)
        db.tasks)
]

module _ (log : List EventRow) (e : EventRow) (id : ℕ) (from to : TaskState)
    (actor trigger : String) (about : e.payload ≡ task_changed id from to actor trigger) where
  IsLogged-here : (t : TaskRow) → t.id ≡ id → t.state ≡ to → IsLogged (log ++ e ∷ []) t
  IsLogged-here t same here =
      rw (logged_state-append log e t.id, about, same, eq_self id) (sym here)

  IsLogged-elsewhere : (t : TaskRow) → t.id ≢ id → IsLogged log t → IsLogged (log ++ e ∷ []) t
  IsLogged-elsewhere t away h = elim (Bool-cases (id == t.id)) [
    | inl same ↦ absurd (away (sym ((nat_eq_iff id t.id).0 same)))
    | inr other ↦ rw (logged_state-append log e t.id, about, other) h
  ]

abbrev pub IsFound : ℕ → TaskRow → TaskRow → Type 0
IsFound id current t = t.id ≡ id → t ≡ current

-- With unique ids the row that the guard hits is the row that was read.
pub guard_same :
    (rows : List TaskRow) (id : ℕ) (from : TaskState) (current : TaskRow) {row : TaskRow}
    → All (IsFound id current) rows
    → find (guard id from) rows ≡ some row
    → row ≡ current
guard_same [] id from current only h = cc
guard_same (t ∷ rows) id from current {row = row} only h = elim (Bool-cases (guard id from t)) [
  | inl hit ↦ ground (arith, hit, only.0 (ground (arith, hit)))
  | inr miss ↦ guard_same rows id from current only.1 (ground (arith, miss))
]

guard_id : (id : ℕ) (from : TaskState) (t : TaskRow) → guard id from t ≡ true → t.id ≡ id
guard_id id from t h = ground arith

guard_state : (id : ℕ) (from : TaskState) (t : TaskRow) → guard id from t ≡ true → t.state ≡ from
guard_state id from t h = ground (arith, task_state_eq_iff t.state from)

guard_away :
    (id : ℕ) (from : TaskState) (current t : TaskRow)
    → guard id from current ≡ true
    → guard id from t ≡ false
    → IsFound id current t
    → t.id ≢ id
guard_away id from current t hit miss only e = cc (hit, ap (guard id from) (only e), miss)

-- With unique task ids, a log that agrees with every row still does after any transition.
pub transition_task-IsLogged :
    (db : Db) (now : ℕ) (input : TransitionInput)
    → IsUnique (map (λ t. t.id) db.tasks)
    → All (IsLogged db.events) db.tasks
    → All (IsLogged (transition_task db now input).0.events) (transition_task db now input).0.tasks
transition_task-IsLogged db now input unique h = elim (transition_task-Outcome db now input) [
  | inl stays ↦ rw stays.0 h
  | inr m ↦
      let id = input.task_id in
      let test = guard id m.from in
      let trigger = m.edge.trigger in
      let patch = transition_patch db.tasks m.current now input trigger in
      let about =
        new_event db.events now
          (state_event m.current.project_id id m.from input.to input.actor trigger) in
      let only = found_unique (λ (t : TaskRow). t.id) db.tasks id unique m.found in
      let same = guard_same db.tasks id m.from m.current only m.hit in
      let hits = subst (λ r. test r ≡ true) same (find-true test db.tasks m.hit) in
      rw m.result (
        All-update_rows_cases (λ t. IsLogged db.events t × IsFound id m.current t)
          (IsLogged (db.events ++ about ∷ [])) test patch db.tasks
          (λ t hit k.
            IsLogged-here db.events about id m.from input.to input.actor trigger refl (patch t)
              (patch-id db.tasks m.current now input trigger t ∙ guard_id id m.from t hit)
              (patch-state db.tasks m.current now input trigger t))
          (λ t miss k.
            IsLogged-elsewhere db.events about id m.from input.to input.actor trigger refl t
              (guard_away id m.from m.current t hits miss k.1) k.0)
          (All-and (IsLogged db.events) (IsFound id m.current) db.tasks h only))
]

-- A call changes nothing and reports no success, or it appends one event: that the row with this
-- id moved along a legal edge, from the state the row was in, under the next sequence number.
pub transition_task-one_event :
    (db : Db) (now : ℕ) (input : TransitionInput)
    → let r = transition_task db now input in
      ((r.0 ≡ db) × (IsOk r.1 → ⊥))
      ⊎ ((row : TaskRow) × (from : TaskState) × (e : EventRow) × (trigger : String) × (find
              (guard input.task_id from)
              db.tasks
            ≡ some row)
          × (row.state ≡ from)
          × (is_legal_transition from input.to ≡ true)
          × (r.0.events ≡ db.events ++ e ∷ [])
          × (e.payload ≡ task_changed input.task_id from input.to input.actor trigger)
          × (e.seq ≡ max_seq db.events + 1)
          × IsOk r.1)
unfolding is_legal_transition
transition_task-one_event db now input = elim (transition_task-Outcome db now input) [
  | inl stays ↦ inl stays
  | inr m ↦
      let test = guard input.task_id m.from in
      inr (
        m.row,
        m.from,
        new_event db.events now (
            state_event m.current.project_id input.task_id m.from input.to input.actor
              m.edge.trigger),
        m.edge.trigger,
        m.hit,
        guard_state input.task_id m.from m.row (find-true test db.tasks m.hit),
        rw m.legal,
        rw m.result,
        refl,
        refl,
        rw m.result tt,
      )
]
