-- ===== src/Runs/Watchdog/Decision.antt =====
-- When the watchdog acts on a run, and what becomes of its reason (src/runs/watchdog.ts).
use nightshift0s.Prelude.{
  ℕ, ◌+◌, ◌<◌, String, ◌≡◌, refl, sym, ◌∙◌, ap, subst, inl, inr, true, Option, none, some, List,
  nat_Eq, or_else, arith, Bool-cases, map,
}
use nightshift0s.Prelude.Int.{ℤ, pos, ◌-ℤ◌, ltb_ℤ}
use nightshift0s.Db.Columns.Runs.{RunState, running, succeeded, failed, run_state_Eq}
use nightshift0s.Db.Schema.{RunRow}
use nightshift0s.Db.State.{Db}
use nightshift0s.Db.Rows.{map-update_rows}
use nightshift0s.Runs.Transitions
use nightshift0s.Runs.Transitions.{RunTransitionResult, run_patch, transition_run}
use nightshift0s.Runs.Transitions.Outcome.{transition_run-Outcome}
use nightshift0s.Runs.Transcript.{
  Classification, api_error, normal, unknown, classify_silent_transcript,
}
use nightshift0s.Runs.Watchdog.{
  WatchdogDeps, WatchdogAction, idle, force_succeed, watchdog_succeed, watchdog_fail,
  default_idle_ms, default_completion_ms, watchdog_input, settle_watch, settle_force, watch_idle,
  watch_signal, evaluate_run,
}

-- Why an action may be taken.
abbrev pub Warranted : WatchdogDeps → ℕ → RunRow → ℕ → Option ℕ → WatchdogAction → Type 0
Warranted deps now run last_activity signal idle = Unit
Warranted deps now run last_activity signal force_succeed =
    (at : ℕ) × (signal ≡ some at) × (at + or_else deps.completion_ms default_completion_ms < now)
Warranted deps now run last_activity signal watchdog_succeed =
    (signal ≡ none)
    × (last_activity + or_else deps.idle_ms default_idle_ms < now)
    × (classify_silent_transcript (deps.read_transcript_tail run) ≡ normal)
Warranted deps now run last_activity signal watchdog_fail =
    (signal ≡ none)
    × (last_activity + or_else deps.idle_ms default_idle_ms < now)
    × (classify_silent_transcript (deps.read_transcript_tail run) ≡ api_error)

late : (limit now at : ℕ) → ltb_ℤ (pos limit) (pos now -ℤ pos at) ≡ true → at + limit < now
unfolding ◌-ℤ◌
late limit now at h = ground arith

watch-Warranted :
    (deps : WatchdogDeps) (now : ℕ) (run : RunRow) (last_activity : ℕ) (signal : Option ℕ)
    (action : WatchdogAction) (r : Db × RunTransitionResult)
    → Warranted deps now run last_activity signal action
    → Warranted deps now run last_activity signal (settle_watch action r).1
unfolding settle_watch
watch-Warranted deps now run last_activity signal action (db, Transitions.ok row from) h = h
watch-Warranted deps now run last_activity signal action (db, Transitions.refused reason) h = tt

force-Warranted :
    (deps : WatchdogDeps) (now : ℕ) (run : RunRow) (last_activity at : ℕ) (elapsed : ℤ)
    (completion : ℕ) (r : Db × RunTransitionResult)
    → at + or_else deps.completion_ms default_completion_ms < now
    → Warranted deps now run last_activity (some at) (settle_force now run elapsed completion r).1
unfolding settle_force
force-Warranted deps now run last_activity at elapsed completion (db, Transitions.ok row from) h =
    (at, refl, h)
force-Warranted deps now run last_activity at elapsed completion (db, Transitions.refused reason)
      h =
    tt

idle-Warranted :
    (deps : WatchdogDeps) (db : Db) (now : ℕ) (run : RunRow) (last_activity : ℕ) (elapsed : ℤ)
    (limit : ℕ) (c : Classification)
    → last_activity + or_else deps.idle_ms default_idle_ms < now
    → classify_silent_transcript (deps.read_transcript_tail run) ≡ c
    → Warranted deps now run last_activity none (watch_idle db now run elapsed limit c).1
unfolding watch_idle
idle-Warranted deps db now run last_activity elapsed limit unknown h e = tt
idle-Warranted deps db now run last_activity elapsed limit normal h e =
    watch-Warranted deps now run last_activity none watchdog_succeed _ (refl, h, e)
idle-Warranted deps db now run last_activity elapsed limit api_error h e =
    watch-Warranted deps now run last_activity none watchdog_fail _ (refl, h, e)

-- An action that is reported is warranted: the completion signal was seen longer ago than the
-- completion timeout, or without a signal the run was silent for longer than the idle timeout and its
-- transcript looks normal, or like an error, as the action says.
pub evaluate_run-Warranted :
    (deps : WatchdogDeps) (db : Db) (now : ℕ) (run : RunRow) (last_activity : ℕ) (signal : Option ℕ)
    → Warranted deps now run last_activity signal
        (evaluate_run deps db now run last_activity signal).1
unfolding evaluate_run watch_signal
evaluate_run-Warranted deps db now run last_activity none =
    elim (Bool-cases
      (ltb_ℤ (pos (or_else deps.idle_ms default_idle_ms)) (pos now -ℤ pos last_activity))) [
        | inl over ↦ rw over (
            idle-Warranted deps db now run last_activity _ _
              (classify_silent_transcript (deps.read_transcript_tail run))
              (late (or_else deps.idle_ms default_idle_ms) now last_activity over) refl)
        | inr early ↦ rw early tt
      ]
evaluate_run-Warranted deps db now run last_activity (some at) =
    elim (Bool-cases
      (ltb_ℤ (pos (or_else deps.completion_ms default_completion_ms)) (pos now -ℤ pos at))) [
        | inl over ↦ rw over (
            force-Warranted deps now run last_activity at _ _ _
              (late (or_else deps.completion_ms default_completion_ms) now at over))
        | inr early ↦ rw early tt
      ]

abbrev reasons : Db → List (Option String)
reasons db = map (λ r. r.exit_reason) db.runs

patch-keeps_reason :
    (now : ℕ) (run : RunRow) (to : RunState) (reason : String) (r : RunRow)
    → (run_patch running now (watchdog_input run to reason) r).exit_reason ≡ r.exit_reason
unfolding run_patch
patch-keeps_reason now run to reason r = ground arith

step-reasons :
    (db : Db) (now : ℕ) (run : RunRow) (to : RunState) (reason : String)
    → reasons (transition_run db now (watchdog_input run to reason)).0 ≡ reasons db
step-reasons db now run to reason =
    elim (transition_run-Outcome db now (watchdog_input run to reason)) [
      | inl stays ↦ ap reasons stays.0
      | inr m ↦
          ap (λ r. reasons r.0) m.result
          ∙ map-update_rows _ (run_patch m.from now (watchdog_input run to reason))
              (λ r. r.exit_reason)
              (λ r.
                subst
                  (λ s.
                    (run_patch s now (watchdog_input run to reason) r).exit_reason ≡ r.exit_reason)
                  (sym m.pinned) (patch-keeps_reason now run to reason r))
              db.runs
    ]

settle-reasons :
    (action : WatchdogAction) (r : Db × RunTransitionResult)
    → reasons (settle_watch action r).0 ≡ reasons r.0
unfolding settle_watch
settle-reasons action (db, Transitions.ok row from) = refl
settle-reasons action (db, Transitions.refused reason) = refl

force-reasons :
    (now : ℕ) (run : RunRow) (elapsed : ℤ) (completion : ℕ) (r : Db × RunTransitionResult)
    → reasons (settle_force now run elapsed completion r).0 ≡ reasons r.0
unfolding settle_force
force-reasons now run elapsed completion (db, Transitions.ok row from) = refl
force-reasons now run elapsed completion (db, Transitions.refused reason) = refl

idle-reasons :
    (db : Db) (now : ℕ) (run : RunRow) (elapsed : ℤ) (limit : ℕ) (c : Classification)
    → reasons (watch_idle db now run elapsed limit c).0 ≡ reasons db
unfolding watch_idle
idle-reasons db now run elapsed limit unknown = refl
idle-reasons db now run elapsed limit normal =
    settle-reasons watchdog_succeed _ ∙ step-reasons db now run succeeded _
idle-reasons db now run elapsed limit api_error =
    settle-reasons watchdog_fail _ ∙ step-reasons db now run failed _

-- The reason that the watchdog hands to the transition is never stored: every run has the exit reason
-- that it had before.
pub evaluate_run-exit_reason :
    (deps : WatchdogDeps) (db : Db) (now : ℕ) (run : RunRow) (last_activity : ℕ) (signal : Option ℕ)
    → map (λ r. r.exit_reason) (evaluate_run deps db now run last_activity signal).0.runs
      ≡ map (λ r. r.exit_reason) db.runs
unfolding evaluate_run watch_signal
evaluate_run-exit_reason deps db now run last_activity none =
    elim (Bool-cases
      (ltb_ℤ (pos (or_else deps.idle_ms default_idle_ms)) (pos now -ℤ pos last_activity))) [
        | inl over ↦ rw over (
            idle-reasons db now run _ _
              (classify_silent_transcript (deps.read_transcript_tail run)))
        | inr early ↦ rw early refl
      ]
evaluate_run-exit_reason deps db now run last_activity (some at) =
    elim (Bool-cases
      (ltb_ℤ (pos (or_else deps.completion_ms default_completion_ms)) (pos now -ℤ pos at))) [
        | inl over ↦ rw over (force-reasons now run _ _ _ ∙ step-reasons db now run succeeded _)
        | inr early ↦ rw early refl
      ]
