-- ===== src/Runs/Watchdog.antt =====
-- The watchdog over one running run (src/runs/watchdog.ts). An elapsed time is an integer, since a clock may stand before the instant that was observed.
pub mod Decision
use nightshift0s.Prelude.{
  ℕ, suc, List, String, Bool, true, false, Option, none, some, or_else, if◌then◌else◌,
}
use nightshift0s.Prelude.Text.{◌⧺◌, decimal}
use nightshift0s.Prelude.Int.{ℤ, pos, negsuc, ◌-ℤ◌, ltb_ℤ}
use nightshift0s.Db.Columns.Runs.{RunState, running, succeeded, failed}
use nightshift0s.Db.Schema.{RunRow}
use nightshift0s.Db.Events.{EventInput, watchdog_warn}
use nightshift0s.Db.State.{Db, emit}
use nightshift0s.Runs.Transcript.{
  Classification, api_error, normal, unknown, classify_silent_transcript,
}
use nightshift0s.Runs.Transitions
use nightshift0s.Runs.Transitions.{
  RunTransitionInput, RunTransitionResult, no_run_extra, transition_run,
}

pub record WatchdogDeps : Type 0 where
  pub read_transcript_tail : RunRow → List ℕ
  pub idle_ms : Option ℕ
  pub completion_ms : Option ℕ

pub data WatchdogAction : Type 0 where
  idle force_succeed watchdog_succeed watchdog_fail : WatchdogAction

abbrev pub default_idle_ms : ℕ
default_idle_ms = 600000

abbrev pub default_completion_ms : ℕ
default_completion_ms = 60000

abbrev decimal_ℤ : ℤ → String
decimal_ℤ (pos n) = decimal n
decimal_ℤ (negsuc n) = "-" ⧺ decimal (suc n)

abbrev pub completion_reason : ℤ → ℕ → String
completion_reason elapsed completion =
    "completion_timeout:" ⧺ decimal_ℤ elapsed ⧺ "ms>completionMs:" ⧺ decimal completion ⧺ "ms"

-- With the action's name in front.
abbrev pub idle_reason : String → ℤ → ℕ → String
idle_reason action elapsed limit =
    action ⧺ ":idle:" ⧺ decimal_ℤ elapsed ⧺ "ms>idleMs:" ⧺ decimal limit ⧺ "ms"

abbrev pub watchdog_input : RunRow → RunState → String → RunTransitionInput
watchdog_input run to reason = record {
  run_id = run.id;
  to = to;
  expected_from = some running;
  actor = "watchdog";
  extra = record no_run_extra { exit_reason = some reason };
}

abbrev pub warn_event : RunRow → ℤ → ℕ → EventInput
warn_event run elapsed completion = record {
  project_id = none;
  run_id = some run.id;
  task_id = run.task_id;
  kind = "run.watchdog_warn";
  payload = watchdog_warn run.id elapsed completion;
}

-- The action that is reported, or none at a lost race.
unfoldable pub settle_watch : WatchdogAction → Db × RunTransitionResult → Db × WatchdogAction
settle_watch action (db, Transitions.ok row from) = (db, action)
settle_watch action (db, Transitions.refused reason) = (db, idle)

unfoldable pub settle_force : ℕ → RunRow → ℤ → ℕ → Db × RunTransitionResult → Db × WatchdogAction
settle_force now run elapsed completion (db, Transitions.ok row from) =
    (emit db now (warn_event run elapsed completion), force_succeed)
settle_force now run elapsed completion (db, Transitions.refused reason) = (db, idle)

unfoldable pub watch_idle : Db → ℕ → RunRow → ℤ → ℕ → Classification → Db × WatchdogAction
unfolding settle_watch
watch_idle db now run elapsed limit unknown = (db, idle)
watch_idle db now run elapsed limit api_error =
    settle_watch watchdog_fail (
      transition_run db now (watchdog_input run failed (idle_reason "watchdog_fail" elapsed limit)))
watch_idle db now run elapsed limit normal = settle_watch watchdog_succeed (
    transition_run db now
      (watchdog_input run succeeded (idle_reason "watchdog_succeed" elapsed limit)))

unfoldable pub watch_signal : WatchdogDeps → Db → ℕ → RunRow → ℕ → Option ℕ → Db × WatchdogAction
unfolding settle_force watch_idle
watch_signal deps db now run last_activity (some signal) =
    let completion = or_else deps.completion_ms default_completion_ms in
    let elapsed = pos now -ℤ pos signal in
    if ltb_ℤ (pos completion) elapsed
    then settle_force now run elapsed completion (
        transition_run db now (watchdog_input run succeeded (completion_reason elapsed completion)))
    else (db, idle)
watch_signal deps db now run last_activity none =
    let limit = or_else deps.idle_ms default_idle_ms in
    let elapsed = pos now -ℤ pos last_activity in
    if ltb_ℤ (pos limit) elapsed
    then watch_idle db now run elapsed limit
        (classify_silent_transcript (deps.read_transcript_tail run))
    else (db, idle)

unfoldable pub evaluate_run :
    WatchdogDeps
    → Db
    → ℕ
    → RunRow
    → (last_activity_ms : ℕ) → (completion_signal_at_ms : Option ℕ) → Db × WatchdogAction
unfolding watch_signal
evaluate_run deps db now run last_activity signal =
    watch_signal deps db now run last_activity signal
