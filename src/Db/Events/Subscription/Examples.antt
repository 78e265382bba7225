-- ===== src/Db/Events/Subscription/Examples.antt =====
-- A subscriber of src/events/events.ts at a small log.
use nightshift0s.Prelude.{◌≡◌, refl, ◌⊎◌, true, none, List, [], ◌∷◌, ◌++◌, map}
use nightshift0s.Db.Events.{EventRow, EventInput, tick_report, emit_in_writer, max_seq}
use nightshift0s.Db.Events.Subscription.{
  subscribe, push, next, FeedStep, emitted, pulled, feed_step, feed,
}
use nightshift0s.Db.Events.Subscription.Order.{IsAscending}
use nightshift0s.Db.Events.Subscription.Delivery.{wanted}
use nightshift0s.Db.Events.Subscription.Tail.{is_broken}
use nightshift0s.Db.Events.Subscription.Runs.{pending, feed-delivers}

abbrev report : EventInput
report = record {
  project_id = none;
  run_id = none;
  task_id = none;
  kind = "tick";
  payload = tick_report 0 [] [];
}

-- An event before the subscription, one between it and the first pull, and one after that.
abbrev steps : List FeedStep
steps = emitted 2 report ∷ pulled ∷ emitted 3 report ∷ pulled ∷ pulled ∷ []

abbrev start : List EventRow
start = emit_in_writer [] 1 report

each_once :
    map
      (λ e. e.seq)
      (feed
        (record { log = start; subscriber = subscribe 0 (λ e. true) 8 })
        steps).subscriber.yielded
    ≡ 1 ∷ 2 ∷ 3 ∷ []
unfolding feed_step push next max_seq
each_once = refl

start-IsAscending : IsAscending start
start-IsAscending = (tt, tt)

feed-delivers_example :
    let f = feed (record { log = start; subscriber = subscribe 0 (λ e. true) 8 }) steps in
    let all = f.subscriber.yielded ++ pending f.log f.subscriber f.subscriber.history in
    (is_broken f.subscriber ≡ true) ⊎ ((all ≡ wanted f.subscriber f.log) × IsAscending all)
feed-delivers_example = feed-delivers start 0 (λ e. true) 8 steps start-IsAscending
