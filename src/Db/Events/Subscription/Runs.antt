-- ===== src/Db/Events/Subscription/Runs.antt =====
-- A subscriber of src/events/events.ts over whole runs of emits and pulls.
use nightshift0s.Prelude.{
  ltb, sym, ℕ, ◌≡◌, refl, ◌∙◌, ap, subst, arith, ◌⊎◌, inl, inr, Bool, true, Option, none, some,
  List, [], ◌∷◌, ◌++◌, keep, leb, nat_Eq, Bool-cases,
}
use nightshift0s.Db.Events.{max_seq, EventRow, new_event}
use nightshift0s.Db.Events.Subscription.{
  Subscription, subscribe, next_live, next_history, next_from, next, snapshot, Feed, FeedStep,
  emitted, pulled, closed, feed_step, feed,
}
use nightshift0s.Db.Events.Subscription.Order.{
  top, later, IsAscending, IsAscending-append, IsAscending-keep, AllBelow-max_seq,
}
use nightshift0s.Db.Events.Subscription.Delivery.{wanted, Progress, next_from-Progress}
use nightshift0s.Db.Events.Subscription.Tail.{is_broken, push-Kept, push-broken}

next_live-broken : (s : Subscription) (q : List EventRow) → is_broken (next_live s q) ≡ is_broken s
next_live-broken s [] = refl
next_live-broken s (e ∷ q) = elim (Bool-cases (leb e.seq s.last_yielded)) [
  | inl old ↦ rw old (next_live-broken s q)
  | inr new ↦ rw new refl
]

next_history-broken :
    (s : Subscription) (rows : List EventRow) → is_broken (next_history s rows) ≡ is_broken s
next_history-broken s [] = next_live-broken (record s { history = some [] }) s.queue
next_history-broken s (e ∷ rows) = elim (Bool-cases (s.filter e)) [
  | inl hit ↦ rw hit refl
  | inr miss ↦ rw miss (next_history-broken s rows)
]

next_from-broken :
    (log : List EventRow) (s : Subscription) (h : Option (List EventRow))
    → is_broken (next_from log s h) ≡ is_broken s
next_from-broken log s none = next_history-broken s (snapshot log s.after_seq)
next_from-broken log s (some rows) = next_history-broken s rows

Going : Feed → Type 0
Going f = (is_broken f.subscriber ≡ true) ⊎ Progress f.log f.subscriber f.subscriber.history

feed_step-Going : (f : Feed) (step : FeedStep) → Going f → Going (feed_step f step)
unfolding Going feed_step next
feed_step-Going f (emitted now e) (inl broken) =
    inl (push-broken f.log (new_event f.log now e) refl f.subscriber broken)
feed_step-Going f (emitted now e) (inr p) =
    push-Kept f.log (new_event f.log now e) refl f.subscriber p
feed_step-Going f pulled (inl broken) =
    inl (next_from-broken f.log f.subscriber f.subscriber.history ∙ broken)
feed_step-Going f pulled (inr p) =
    inr (next_from-Progress f.log f.subscriber f.subscriber.history p)
feed_step-Going f closed g = inl refl

feed-Going : (f : Feed) (steps : List FeedStep) → Going f → Going (feed f steps)
feed-Going f [] g = g
feed-Going f (step ∷ steps) g = feed-Going (feed_step f step) steps (feed_step-Going f step g)

-- What is still to be yielded: all before the first pull, and then the rest of the snapshot and what
-- is newer in the queue.
abbrev pub pending : List EventRow → Subscription → Option (List EventRow) → List EventRow
pending log s none = wanted s log
pending log s (some rows) =
    keep s.filter rows ++ later (top s.last_yielded (keep s.filter rows)) s.queue

Progress-accounted :
    (log : List EventRow) (s : Subscription) (h : Option (List EventRow))
    → Progress log s h
    → s.yielded ++ pending log s h ≡ wanted s log
Progress-accounted log s none w = ap (λ r. r ++ wanted s log) w.fresh
Progress-accounted log s (some rows) r = r.accounted

feed_step-IsAscending :
    (f : Feed) (step : FeedStep) → IsAscending f.log → IsAscending (feed_step f step).log
unfolding feed_step
feed_step-IsAscending f (emitted now e) asc =
    IsAscending-append (max_seq f.log) f.log (new_event f.log now e) (AllBelow-max_seq f.log)
      (omega arith) asc
feed_step-IsAscending f pulled asc = asc
feed_step-IsAscending f closed asc = asc

feed-IsAscending :
    (f : Feed) (steps : List FeedStep) → IsAscending f.log → IsAscending (feed f steps).log
feed-IsAscending f [] asc = asc
feed-IsAscending f (step ∷ steps) asc =
    feed-IsAscending (feed_step f step) steps (feed_step-IsAscending f step asc)

-- If a log is in ascending order, then after a subscription and any order of emits and pulls the
-- subscriber has been closed or has dropped an event, or what it has yielded, followed by what the rest
-- of its snapshot and its queue still give, is the part of the log that it asked for, in
-- strictly ascending order of the sequence numbers.
pub feed-delivers :
    (log : List EventRow) (after : ℕ) (filter : EventRow → Bool) (size : ℕ) (steps : List FeedStep)
    → IsAscending log
    → let f = feed (record { log = log; subscriber = subscribe after filter size }) steps in
      let all = f.subscriber.yielded ++ pending f.log f.subscriber f.subscriber.history in
      (is_broken f.subscriber ≡ true) ⊎ ((all ≡ wanted f.subscriber f.log) × IsAscending all)
unfolding Going
feed-delivers log after filter size steps asc =
    let f0 : Feed = record { log = log; subscriber = subscribe after filter size } in
    let f = feed f0 steps in
    elim (feed-Going f0 steps
      (inr (record { fresh = refl; start = refl; covered = tt; ordered = tt; logged = tt }))) [
        | inl broken ↦ inl broken
        | inr p ↦
            let all = Progress-accounted f.log f.subscriber f.subscriber.history p in
            inr (
              all,
              subst IsAscending (sym all) (
                  IsAscending-keep f.subscriber.filter (snapshot f.log f.subscriber.after_seq) (
                    IsAscending-keep (λ e. ltb f.subscriber.after_seq e.seq) f.log
                      (feed-IsAscending f0 steps asc))),
            )
      ]
