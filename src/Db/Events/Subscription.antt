-- ===== src/Db/Events/Subscription.antt =====
-- A subscriber of the event log (src/events/events.ts): the replay of history, then the live tail.
pub mod Order
pub mod Delivery
pub mod Tail
pub mod Runs
pub mod Examples
use nightshift0s.Prelude.{
  ℕ, suc, max, Bool, true, false, not, ◌||◌, Option, none, some, List, [], ◌∷◌, ◌++◌, keep, length,
  ltb, leb, if◌then◌else◌,
}
use nightshift0s.Db.Events.{EventRow, EventInput, new_event}

-- `history` is the part of the snapshot that is not yet yielded, and there is none before the first
-- `next`. `yielded` is what the consumer has received.
pub record Subscription : Type 0 where
  pub after_seq : ℕ
  pub filter : EventRow → Bool
  pub buffer_size : ℕ
  pub queue : List EventRow
  pub dropped : ℕ
  pub ended : Bool
  pub history : Option (List EventRow)
  pub last_yielded : ℕ
  pub yielded : List EventRow

abbrev pub subscribe : ℕ → (EventRow → Bool) → ℕ → Subscription
subscribe after filter size = record {
  after_seq = after;
  filter = filter;
  buffer_size = size;
  queue = [];
  dropped = 0;
  ended = false;
  history = none;
  last_yielded = after;
  yielded = [];
}

abbrev shifted : List EventRow → List EventRow
shifted [] = []
shifted (e ∷ q) = q

abbrev pub enqueue : Subscription → EventRow → Subscription
enqueue s e =
    if leb s.buffer_size (length s.queue)
    then record s { queue = shifted s.queue ++ e ∷ []; dropped = suc s.dropped }
    else record s { queue = s.queue ++ e ∷ [] }

unfoldable pub push : Subscription → EventRow → Subscription
push s e = if s.ended || not (s.filter e) then s else enqueue s e

abbrev pub deliver : Subscription → EventRow → Subscription
deliver s e = record s { last_yielded = max s.last_yielded e.seq; yielded = s.yielded ++ e ∷ [] }

-- `for await (const row of sub.iterator)`, up to the next yield or until the queue is empty
abbrev pub next_live : Subscription → List EventRow → Subscription
next_live s [] = record s { queue = [] }
next_live s (e ∷ q) =
    let rest = next_live s q in
    if leb e.seq s.last_yielded
    then rest
    else record s { queue = q; last_yielded = e.seq; yielded = s.yielded ++ e ∷ [] }

-- `for (const row of history)`
abbrev pub next_history : Subscription → List EventRow → Subscription
next_history s [] = next_live (record s { history = some [] }) s.queue
next_history s (e ∷ rows) =
    let rest = next_history s rows in
    if s.filter e then record (deliver s e) { history = some rows } else rest

-- The rows after `seq`, in the order of insertion, which is that of `seq`.
abbrev pub snapshot : List EventRow → ℕ → List EventRow
snapshot log after = keep (λ e. ltb after e.seq) log

-- One call of `next` on the iterator. One that finds nothing waits, which is to be called again.
abbrev pub next_from : List EventRow → Subscription → Option (List EventRow) → Subscription
next_from log s none = next_history s (snapshot log s.after_seq)
next_from log s (some rows) = next_history s rows

unfoldable pub next : List EventRow → Subscription → Subscription
next log s = next_from log s s.history

abbrev pub close : Subscription → Subscription
close s = record s { ended = true }

-- The log with one of its subscribers, and what may happen to the two, in any order.
pub record Feed : Type 0 where
  pub log : List EventRow
  pub subscriber : Subscription

pub data FeedStep : Type 0 where
  emitted : (now : ℕ) → EventInput → FeedStep
  pulled closed : FeedStep

unfoldable pub feed_step : Feed → FeedStep → Feed
unfolding push next
feed_step f (emitted now e) = record {
  log = f.log ++ new_event f.log now e ∷ [];
  subscriber = push f.subscriber (new_event f.log now e);
}
feed_step f pulled = record f { subscriber = next f.log f.subscriber }
feed_step f closed = record f { subscriber = close f.subscriber }

abbrev pub feed : Feed → List FeedStep → Feed
feed f [] = f
feed f (step ∷ steps) = feed (feed_step f step) steps
