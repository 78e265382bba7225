-- ===== src/Db/Events/Subscription/Delivery.antt =====
-- What a subscriber of src/events/events.ts receives.
use nightshift0s.Prelude.{
  max, ◌≤◌, ◌≡◌, refl, sym, ◌∙◌, ap, subst, inl, inr, true, false, Option, none, some, List, [],
  ◌∷◌, ◌++◌, keep, All-keep, ltb, leb, nat_Eq, arith, Bool-cases,
}
use nightshift0s.Db.Events.{EventRow, max_seq}
use nightshift0s.Db.Events.Subscription.{Subscription, next_live, next_history, next_from, snapshot}
use nightshift0s.Db.Events.Subscription.Order.{
  top, later, IsAscending, AllBelow, append_assoc, append-nil, later-none, later-old, later-new,
  top-ge, top-le, AllBelow-max_seq,
}

-- The events that the subscriber asked for.
abbrev pub wanted : Subscription → List EventRow → List EventRow
wanted s log = keep s.filter (snapshot log s.after_seq)

-- Before the first pull.
pub record IsWaiting (log : List EventRow) (s : Subscription) : Type 0 where
  pub fresh : s.yielded ≡ []
  pub start : s.last_yielded ≡ s.after_seq
  pub covered : AllBelow (top s.after_seq (wanted s log)) s.queue
  pub ordered : IsAscending s.queue
  pub logged : AllBelow (max_seq log) s.queue

-- What is yielded is in order a first part of what is wanted; `rows` is what is left of the snapshot.
pub record IsReading (log : List EventRow) (s : Subscription) (rows : List EventRow) : Type 0 where
  pub accounted : s.yielded ++ (rows ++ later (top s.last_yielded rows) s.queue) ≡ wanted s log
  pub low : s.after_seq ≤ top s.last_yielded rows
  pub high : top s.last_yielded rows ≤ max s.after_seq (max_seq log)
  pub ascending : IsAscending s.queue
  pub known : AllBelow (max_seq log) s.queue

abbrev pub Progress : List EventRow → Subscription → Option (List EventRow) → Type 0
Progress log s none = IsWaiting log s
Progress log s (some rows) = IsReading log s (keep s.filter rows)

module _ (log : List EventRow) where
  next_live-IsReading :
      (s : Subscription) (q : List EventRow)
      → s.history ≡ some []
      → s.yielded ++ later s.last_yielded q ≡ wanted s log
      → s.after_seq ≤ s.last_yielded
      → s.last_yielded ≤ max s.after_seq (max_seq log)
      → IsAscending q
      → AllBelow (max_seq log) q
      → Progress log (next_live s q) (next_live s q).history
  next_live-IsReading s [] h acc low high asc known =
      rw h (record { accounted = acc; low = low; high = high; ascending = tt; known = tt })
  next_live-IsReading s (e ∷ q) h acc low high asc known =
      elim (Bool-cases (leb e.seq s.last_yielded)) [
        | inl old ↦ rw old (
            next_live-IsReading s q h
              (ap (λ r. s.yielded ++ r) (sym (later-old s.last_yielded e q old)) ∙ acc) low high
              asc.1 known.1)
        | inr new ↦ rw new (
            rw h (record {
              accounted =
                  append_assoc s.yielded (e ∷ []) (later e.seq q)
                  ∙ ap (λ r. s.yielded ++ r) (sym (later-new s.last_yielded e q new asc.0))
                  ∙ acc;
              low = ground (arith, low, new);
              high = ground (arith, known.0);
              ascending = asc.1;
              known = known.1;
            }))
      ]

  next_history-Progress :
      (s : Subscription) (rows : List EventRow)
      → IsReading log s (keep s.filter rows)
      → Progress log (next_history s rows) (next_history s rows).history
  next_history-Progress s [] r =
      next_live-IsReading (record s { history = some [] }) s.queue refl r.accounted r.low r.high
        r.ascending r.known
  next_history-Progress s (e ∷ rows) r = elim (Bool-cases (s.filter e)) [
    | inl hit ↦
        let r' = subst (IsReading log s) (kept rows hit) r in
        rw hit (record {
          accounted = append_assoc s.yielded (e ∷ []) _ ∙ r'.accounted;
          low = r'.low;
          high = r'.high;
          ascending = r'.ascending;
          known = r'.known;
        })
    | inr miss ↦
        rw miss (next_history-Progress s rows (subst (IsReading log s) (skipped rows miss) r))
  ]
    where
      kept :
          (rows : List EventRow)
          → s.filter e ≡ true
          → keep s.filter (e ∷ rows) ≡ e ∷ keep s.filter rows
      kept rows hit = rw hit refl

      skipped :
          (rows : List EventRow)
          → s.filter e ≡ false
          → keep s.filter (e ∷ rows) ≡ keep s.filter rows
      skipped rows miss = rw miss refl

  started : (s : Subscription) → IsWaiting log s → IsReading log s (wanted s log)
  started s w = record {
    accounted =
        rw (w.fresh, w.start, later-none (top s.after_seq (wanted s log)) s.queue w.covered)
          (append-nil (wanted s log));
    low = rw w.start (top-ge s.after_seq (wanted s log));
    high = rw w.start (
        top-le s.after_seq (max_seq log) (wanted s log) (
          All-keep (λ x. x.seq ≤ max_seq log) s.filter (snapshot log s.after_seq)
            (All-keep (λ x. x.seq ≤ max_seq log) (λ x. ltb s.after_seq x.seq) log
              (AllBelow-max_seq log))));
    ascending = w.ordered;
    known = w.logged;
  }

  pub next_from-Progress :
      (s : Subscription) (h : Option (List EventRow))
      → Progress log s h
      → Progress log (next_from log s h) (next_from log s h).history
  next_from-Progress s none w = next_history-Progress s (snapshot log s.after_seq) (started s w)
  next_from-Progress s (some rows) r = next_history-Progress s rows r
