-- ===== src/Db/Events/Subscription/Tail.antt =====
-- A subscriber of src/events/events.ts while events are emitted, pulled and the feed is closed.
use nightshift0s.Prelude.{
  ℕ, suc, max, ◌+◌, ◌≤◌, ◌≡◌, refl, sym, ◌∙◌, ap, subst, ◌⊎◌, inl, inr, Bool, true, false, not,
  ◌||◌, or-true, Option, none, some, List, [], ◌∷◌, ◌++◌, keep, length, ltb, leb, ◌==◌, nat_Eq,
  arith, Bool-cases,
}
use nightshift0s.Db.Events.{EventRow, max_seq}
use nightshift0s.Db.Events.Subscription.{Subscription, enqueue, push, snapshot}
use nightshift0s.Db.Events.Subscription.Order.{
  top, later, AllBelow, AllBelow-mono, keep-append, append_assoc, append-nil, top-ge, top-append,
  max_seq-append, AllBelow-append, IsAscending-append,
}
use nightshift0s.Db.Events.Subscription.Delivery.{wanted, Progress}

-- Closed, or with a buffer that has overflowed.
abbrev pub is_broken : Subscription → Bool
is_broken s = s.ended || not (s.dropped == 0)

module _ (log : List EventRow) (e : EventRow) (fresh_seq : e.seq ≡ max_seq log + 1) where
  one : Subscription → List EventRow
  one s = keep s.filter (snapshot (e ∷ []) s.after_seq)

  wanted-append : (s : Subscription) → wanted s (log ++ e ∷ []) ≡ wanted s log ++ one s
  unfolding one
  wanted-append s =
      ap (keep s.filter) (keep-append (λ x. ltb s.after_seq x.seq) log (e ∷ []))
      ∙ keep-append s.filter (snapshot log s.after_seq) (snapshot (e ∷ []) s.after_seq)

  one-none : (s : Subscription) → s.filter e ≡ false → one s ≡ []
  unfolding one
  one-none s miss = ground (arith, miss)

  wanted-skip : (s : Subscription) → s.filter e ≡ false → wanted s (log ++ e ∷ []) ≡ wanted s log
  wanted-skip s miss =
      wanted-append s ∙ ap (λ r. wanted s log ++ r) (one-none s miss) ∙ append-nil (wanted s log)

  log_grows : max_seq log ≤ max_seq (log ++ e ∷ [])
  log_grows = omega (arith, max_seq-append log e)

  last_known : e.seq ≤ max_seq (log ++ e ∷ [])
  last_known = omega (arith, max_seq-append log e)

  skip-Progress :
      (s : Subscription) (h : Option (List EventRow))
      → s.filter e ≡ false
      → Progress log s h
      → Progress (log ++ e ∷ []) s h
  skip-Progress s none miss w = record {
    fresh = w.fresh;
    start = w.start;
    covered =
        subst (λ r. AllBelow (top s.after_seq r) s.queue) (sym (wanted-skip s miss)) w.covered;
    ordered = w.ordered;
    logged = AllBelow-mono (max_seq log) (max_seq (log ++ e ∷ [])) s.queue log_grows w.logged;
  }
  skip-Progress s (some rows) miss r = record {
    accounted = r.accounted ∙ sym (wanted-skip s miss);
    low = r.low;
    high = omega (arith, r.high, log_grows);
    ascending = r.ascending;
    known = AllBelow-mono (max_seq log) (max_seq (log ++ e ∷ [])) s.queue log_grows r.known;
  }

  abbrev queued : Subscription → Subscription
  queued s = record s { queue = s.queue ++ e ∷ [] }

  later-one :
      (s : Subscription) (n : ℕ)
      → s.filter e ≡ true
      → s.after_seq ≤ n
      → n ≤ max s.after_seq (max_seq log)
      → later n (e ∷ []) ≡ one s
  unfolding one
  later-one s n hit low high = ground (arith, hit, low, high, fresh_seq)

  one-after : (s : Subscription) → s.filter e ≡ true → ltb s.after_seq e.seq ≡ true → one s ≡ e ∷ []
  unfolding one
  one-after s hit after = ground (arith, hit, after)

  one-before : (s : Subscription) → ltb s.after_seq e.seq ≡ false → one s ≡ []
  unfolding one
  one-before s before = ground (arith, before)

  top-one :
      (s : Subscription)
      → s.filter e ≡ true
      → top s.after_seq (wanted s (log ++ e ∷ [])) ≡ max (top s.after_seq (wanted s log)) e.seq
  unfolding one
  top-one s hit = elim (Bool-cases (ltb s.after_seq e.seq)) [
    | inl after ↦
        ap (top s.after_seq) (wanted-append s ∙ ap (λ r. wanted s log ++ r) (one-after s hit after))
        ∙ top-append s.after_seq (wanted s log) e
    | inr before ↦
        ap (top s.after_seq) (
          wanted-append s
          ∙ ap (λ r. wanted s log ++ r) (one-before s before)
          ∙ append-nil (wanted s log))
        ∙ ground (arith, before, top-ge s.after_seq (wanted s log))
  ]

  queued-Progress :
      (s : Subscription) (h : Option (List EventRow))
      → s.filter e ≡ true
      → Progress log s h
      → Progress (log ++ e ∷ []) (queued s) h
  queued-Progress s none hit w = record {
    fresh = w.fresh;
    start = w.start;
    covered =
        AllBelow-append (top s.after_seq (wanted s log))
          (top s.after_seq (wanted s (log ++ e ∷ []))) s.queue e (omega (arith, top-one s hit))
          (omega (arith, top-one s hit)) w.covered;
    ordered =
        IsAscending-append (max_seq log) s.queue e w.logged (omega (arith, fresh_seq)) w.ordered;
    logged =
        AllBelow-append (max_seq log) (max_seq (log ++ e ∷ [])) s.queue e log_grows last_known
          w.logged;
  }
  queued-Progress s (some rows) hit r = record {
    accounted =
        ap (λ r. s.yielded ++ (keep s.filter rows ++ r))
          (keep-append (λ x. ltb (top s.last_yielded (keep s.filter rows)) x.seq) s.queue (e ∷ [])
            ∙ ap (λ r. later (top s.last_yielded (keep s.filter rows)) s.queue ++ r)
                (later-one s (top s.last_yielded (keep s.filter rows)) hit r.low r.high))
        ∙ ap (λ r. s.yielded ++ r)
            (sym (
              append_assoc (keep s.filter rows)
                (later (top s.last_yielded (keep s.filter rows)) s.queue) (one s)))
        ∙ sym (
            append_assoc s.yielded
              (keep s.filter rows ++ later (top s.last_yielded (keep s.filter rows)) s.queue)
              (one s))
        ∙ ap (λ r. r ++ one s) r.accounted
        ∙ sym (wanted-append s);
    low = r.low;
    high = omega (arith, r.high, log_grows);
    ascending =
        IsAscending-append (max_seq log) s.queue e r.known (omega (arith, fresh_seq)) r.ascending;
    known =
        AllBelow-append (max_seq log) (max_seq (log ++ e ∷ [])) s.queue e log_grows last_known
          r.known;
  }

  push-miss : (s : Subscription) → s.filter e ≡ false → push s e ≡ s
  unfolding push
  push-miss s miss = elim (Bool-cases s.ended) [
    | inl over ↦ rw over refl
    | inr live ↦ rw (live, miss) refl
  ]

  push-closed : (s : Subscription) → s.ended ≡ true → push s e ≡ s
  unfolding push
  push-closed s over = rw over refl

  push-hit : (s : Subscription) → s.ended ≡ false → s.filter e ≡ true → push s e ≡ enqueue s e
  unfolding push
  push-hit s live hit = rw (live, hit) refl

  enqueue-full :
      (s : Subscription)
      → leb s.buffer_size (length s.queue) ≡ true
      → is_broken (enqueue s e) ≡ true
  enqueue-full s full = rw full (or-true s.ended (not (suc s.dropped == 0)) (ground arith))

  enqueue-room :
      (s : Subscription) → leb s.buffer_size (length s.queue) ≡ false → enqueue s e ≡ queued s
  enqueue-room s room = rw room refl

  abbrev pub Kept : Subscription → Type 0
  Kept s = (is_broken s ≡ true) ⊎ Progress (log ++ e ∷ []) s s.history

  enqueue-Kept :
      (s : Subscription) → s.filter e ≡ true → Progress log s s.history → Kept (enqueue s e)
  enqueue-Kept s hit p = elim (Bool-cases (leb s.buffer_size (length s.queue))) [
    | inl full ↦ inl (enqueue-full s full)
    | inr room ↦ inr (
        subst (λ r. Progress (log ++ e ∷ []) r r.history) (sym (enqueue-room s room))
          (queued-Progress s s.history hit p))
  ]

  -- What is pushed is in the queue, or the subscriber is closed or has lost an event.
  pub push-Kept : (s : Subscription) → Progress log s s.history → Kept (push s e)
  push-Kept s p = elim (Bool-cases s.ended) [
    | inl over ↦ inl (subst (λ r. is_broken r ≡ true) (sym (push-closed s over)) (rw over refl))
    | inr live ↦ elim (Bool-cases (s.filter e)) [
      | inr miss ↦ inr (
          subst (λ r. Progress (log ++ e ∷ []) r r.history) (sym (push-miss s miss))
            (skip-Progress s s.history miss p))
      | inl hit ↦ subst Kept (sym (push-hit s live hit)) (enqueue-Kept s hit p)
    ]
  ]

  pub push-broken : (s : Subscription) → is_broken s ≡ true → is_broken (push s e) ≡ true
  push-broken s broken = elim (Bool-cases s.ended) [
    | inl over ↦ subst (λ r. is_broken r ≡ true) (sym (push-closed s over)) broken
    | inr live ↦ elim (Bool-cases (s.filter e)) [
      | inr miss ↦ subst (λ r. is_broken r ≡ true) (sym (push-miss s miss)) broken
      | inl hit ↦
          subst (λ r. is_broken r ≡ true) (sym (push-hit s live hit))
            (elim (Bool-cases (leb s.buffer_size (length s.queue))) [
              | inl full ↦ enqueue-full s full
              | inr room ↦ subst (λ r. is_broken r ≡ true) (sym (enqueue-room s room)) broken
            ])
    ]
  ]
