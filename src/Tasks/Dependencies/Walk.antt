-- ===== src/Tasks/Dependencies/Walk.antt =====
-- The walk over the dependency edges and its fuel (src/tasks/dependencies.ts).
use nightshift0s.Prelude.{
  length-keep-le, subst, ℕ, zero, suc, ◌+◌, ◌<◌, ◌≡◌, refl, sym, ◌∙◌, ◌↔◌, inl, inr, Bool, true,
  false, not, ◌||◌, some, List, [], ◌∷◌, ◌++◌, ◌==◌, nat_Eq, nat_eq_iff, eq_true, eq_self, keep,
  contains, length, length-append, Bool-cases, arith,
}
use nightshift0s.Db.Schema.{TaskDependencyRow}
use nightshift0s.Tasks.Dependencies.{
  has_edge, list_dependency_ids, walk, walk_fuel, would_create_cycle,
}

-- `Reaches deps a b`: a chain of edges leads from `a` to `b`, each task depending on the next.
pub data Reaches (deps : List TaskDependencyRow) : ℕ → ℕ → Type 0 where
  here : {a : ℕ} → Reaches deps a a
  step : {a b c : ℕ} → has_edge deps a b ≡ true → Reaches deps b c → Reaches deps a c

contains-append :
    (x : ℕ) (xs ys : List ℕ) → contains (xs ++ ys) x ≡ (contains xs x || contains ys x)
contains-append x [] ys = refl
contains-append x (y ∷ xs) ys = ground (arith, contains-append x xs ys)

-- The ids that are queried are those with an edge.
contains-list_dependency_ids :
    (deps : List TaskDependencyRow) (a b : ℕ)
    → contains (list_dependency_ids deps a) b ≡ has_edge deps a b
unfolding list_dependency_ids
contains-list_dependency_ids [] a b = refl
contains-list_dependency_ids (d ∷ deps) a b = ground (arith, contains-list_dependency_ids deps a b)

-- The edges that leave a task not yet visited.
open_edges : List ℕ → List TaskDependencyRow → List TaskDependencyRow
open_edges visited deps = keep (λ d. not (contains visited d.task_id)) deps

open_edges-visit :
    (visited : List ℕ) (current : ℕ) (deps : List TaskDependencyRow)
    → contains visited current ≡ false
    → length (open_edges (current ∷ visited) deps) + length (list_dependency_ids deps current)
      ≡ length (open_edges visited deps)
unfolding open_edges list_dependency_ids
open_edges-visit visited current [] new = omega arith
open_edges-visit visited current (d ∷ deps) new =
    ground (arith, open_edges-visit visited current deps new, nat_eq_iff d.task_id current, new)

module _ (deps : List TaskDependencyRow) (task_id fuel : ℕ) (visited : List ℕ) (current : ℕ)
    (queue : List ℕ) where
  walk_hit :
      (current == task_id) ≡ true
      → walk deps task_id (suc fuel) visited (current ∷ queue) ≡ some true
  unfolding walk
  walk_hit hit = rw (hit, walk)

  walk_old :
      (current == task_id) ≡ false
      → contains visited current ≡ true
      → walk deps task_id (suc fuel) visited (current ∷ queue)
        ≡ walk deps task_id fuel visited queue
  unfolding walk
  walk_old miss old = rw (miss, old, walk)

  walk_new :
      (current == task_id) ≡ false
      → contains visited current ≡ false
      → walk deps task_id (suc fuel) visited (current ∷ queue)
        ≡ walk deps task_id fuel (current ∷ visited) (queue ++ list_dependency_ids deps current)
  unfolding walk
  walk_new miss new = rw (miss, new, walk)

-- With more fuel than there are queued ids and open edges, the walk answers.
walk_total :
    (deps : List TaskDependencyRow) (task_id fuel : ℕ) (visited queue : List ℕ)
    → length queue + length (open_edges visited deps) < fuel
    → (b : Bool) × (walk deps task_id fuel visited queue ≡ some b)
unfolding walk
walk_total deps task_id zero visited queue h = elim h [ ]
walk_total deps task_id (suc fuel) visited [] h = (false, refl)
walk_total deps task_id (suc fuel) visited (current ∷ queue) h =
    elim (Bool-cases (current == task_id)) [
      | inl hit ↦ (true, walk_hit deps task_id fuel visited current queue hit)
      | inr miss ↦ elim (Bool-cases (contains visited current)) [
        | inl old ↦
            rw (walk_old deps task_id fuel visited current queue miss old)
              (walk_total deps task_id fuel visited queue (omega arith))
        | inr new ↦ rw (walk_new deps task_id fuel visited current queue miss new) (
            walk_total deps task_id fuel (current ∷ visited)
              (queue ++ list_dependency_ids deps current)
              (omega (
                arith,
                length-append queue (list_dependency_ids deps current),
                open_edges-visit visited current deps new,
              )))
      ]
    ]

-- The chain that a positive answer stands for begins at a queued task.
walk-true :
    (deps : List TaskDependencyRow) (task_id fuel : ℕ) (visited queue : List ℕ)
    → walk deps task_id fuel visited queue ≡ some true
    → (q : ℕ) × (contains queue q ≡ true) × Reaches deps q task_id
unfolding walk
walk-true deps task_id zero visited queue h = cc
walk-true deps task_id (suc fuel) visited [] h = cc
walk-true deps task_id (suc fuel) visited (current ∷ queue) h =
    elim (Bool-cases (current == task_id)) [
      | inl hit ↦ (
        current,
        rw (eq_self current),
        subst (Reaches deps current) (eq_true current task_id hit) here,
      )
      | inr miss ↦ elim (Bool-cases (contains visited current)) [
        | inl old ↦
            let (q, queued, chain) =
              walk-true deps task_id fuel visited queue
                (sym (walk_old deps task_id fuel visited current queue miss old) ∙ h) in
            (q, ground (arith, queued), chain)
        | inr new ↦
            let (q, queued, chain) =
              walk-true deps task_id fuel (current ∷ visited)
                (queue ++ list_dependency_ids deps current)
                (sym (walk_new deps task_id fuel visited current queue miss new) ∙ h) in
            elim (Bool-cases (contains queue q)) [
              | inl waiting ↦ (q, ground (arith, waiting), chain)
              | inr pushed ↦ (
                current,
                rw (eq_self current),
                step
                    (ground (
                      arith,
                      queued,
                      pushed,
                      contains-append q queue (list_dependency_ids deps current),
                      contains-list_dependency_ids deps current q,
                    ))
                    chain,
              )
            ]
      ]
    ]

-- Every edge from a visited task leads to a visited or a queued one.
abbrev IsExplored : List TaskDependencyRow → List ℕ → List ℕ → Type 0
IsExplored deps visited queue =
    (a b : ℕ)
    → contains visited a ≡ true
    → has_edge deps a b ≡ true
    → (contains visited b || contains queue b) ≡ true

-- What a negative answer has visited: all that was queued, closed under the edges, without the task.
record Closure (deps : List TaskDependencyRow) (task_id : ℕ) (visited queue : List ℕ) : Type 0 where
  all : List ℕ
  from_visited : (x : ℕ) → contains visited x ≡ true → contains all x ≡ true
  from_queue : (x : ℕ) → contains queue x ≡ true → contains all x ≡ true
  closed : (a b : ℕ) → contains all a ≡ true → has_edge deps a b ≡ true → contains all b ≡ true
  misses : contains all task_id ≡ false

module _ (deps : List TaskDependencyRow) (task_id : ℕ) (visited : List ℕ) (current : ℕ)
    (queue : List ℕ) where
  IsExplored-old :
      contains visited current ≡ true
      → IsExplored deps visited (current ∷ queue)
      → IsExplored deps visited queue
  IsExplored-old old e a b k l = ground (arith, e a b k l, nat_eq_iff current b, old)

  IsExplored-new :
      IsExplored deps visited (current ∷ queue)
      → IsExplored deps (current ∷ visited) (queue ++ list_dependency_ids deps current)
  IsExplored-new e a b k l = elim (Bool-cases (current == a)) [
    | inl same ↦ ground (
      arith,
      contains-append b queue (list_dependency_ids deps current),
      contains-list_dependency_ids deps current b,
      eq_true current a same,
      l,
    )
    | inr other ↦ ground (
      arith,
      contains-append b queue (list_dependency_ids deps current),
      e a b (ground (arith, k, other)) l,
    )
  ]

  Closure-old :
      contains visited current ≡ true
      → Closure deps task_id visited queue
      → Closure deps task_id visited (current ∷ queue)
  Closure-old old c = record {
    all = c.all;
    from_visited = c.from_visited;
    from_queue =
        λ x k. ground (arith, k, c.from_queue x, c.from_visited x, nat_eq_iff current x, old);
    closed = c.closed;
    misses = c.misses;
  }

  Closure-new :
      Closure deps task_id (current ∷ visited) (queue ++ list_dependency_ids deps current)
      → Closure deps task_id visited (current ∷ queue)
  Closure-new c = record {
    all = c.all;
    from_visited = λ x k. c.from_visited x (ground (arith, k));
    from_queue = λ x k. ground (
      arith,
      k,
      c.from_queue x,
      c.from_visited x,
      contains-append x queue (list_dependency_ids deps current),
    );
    closed = c.closed;
    misses = c.misses;
  }

walk-false :
    (deps : List TaskDependencyRow) (task_id fuel : ℕ) (visited queue : List ℕ)
    → walk deps task_id fuel visited queue ≡ some false
    → IsExplored deps visited queue
    → contains visited task_id ≡ false
    → Closure deps task_id visited queue
unfolding walk
walk-false deps task_id zero visited queue h e n = cc
walk-false deps task_id (suc fuel) visited [] h e n = record {
  all = visited;
  from_visited = λ x k. k;
  from_queue = λ x k. cc;
  closed = λ a b k l. ground (arith, e a b k l);
  misses = n;
}
walk-false deps task_id (suc fuel) visited (current ∷ queue) h e n =
    elim (Bool-cases (current == task_id)) [
      | inl hit ↦ cc (walk_hit deps task_id fuel visited current queue hit)
      | inr miss ↦ elim (Bool-cases (contains visited current)) [
        | inl old ↦ Closure-old deps task_id visited current queue old (
            walk-false deps task_id fuel visited queue
              (sym (walk_old deps task_id fuel visited current queue miss old) ∙ h)
              (IsExplored-old deps task_id visited current queue old e) n)
        | inr new ↦ Closure-new deps task_id visited current queue (
            walk-false deps task_id fuel (current ∷ visited)
              (queue ++ list_dependency_ids deps current)
              (sym (walk_new deps task_id fuel visited current queue miss new) ∙ h)
              (IsExplored-new deps task_id visited current queue e) (rw (miss) n))
      ]
    ]

closure-Reaches :
    (deps : List TaskDependencyRow) (all : List ℕ) {a b : ℕ}
    → ((x y : ℕ) → contains all x ≡ true → has_edge deps x y ≡ true → contains all y ≡ true)
    → contains all a ≡ true
    → Reaches deps a b
    → contains all b ≡ true
closure-Reaches deps all closed k here = k
closure-Reaches deps all closed k (step {a = a} {b = b} e r) =
    closure-Reaches deps all closed (closed a b k e) r

-- What an answer of the walk means.
decided :
    (deps : List TaskDependencyRow) (task_id from fuel : ℕ) (b : Bool)
    → walk deps task_id fuel [] (from ∷ []) ≡ some b
    → (b ≡ true) ↔ Reaches deps from task_id
decided deps task_id from fuel true h = (
  λ _.
      let (q, queued, chain) = walk-true deps task_id fuel [] (from ∷ []) h in
      subst (λ x. Reaches deps x task_id) (sym (eq_true from q (ground (arith, queued)))) chain,
  λ _. refl,
)
decided deps task_id from fuel false h = (
  λ e. cc,
  λ chain.
      let c = walk-false deps task_id fuel [] (from ∷ []) h (λ a b k l. cc) refl in
      cc (
        c.misses,
        closure-Reaches deps c.all c.closed (c.from_queue from (rw (eq_self from))) chain,
      ),
)

-- The walk answers within its fuel, and says `true` exactly when a chain of dependencies leads from
-- the prerequisite to the task.
pub would_create_cycle_iff :
    (deps : List TaskDependencyRow) (task_id depends_on_task_id : ℕ)
    → (walk deps task_id (walk_fuel deps) [] (depends_on_task_id ∷ [])
        ≡ some (would_create_cycle deps task_id depends_on_task_id))
      × ((would_create_cycle deps task_id depends_on_task_id ≡ true)
          ↔ Reaches deps depends_on_task_id task_id)
unfolding would_create_cycle open_edges
would_create_cycle_iff deps task_id depends_on_task_id =
    let (b, answer) =
      walk_total deps task_id (walk_fuel deps) [] (depends_on_task_id ∷ [])
        (omega (arith, length-keep-le {0} (λ (d : TaskDependencyRow). true) deps)) in
    rw (answer, would_create_cycle)
      (refl, decided deps task_id depends_on_task_id (walk_fuel deps) b answer)
