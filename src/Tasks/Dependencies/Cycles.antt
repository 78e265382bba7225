-- ===== src/Tasks/Dependencies/Cycles.antt =====
-- Cycles of the dependency graph, over its operations (src/tasks/dependencies.ts).
use nightshift0s.Prelude.{
  Option, none, ℕ, ◌≡◌, refl, sym, ◌⊎◌, inl, inr, Bool, true, false, not, ◌&&◌, ◌||◌, some, List,
  [], ◌∷◌, ◌++◌, ◌==◌, nat_Eq, keep, Bool-cases, arith, subst,
}
use nightshift0s.Db.Schema.{TaskDependencyRow}
use nightshift0s.Db.State.{Db}
use nightshift0s.Tasks.Dependencies.{
  link, has_edge, would_create_cycle, add_dependency, remove_dependency, check_dependency,
  check_edge, insert_dependency, insert_if_passed, DependencyError,
}
use nightshift0s.Tasks.Dependencies.Walk.{Reaches, here, step, would_create_cycle_iff}

-- No task depends on itself, directly or through others.
abbrev pub IsAcyclic : List TaskDependencyRow → Type 0
IsAcyclic deps = (a b : ℕ) → has_edge deps a b ≡ true → ¬ Reaches deps b a

has_edge-append :
    (deps : List TaskDependencyRow) (t d a b : ℕ)
    → has_edge (deps ++ link t d ∷ []) a b ≡ (has_edge deps a b || (t == a && d == b))
has_edge-append [] t d a b = ground arith
has_edge-append (e ∷ deps) t d a b = ground (arith, has_edge-append deps t d a b)

module _ (deps : List TaskDependencyRow) (t d : ℕ) where
  -- An edge of the longer list is an old one or the new one.
  edge_cases :
      (a b : ℕ)
      → has_edge (deps ++ link t d ∷ []) a b ≡ true
      → (has_edge deps a b ≡ true) ⊎ ((t ≡ a) × (d ≡ b))
  edge_cases a b h = elim (Bool-cases (has_edge deps a b)) [
    | inl old ↦ inl old
    | inr new ↦ inr (ground (arith, has_edge-append deps t d a b, new))
  ]

  -- A chain goes through old edges alone, or it passes the new edge a last time.
  chain_cases :
      {a b : ℕ}
      → Reaches (deps ++ link t d ∷ []) a b
      → Reaches deps a b ⊎ (Reaches deps a t × Reaches deps d b)
  chain_cases here = inl here
  chain_cases (step {a = a} {b = b} {c = c} e r) = elim (edge_cases a b e) [
    | inl old ↦ elim (chain_cases r) [ inl p ↦ inl (step old p) | inr q ↦ inr (step old q.0, q.1) ]
    | inr new ↦ elim (chain_cases r) [
      | inl p ↦
          inr
            (subst (λ x. Reaches deps x t) new.0 here, subst (λ x. Reaches deps x c) (sym new.1) p)
      | inr q ↦ inr (subst (λ x. Reaches deps x t) new.0 here, q.1)
    ]
  ]

Reaches-trans :
    {deps : List TaskDependencyRow} {a b c : ℕ}
    → Reaches deps a b
    → Reaches deps b c
    → Reaches deps a c
Reaches-trans here q = q
Reaches-trans (step e p) q = step e (Reaches-trans p q)

-- The checks pass only where the walk has found no chain back.
checked_clear :
    (db : Db) (t d : ℕ)
    → check_dependency db t d ≡ none
    → would_create_cycle db.dependencies t d ≡ false
unfolding check_dependency check_edge
checked_clear db t d passed = ground arith

insert_dependency_cases :
    (db : Db) (t d : ℕ)
    → ((insert_dependency db t d).0 ≡ db)
      ⊎ ((insert_dependency db t d).0.dependencies ≡ db.dependencies ++ link t d ∷ [])
unfolding insert_dependency
insert_dependency_cases db t d = ground arith

IsAcyclic-append :
    (deps : List TaskDependencyRow) (t d : ℕ)
    → IsAcyclic deps
    → ¬ Reaches deps d t
    → IsAcyclic (deps ++ link t d ∷ [])
IsAcyclic-append deps t d free apart a b e r = elim (edge_cases deps t d a b e) [
  | inl old ↦ elim (chain_cases deps t d r) [
    | inl p ↦ free a b old p
    | inr (p, q) ↦ apart (Reaches-trans q (step old p))
  ]
  | inr (ta, db) ↦ elim (chain_cases deps t d r) [
    | inl p ↦
        apart (subst (λ x. Reaches deps x t) (sym db) (subst (λ x. Reaches deps b x) (sym ta) p))
    | inr (p, q) ↦ apart (subst (λ x. Reaches deps x t) (sym db) p)
  ]
]

-- The second graph has no edge but those of the first.
abbrev pub NoNewEdge : List TaskDependencyRow → List TaskDependencyRow → Type 0
NoNewEdge before after = (a b : ℕ) → has_edge after a b ≡ true → has_edge before a b ≡ true

Reaches-mono :
    {before after : List TaskDependencyRow} {a b : ℕ}
    → NoNewEdge before after
    → Reaches after a b
    → Reaches before a b
Reaches-mono old here = here
Reaches-mono old (step {a = a} {b = b} e r) = step (old a b e) (Reaches-mono old r)

inserted-IsAcyclic :
    (before db : Db) (t d : ℕ)
    → NoNewEdge before.dependencies db.dependencies
    → would_create_cycle before.dependencies t d ≡ false
    → IsAcyclic before.dependencies
    → IsAcyclic (insert_dependency db t d).0.dependencies
inserted-IsAcyclic before db t d old clear free =
    let still : IsAcyclic db.dependencies = λ a b e r. free a b (old a b e) (Reaches-mono old r) in
    elim (insert_dependency_cases db t d) [
      | inl same ↦ rw same still
      | inr made ↦ rw made (
          IsAcyclic-append db.dependencies t d still (λ chain.
            cc (
              clear,
              (would_create_cycle_iff before.dependencies t d).1.1 (Reaches-mono old chain),
            )))
    ]

-- If no other link adds an edge between the checks of an addition and its insertion, the addition,
-- whatever its outcome, leaves a graph without a cycle without one.
pub add_dependency-IsAcyclic :
    (meanwhile : Db → Db) (db : Db) (t d : ℕ)
    → NoNewEdge db.dependencies (meanwhile db).dependencies
    → IsAcyclic db.dependencies
    → IsAcyclic (add_dependency meanwhile db t d).0.dependencies
unfolding add_dependency
add_dependency-IsAcyclic meanwhile db t d old free = by_check (check_dependency db t d) refl
  where
    by_check :
        (c : Option DependencyError)
        → check_dependency db t d ≡ c
        → IsAcyclic (insert_if_passed meanwhile db t d c).0.dependencies
    by_check (some e) h = free
    by_check none h = inserted-IsAcyclic db (meanwhile db) t d old (checked_clear db t d h) free

has_edge-keep :
    (p : TaskDependencyRow → Bool) (deps : List TaskDependencyRow) (a b : ℕ)
    → has_edge (keep p deps) a b ≡ true
    → has_edge deps a b ≡ true
has_edge-keep p [] a b h = h
has_edge-keep p (d ∷ deps) a b h = ground (arith, has_edge-keep p deps a b)

Reaches-keep :
    (p : TaskDependencyRow → Bool) (deps : List TaskDependencyRow) {a b : ℕ}
    → Reaches (keep p deps) a b
    → Reaches deps a b
Reaches-keep p deps here = here
Reaches-keep p deps (step {a = a} {b = b} e r) =
    step (has_edge-keep p deps a b e) (Reaches-keep p deps r)

has_edge-removed :
    (deps : List TaskDependencyRow) (t d : ℕ)
    → has_edge (keep (λ r. not (r.task_id == t && r.depends_on_task_id == d)) deps) t d ≡ false
has_edge-removed [] t d = refl
has_edge-removed (r ∷ deps) t d = ground (arith, has_edge-removed deps t d)

-- Removing an edge from a graph without a cycle leaves no such edge behind, and no cycle.
remove_dependency-IsAcyclic :
    (db : Db) (t d : ℕ)
    → IsAcyclic db.dependencies
    → (has_edge (remove_dependency db t d).0.dependencies t d ≡ false)
      × IsAcyclic (remove_dependency db t d).0.dependencies
unfolding remove_dependency
remove_dependency-IsAcyclic db t d free = (
  has_edge-removed db.dependencies t d,
  λ a b e r. free a b (has_edge-keep _ db.dependencies a b e) (Reaches-keep _ db.dependencies r),
)
