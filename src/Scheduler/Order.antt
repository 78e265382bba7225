-- ===== src/Scheduler/Order.antt =====
-- The order of the candidates of a pass (src/tasks/tasks.ts, src/scheduler/scheduler.ts).
use nightshift0s.Prelude.{
  ◌≡◌, refl, ◌∙◌, inl, inr, Bool, true, false, ◌&&◌, List, [], ◌∷◌, ◌==◌, keep, length, All, arith,
  Bool-cases,
}
use nightshift0s.Db.Columns.Tasks.{ready, task_state_Eq}
use nightshift0s.Db.Schema.{TaskRow}
use nightshift0s.Db.State.{Db}
use nightshift0s.Db.Rows.{All-map}
use nightshift0s.Scheduler.{comes_before, insert_task, order_tasks, list_ready}

abbrev Before : TaskRow → TaskRow → Type 0
Before a b = comes_before a b ≡ true

-- Each task comes before all that follow it.
abbrev pub IsOrdered : List TaskRow → Type 0
IsOrdered [] = Unit
IsOrdered (t ∷ rows) = All (λ x. comes_before t x ≡ true) rows × IsOrdered rows

Before-total : (a b : TaskRow) → comes_before a b ≡ false → Before b a
Before-total a b h = ground arith

Before-trans : (a b c : TaskRow) → Before a b → Before b c → Before a c
Before-trans a b c h k = ground arith

insert-All :
    (t : TaskRow) (P : TaskRow → Type 0) (rows : List TaskRow)
    → P t
    → All P rows
    → All P (insert_task t rows)
unfolding insert_task
insert-All t P [] h k = (h, tt)
insert-All t P (x ∷ rows) h k = elim (Bool-cases (comes_before t x)) [
  | inl first ↦ rw first (h, k)
  | inr later ↦ rw later (k.0, insert-All t P rows h k.1)
]

insert-IsOrdered :
    (t : TaskRow) (rows : List TaskRow) → IsOrdered rows → IsOrdered (insert_task t rows)
unfolding insert_task
insert-IsOrdered t [] h = (tt, tt)
insert-IsOrdered t (x ∷ rows) h = elim (Bool-cases (comes_before t x)) [
  | inl first ↦ rw first ((first, All-map rows (λ y k. Before-trans t x y first k) h.0), h)
  | inr later ↦ rw later (
    insert-All t (λ y. comes_before x y ≡ true) rows (Before-total t x later) h.0,
    insert-IsOrdered t rows h.1,
  )
]

order-IsOrdered : (rows : List TaskRow) → IsOrdered (order_tasks rows)
unfolding order_tasks
order-IsOrdered [] = tt
order-IsOrdered (t ∷ rows) = insert-IsOrdered t (order_tasks rows) (order-IsOrdered rows)

insert-count :
    (p : TaskRow → Bool) (t : TaskRow) (rows : List TaskRow)
    → length (keep p (insert_task t rows)) ≡ length (keep p (t ∷ rows))
unfolding insert_task
insert-count p t [] = refl
insert-count p t (x ∷ rows) = elim (Bool-cases (comes_before t x)) [
  | inl first ↦ rw first refl
  | inr later ↦ rw later (ground (arith, insert-count p t rows))
]

order-count :
    (p : TaskRow → Bool) (rows : List TaskRow)
    → length (keep p (order_tasks rows)) ≡ length (keep p rows)
unfolding order_tasks
order-count p [] = refl
order-count p (t ∷ rows) = insert-count p t (order_tasks rows) ∙ ground (arith, order-count p rows)

keep-keep :
    (p q : TaskRow → Bool) (rows : List TaskRow)
    → length (keep p (keep q rows)) ≡ length (keep (λ t. q t && p t) rows)
keep-keep p q [] = refl
keep-keep p q (t ∷ rows) = ground (arith, keep-keep p q rows)

-- The candidates are in ascending order of their priority, and of their id within a priority; and of
-- whatever kind, there are as many candidates as ready tasks.
list_ready-IsOrdered :
    (db : Db) (p : TaskRow → Bool)
    → IsOrdered (list_ready db)
      × (length (keep p (list_ready db)) ≡ length (keep (λ t. t.state == ready && p t) db.tasks))
list_ready-IsOrdered db p = (
  order-IsOrdered (keep (λ t. t.state == ready) db.tasks),
  order-count p (keep (λ t. t.state == ready) db.tasks)
      ∙ keep-keep p (λ t. t.state == ready) db.tasks,
)
