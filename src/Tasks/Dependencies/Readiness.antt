-- ===== src/Tasks/Dependencies/Readiness.antt =====
-- The promotion pass against a description in one sweep (src/tasks/dependencies.ts).
use nightshift0s.Prelude.{
  ℕ, ◌+◌, ◌≡◌, refl, sym, ◌∙◌, ◌≢◌, inl, inr, Bool, false, ◌&&◌, Option, none, List, [], ◌∷◌, map,
  ◌==◌, nat_Eq, nat_eq_iff, eq_self, keep, any, find, All, length, length-append, if◌then◌else◌,
  Bool-cases, Option-cases, arith, ap,
}
use nightshift0s.Db.Columns.Tasks.{backlog, task_state_Eq}
use nightshift0s.Db.Schema.{TaskRow}
use nightshift0s.Db.State.{Db, update_rows}
use nightshift0s.Db.Rows.{IsUnique, All-map, All-of-map, All-and}
use nightshift0s.Tasks.Transitions.{guard}
use nightshift0s.Tasks.Dependencies.{
  is_candidate, make_ready, promote, promote_all, recompute_readiness,
}

-- A row after a pass over the given candidates.
abbrev promoted_by : ℕ → List TaskRow → TaskRow → TaskRow
promoted_by now candidates t =
    if any (λ c. c.id == t.id) candidates && t.state == backlog then make_ready now t else t

update-none :
    (id : ℕ) (patch : TaskRow → TaskRow) (rows : List TaskRow)
    → find (guard id backlog) rows ≡ none
    → update_rows (guard id backlog) patch rows ≡ rows
update-none id patch [] h = refl
update-none id patch (t ∷ rows) h = elim (Bool-cases (guard id backlog t)) [
  | inl hit ↦ ground (arith, hit)
  | inr miss ↦ rw (miss, update-none id patch rows (ground (arith, miss)))
]

promote-tasks :
    (db : Db) (now : ℕ) (c : TaskRow)
    → (promote db now c).0.tasks ≡ update_rows (guard c.id backlog) (make_ready now) db.tasks
unfolding promote
promote-tasks db now c = elim (Option-cases (find (guard c.id backlog) db.tasks)) [
  | inl gone ↦ rw (gone, promote) (sym (update-none c.id (make_ready now) db.tasks gone))
  | inr (row, hit) ↦ rw (hit, promote)
]

sweep-step :
    (now : ℕ) (c : TaskRow) (candidates rows : List TaskRow)
    → map (promoted_by now candidates) (update_rows (guard c.id backlog) (make_ready now) rows)
      ≡ map (promoted_by now (c ∷ candidates)) rows
sweep-step now c candidates [] = refl
sweep-step now c candidates (t ∷ rows) =
    ground (arith, sweep-step now c candidates rows, nat_eq_iff c.id t.id, nat_eq_iff t.id c.id)

sweep-none : (now : ℕ) (rows : List TaskRow) → map (promoted_by now []) rows ≡ rows
sweep-none now [] = refl
sweep-none now (t ∷ rows) = rw (sweep-none now rows)

promote_all-tasks :
    (db : Db) (now : ℕ) (candidates : List TaskRow)
    → (promote_all db now candidates).0.tasks ≡ map (promoted_by now candidates) db.tasks
unfolding promote_all
promote_all-tasks db now [] = sym (sweep-none now db.tasks)
promote_all-tasks db now (c ∷ candidates) =
    promote_all-tasks (promote db now c).0 now candidates
    ∙ ap (map (promoted_by now candidates)) (promote-tasks db now c)
    ∙ sweep-step now c candidates db.tasks

any-away :
    (p : TaskRow → Bool) (id : ℕ) (rows : List TaskRow)
    → All (λ t. t.id ≢ id) rows
    → any (λ c. c.id == id) (keep p rows) ≡ false
any-away p id [] h = refl
any-away p id (t ∷ rows) h = ground (arith, any-away p id rows h.1, h.0, nat_eq_iff t.id id)

-- With unique ids a row has the id of a kept row exactly when it is kept itself.
any-keep :
    (p : TaskRow → Bool) (rows : List TaskRow)
    → IsUnique (map (λ t. t.id) rows)
    → All (λ t. any (λ c. c.id == t.id) (keep p rows) ≡ p t) rows
any-keep p [] u = tt
any-keep p (x ∷ rows) u =
    let away = All-of-map (λ i. i ≢ x.id) (λ (t : TaskRow). t.id) rows u.0 in
    (
      ground (arith, eq_self x.id, any-away p x.id rows away),
      All-map rows (λ t k. ground (arith, k.0, k.1, nat_eq_iff x.id t.id))
          (All-and (λ t. t.id ≢ x.id) (λ t. any (λ c. c.id == t.id) (keep p rows) ≡ p t) rows away
            (any-keep p rows u.1)),
    )

map-All {ℓ} :
    {B : Type ℓ} (f g : TaskRow → B) (rows : List TaskRow)
    → All (λ t. f t ≡ g t) rows
    → map f rows ≡ map g rows
map-All f g [] h = refl
map-All f g (t ∷ rows) h = rw (h.0, map-All f g rows h.1)

promoted-candidate :
    (db : Db) (now : ℕ) (project : Option ℕ) (t : TaskRow) (b : Bool)
    → b ≡ is_candidate db project t
    → (if b && t.state == backlog then make_ready now t else t)
      ≡ (if is_candidate db project t then make_ready now t else t)
unfolding is_candidate
promoted-candidate db now project t b e = ground (arith, e)

-- With unique task ids, the pass moves to `ready` exactly the backlog tasks of the project that
-- have no unmerged dependency, as the table stood when the pass began, and leaves every other row
-- as it was.
pub recompute_readiness-sweep :
    (db : Db) (now : ℕ) (project : Option ℕ)
    → IsUnique (map (λ t. t.id) db.tasks)
    → (recompute_readiness db now project).0.tasks
      ≡ map (λ t. if is_candidate db project t then make_ready now t else t) db.tasks
unfolding recompute_readiness
recompute_readiness-sweep db now project unique =
    promote_all-tasks db now (keep (is_candidate db project) db.tasks)
    ∙ map-All _ _ db.tasks (
        All-map db.tasks (λ t e. promoted-candidate db now project t _ e)
          (any-keep (is_candidate db project) db.tasks unique))

promote-events :
    (db : Db) (now : ℕ) (c : TaskRow)
    → length (promote db now c).0.events ≡ length db.events + length (promote db now c).1
unfolding promote
promote-events db now c = elim (Option-cases (find (guard c.id backlog) db.tasks)) [
  | inl gone ↦ rw (gone, promote) (omega arith)
  | inr (row, hit) ↦ rw (hit, promote) (omega (arith, length-append {0} db.events))
]

promote_all-events :
    (db : Db) (now : ℕ) (candidates : List TaskRow)
    → length (promote_all db now candidates).0.events
      ≡ length db.events + length (promote_all db now candidates).1
unfolding promote_all
promote_all-events db now [] = omega arith
promote_all-events db now (c ∷ candidates) = omega (
  arith,
  promote-events db now c,
  promote_all-events (promote db now c).0 now candidates,
  length-append (promote db now c).1 (promote_all (promote db now c).0 now candidates).1,
)

-- The pass writes one event for each row that it reports as promoted.
recompute_readiness-events :
    (db : Db) (now : ℕ) (project : Option ℕ)
    → let r = recompute_readiness db now project in
      length r.0.events ≡ length db.events + length r.1
unfolding recompute_readiness
recompute_readiness-events db now project =
    promote_all-events db now (keep (is_candidate db project) db.tasks)
