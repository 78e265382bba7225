-- ===== src/Worktree/Lock/Exclusive.antt =====
-- Processes that compete for one lock file, their system calls in any order (src/worktree/lock.ts).
use native.Mathlib.Decide.{ℕ_discrete}
use nightshift0s.Prelude.{
  ℕ, Bool, true, false, Option, none, some, List, [], ◌∷◌, ◌==◌, nat_Eq, ◌≡◌, ◌≢◌, refl, arith,
  subst, if◌then◌else◌,
}
use nightshift0s.Worktree.Lock.{
  Disk, Pc, LockFile, idle, creating, writing, reading, probing, unlinking, holding, refused,
  next_call, create_file, write_text, after_probe, is_alive,
}

pub record World : Type 0 where
  pub disk : Disk
  pub alive : ℕ → Bool
  pub pc : ℕ → Pc

abbrev pub update {ℓ} : {A : Type ℓ} → (ℕ → A) → ℕ → A → ℕ → A
update f i a j = if i == j then a else f j

-- A process makes its next call, ends wherever it stands, or starts under a free id.
pub data Event : Type 0 where
  call : (pid : ℕ) → Event
  die : (pid : ℕ) → Event
  start : (pid : ℕ) → Event

abbrev made : World → ℕ → Disk × Pc → World
made w pid s = record { disk = s.0; alive = w.alive; pc = update w.pc pid s.1 }

abbrev stands : World → ℕ → Bool → World
stands w pid b = record { disk = w.disk; alive = update w.alive pid b; pc = update w.pc pid idle }

abbrev pub happen : World → Event → World
happen w (call pid) =
    if w.alive pid then made w pid (next_call w.alive pid w.disk (w.pc pid)) else w
happen w (die pid) = stands w pid false
happen w (start pid) = if w.alive pid then w else stands w pid true

abbrev pub run : World → List Event → World
run w [] = w
run w (e ∷ es) = run (happen w e) es

-- Both between the creation and the return of `acquireLock`, and from there to the release.
abbrev pub owns : Pc → Bool
owns (writing fd) = true
owns (holding fd) = true
owns _ = false

abbrev removes : Pc → Bool
removes unlinking = true
removes _ = false

abbrev is_removal : World → Event → Bool
is_removal w (call pid) = removes (w.pc pid)
is_removal w _ = false

-- No process takes the lock for stale in the whole run.
abbrev pub KeepsFiles : World → List Event → Type 0
KeepsFiles w [] = Unit
KeepsFiles w (e ∷ es) = (is_removal w e ≡ false) × KeepsFiles (happen w e) es

abbrev pub creator_of : Option LockFile → Option ℕ
creator_of none = none
creator_of (some f) = some f.creator

abbrev pub IsOwned : World → Type 0
IsOwned w = (pid : ℕ) → owns (w.pc pid) ≡ true → creator_of w.disk.file ≡ some pid

creator_of-write_text :
    (pid fd : ℕ) (file : Option LockFile) → creator_of (write_text pid fd file) ≡ creator_of file
creator_of-write_text pid fd none = refl
creator_of-write_text pid fd (some f) = ground arith

module _ (alive : ℕ → Bool) (pid : ℕ) where
  owner-create_file :
      (r : Bool) (file : Option LockFile) (d : Disk)
      → owns (create_file pid r file d).1 ≡ true
      → creator_of (create_file pid r file d).0.file ≡ some pid
  owner-create_file r none d o = refl
  owner-create_file r (some f) d o = cc

  others-create_file :
      (r : Bool) (q : ℕ) (file : Option LockFile) (d : Disk)
      → d.file ≡ file
      → creator_of file ≡ some q
      → creator_of (create_file pid r file d).0.file ≡ some q
  others-create_file r q none d e m = cc
  others-create_file r q (some f) d e m = rw e m

  not-owns-after_probe :
      (r : Bool) (holder : Option ℕ) (is_held : Bool)
      → owns (after_probe r holder is_held) ≡ true
      → ⊥
  not-owns-after_probe r holder is_held o = ground arith

  -- The process that moves.
  owner-next_call :
      (d : Disk) (p : Pc)
      → (owns p ≡ true → creator_of d.file ≡ some pid)
      → owns (next_call alive pid d p).1 ≡ true
      → creator_of (next_call alive pid d p).0.file ≡ some pid
  owner-next_call d idle h o = cc
  owner-next_call d (creating r) h o = owner-create_file r d.file d o
  owner-next_call d (writing fd) h o = rw creator_of-write_text (h refl)
  owner-next_call d (reading r) h o = cc
  owner-next_call d (probing r holder) h o =
      absurd (not-owns-after_probe r holder (is_alive alive holder) o)
  owner-next_call d unlinking h o = cc
  owner-next_call d (holding fd) h o = cc
  owner-next_call d (refused holder) h o = cc

  -- The others keep the file that they made.
  others-next_call :
      (d : Disk) (p : Pc) (q : ℕ)
      → (owns p ≡ true → creator_of d.file ≡ some pid)
      → removes p ≡ false
      → pid ≢ q
      → creator_of d.file ≡ some q
      → creator_of (next_call alive pid d p).0.file ≡ some q
  others-next_call d idle q h k n m = m
  others-next_call d (creating r) q h k n m = others-create_file r q d.file d refl m
  others-next_call d (writing fd) q h k n m = rw creator_of-write_text m
  others-next_call d (reading r) q h k n m = m
  others-next_call d (probing r holder) q h k n m = m
  others-next_call d unlinking q h k n m = cc
  others-next_call d (holding fd) q h k n m = absurd (n (grind (arith, h refl)))
  others-next_call d (refused holder) q h k n m = m

module _ (w : World) (h : IsOwned w) where
  made-IsOwned :
      (pid : ℕ)
      → removes (w.pc pid) ≡ false
      → IsOwned (made w pid (next_call w.alive pid w.disk (w.pc pid)))
  made-IsOwned pid k q o = elim (ℕ_discrete pid q) [
    | yes same ↦
        subst (λ n. creator_of (next_call w.alive pid w.disk (w.pc pid)).0.file ≡ some n) same
          (owner-next_call w.alive pid w.disk (w.pc pid) (h pid) (ground arith))
    | no other ↦
        others-next_call w.alive pid w.disk (w.pc pid) q (h pid) k other (h q (ground arith))
  ]

  call-IsOwned : (pid : ℕ) → removes (w.pc pid) ≡ false → IsOwned (happen w (call pid))
  call-IsOwned pid k =
      elim (w.alive pid)
        as (λ b. IsOwned (if b then made w pid (next_call w.alive pid w.disk (w.pc pid)) else w)) [
          | true ↦ made-IsOwned pid k
          | false ↦ h
        ]

  die-IsOwned : (pid : ℕ) → IsOwned (happen w (die pid))
  die-IsOwned pid q o = ground (arith, h q)

  start-IsOwned : (pid : ℕ) → IsOwned (happen w (start pid))
  start-IsOwned pid q o = ground (arith, h q)

happen-IsOwned : (w : World) (e : Event) → IsOwned w → is_removal w e ≡ false → IsOwned (happen w e)
happen-IsOwned w (call pid) h k = call-IsOwned w h pid k
happen-IsOwned w (die pid) h k = die-IsOwned w h pid
happen-IsOwned w (start pid) h k = start-IsOwned w h pid

run-IsOwned : (w : World) (es : List Event) → IsOwned w → KeepsFiles w es → IsOwned (run w es)
run-IsOwned w [] h k = h
run-IsOwned w (e ∷ es) h k = run-IsOwned (happen w e) es (happen-IsOwned w e h k.0) k.1

-- From processes that own nothing, whatever the path holds: as long as no process takes the lock for
-- stale, no two own it at once, in any order of their system calls, deaths and starts.
pub run-IsExclusive :
    (w : World) (es : List Event)
    → ((pid : ℕ) → owns (w.pc pid) ≡ false)
    → KeepsFiles w es
    → (p q : ℕ) → owns ((run w es).pc p) ≡ true
    → owns ((run w es).pc q) ≡ true
    → p ≡ q
run-IsExclusive w es clear k p q op oq =
    let owned = run-IsOwned w es (λ pid o. grind (arith, clear pid)) k in
    ground (arith, owned p op, owned q oq)
