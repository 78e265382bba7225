-- ===== src/Worktree/Lock/Atomic.antt =====
-- Clients of one lock file, an operation at a time (src/worktree/lock.ts): no call of `acquireLock` is
-- awaited, so the operations of the clients of one process do not interleave.
use native.Mathlib.Decide.{ℕ_discrete}
use nightshift0s.Prelude.{
  ℕ, ◌<◌, Bool, true, false, not, ◌&&◌, Option, none, some, List, [], ◌∷◌, ◌==◌, nat_Eq, ◌≡◌, refl,
  arith, subst, ap, sym, ◌∙◌, inl, inr, if◌then◌else◌, Bool-cases,
}
use nightshift0s.Worktree.Lock.{
  Disk, Pc, LockFile, refused, acquire_lock, read_lock_pid, is_alive, remove_file, written,
}
use nightshift0s.Worktree.Lock.Exclusive.{update, owns}

pub record Clients : Type 0 where
  pub disk : Disk
  pub alive : ℕ → Bool
  pub holds : ℕ → Bool

pub data Operation : Type 0 where
  acquire : (client : ℕ) → Operation
  release : (client : ℕ) → Operation
  crash : (pid : ℕ) → Operation
  launch : (pid : ℕ) → Operation

module _ (alive : ℕ → Bool) (pid : ℕ) where
  acquire-refused :
      (d : Disk) {file : Option LockFile}
      → d.file ≡ file
      → is_alive alive (read_lock_pid file) ≡ true
      → acquire_lock alive pid d ≡ (d, refused (read_lock_pid file))
  unfolding acquire_lock
  acquire-refused d {file = none} e h = cc
  acquire-refused d {file = some f} e h = rw e (rw h refl)

  acquire-granted :
      (d : Disk) {file : Option LockFile}
      → d.file ≡ file
      → is_alive alive (read_lock_pid file) ≡ false
      → acquire_lock alive pid d ≡ written pid d
  unfolding acquire_lock
  acquire-granted d {file = none} e h = rw e refl
  acquire-granted d {file = some f} e h = rw e (rw h refl)

module _ (pid_of : ℕ → ℕ) where
  abbrev granted : Clients → ℕ → Disk × Pc → Clients
  granted s c r = record {
    disk = r.0;
    alive = s.alive;
    holds = if owns r.1 then update s.holds c true else s.holds;
  }

  -- Who ends loses its clients, and leaves their file.
  abbrev pub operate : Clients → Operation → Clients
  operate s (acquire c) =
      if s.alive (pid_of c) then granted s c (acquire_lock s.alive (pid_of c) s.disk) else s
  operate s (release c) =
      if s.holds c
      then record s { disk = remove_file s.disk; holds = update s.holds c false }
      else s
  operate s (crash pid) = record s {
    alive = update s.alive pid false;
    holds = λ c. s.holds c && not (pid == pid_of c);
  }
  operate s (launch pid) = record s { alive = update s.alive pid true }

  abbrev pub operate_all : Clients → List Operation → Clients
  operate_all s [] = s
  operate_all s (o ∷ os) = operate_all (operate s o) os

  pub record IsHeld (s : Clients) (c : ℕ) : Type 0 where
    pub living : s.alive (pid_of c) ≡ true
    pub named : read_lock_pid s.disk.file ≡ some (pid_of c)
    pub alone : (d : ℕ) → s.holds d ≡ true → c ≡ d

  abbrev pub IsSound : Clients → Type 0
  IsSound s = (c : ℕ) → s.holds c ≡ true → IsHeld s c

  module _ (positive : (c : ℕ) → 0 < pid_of c) (s : Clients) (h : IsSound s) where
    none_holds :
        is_alive s.alive (read_lock_pid s.disk.file) ≡ false → (c : ℕ) → s.holds c ≡ true → ⊥
    none_holds free c o = grind (arith, (h c o).living, (h c o).named)

    only_new :
        (c d : ℕ)
        → is_alive s.alive (read_lock_pid s.disk.file) ≡ false
        → update s.holds c true d ≡ true
        → c ≡ d
    only_new c d free o = elim (ℕ_discrete c d) [
      | yes same ↦ same
      | no other ↦ absurd (none_holds free d (ground arith))
    ]

    granted-IsSound :
        (c : ℕ)
        → s.alive (pid_of c) ≡ true
        → is_alive s.alive (read_lock_pid s.disk.file) ≡ false
        → IsSound (granted s c (written (pid_of c) s.disk))
    granted-IsSound c living free d o =
        let same = only_new c d free o in
        record {
          living = subst (λ n. s.alive (pid_of n) ≡ true) same living;
          named = ground (arith, positive c);
          alone = λ d' o'. sym same ∙ only_new c d' free o';
        }

    acquire-IsSound :
        (c : ℕ)
        → s.alive (pid_of c) ≡ true
        → IsSound (granted s c (acquire_lock s.alive (pid_of c) s.disk))
    acquire-IsSound c living = elim (Bool-cases (is_alive s.alive (read_lock_pid s.disk.file))) [
      | inl held ↦ rw (acquire-refused s.alive (pid_of c) s.disk refl held) h
      | inr free ↦
          rw (acquire-granted s.alive (pid_of c) s.disk refl free) (granted-IsSound c living free)
    ]

    released-IsSound :
        (c : ℕ)
        → s.holds c ≡ true
        → IsSound (record s { disk = remove_file s.disk; holds = update s.holds c false })
    released-IsSound c held d o = absurd (grind (arith, (h c held).alone d (ground arith)))

    release-IsSound : (c : ℕ) → IsSound (operate s (release c))
    release-IsSound c = elim (Bool-cases (s.holds c)) [
      | inl held ↦ rw held (released-IsSound c held)
      | inr free ↦ rw free h
    ]

    crash-IsSound : (pid : ℕ) → IsSound (operate s (crash pid))
    crash-IsSound pid d o = record {
      living = grind (arith, (h d (ground arith)).living);
      named = (h d (ground arith)).named;
      alone = λ d' o'. (h d (ground arith)).alone d' (ground arith);
    }

    launch-IsSound : (pid : ℕ) → IsSound (operate s (launch pid))
    launch-IsSound pid d o = record {
      living = grind (arith, (h d o).living);
      named = (h d o).named;
      alone = (h d o).alone;
    }

    operate-IsSound : (o : Operation) → IsSound (operate s o)
    operate-IsSound (acquire c) = elim (Bool-cases (s.alive (pid_of c))) [
      | inl living ↦ rw living (acquire-IsSound c living)
      | inr dead ↦ rw dead h
    ]
    operate-IsSound (release c) = release-IsSound c
    operate-IsSound (crash pid) = crash-IsSound pid
    operate-IsSound (launch pid) = launch-IsSound pid

  operate_all-IsSound :
      ((c : ℕ) → 0 < pid_of c)
      → (s : Clients) (os : List Operation) → IsSound s
      → IsSound (operate_all s os)
  operate_all-IsSound positive s [] h = h
  operate_all-IsSound positive s (o ∷ os) h =
      operate_all-IsSound positive (operate s o) os (operate-IsSound positive s h o)

-- If process ids are positive and the clients start without the lock, whatever the path holds: after
-- any acquisitions, releases, crashes and launches, each whole, no two clients hold the lock; and while
-- one does, every acquisition is refused at once with the id of its process and changes nothing.
pub operate_all-IsExclusive :
    (pid_of : ℕ → ℕ) (s : Clients) (os : List Operation)
    → ((c : ℕ) → 0 < pid_of c)
    → ((c : ℕ) → s.holds c ≡ false)
    → (c : ℕ) → (operate_all pid_of s os).holds c ≡ true
    → ((d : ℕ) → (operate_all pid_of s os).holds d ≡ true → c ≡ d)
      × ((pid : ℕ)
          → acquire_lock (operate_all pid_of s os).alive pid (operate_all pid_of s os).disk
            ≡ ((operate_all pid_of s os).disk, refused (some (pid_of c))))
operate_all-IsExclusive pid_of s os positive clear c o =
    let t = operate_all pid_of s os in
    let held =
      operate_all-IsSound pid_of positive s os (λ d o'. absurd (grind (arith, clear d))) c o in
    (
      held.alone,
      λ pid.
          acquire-refused t.alive pid t.disk refl (rw held.named held.living)
          ∙ ap (λ holder. (t.disk, refused holder)) held.named,
    )
