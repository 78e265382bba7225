-- ===== src/Worktree/Lock/Alone.antt =====
-- The acquisition as one operation and as a sequence of system calls (src/worktree/lock.ts).
use nightshift0s.Prelude.{
  ℕ, zero, suc, Bool, Option, none, some, ◌≡◌, refl, eq_self, nat_Eq, inl, inr, if◌then◌else◌,
  Bool-cases,
}
use nightshift0s.Worktree.Lock.{
  Disk, Pc, LockFile, idle, next_call, acquire_lock, read_lock_pid, is_alive,
}

-- The calls of one process while no other makes any.
abbrev pub calls_alone : (ℕ → Bool) → ℕ → ℕ → Disk × Pc → Disk × Pc
calls_alone alive pid zero s = s
calls_alone alive pid (suc n) s = calls_alone alive pid n (next_call alive pid s.0 s.1)

-- How many calls an acquisition makes: a free path, a living holder, and a stale file.
abbrev pub call_count : (ℕ → Bool) → Option LockFile → ℕ
call_count alive none = 3
call_count alive (some f) = if is_alive alive (read_lock_pid (some f)) then 4 else 7

module _ (alive : ℕ → Bool) (pid c : ℕ) where
  alone_at :
      (file : Option LockFile)
      → calls_alone alive pid (call_count alive file) (record { file = file; created = c }, idle)
        ≡ acquire_lock alive pid (record { file = file; created = c })
  unfolding acquire_lock
  alone_at none = rw (eq_self c) refl
  alone_at (some f) = elim (Bool-cases (is_alive alive (read_lock_pid (some f)))) [
    | inl held ↦ simp held
    | inr stale ↦ simp (stale, eq_self c)
  ]

-- A process whose calls no other interrupts reaches what the acquisition gives.
pub acquire_lock-calls :
    (alive : ℕ → Bool) (pid : ℕ) (d : Disk)
    → calls_alone alive pid (call_count alive d.file) (d, idle) ≡ acquire_lock alive pid d
acquire_lock-calls alive pid d = alone_at alive pid d.created d.file
