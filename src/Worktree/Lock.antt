-- ===== src/Worktree/Lock.antt =====
-- The lock file of a worktree (src/worktree/lock.ts): the acquisition as one operation, and the same
-- one system call at a time, as the processes that compete for a worktree make them.
pub mod Alone
pub mod Exclusive
pub mod Atomic
use nightshift0s.Prelude.{
  ℕ, zero, suc, Bool, true, false, not, ◌&&◌, ◌||◌, Option, none, some, List, [], ◌∷◌, ◌==◌, nat_Eq,
  if◌then◌else◌, ltb,
}

-- A file at the lock's path: which creation made it, and the process id in it. A file that is not yet
-- written is empty.
pub record LockFile : Type 0 where
  pub creator : ℕ
  pub serial : ℕ
  pub text : Option ℕ

-- The path, with the number of creations so far.
pub record Disk : Type 0 where
  pub file : Option LockFile
  pub created : ℕ

abbrev pub parsed_pid : Option ℕ → Option ℕ
parsed_pid none = none
parsed_pid (some pid) = if ltb 0 pid then some pid else none

abbrev pub read_lock_pid : Option LockFile → Option ℕ
read_lock_pid none = none
read_lock_pid (some f) = parsed_pid f.text

-- `kill(pid, 0)` is asked of the table of processes.
abbrev pub is_alive : (ℕ → Bool) → Option ℕ → Bool
is_alive alive none = false
is_alive alive (some pid) = alive pid

-- Where a process stands: before the call that it makes next, with the locals that are live there.
pub data Pc : Type 0 where
  idle : Pc
  creating : (is_retry : Bool) → Pc
  writing : (fd : ℕ) → Pc
  reading : (is_retry : Bool) → Pc
  probing : (is_retry : Bool) → (holder : Option ℕ) → Pc
  unlinking : Pc
  holding : (fd : ℕ) → Pc
  refused : (holder : Option ℕ) → Pc

abbrev new_file : ℕ → Disk → Disk
new_file pid d = record {
  file = some (record { creator = pid; serial = d.created; text = none });
  created = suc d.created;
}

-- The descriptor keeps its file: the text goes nowhere where the path has another file, or none.
abbrev pub write_text : ℕ → ℕ → Option LockFile → Option LockFile
write_text pid fd none = none
write_text pid fd (some f) = some (if f.serial == fd then record f { text = some pid } else f)

abbrev pub remove_file : Disk → Disk
remove_file d = record d { file = none }

abbrev pub after_probe : Bool → Option ℕ → Bool → Pc
after_probe is_retry holder is_held =
    if not is_held && not is_retry then unlinking else refused holder

abbrev pub create_file : ℕ → Bool → Option LockFile → Disk → Disk × Pc
create_file pid is_retry none d = (new_file pid d, writing d.created)
create_file pid is_retry (some f) d = (d, reading is_retry)

-- The next call of a process: `acquireLock` from `idle`, and `release` from `holding`.
abbrev pub next_call : (ℕ → Bool) → ℕ → Disk → Pc → Disk × Pc
next_call alive pid d idle = (d, creating false)
next_call alive pid d (creating is_retry) = create_file pid is_retry d.file d
next_call alive pid d (writing fd) = (record d { file = write_text pid fd d.file }, holding fd)
next_call alive pid d (reading is_retry) = (d, probing is_retry (read_lock_pid d.file))
next_call alive pid d (probing is_retry holder) =
    (d, after_probe is_retry holder (is_alive alive holder))
next_call alive pid d unlinking = (remove_file d, creating true)
next_call alive pid d (holding fd) = (remove_file d, idle)
next_call alive pid d (refused holder) = (d, idle)

-- The whole of `tryAcquire`, with what its one retry does.
abbrev on_exists : (ℕ → Bool) → Disk → (Disk → Disk × Pc) → Disk × Pc
on_exists alive d retry =
    let holder = read_lock_pid d.file in
    if is_alive alive holder then (d, refused holder) else retry (remove_file d)

abbrev pub written : ℕ → Disk → Disk × Pc
written pid d = (
  record {
    file = some (record { creator = pid; serial = d.created; text = some pid });
    created = suc d.created;
  },
  holding d.created,
)

abbrev try_acquire : (ℕ → Bool) → ℕ → (Disk → Disk × Pc) → Option LockFile → Disk → Disk × Pc
try_acquire alive pid retry none d = written pid d
try_acquire alive pid retry (some f) d = on_exists alive d retry

-- On the retry a file that exists is refused, whoever holds it.
unfoldable pub acquire_lock : (ℕ → Bool) → ℕ → Disk → Disk × Pc
acquire_lock alive pid d =
    try_acquire alive pid
      (λ d'. try_acquire alive pid (λ d''. (d'', refused (read_lock_pid d'.file))) d'.file d')
      d.file d
