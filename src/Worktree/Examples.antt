-- ===== src/Worktree/Examples.antt =====
-- Runs of the worktree lock on concrete processes.
use nightshift0s.Prelude.{
  ℕ, Bool, true, false, none, some, List, [], ◌∷◌, ◌≡◌, refl, arith, if◌then◌else◌, ltb,
}
use nightshift0s.Worktree.Lock.{Disk, idle, holding, refused, acquire_lock}
use nightshift0s.Worktree.Lock.Alone.{calls_alone, acquire_lock-calls}
use nightshift0s.Worktree.Lock.Exclusive.{World, Event, call, run, run-IsExclusive}
use nightshift0s.Worktree.Lock.Atomic.{
  Clients, Operation, acquire, release, operate_all, operate_all-IsExclusive,
}

abbrev free : Disk
free = record { file = none; created = 0 }

abbrev stale : Disk
stale = record { file = some (record { creator = 9; serial = 0; text = some 9 }); created = 1 }

-- The processes with small ids live.
abbrev low : ℕ → Bool
low pid = ltb pid 5

abbrev fleet : Disk → World
fleet d = record { disk = d; alive = low; pc = λ _. idle }

-- The file of process 1 is still empty when process 2 reads it, and is taken for stale.
abbrev race : List Event
race = call 1 ∷ call 1 ∷ call 2 ∷ call 2 ∷ call 2 ∷ call 2 ∷ call 2 ∷ call 2 ∷ call 2 ∷ call 1 ∷ []

race_two_holders :
    ((run (fleet free) race).pc 1 ≡ holding 0) × ((run (fleet free) race).pc 2 ≡ holding 1)
race_two_holders = (refl, refl)

abbrev contest : List Event
contest = call 1 ∷ call 2 ∷ call 1 ∷ call 1 ∷ call 2 ∷ call 2 ∷ call 2 ∷ []

contest_result :
    ((run (fleet free) contest).pc 1 ≡ holding 0)
    × ((run (fleet free) contest).pc 2 ≡ refused (some 1))
contest_result = (refl, refl)

run-IsExclusive_example : ◌≡◌ {A = ℕ} 1 1
run-IsExclusive_example =
    run-IsExclusive (fleet free) contest (λ _. refl)
      (refl, (refl, (refl, (refl, (refl, (refl, (refl, tt))))))) 1 1 refl refl

stale_takeover : calls_alone low 2 7 (stale, idle) ≡ acquire_lock low 2 stale
stale_takeover = acquire_lock-calls low 2 stale

abbrev pids : ℕ → ℕ
pids c = if ltb c 3 then 4 else 7

abbrev clients : Clients
clients = record { disk = stale; alive = low; holds = λ _. false }

abbrev turns : List Operation
turns = acquire 0 ∷ acquire 1 ∷ release 0 ∷ acquire 1 ∷ []

operate_all-IsExclusive_example :
    ((d : ℕ) → (operate_all pids clients turns).holds d ≡ true → 1 ≡ d)
    × ((pid : ℕ)
        → acquire_lock
            (operate_all pids clients turns).alive
            pid
            (operate_all pids clients turns).disk
          ≡ ((operate_all pids clients turns).disk, refused (some 4)))
unfolding acquire_lock
operate_all-IsExclusive_example =
    operate_all-IsExclusive pids clients turns (λ c. ground arith) (λ _. refl) 1 refl
