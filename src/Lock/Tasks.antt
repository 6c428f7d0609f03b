-- ===== src/Lock/Tasks.antt =====
-- The tasks that share the lock, interleaved in any order. A task uses it only through the objects
-- of main/gdb_if.hpp: `GDBLock` locks for a scope, `GDBBreakLock` gives the lock up for a scope
-- (round the waits of `gdb_if_getchar_to`), and `destroy` of main/gdb_if.cpp breaks the lock and
-- deletes the task. The steps are those of code that runs; an exception is a further step in
-- Lock.Thrown, whose theorems are about both.
use blackmagic_espidf.Base.{ℕ, suc, ◌≡◌, none, some, ◌==◌, if◌then◌else◌}
use blackmagic_espidf.Base.Int.{ℤ, pos}
use blackmagic_espidf.Lock.{Mutex, lock, unlock, breaklock, restorelock}

-- `depth` counts the task's `GDBLock` objects. `broken`: in the scope of a `GDBBreakLock`, which
-- has stored `state`.
pub data Local : Type 0 where
  running : (depth : ℕ) → Local
  broken : (state : ℤ) (depth : ℕ) → Local
  deleted : Local

-- One step of task `t`.
pub data Move (t : ℕ) (m : Mutex) : Local → Mutex → Local → Type 0 where
  construct_lock :
      {d : ℕ} {m' : Mutex} → lock t m ≡ some m' → Move t m (running d) m' (running (suc d))
  destruct_lock : {d : ℕ} → Move t m (running (suc d)) (unlock t m) (running d)
  construct_break : {d : ℕ} → Move t m (running d) (breaklock t m).1 (broken (breaklock t m).0 d)
  destruct_break :
      {d : ℕ} {state : ℤ} {m' : Mutex}
      → restorelock t state m ≡ some m'
      → Move t m (broken state d) m' (running d)
  destroy_running : {d : ℕ} → Move t m (running d) (breaklock t m).1 deleted
  destroy_broken : {d : ℕ} {state : ℤ} → Move t m (broken state d) (breaklock t m).1 deleted

abbrev pub update : (ℕ → Local) → ℕ → Local → ℕ → Local
update f i a j = if i == j then a else f j

pub record System : Type 0 where
  pub mutex : Mutex
  pub tasks : ℕ → Local

pub data Step (s : System) : System → Type 0 where
  pick :
      (t : ℕ) {m' : Mutex} {l' : Local}
      → Move t s.mutex (s.tasks t) m' l'
      → Step s (record { mutex = m'; tasks = update s.tasks t l' })

-- `gdb_net_task` creates the mutex; every task begins without a lock.
abbrev pub init : System
init = record { mutex = record { holder = none; lockcount = pos 0 }; tasks = λ _. running 0 }
