-- ===== src/Lock.antt =====
-- The lock that serialises the GDB clients' use of the probe: `gdb_lock`, `gdb_unlock`,
-- `gdb_breaklock` and `gdb_restorelock` of main/gdb_if.cpp. A task is a number; `none` means that
-- the call blocks in `xSemaphoreTake`.
pub mod Tasks
pub mod Invariant
pub mod Safety
pub mod Thrown
use blackmagic_espidf.Base.{ℕ, Bool, true, false, Option, none, some, ◌==◌, if◌then◌else◌}
use blackmagic_espidf.Base.Int.{ℤ, pos, suc_ℤ, pred_ℤ, is_zero}

-- `gdb_mutex`, by its holder, and `gdb_mutex_lockcount`.
pub record Mutex : Type 0 where
  pub holder : Option ℕ
  pub lockcount : ℤ

-- `xSemaphoreGetMutexHolder(gdb_mutex) == xTaskGetCurrentTaskHandle()`.
abbrev held_by : ℕ → Option ℕ → Bool
held_by t none = false
held_by t (some u) = u == t

-- `xSemaphoreTake(gdb_mutex, -1)` by task `t`; the mutex is not recursive.
unfoldable semaphore_take : ℕ → Mutex → Option Mutex
semaphore_take t m = elim m.holder [ none ↦ some (record m { holder = some t }) | some u ↦ none ]

-- `xSemaphoreGive(gdb_mutex)` by its holder.
unfoldable semaphore_give : Mutex → Mutex
semaphore_give m = record m { holder = none }

-- `gdb_mutex_lockcount++`, when the wait before it ends.
abbrev counted : Option Mutex → Option Mutex
counted none = none
counted (some m) = some (record m { lockcount = suc_ℤ m.lockcount })

unfoldable pub lock : ℕ → Mutex → Option Mutex
unfolding semaphore_take
lock t m =
    if held_by t m.holder
    then some (record m { lockcount = suc_ℤ m.lockcount })
    else counted (semaphore_take t m)

-- `if(gdb_mutex_lockcount == 0) xSemaphoreGive(gdb_mutex);`
abbrev give_at_zero : Mutex → Mutex
unfolding semaphore_give
give_at_zero m = if is_zero m.lockcount then semaphore_give m else m

unfoldable pub unlock : ℕ → Mutex → Mutex
unfolding semaphore_give
unlock t m =
    if held_by t m.holder then give_at_zero (record m { lockcount = pred_ℤ m.lockcount }) else m

-- The result is the state to restore.
unfoldable pub breaklock : ℕ → Mutex → ℤ × Mutex
unfolding semaphore_give
breaklock t m =
    if held_by t m.holder
    then (m.lockcount, semaphore_give (record m { lockcount = pos 0 }))
    else (pos 0, m)

abbrev recounted : ℤ → Option Mutex → Option Mutex
recounted state none = none
recounted state (some m) = some (record m { lockcount = state })

unfoldable pub restorelock : ℕ → ℤ → Mutex → Option Mutex
unfolding semaphore_take
restorelock t state m = if is_zero state then some m else recounted state (semaphore_take t m)
