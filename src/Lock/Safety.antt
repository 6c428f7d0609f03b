-- ===== src/Lock/Safety.antt =====
-- What the invariant of the lock says of the functions of main/gdb_if.cpp. The locks of a task are
-- those that the mutex has counted: its `GDBLock` objects where no exception has left a scope.
use blackmagic_espidf.Base.{
  ℕ, zero, suc, ◌≡◌, ◌≢◌, ◌⊎◌, inl, inr, refl, Option-cases, none, some, ◌==◌, if◌then◌else◌, arith,
}
use blackmagic_espidf.Base.Int.{ℤ, pos}
use blackmagic_espidf.Lock.{Mutex, lock, unlock, breaklock, restorelock}
use blackmagic_espidf.Lock.Tasks.{Local, running, broken, deleted}
use blackmagic_espidf.Lock.Invariant.{depth, Inv}

running_of_depth : (l : Local) → depth l ≢ 0 → (d : ℕ) × (l ≡ running (suc d))
running_of_depth (running zero) h = absurd (h refl)
running_of_depth (running (suc d)) h = (d, refl)
running_of_depth (broken state d) h = absurd (h refl)
running_of_depth deleted h = absurd (h refl)

module _ {m : Mutex} {f : ℕ → Local} (inv : Inv m f) where
  -- Two tasks that hold the lock (with a `GDBLock` and outside any `GDBBreakLock`) are one.
  pub mutual_exclusion : (i j : ℕ) → depth (f i) ≢ 0 → depth (f j) ≢ 0 → i ≡ j
  mutual_exclusion i j hi hj = ground (arith, inv.others i, inv.others j)

  -- `gdb_lock` blocks only on another task, which holds the mutex with `GDBLock` objects of its
  -- own: no task waits for itself, and the one it waits for is not waiting in `gdb_restorelock`.
  pub lock-blocks :
      (t : ℕ)
      → lock t m ≡ none
      → (u d : ℕ) × (m.holder ≡ some u) × (u ≢ t) × (f u ≡ running (suc d))
  unfolding lock
  lock-blocks t h = elim (Option-cases m.holder) [
    | inl free ↦ absurd (ground arith)
    | inr (u, held) ↦ holding u held (running_of_depth (f u) (inv.owned u held).1)
  ]
    where
      holding :
          (u : ℕ)
          → m.holder ≡ some u
          → (d : ℕ) × (f u ≡ running (suc d))
          → (u d : ℕ) × (m.holder ≡ some u) × (u ≢ t) × (f u ≡ running (suc d))
      holding u held (d, e) = (u, d, held, ground arith, e)

  -- The end of a `GDBLock` keeps the mutex for the task's other `GDBLock` objects, and gives it
  -- back with the last one.
  pub unlock-nested :
      (t d : ℕ)
      → f t ≡ running (suc d)
      → unlock t m ≡ (
          if d == 0
          then record { holder = none; lockcount = pos 0 }
          else record { holder = some t; lockcount = pos d })
  unfolding unlock
  unlock-nested t d e = ground (arith, inv.others t, inv.owned t)

  -- A `GDBBreakLock` of a task with `n` `GDBLock` objects stores `n`; it frees the mutex for the
  -- others if `n` is not 0, and changes nothing else. The task does not hold the mutex then.
  pub breaklock-frees :
      (t n : ℕ)
      → f t ≡ running n
      → (breaklock t m ≡ (pos n, if n == 0 then m else record { holder = none; lockcount = pos 0 }))
        × ((breaklock t m).1.holder ≢ some t)
  unfolding breaklock
  breaklock-frees t n e = ground (arith, inv.others t, inv.owned t, inv.free)

  -- With `d + 1` locks to restore `gdb_restorelock` waits while a task holds the mutex.
  pub restorelock-saved :
      (t d : ℕ) (state : ℤ)
      → f t ≡ broken state d
      → restorelock t state m ≡ (
          if d == 0 then some m else elim m.holder [
            | none ↦ some (record { holder = some t; lockcount = pos d })
            | some u ↦ none
          ])
  unfolding restorelock
  restorelock-saved t d state e = ground (arith, inv.saved t)

  -- A client whose connection is lost leaves the lock to the others: the mutex is never held by a
  -- deleted task, or by one that waits with its lock broken.
  pub released :
      (t : ℕ)
      → (f t ≡ deleted) ⊎ ((state : ℤ) × (d : ℕ) × (f t ≡ broken state d))
      → m.holder ≢ some t
  released t (inl gone) h = ground (arith, inv.owned t)
  released t (inr (state, d, waits)) h = ground (arith, inv.owned t)
