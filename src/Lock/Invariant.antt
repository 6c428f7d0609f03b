-- ===== src/Lock/Invariant.antt =====
-- The invariant of the lock and its tasks: true at the start, and kept by every step.
use blackmagic_espidf.Base.{ℕ, ◌≡◌, ◌≢◌, refl, none, some, arith}
use blackmagic_espidf.Base.Int.{pos}
use blackmagic_espidf.Lock.{Mutex, lock, unlock, breaklock, restorelock}
use blackmagic_espidf.Lock.Tasks.{
  Local, running, broken, deleted, Move, construct_lock, destruct_lock, construct_break,
  destruct_break, destroy_running, destroy_broken, update, System, Step, pick, init,
}

-- How many `GDBLock` objects of a task hold the lock; one that has broken it holds it with none.
abbrev pub depth : Local → ℕ
depth (running d) = d
depth (broken state d) = 0
depth deleted = 0

-- What a task has stored to restore is its number of `GDBLock` objects.
abbrev IsSaved : Local → Type 0
IsSaved (running d) = Unit
IsSaved (broken state d) = state ≡ pos d
IsSaved deleted = Unit

-- The holder is the one task with a depth, and `lockcount` is its depth.
pub record Inv (m : Mutex) (tasks : ℕ → Local) : Type 0 where
  pub free : m.holder ≡ none → m.lockcount ≡ pos 0
  pub owned :
      (t : ℕ) → m.holder ≡ some t → (m.lockcount ≡ pos (depth (tasks t))) × (depth (tasks t) ≢ 0)
  pub others : (t : ℕ) → m.holder ≢ some t → depth (tasks t) ≡ 0
  pub saved : (t : ℕ) → IsSaved (tasks t)

module _ {m : Mutex} {tasks : ℕ → Local} (inv : Inv m tasks) (t : ℕ) where
  open inv use {free, owned, others, saved}

  Move-free :
      {l l' : Local} {m' : Mutex}
      → tasks t ≡ l
      → Move t m l m' l'
      → m'.holder ≡ none
      → m'.lockcount ≡ pos 0
  unfolding lock unlock breaklock restorelock
  Move-free e (construct_lock g) = ground (arith, free, owned t, others t, saved t)
  Move-free e destruct_lock = ground (arith, free, owned t, others t, saved t)
  Move-free e construct_break = ground (arith, free, owned t, others t, saved t)
  Move-free e (destruct_break g) = ground (arith, free, owned t, others t, saved t)
  Move-free e destroy_running = ground (arith, free, owned t, others t, saved t)
  Move-free e destroy_broken = ground (arith, free, owned t, others t, saved t)

  Move-owned :
      {l l' : Local} {m' : Mutex}
      → tasks t ≡ l
      → Move t m l m' l'
      → (u : ℕ) → m'.holder ≡ some u
      → (m'.lockcount ≡ pos (depth (update tasks t l' u))) × (depth (update tasks t l' u) ≢ 0)
  unfolding lock unlock breaklock restorelock
  Move-owned e (construct_lock g) u h = ground (arith, free, owned t, others t, saved t, owned u)
  Move-owned e destruct_lock u h = ground (arith, free, owned t, others t, saved t, owned u)
  Move-owned e construct_break u h = ground (arith, free, owned t, others t, saved t, owned u)
  Move-owned e (destruct_break g) u h = ground (arith, free, owned t, others t, saved t, owned u)
  Move-owned e destroy_running u h = ground (arith, free, owned t, others t, saved t, owned u)
  Move-owned e destroy_broken u h = ground (arith, free, owned t, others t, saved t, owned u)

  Move-others :
      {l l' : Local} {m' : Mutex}
      → tasks t ≡ l
      → Move t m l m' l'
      → (u : ℕ) → m'.holder ≢ some u
      → depth (update tasks t l' u) ≡ 0
  unfolding lock unlock breaklock restorelock
  Move-others e (construct_lock g) u h = ground (arith, free, owned t, others t, saved t, others u)
  Move-others e destruct_lock u h = ground (arith, free, owned t, others t, saved t, others u)
  Move-others e construct_break u h = ground (arith, free, owned t, others t, saved t, others u)
  Move-others e (destruct_break g) u h = ground (arith, free, owned t, others t, saved t, others u)
  Move-others e destroy_running u h = ground (arith, free, owned t, others t, saved t, others u)
  Move-others e destroy_broken u h = ground (arith, free, owned t, others t, saved t, others u)

  Move-IsSaved :
      {l l' : Local} {m' : Mutex}
      → tasks t ≡ l
      → Move t m l m' l'
      → (u : ℕ) → IsSaved (update tasks t l' u)
  unfolding lock unlock breaklock restorelock
  Move-IsSaved e construct_break u = ground (arith, free, owned t, others t, saved t, saved u)
  Move-IsSaved e mv u = ground (arith, saved t, saved u)

pub init-Inv : Inv init.mutex init.tasks
init-Inv = record { free = λ _. refl; owned = λ t h. cc; others = λ t h. refl; saved = λ t. tt }

-- Every step keeps the invariant: the holder of the mutex is the one task with a lock, `lockcount`
-- is its number of `GDBLock` objects, and a task that has broken the lock has stored its own number.
pub Step-Inv : {s s' : System} → Step s s' → Inv s.mutex s.tasks → Inv s'.mutex s'.tasks
Step-Inv (pick t mv) inv = record {
  free = Move-free inv t refl mv;
  owned = Move-owned inv t refl mv;
  others = Move-others inv t refl mv;
  saved = Move-IsSaved inv t refl mv;
}
