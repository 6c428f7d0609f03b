-- ===== src/Lock/Thrown.antt =====
-- The lock where exceptions leave the scopes of its guards: `GDB_client::task` of main/gdb_if.cpp
-- catches what the probe firmware raises below `gdb_main`, and `longjmp` runs no destructor of the
-- `GDBLock` objects in between.
use blackmagic_espidf.Base.{
  ℕ, suc, ◌+◌, ◌≡◌, ◌≢◌, refl, sym, ap, subst, Bool, true, false, none, some, ◌==◌, Bool-cases, inl,
  inr, ◌∙◌, if◌then◌else◌, arith,
}
use blackmagic_espidf.Base.Int.{ℤ, pos}
use std.Path.{fun_ext}
use blackmagic_espidf.Lock.{Mutex, lock, unlock, breaklock, restorelock}
use blackmagic_espidf.Lock.Tasks.{
  Local, running, broken, deleted, Move, construct_lock, destruct_lock, construct_break,
  destruct_break, destroy_running, destroy_broken, update, init, pick,
}
use blackmagic_espidf.Lock.Safety.{restorelock-saved}
use blackmagic_espidf.Lock.Invariant.{depth, Inv, init-Inv, Step-Inv}

-- A task: by the `GDBLock` objects that are in scope, and by the number of those whose scope an
-- exception has left.
pub data Thread : Type 0 where
  thread : (inside : Local) (leaked : ℕ) → Thread

-- `raise`: the jump to the `TRY_CATCH` of the task leaves the scopes of `left` locks, without their
-- `gdb_unlock`; `outside` are those round it.
pub data Act (t : ℕ) (m : Mutex) : Thread → Mutex → Thread → Type 0 where
  move :
      {l l' : Local} {m' : Mutex} {leaked : ℕ}
      → Move t m l m' l'
      → Act t m (thread l leaked) m' (thread l' leaked)
  raise :
      (left outside : ℕ) {leaked : ℕ}
      → Act t m
          (thread (running (outside + left)) leaked)
          m
          (thread (running outside) (left + leaked))

abbrev pub update_thread : (ℕ → Thread) → ℕ → Thread → ℕ → Thread
update_thread f i a j = if i == j then a else f j

pub record Threads : Type 0 where
  pub mutex : Mutex
  pub threads : ℕ → Thread

pub data Turn (s : Threads) : Threads → Type 0 where
  act :
      (t : ℕ) {m' : Mutex} {x : Thread}
      → Act t s.mutex (s.threads t) m' x
      → Turn s (record { mutex = m'; threads = update_thread s.threads t x })

abbrev pub init_threads : Threads
init_threads = record { mutex = init.mutex; threads = λ t. thread (running 0) 0 }

pub data Reached : Threads → Type 0 where
  start : Reached init_threads
  later : {s s' : Threads} → Reached s → Turn s s' → Reached s'

-- What the mutex has counted of a task: its locks, those left behind too.
abbrev pub counted : Thread → Local
counted (thread (running d) leaked) = running (leaked + d)
counted (thread (broken state d) leaked) = broken state (leaked + d)
counted (thread deleted leaked) = deleted

Move-counted :
    {t : ℕ} {m m' : Mutex} {l l' : Local} (leaked : ℕ)
    → Move t m l m' l'
    → Move t m (counted (thread l leaked)) m' (counted (thread l' leaked))
Move-counted {t} {m} leaked (construct_lock {d} {m' = m'} g) =
    subst (λ n. Move t m (running (leaked + d)) m' (running n)) (omega arith) (construct_lock g)
Move-counted {t} {m} leaked (destruct_lock {d}) =
    subst (λ n. Move t m (running n) (unlock t m) (running (leaked + d))) (omega arith)
      destruct_lock
Move-counted leaked construct_break = construct_break
Move-counted leaked (destruct_break g) = destruct_break g
Move-counted leaked destroy_running = destroy_running
Move-counted leaked destroy_broken = destroy_broken

counted-update :
    (f : ℕ → Thread) (i : ℕ) (x : Thread) (j : ℕ)
    → update (λ u. counted (f u)) i (counted x) j ≡ counted (update_thread f i x j)
counted-update f i x j = by (i == j)
  where
    by : (b : Bool) → (if b then counted x else counted (f j)) ≡ counted (if b then x else f j)
    by true = refl
    by false = refl

-- The invariant of the lock, for what the mutex has counted.
abbrev IsCounted : Mutex → (ℕ → Thread) → Type 0
IsCounted m threads = Inv m (λ t. counted (threads t))

IsCounted-update :
    {m : Mutex} (f : ℕ → Thread) (t : ℕ) (x : Thread)
    → Inv m (update (λ u. counted (f u)) t (counted x))
    → IsCounted m (update_thread f t x)
IsCounted-update {m} f t x inv = subst (Inv m) (fun_ext (counted-update f t x)) inv

-- A thread of which the mutex has counted as much as before.
update-same :
    (f : ℕ → Thread) (t : ℕ) (x : Thread)
    → counted (f t) ≡ counted x
    → (u : ℕ) → counted (f u) ≡ counted (update_thread f t x u)
update-same f t x same u = elim (Bool-cases (t == u)) [
  | inl e ↦ let p : u ≡ t = ground arith in rw e (ap (λ v. counted (f v)) p ∙ same)
  | inr e ↦ rw e refl
]

Act-IsCounted :
    {m m' : Mutex} {x x' : Thread} (f : ℕ → Thread) (t : ℕ)
    → IsCounted m f
    → f t ≡ x
    → Act t m x m' x'
    → IsCounted m' (update_thread f t x')
Act-IsCounted {m} f t inv e (move {l} {l'} {m'} {leaked} mv) =
    let x' : Thread = thread l' leaked in
    let mv' = subst (λ y. Move t m (counted y) m' (counted x')) (sym e) (Move-counted leaked mv) in
    IsCounted-update f t x' (Step-Inv (pick t mv') inv)
Act-IsCounted {m} f t inv e (raise left outside {leaked}) =
    let x' : Thread = thread (running outside) (left + leaked) in
    let same : counted (f t) ≡ counted x' = ap counted e ∙ ap running (omega arith) in
    subst (Inv m) (fun_ext (update-same f t x' same)) inv

Reached-IsCounted : {s : Threads} → Reached s → IsCounted s.mutex s.threads
Reached-IsCounted start = init-Inv
Reached-IsCounted (later {s} r (act t a)) = Act-IsCounted s.threads t (Reached-IsCounted r) refl a

-- The `GDBLock` objects of a thread whose scopes it is in.
abbrev pub in_scope : Thread → ℕ
in_scope (thread l leaked) = depth l

in_scope-counted : (x : Thread) → in_scope x ≢ 0 → depth (counted x) ≢ 0
in_scope-counted (thread (running d) leaked) h e = h (omega arith)
in_scope-counted (thread (broken state d) leaked) h e = h refl
in_scope-counted (thread deleted leaked) h e = h refl

module _ {s : Threads} (r : Reached s) where
  abbrev inv : IsCounted s.mutex s.threads
  inv = Reached-IsCounted r

  -- Exceptions that leave scopes of the lock, whenever they come, do not let two tasks in: two that
  -- are in the scope of a `GDBLock`, and outside any `GDBBreakLock`, are one.
  pub thrown-exclusive : (i j : ℕ) → in_scope (s.threads i) ≢ 0 → in_scope (s.threads j) ≢ 0 → i ≡ j
  thrown-exclusive i j hi hj =
      let ci = in_scope-counted (s.threads i) hi in
      let cj = in_scope-counted (s.threads j) hj in ground (arith, inv.others i, inv.others j)

  -- The end of a `GDBBreakLock`, after any steps of the others, exceptions too. A task with `d`
  -- `GDBLock` objects in scope and `leaked` ones whose scope an exception has left changes nothing
  -- if both are 0; else it waits while a task holds the mutex, and becomes its holder with the count
  -- `leaked + d` of before where none does.
  pub restorelock-restores :
      (t d leaked : ℕ) (state : ℤ)
      → s.threads t ≡ thread (broken state d) leaked
      → restorelock t state s.mutex ≡ (
          if leaked + d == 0 then some s.mutex else elim s.mutex.holder [
            | none ↦ some (record { holder = some t; lockcount = pos (leaked + d) })
            | some u ↦ none
          ])
  restorelock-restores t d leaked state e =
      restorelock-saved inv t (leaked + d) state (ap counted e)

  -- The locks of scopes that an exception has left are not given back: a task that is in no scope
  -- of a `GDBLock` any more, but has left some by an exception, holds the mutex, so that `gdb_lock`
  -- of any other task waits; `gdb_breaklock` of the task frees it, and `gdb_restorelock` right
  -- behind takes it again, with the same count.
  pub leaked-keeps :
      (t leaked : ℕ)
      → s.threads t ≡ thread (running 0) (suc leaked)
      → (u : ℕ) → u ≢ t
      → (lock u s.mutex ≡ none)
        × (breaklock t s.mutex ≡ (pos (suc leaked), record { holder = none; lockcount = pos 0 }))
        × (restorelock t (breaklock t s.mutex).0 (breaklock t s.mutex).1 ≡ some s.mutex)
  unfolding lock breaklock restorelock
  leaked-keeps t leaked e u other =
      let own : counted (s.threads t) ≡ running (suc leaked + 0) = ap counted e in
      ground (arith, own, inv.others t, inv.owned t, other)
