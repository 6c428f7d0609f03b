-- ===== src/Web/Percent.antt =====
-- The percentages of the page `/status`, `cgi_status` of main/http.c.
use native.Mathlib.Nat.{div-add-mod}
use blackmagic_espidf.Base.{
  ℕ, ◌+◌, ◌*◌, ◌/◌, ◌≤◌, ◌<◌, ◌≡◌, refl, Bool, true, false, Option, none, some, List, [], ◌∷◌, map,
  ◌==◌, arith,
}
use blackmagic_espidf.Web.Status.{
  Map, since, task_times, total_runtime, cpu, AreDistinct, since_request, task_times-since,
}

-- The static variables of the handler.
pub record Status : Type 0 where
  pub times : Map
  pub last_total_runtime : ℕ

-- The rows of a request: for each task, as `qsort` has ordered them, its number and its percentage.
-- Nothing instead of the tasks where `malloc` fails.
unfoldable pub cgi_status :
    (closed : Bool) → (tasks : Option (List (ℕ × ℕ))) → (total : ℕ) → Status → Status × List (ℕ × ℕ)
unfolding task_times cpu
cgi_status true tasks total s = (s, [])
cgi_status false none total s = (s, [])
cgi_status false (some tasks) total s =
    let (rows, times') = task_times tasks s.times in
    (record { times = times'; last_total_runtime = total }, cpu s.last_total_runtime total rows)

abbrev pub sum : List (ℕ × ℕ) → ℕ
sum [] = 0
sum ((id, n) ∷ rows) = n + sum rows

sum-divided : (p : ℕ) (rows : List (ℕ × ℕ)) → sum (map (λ r. (r.0, r.1 / p)) rows) * p ≤ sum rows
sum-divided p [] = omega arith
sum-divided p ((id, n) ∷ rows) = grind (arith, sum-divided p rows, div-add-mod n p)

sum-percent :
    (time : ℕ) (rows : List (ℕ × ℕ))
    → 10000 ≤ time
    → sum rows ≤ time
    → sum (map (λ r. (r.0, r.1 / (time / 100))) rows) ≤ 100
sum-percent time rows long whole =
    let p : ℕ = time / 100 in
    let below : time < 101 * p = omega arith in
    less (sum (map (λ r. (r.0, r.1 / p)) rows)) p (sum-divided p rows) below
  where
    less : (n p : ℕ) → n * p ≤ sum rows → time < 101 * p → n ≤ 100
    less n p h below = grind arith

-- Two requests, one after another, of tasks with different numbers: the second shows of each task, in
-- percent of the time that has passed, its run time since the first request if that listed it, else
-- since the last request before that did, and 0 if none did; these are 100 together at most.
-- Conditions: at least 10000 ticks of the counter have passed, and these run times are together no more
-- than that.
pub cgi_status-percent :
    (tasks later : List (ℕ × ℕ)) (total total' : ℕ) (s : Status)
    → AreDistinct tasks
    → AreDistinct later
    → 10000 ≤ since total total'
    → sum (map (since_request tasks s.times) later) ≤ since total total'
    → let first : Status = (cgi_status false (some tasks) total s).0 in
      let rows : List (ℕ × ℕ) = (cgi_status false (some later) total' first).1 in
      (rows
        ≡ map
            (λ r. (r.0, r.1 / (since total total' / 100)))
            (map (since_request tasks s.times) later))
      × (sum rows ≤ 100)
unfolding cgi_status cpu total_runtime
cgi_status-percent tasks later total total' s h h' long whole =
    let percent : ℕ = since total total' / 100 in
    let some_percent : (percent == 0) ≡ false = ground arith in
    let times = task_times-since tasks later s.times h h' in
    let shown : (task_times later (task_times tasks s.times).1).0
        ≡ map (since_request tasks s.times) later =
      times in
    rw (some_percent, shown)
      (refl, sum-percent (since total total') (map (since_request tasks s.times) later) long whole)
