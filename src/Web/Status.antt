-- ===== src/Web/Status.antt =====
-- The run times of the page `/status`: main/hashmap.cpp, and the loop of `cgi_status` of main/http.c.
use blackmagic_espidf.Base.{
  ℕ, ◌+◌, ◌-◌, ◌/◌, ◌%◌, ◌^◌, ◌≡◌, ◌≢◌, refl, sym, ap, ap₂, subst, ==_iff, ◌∙◌, Option, none, some,
  List, [], ◌∷◌, map, ◌==◌, if◌then◌else◌, Bool-cases, inl, inr, arith,
}

-- `std::unordered_map<int, uint32_t>`, each key once.
abbrev pub Map : Type 0
Map = List (ℕ × ℕ)

abbrev hashmap_new : Map
hashmap_new = []

unfoldable pub hashmap_set : (id value : ℕ) → Map → Map
hashmap_set id value [] = (id, value) ∷ []
hashmap_set id value ((k, v) ∷ hm) =
    let rest = hashmap_set id value hm in if k == id then (k, value) ∷ hm else (k, v) ∷ rest

-- Nothing where it returns 0; `value` is left alone then.
unfoldable pub hashmap_get : (id : ℕ) → Map → Option ℕ
hashmap_get id [] = none
hashmap_get id ((k, v) ∷ hm) = let rest = hashmap_get id hm in if k == id then some v else rest

abbrev pub or_else : ℕ → Option ℕ → ℕ
or_else value none = value
or_else value (some v) = v

-- `ulRunTimeCounter -= last_task_time`, on `uint32_t`.
abbrev pub since : (last now : ℕ) → ℕ
since last now = (now + 2 ^ 32 - last) % 2 ^ 32

-- The loop over the tasks, each with its number and its counter: what each shows, and the map.
unfoldable pub task_times : List (ℕ × ℕ) → Map → List (ℕ × ℕ) × Map
task_times [] hm = ([], hm)
task_times ((id, counter) ∷ tasks) hm =
    let last : ℕ = or_else counter (hashmap_get id hm) in
    let (rows, hm') = task_times tasks (hashmap_set id counter hm) in
    ((id, since last counter) ∷ rows, hm')

-- `total_runtime` behind the divisions, from the counter and the one of the last request.
unfoldable pub total_runtime : (last now : ℕ) → ℕ
total_runtime last now =
    let percent : ℕ = since last now / 100 in if percent == 0 then 1 else percent

unfoldable pub cpu : (last now : ℕ) → List (ℕ × ℕ) → List (ℕ × ℕ)
unfolding total_runtime
cpu last now rows = map (λ r. (r.0, r.1 / total_runtime last now)) rows

get-set : (id value : ℕ) (hm : Map) → hashmap_get id (hashmap_set id value hm) ≡ some value
unfolding hashmap_get hashmap_set
get-set id value [] = ground arith
get-set id value ((k, v) ∷ hm) = let ih = get-set id value hm in ground arith

get-set_other :
    (id other value : ℕ) (hm : Map)
    → id ≢ other
    → hashmap_get id (hashmap_set other value hm) ≡ hashmap_get id hm
unfolding hashmap_get hashmap_set
get-set_other id other value [] ne = ground arith
get-set_other id other value ((k, v) ∷ hm) ne =
    let ih = get-set_other id other value hm ne in ground arith

-- No task has the number.
abbrev pub IsAbsent : ℕ → List (ℕ × ℕ) → Type 0
IsAbsent id [] = Unit
IsAbsent id ((k, v) ∷ tasks) = (id ≢ k) × IsAbsent id tasks

-- The numbers differ.
abbrev pub AreDistinct : List (ℕ × ℕ) → Type 0
AreDistinct [] = Unit
AreDistinct ((id, counter) ∷ tasks) = IsAbsent id tasks × AreDistinct tasks

-- The counter of a task in a list, or else another value.
unfoldable pub counter_in : (id : ℕ) → List (ℕ × ℕ) → Option ℕ → Option ℕ
counter_in id [] before = before
counter_in id ((k, v) ∷ tasks) before =
    let rest = counter_in id tasks before in if k == id then some v else rest

-- What the page is to show, from the map before.
abbrev pub shown : Map → ℕ × ℕ → ℕ × ℕ
shown hm (id, counter) = (id, since (or_else counter (hashmap_get id hm)) counter)

shown-set :
    (id counter : ℕ) (hm : Map) (tasks : List (ℕ × ℕ))
    → IsAbsent id tasks
    → map (shown (hashmap_set id counter hm)) tasks ≡ map (shown hm) tasks
shown-set id counter hm [] h = refl
shown-set id counter hm ((k, v) ∷ tasks) h =
    let e = get-set_other k id counter hm (λ e. h.0 (sym e)) in
    rw (e, shown-set id counter hm tasks h.1) refl

task_times-shown :
    (tasks : List (ℕ × ℕ)) (hm : Map)
    → AreDistinct tasks
    → (task_times tasks hm).0 ≡ map (shown hm) tasks
unfolding task_times
task_times-shown [] hm h = refl
task_times-shown ((id, counter) ∷ tasks) hm h =
    ap (λ rows. shown hm (id, counter) ∷ rows)
      (task_times-shown tasks (hashmap_set id counter hm) h.1 ∙ shown-set id counter hm tasks h.0)

counter_in-absent :
    (id : ℕ) (tasks : List (ℕ × ℕ)) (before : Option ℕ)
    → IsAbsent id tasks
    → counter_in id tasks before ≡ before
unfolding counter_in
counter_in-absent id [] before h = refl
counter_in-absent id ((k, v) ∷ tasks) before h =
    let ih = counter_in-absent id tasks before h.1 in let ne = h.0 in ground arith

get-task_times :
    (id : ℕ) (tasks : List (ℕ × ℕ)) (hm : Map)
    → AreDistinct tasks
    → hashmap_get id (task_times tasks hm).1 ≡ counter_in id tasks (hashmap_get id hm)
unfolding task_times counter_in
get-task_times id [] hm h = refl
get-task_times id ((k, v) ∷ tasks) hm h = elim (Bool-cases (k == id)) [
  | inl same ↦
      let e : k ≡ id = (==_iff k id).0 same in
      rw same (
        get-task_times id tasks (hashmap_set k v hm) h.1
        ∙ counter_in-absent id tasks _ (subst (λ i. IsAbsent i tasks) e h.0)
        ∙ subst (λ i. hashmap_get i (hashmap_set k v hm) ≡ some v) e (get-set k v hm))
  | inr differ ↦
      let ne : id ≢ k = λ e. ground arith in
      rw differ (
        get-task_times id tasks (hashmap_set k v hm) h.1
        ∙ ap (counter_in id tasks) (get-set_other id k v hm ne))
]

-- What a task is to show behind a request of other tasks.
abbrev pub since_request : List (ℕ × ℕ) → Map → ℕ × ℕ → ℕ × ℕ
since_request tasks hm (id, counter) =
    (id, since (or_else counter (counter_in id tasks (hashmap_get id hm))) counter)

map-pointwise :
    (f g : ℕ × ℕ → ℕ × ℕ) (tasks : List (ℕ × ℕ))
    → ((t : ℕ × ℕ) → f t ≡ g t)
    → map f tasks ≡ map g tasks
map-pointwise f g [] h = refl
map-pointwise f g (t ∷ tasks) h = ap₂ (λ x xs. x ∷ xs) (h t) (map-pointwise f g tasks h)

-- Two requests, one after another, of tasks with different numbers: the second shows for each task the
-- time since the first, on 32 bits; for a task that the first did not have, the time since the last
-- request that had it, and 0 for a task that no request had.
pub task_times-since :
    (tasks later : List (ℕ × ℕ)) (hm : Map)
    → AreDistinct tasks
    → AreDistinct later
    → (task_times later (task_times tasks hm).1).0 ≡ map (since_request tasks hm) later
task_times-since tasks later hm h h' =
    task_times-shown later (task_times tasks hm).1 h'
    ∙ map-pointwise _ _ later
        (λ t. ap (λ last. (t.0, since (or_else t.1 last) t.1)) (get-task_times t.0 tasks hm h))
