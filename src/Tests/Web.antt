-- ===== src/Tests/Web.antt =====
-- The pages' requests and the terminal's size on concrete inputs.
use text.Mathlib.Text
use text.Mathlib.TextEquality.{eq_iff}
use Prim.Native.String.{String}
use mathlib.Core.Bool.{true≢false}
use blackmagic_espidf.Base.{
  ◌/◌, ◌≤◌, ℕ, ◌≡◌, ◌≢◌, refl, subst, Bool, true, false, ◌||◌, Bool-cases, inl, inr, none, some,
  List, [], ◌∷◌, map, arith,
}
use blackmagic_espidf.Base.Text.{codes, str_eq}
use blackmagic_espidf.Web.History.{
  no_end, parse_hex_string, parse_pairs, without_0x, without_space, send_line, includes, item,
  arrow_up,
}
use blackmagic_espidf.Web.Keys.{Key, enter, press, press_all}
use blackmagic_espidf.Web.Status.{
  since_request, hashmap_get, hashmap_set, task_times, since, cpu, total_runtime, counter_in,
}
use blackmagic_espidf.Web.Percent.{Status, cgi_status, sum, cgi_status-percent}
use blackmagic_espidf.Web.Routes.{
  IsMatcher, ends_in_star, file_system, built_in_urls, route, page_requests, index_imports, status,
}
use blackmagic_espidf.Web.Served.{
  literal, intended, built_in_urls-AllPlain, route-literal, page_requests-intended,
}

literal-ne :
    (pattern' path : String)
    → ends_in_star (codes pattern') ≡ false
    → pattern' ≢ path
    → literal pattern' path ≡ false
unfolding ends_in_star
literal-ne pattern' path plain other = elim (Bool-cases (Text.◌==◌ pattern' "*")) [
  | inl star ↦ absurd (no_star ((eq_iff pattern' "*").0 star))
  | inr plain_text ↦ elim (Bool-cases (Text.◌==◌ pattern' path)) [
    | inl same ↦ absurd (other ((eq_iff pattern' path).0 same))
    | inr differ ↦ rw (plain_text, differ) refl
  ]
]
  where
    no_star : pattern' ≢ "*"
    no_star e = true≢false (subst (λ p. ends_in_star (codes p) ≡ false) e plain)

literal-IsMatcher : IsMatcher literal
literal-IsMatcher = record {
  any = λ path. refl;
  own = λ path plain. rw ((eq_iff path path).1 refl) (or_true (Text.◌==◌ path "*"));
  plain = literal-ne;
}
  where
    or_true : (b : Bool) → (b || true) ≡ true
    or_true true = refl
    or_true false = refl

route-literal_example : route literal built_in_urls "/status" ≡ some status
unfolding route
route-literal_example =
    route-literal literal built_in_urls "/status" literal-IsMatcher built_in_urls-AllPlain

page_requests-intended_example :
    (map (route literal built_in_urls) page_requests ≡ intended)
    × (map (λ x. route literal built_in_urls x.1) index_imports
        ≡ some file_system ∷ some file_system ∷ [])
page_requests-intended_example = page_requests-intended literal literal-IsMatcher

-- Task 1 runs on over the wrap of its counter, and task 2 is new.
abbrev asked_before : Status
asked_before = record { times = []; last_total_runtime = 0 }

cgi_status-percent_example :
    let tasks : List (ℕ × ℕ) = (1, 4294967290) ∷ [] in
    let later : List (ℕ × ℕ) = (1, 5000) ∷ (2, 50) ∷ [] in
    let first : Status = (cgi_status false (some tasks) 4294967000 asked_before).0 in
    let rows : List (ℕ × ℕ) = (cgi_status false (some later) 12704 first).1 in
    (rows
      ≡ map (λ r. (r.0, r.1 / (since 4294967000 12704 / 100))) (map (since_request tasks []) later))
    × (sum rows ≤ 100)
unfolding counter_in hashmap_get
cgi_status-percent_example =
    cgi_status-percent ((1, 4294967290) ∷ []) ((1, 5000) ∷ (2, 50) ∷ []) 4294967000 12704
      asked_before (tt, tt) ((omega arith, tt), (tt, tt)) (omega arith) (omega arith)

percent_test :
    (cgi_status false
      (some ((1, 5000) ∷ (2, 50) ∷ []))
      12704
      (cgi_status false (some ((1, 4294967290) ∷ [])) 4294967000 asked_before).0).1
    ≡ (1, 38) ∷ (2, 0) ∷ []
unfolding cgi_status cpu total_runtime task_times hashmap_get hashmap_set
percent_test = refl

wrap_test :
    (task_times ((1, 3) ∷ (2, 50) ∷ []) (task_times ((1, 4294967290) ∷ []) []).1).0
    ≡ (1, 9) ∷ (2, 0) ∷ []
unfolding task_times hashmap_get hashmap_set
wrap_test = refl

-- Two lines, the last one first.
abbrev two_lines : List Key
two_lines = enter no_end (codes "ver") ∷ enter no_end (codes "help") ∷ []

abbrev no_parse : ℕ → ℕ → ℕ
no_parse a b = 0

-- ArrowUp shows the line in front of the one sent last, and with a single line none.
up_test : (arrow_up (press_all str_eq no_parse two_lines)).value ≡ some (codes "help")
unfolding press_all press send_line includes arrow_up item str_eq
up_test = refl

single_test : (arrow_up (press_all str_eq no_parse (enter no_end (codes "ver") ∷ []))).value ≡ none
unfolding press_all press send_line includes arrow_up item str_eq
single_test = refl

-- The second space stays in a pair.
spaces_test : parse_hex_string (λ a b. a) (codes "01 02 03") ≡ b'0' ∷ b'0' ∷ b' ' ∷ []
unfolding parse_hex_string parse_pairs without_0x without_space
spaces_test = refl
