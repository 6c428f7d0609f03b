-- ===== src/Exception/Scopes.antt =====
-- `TRY_CATCH` as exceptions with scopes: what components/blackmagic/exception.h promises.
use blackmagic_espidf.Base.{
  ℕ, ◌<◌, ◌≡◌, refl, sym, ap, subst, ◌∙◌, Bool, true, false, Option, none, some, List, [], ◌∷◌,
  ◌++◌, append-nil, append_assoc, length, ◌==◌, if◌then◌else◌, Bool-cases, inl, inr, arith,
}
use blackmagic_espidf.Exception.{
  Frames, matches, raise_exception, Code, skip, act, raise, try_catch, Ended, returned, jumped,
  aborted, and_before, jump, after_body, run,
}

-- What code does, and the exception that leaves it.
pub data Outcome : Type 0 where
  done : List ℕ → Outcome
  uncaught : List ℕ → (type' : ℕ) → Outcome

abbrev pub done_before : List ℕ → Outcome → Outcome
done_before acts (done acts') = done (acts ++ acts')
done_before acts (uncaught acts' type') = uncaught (acts ++ acts') type'

-- An exception goes to the innermost handler of its type, in the order of the text.
abbrev pub handled_by : (mask : ℕ) → (behind : ℕ → Outcome) → Outcome → Outcome
handled_by mask behind (done acts) = done_before acts (behind 0)
handled_by mask behind (uncaught acts type') =
    if matches mask type' then done_before acts (behind type') else uncaught acts type'

unfoldable pub eval : Code → Outcome
eval skip = done []
eval (act a code) = done_before (a ∷ []) (eval code)
eval (raise type') = uncaught [] type'
eval (try_catch mask body behind) = handled_by mask (λ type'. eval (behind type')) (eval body)

-- The same with frames: an exception that leaves the code goes to a frame outside it, or aborts.
abbrev pub in_frames : Frames → Outcome → Ended
in_frames frames (done acts) = returned acts frames
in_frames frames (uncaught acts type') = and_before acts (jump type' (raise_exception type' frames))

raise_exception-shorter :
    (type' : ℕ) (frames outer : Frames)
    → raise_exception type' frames ≡ some outer
    → length outer < length frames
unfolding raise_exception
raise_exception-shorter type' [] outer e = ground arith
raise_exception-shorter type' (mask ∷ frames) outer e = elim (Bool-cases (matches mask type')) [
  | inl here ↦ ground arith
  | inr further ↦
      let shorter = raise_exception-shorter type' frames outer (
        subst (λ b. (if b then some frames else raise_exception type' frames) ≡ some outer) further
          e) in
      omega arith
]

before-in_frames :
    (frames : Frames) (acts : List ℕ) (o : Outcome)
    → and_before acts (in_frames frames o) ≡ in_frames frames (done_before acts o)
before-in_frames frames acts (done acts') = refl
before-in_frames frames acts (uncaught acts' type') = joined (raise_exception type' frames)
  where
    joined :
        (r : Option Frames)
        → and_before acts (and_before acts' (jump type' r))
          ≡ and_before (acts ++ acts') (jump type' r)
    joined none = ap aborted (sym (append_assoc acts acts' []))
    joined (some outer) = ap (λ l. jumped l outer type') (sym (append_assoc acts acts' []))

passed_on :
    (frames : Frames) (behind : ℕ → Ended) (acts : List ℕ) (type' : ℕ) (r : Option Frames)
    → raise_exception type' frames ≡ r
    → after_body frames behind (and_before acts (jump type' r)) ≡ and_before acts (jump type' r)
passed_on frames behind acts type' none e = refl
passed_on frames behind acts type' (some outer) e =
    let shorter = raise_exception-shorter type' frames outer e in ground arith

caught :
    (frames : Frames) (behind : ℕ → Ended) (acts : List ℕ) (type' : ℕ)
    → after_body frames behind (and_before acts (jump type' (some frames)))
      ≡ and_before acts (behind type')
caught frames behind acts type' =
    let own : (length frames == length frames) ≡ true = ground arith in
    rw own (ap (λ l. and_before l (behind type')) (append-nil acts))

after_body-in_frames :
    (frames : Frames) (mask : ℕ) (behind : ℕ → Ended) (behind' : ℕ → Outcome) (o : Outcome)
    → ((type' : ℕ) → behind type' ≡ in_frames frames (behind' type'))
    → after_body frames behind (in_frames (mask ∷ frames) o)
      ≡ in_frames frames (handled_by mask behind' o)
unfolding raise_exception
after_body-in_frames frames mask behind behind' (done acts) h =
    ap (and_before acts) (h 0) ∙ before-in_frames frames acts (behind' 0)
after_body-in_frames frames mask behind behind' (uncaught acts type') h =
    by_match (matches mask type')
  where
    by_match :
        (b : Bool)
        → after_body frames behind
            (and_before acts (jump type' (if b then some frames else raise_exception type' frames)))
          ≡ in_frames frames (if b then done_before acts (behind' type') else uncaught acts type')
    by_match true =
        caught frames behind acts type'
        ∙ ap (and_before acts) (h type')
        ∙ before-in_frames frames acts (behind' type')
    by_match false = passed_on frames behind acts type' (raise_exception type' frames) refl

-- Whatever the code: with the frames of `TRY_CATCH` on the task's stack, an exception goes to the
-- innermost enclosing handler whose mask has its type, which sees this type; where there is none it goes
-- to the frames outside, and aborts if none of them takes it. Code that ends leaves the frames as
-- they were.
pub run_refines : (code : Code) (frames : Frames) → run code frames ≡ in_frames frames (eval code)
unfolding run eval
run_refines skip frames = refl
run_refines (act a code) frames =
    ap (and_before (a ∷ [])) (run_refines code frames)
    ∙ before-in_frames frames (a ∷ []) (eval code)
run_refines (raise type') frames = nothing_before (jump type' (raise_exception type' frames))
  where
    nothing_before : (o : Ended) → o ≡ and_before [] o
    nothing_before (returned acts frames') = refl
    nothing_before (jumped acts outer type'') = refl
    nothing_before (aborted acts) = refl
run_refines (try_catch mask body behind) frames =
    ap (after_body frames (λ type'. run (behind type') frames)) (run_refines body (mask ∷ frames))
    ∙ after_body-in_frames frames mask (λ type'. run (behind type') frames)
        (λ type'. eval (behind type')) (eval body) (λ type'. run_refines (behind type') frames)
