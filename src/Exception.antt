-- ===== src/Exception.antt =====
-- Exceptions of the probe firmware: `raise_exception` of components/blackmagic/exception.c and
-- `TRY_CATCH` of components/blackmagic/exception.h.
use Prim.Native.Nat.{bit_and}
use blackmagic_espidf.Base.{
  ℕ, ◌+◌, Bool, true, false, not, Option, none, some, List, [], ◌∷◌, ◌++◌, length, ◌==◌,
  if◌then◌else◌,
}
pub mod Scopes

-- What a task keeps of a `struct exception` on its stack: the mask. The task's innermost frame is the
-- head of the list, and `outer` its tail.
abbrev pub Frames : Type 0
Frames = List ℕ

-- `e->mask & type`, in a test.
abbrev pub matches : (mask type' : ℕ) → Bool
matches mask type' = not (bit_and mask type' == 0)

-- The loop of `raise_exception`: the frames outside the one that it jumps to, or nothing where it
-- aborts.
unfoldable pub raise_exception : (type' : ℕ) → Frames → Option Frames
raise_exception type' [] = none
raise_exception type' (mask ∷ outer) =
    let further = raise_exception type' outer in if matches mask type' then some outer else further

-- Code that uses exceptions; `act` is a step of its own, and the code behind a `TRY_CATCH` reads
-- `e.type`, which is 0 where nothing was raised.
pub data Code : Type 0 where
  skip : Code
  act : ℕ → Code → Code
  raise : (type' : ℕ) → Code
  try_catch : (mask : ℕ) → (body : Code) → (behind : ℕ → Code) → Code

-- How it ends: what it did and the frames then; or, for a jump, the frames outside the one that it
-- goes to, and the type.
pub data Ended : Type 0 where
  returned : List ℕ → Frames → Ended
  jumped : List ℕ → (outer : Frames) → (type' : ℕ) → Ended
  aborted : List ℕ → Ended

abbrev pub and_before : List ℕ → Ended → Ended
and_before acts (returned acts' frames) = returned (acts ++ acts') frames
and_before acts (jumped acts' outer type') = jumped (acts ++ acts') outer type'
and_before acts (aborted acts') = aborted (acts ++ acts')

abbrev pub jump : (type' : ℕ) → Option Frames → Ended
jump type' none = aborted []
jump type' (some outer) = jumped [] outer type'

-- The end of a body of a `TRY_CATCH` with `outer` frames outside it: `longjmp` has come to its
-- `setjmp`, or goes on; or the loop has set the innermost frame to `outer`.
abbrev pub after_body : (outer : Frames) → (behind : ℕ → Ended) → Ended → Ended
after_body outer behind (returned acts frames) = and_before acts (behind 0)
after_body outer behind (jumped acts target type') =
    if length target == length outer
    then and_before acts (behind type')
    else jumped acts target type'
after_body outer behind (aborted acts) = aborted acts

unfoldable pub run : Code → Frames → Ended
unfolding raise_exception
run skip frames = returned [] frames
run (act a code) frames = and_before (a ∷ []) (run code frames)
run (raise type') frames = jump type' (raise_exception type' frames)
run (try_catch mask body behind) frames =
    after_body frames (λ type'. run (behind type') frames) (run body (mask ∷ frames))
