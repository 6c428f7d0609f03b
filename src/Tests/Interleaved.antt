-- ===== src/Tests/Interleaved.antt =====
-- A push and a pop of main/CBUF.h that interleave.
use blackmagic_espidf.Base.{◌≡◌, refl, [], ◌∷◌, ◌++◌, arith}
use blackmagic_espidf.Cbuf
use blackmagic_espidf.Cbuf.{Cbuf}
use blackmagic_espidf.Cbuf.Queue.{contents}
use blackmagic_espidf.Cbuf.Interleaved.{
  stored, waiting, Shared, begin_push, end_push, begin_pop, end_pop, store, publish, Reach, start,
  later,
}
use blackmagic_espidf.Cbuf.Fifo.{Reach-fifo}

abbrev fresh : Cbuf
fresh = record { m_get_idx = 0; m_put_idx = 0; m_entry = 0 ∷ 0 ∷ 0 ∷ 0 ∷ [] }

-- 7 is pushed, and is popped while 8 is pushed.
abbrev both : Shared
both = record {
  cbuf = record { m_get_idx = 1; m_put_idx = 1; m_entry = 7 ∷ 8 ∷ 0 ∷ 0 ∷ [] };
  writer = stored 8;
  reader = waiting;
  pushed = 7 ∷ [];
  popped = 7 ∷ [];
}

Reach-both : Reach 4 64 fresh both
unfolding Cbuf.init Cbuf.pop store publish
Reach-both =
    later
      (later
        (later
          (later (later start (begin_push 7 refl (omega arith) (omega arith))) (end_push 7 refl))
          (begin_pop refl (omega arith)))
        (begin_push 8 refl (omega arith) (omega arith)))
      (end_pop 7 refl)

Reach-fifo_example : both.pushed ≡ both.popped ++ contents 4 64 both.cbuf
Reach-fifo_example = Reach-fifo 4 64 refl (omega arith) Reach-both
