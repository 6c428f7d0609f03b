-- ===== src/Cbuf.antt =====
-- The circular buffer of main/CBUF.h. The macros work on any struct with a power of two of entries
-- and two unsigned indices; here `size` is the number of entries (`CBUF_Size`) and `laps` says how
-- often they fit the range of an index, which is `size * laps`. An entry is a number. `x & CBUF_Mask`
-- is `x % size`, and a pointer to an entry is its index.
pub mod Index
pub mod Window
pub mod Queue
pub mod Interleaved
pub mod Fifo
use blackmagic_espidf.Base.{
  ℕ, ◌+◌, ◌-◌, ◌*◌, ◌/◌, ◌%◌, ◌^◌, Bool, not, List, ◌==◌, ltb, get_or, set, if◌then◌else◌,
}

pub record Cbuf : Type 0 where
  pub m_get_idx : ℕ
  pub m_put_idx : ℕ
  pub m_entry : List ℕ

module _ (size laps : ℕ) where
  -- The conversion to the index type.
  abbrev pub index : ℕ → ℕ
  index n = n % (size * laps)

  -- `size_t` is of 32 bits.
  abbrev sub_size : ℕ → ℕ → ℕ
  sub_size a b = (a + 2 ^ 32 - b) % 2 ^ 32

  unfoldable pub init : Cbuf → Cbuf
  init c = record c { m_get_idx = 0; m_put_idx = 0 }

  -- `m_put_idx - m_get_idx` in the index type.
  abbrev pub len : Cbuf → ℕ
  len c = index (c.m_put_idx + size * laps - c.m_get_idx)

  abbrev pub space : Cbuf → ℕ
  space c = sub_size size (len c)

  -- The indices differ in a bit above the mask.
  abbrev wrapped : Cbuf → Bool
  wrapped c = not (c.m_put_idx / size == c.m_get_idx / size)

  abbrev contig_len : Cbuf → ℕ
  contig_len c = if wrapped c then size - c.m_get_idx % size else len c

  abbrev contig_space : Cbuf → ℕ
  contig_space c = if wrapped c then space c else size - c.m_put_idx % size

  unfoldable pub push : Cbuf → ℕ → Cbuf
  push c elem = record c {
    m_entry = set c.m_entry (c.m_put_idx % size) elem;
    m_put_idx = index (c.m_put_idx + 1);
  }

  unfoldable pub pop : Cbuf → ℕ × Cbuf
  pop c =
      (get_or c.m_entry (c.m_get_idx % size) 0, record c { m_get_idx = index (c.m_get_idx + 1) })

  -- The entry pushed last, and the entries to push and to pop next.
  abbrev last_entry_ptr : Cbuf → ℕ
  last_entry_ptr c = (c.m_put_idx + 2 ^ 32 - 1) % 2 ^ 32 % size

  abbrev push_entry_ptr : Cbuf → ℕ
  push_entry_ptr c = c.m_put_idx % size

  abbrev pop_entry_ptr : Cbuf → ℕ
  pop_entry_ptr c = c.m_get_idx % size

  unfoldable advance_push_idx_by : Cbuf → ℕ → Cbuf
  advance_push_idx_by c n = record c { m_put_idx = index (c.m_put_idx + n) }

  unfoldable advance_pop_idx_by : Cbuf → ℕ → Cbuf
  advance_pop_idx_by c n = record c { m_get_idx = index (c.m_get_idx + n) }

  unfoldable get : Cbuf → ℕ → ℕ
  get c idx = get_or c.m_entry ((c.m_get_idx + idx) % size) 0

  -- The index is computed in 32 bits, `idx` being an `int`.
  unfoldable get_end : Cbuf → ℕ → ℕ
  get_end c idx = get_or c.m_entry ((c.m_put_idx + 2 ^ 32 - idx - 1) % 2 ^ 32 % size) 0

  abbrev pub is_empty : Cbuf → Bool
  is_empty c = len c == 0

  abbrev pub is_full : Cbuf → Bool
  is_full c = space c == 0

  -- Overflowed or underflowed.
  abbrev pub error : Cbuf → Bool
  error c = ltb size (len c)
