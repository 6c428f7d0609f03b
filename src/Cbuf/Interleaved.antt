-- ===== src/Cbuf/Interleaved.antt =====
-- One reader and one writer at the circular buffer of main/CBUF.h at the same time, without mutual
-- exclusion: `CBUF_Push` and `CBUF_Pop` statement by statement, in any order.
use blackmagic_espidf.Base.{ℕ, ◌+◌, ◌*◌, ◌%◌, ◌<◌, ◌≡◌, ◌≢◌, List, [], ◌∷◌, ◌++◌, set}
use blackmagic_espidf.Cbuf
use blackmagic_espidf.Cbuf.{Cbuf}

-- Between its two statements the writer has stored its element, and the reader has loaded one.
pub data Pusher : Type 0 where
  free : Pusher
  stored : (elem : ℕ) → Pusher

pub data Popper : Type 0 where
  waiting : Popper
  loaded : (elem : ℕ) → Popper

-- With what was pushed and what was popped so far, oldest first.
pub record Shared : Type 0 where
  pub cbuf : Cbuf
  pub writer : Pusher
  pub reader : Popper
  pub pushed : List ℕ
  pub popped : List ℕ

module _ (size laps : ℕ) where
  -- The statements of `CBUF_Push`.
  unfoldable pub store : Cbuf → ℕ → Cbuf
  store c elem = record c { m_entry = set c.m_entry (c.m_put_idx % size) elem }

  unfoldable pub publish : Cbuf → Cbuf
  publish c = record c { m_put_idx = Cbuf.index size laps (c.m_put_idx + 1) }

  -- The writer begins where it has seen a free entry that the index can count, the reader where it has
  -- seen an entry.
  pub data Step (s : Shared) : Shared → Type 0 where
    begin_push :
        (elem : ℕ)
        → s.writer ≡ free
        → Cbuf.len size laps s.cbuf < size
        → Cbuf.len size laps s.cbuf + 1 < size * laps
        → Step s (record s { cbuf = store s.cbuf elem; writer = stored elem })
    end_push :
        (elem : ℕ)
        → s.writer ≡ stored elem
        → Step s (record s { cbuf = publish s.cbuf; writer = free; pushed = s.pushed ++ elem ∷ [] })
    begin_pop :
        s.reader ≡ waiting
        → Cbuf.len size laps s.cbuf ≢ 0
        → Step s (record s { reader = loaded (Cbuf.pop size laps s.cbuf).0 })
    end_pop :
        (elem : ℕ)
        → s.reader ≡ loaded elem
        → Step s (record s {
          cbuf = (Cbuf.pop size laps s.cbuf).1;
          reader = waiting;
          popped = s.popped ++ elem ∷ [];
        })

  pub data Reach (c : Cbuf) : Shared → Type 0 where
    start : Reach c (record {
      cbuf = Cbuf.init size laps c;
      writer = free;
      reader = waiting;
      pushed = [];
      popped = [];
    })
    later : {s s' : Shared} → Reach c s → Step s s' → Reach c s'
