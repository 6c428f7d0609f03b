-- ===== src/Cbuf/Fifo.antt =====
-- The elements that one reader pops from the circular buffer of main/CBUF.h are those that one writer
-- pushes, in order, however their statements interleave.
use native.Mathlib.Nat.{mod-lt, mod_self}
use blackmagic_espidf.Base.{
  ℕ, zero, suc, ◌+◌, ◌-◌, ◌*◌, ◌%◌, ◌<◌, ◌≡◌, ◌≢◌, refl, sym, ◌∙◌, ap, subst, List, [], ◌∷◌, ◌++◌,
  append_assoc, length, length-set, get_or, set, arith,
}
use blackmagic_espidf.Cbuf
use blackmagic_espidf.Cbuf.{Cbuf}
use blackmagic_espidf.Cbuf.Queue.{
  IsValid, contents, push_refines, pop_refines, length-contents, contents-set,
}
use blackmagic_espidf.Cbuf.Window.{get_or-set_self}
use blackmagic_espidf.Cbuf.Interleaved.{
  Pusher, free, stored, Popper, waiting, loaded, Shared, store, publish, Step, begin_push, end_push,
  begin_pop, end_pop, Reach, start, later,
}

set-get_or : (xs : List ℕ) (i : ℕ) → set xs i (get_or xs i 0) ≡ xs
set-get_or [] i = refl
set-get_or (x ∷ xs) zero = refl
set-get_or (x ∷ xs) (suc i) = ap (λ l. x ∷ l) (set-get_or xs i)

module _ (size laps : ℕ) where
  -- What the writer has stored stands behind the entries that are held.
  abbrev IsStored : Cbuf → Pusher → Type 0
  IsStored c free = Unit
  IsStored c (stored elem) =
      (get_or c.m_entry (c.m_put_idx % size) 0 ≡ elem)
      × (Cbuf.len size laps c < size)
      × (Cbuf.len size laps c + 1 < size * laps)

  -- What the reader has loaded is the oldest entry.
  abbrev IsLoaded : List ℕ → Popper → Type 0
  IsLoaded held waiting = Unit
  IsLoaded held (loaded elem) = (rest : List ℕ) × (held ≡ elem ∷ rest)

  pub record Inv (s : Shared) : Type 0 where
    pub valid : IsValid size laps s.cbuf
    pub queue : s.pushed ≡ s.popped ++ contents size laps s.cbuf
    pub writes : IsStored s.cbuf s.writer
    pub reads : IsLoaded (contents size laps s.cbuf) s.reader

  store-contents :
      (c : Cbuf) (elem : ℕ)
      → IsValid size laps c
      → Cbuf.len size laps c < size
      → contents size laps (store size laps c elem) ≡ contents size laps c
  unfolding store
  store-contents c elem v room = contents-set size laps c elem v room

  publish-contents :
      (c : Cbuf) (elem : ℕ)
      → IsValid size laps c
      → IsStored c (stored elem)
      → IsValid size laps (publish size laps c)
        × (contents size laps (publish size laps c) ≡ contents size laps c ++ elem ∷ [])
  unfolding publish Cbuf.push
  publish-contents c elem v h =
      let same : set c.m_entry (c.m_put_idx % size) elem ≡ c.m_entry =
        ap (set c.m_entry (c.m_put_idx % size)) (sym h.0)
        ∙ set-get_or c.m_entry (c.m_put_idx % size) in
      let pushed : Cbuf.push size laps c elem ≡ publish size laps c =
        ap (λ e. record c { m_entry = e; m_put_idx = Cbuf.index size laps (c.m_put_idx + 1) })
          same in
      subst
        (λ c'. IsValid size laps c' × (contents size laps c' ≡ contents size laps c ++ elem ∷ []))
        pushed (push_refines size laps c elem v h.1 h.2)

  IsLoaded-append : (held more : List ℕ) (r : Popper) → IsLoaded held r → IsLoaded (held ++ more) r
  IsLoaded-append held more waiting h = tt
  IsLoaded-append held more (loaded elem) (rest, e) = (rest ++ more, ap (λ l. l ++ more) e)

  -- An entry that is popped leaves more room.
  IsStored-pop :
      (c : Cbuf) (w : Pusher)
      → Cbuf.len size laps (Cbuf.pop size laps c).1 + 1 ≡ Cbuf.len size laps c
      → IsStored c w
      → IsStored (Cbuf.pop size laps c).1 w
  unfolding Cbuf.pop
  IsStored-pop c free e h = tt
  IsStored-pop c (stored elem) e h = (h.0, omega (arith, h.1), omega (arith, h.2))

  some_held :
      (c : Cbuf) (elem : ℕ) (rest : List ℕ)
      → contents size laps c ≡ elem ∷ rest
      → Cbuf.len size laps c ≢ 0
  some_held c elem rest e none =
      let held : length (contents size laps c) ≡ Cbuf.len size laps c =
        length-contents size laps c in
      let one : length (contents size laps c) ≡ suc (length rest) = ap length e in omega arith

  pop-len :
      (c : Cbuf) (elem : ℕ)
      → contents size laps c ≡ elem ∷ contents size laps (Cbuf.pop size laps c).1
      → Cbuf.len size laps (Cbuf.pop size laps c).1 + 1 ≡ Cbuf.len size laps c
  pop-len c elem e =
      let c' = (Cbuf.pop size laps c).1 in
      let held = length-contents size laps c in
      let held' = length-contents size laps c' in
      let one : length (contents size laps c) ≡ suc (length (contents size laps c')) =
        ap length e in
      omega arith

  Step-Inv : {s s' : Shared} → Step size laps s s' → Inv s → Inv s'
  Step-Inv {s} (begin_push elem w room counts) inv =
      let same = store-contents s.cbuf elem inv.valid room in
      record {
        valid =
            unfold store in
            record {
              get_in = inv.valid.get_in;
              put_in = inv.valid.put_in;
              whole = length-set s.cbuf.m_entry (s.cbuf.m_put_idx % size) elem ∙ inv.valid.whole;
              within = inv.valid.within;
            };
        queue = inv.queue ∙ ap (λ l. s.popped ++ l) (sym same);
        writes =
            unfold store in
            (
              get_or-set_self s.cbuf.m_entry (s.cbuf.m_put_idx % size) elem (
                  omega (arith, inv.valid.whole, mod-lt s.cbuf.m_put_idx {m = size} (omega arith))),
              room,
              counts,
            );
        reads = subst (λ l. IsLoaded l s.reader) (sym same) inv.reads;
      }
  Step-Inv {s} (end_push elem w) inv =
      let (valid', same) =
        publish-contents s.cbuf elem inv.valid (subst (IsStored s.cbuf) w inv.writes) in
      record {
        valid = valid';
        queue =
            ap (λ l. l ++ elem ∷ []) inv.queue
            ∙ append_assoc s.popped (contents size laps s.cbuf) (elem ∷ [])
            ∙ ap (λ l. s.popped ++ l) (sym same);
        writes = tt;
        reads =
            subst (λ l. IsLoaded l s.reader) (sym same)
              (IsLoaded-append (contents size laps s.cbuf) (elem ∷ []) s.reader inv.reads);
      }
  Step-Inv {s} (begin_pop r some_entry) inv =
      let (valid', first) = pop_refines size laps s.cbuf inv.valid some_entry in
      record {
        valid = inv.valid;
        queue = inv.queue;
        writes = inv.writes;
        reads = (contents size laps (Cbuf.pop size laps s.cbuf).1, first);
      }
  Step-Inv {s} (end_pop elem r) inv =
      let (rest, e) = subst (IsLoaded (contents size laps s.cbuf)) r inv.reads in
      let (valid', first) = pop_refines size laps s.cbuf inv.valid (some_held s.cbuf elem rest e) in
      let c' = (Cbuf.pop size laps s.cbuf).1 in
      let same : (Cbuf.pop size laps s.cbuf).0 ≡ elem = cc in
      let held : contents size laps s.cbuf ≡ elem ∷ contents size laps c' =
        first ∙ ap (λ x. x ∷ contents size laps c') same in
      record {
        valid = valid';
        queue =
            inv.queue
            ∙ ap (λ l. s.popped ++ l) held
            ∙ sym (append_assoc s.popped (elem ∷ []) (contents size laps c'));
        writes = IsStored-pop s.cbuf s.writer (pop-len s.cbuf elem held) inv.writes;
        reads = tt;
      }

  no_entries : (c : Cbuf) → Cbuf.len size laps c ≡ 0 → contents size laps c ≡ []
  no_entries c none = nil (contents size laps c) (length-contents size laps c ∙ none)
    where
      nil : (xs : List ℕ) → length xs ≡ 0 → xs ≡ []
      nil [] e = refl
      nil (x ∷ xs) e = absurd (omega (arith, e))

  init-Inv :
      (c : Cbuf)
      → length c.m_entry ≡ size
      → 0 < size * laps
      → Inv (record {
        cbuf = Cbuf.init size laps c;
        writer = free;
        reader = waiting;
        pushed = [];
        popped = [];
      })
  unfolding Cbuf.init
  init-Inv c whole some_index =
      let c' = Cbuf.init size laps c in
      let m : ℕ = size * laps in
      let none : (0 + m - 0) % m ≡ 0 = ap (λ k. k % m) {y = m} (omega arith) ∙ mod_self m in
      record {
        valid = record {
          get_in = some_index;
          put_in = some_index;
          whole = whole;
          within = omega arith;
        };
        queue = sym (no_entries c' none);
        writes = tt;
        reads = tt;
      }

  Reach-Inv :
      {c : Cbuf} {s : Shared}
      → length c.m_entry ≡ size
      → 0 < size * laps
      → Reach size laps c s
      → Inv s
  Reach-Inv {c} whole some_index start = init-Inv c whole some_index
  Reach-Inv whole some_index (later r st) = Step-Inv st (Reach-Inv whole some_index r)

  -- One writer and one reader need no mutual exclusion: however the statements of their pushes and pops
  -- interleave, the elements that were popped, and behind them those that are held, are the elements that
  -- were pushed, in order. Conditions: the array has its size; the writer begins a push where it has seen
  -- a free entry that the index can count, and the reader a pop where it has seen an entry.
  pub Reach-fifo :
      {c : Cbuf} {s : Shared}
      → length c.m_entry ≡ size
      → 0 < size * laps
      → Reach size laps c s
      → s.pushed ≡ s.popped ++ contents size laps s.cbuf
  Reach-fifo whole some_index r = (Reach-Inv whole some_index r).queue
