-- ===== src/Cbuf/Queue.antt =====
-- The circular buffer is a queue while it holds fewer entries than it has, and fewer than its index
-- can count.
use native.Mathlib.Nat.{mod-mod_of_dvd, mod-lt, dvd-mul_right}
use blackmagic_espidf.Base.{
  ℕ, suc, ◌+◌, ◌-◌, ◌*◌, ◌%◌, ◌^◌, ◌≤◌, ◌<◌, ◌≡◌, ◌≢◌, ◌↔◌, sym, ◌∙◌, ap, true, false, List, [],
  ◌∷◌, ◌++◌, length, length-set, get_or, set, ◌==◌, ==_iff, ltb, arith,
}
use blackmagic_espidf.Cbuf
use blackmagic_espidf.Cbuf.{Cbuf}
use blackmagic_espidf.Cbuf.Index.{len-push, len-pop, len-push_wrap, put-eq}
use blackmagic_espidf.Cbuf.Window.{
  window, length-window, window-mod, window-nil, window-set, window-set_outside,
}

not_less : (a b : ℕ) → b ≤ a → ltb a b ≡ false
not_less a b h = ground arith

zero-test : (n : ℕ) → n ≢ 0 → (n == 0) ≡ false
zero-test n h = ground arith

module _ (size laps : ℕ) where
  pub record IsValid (c : Cbuf) : Type 0 where
    pub get_in : c.m_get_idx < size * laps
    pub put_in : c.m_put_idx < size * laps
    pub whole : length c.m_entry ≡ size
    pub within : Cbuf.len size laps c ≤ size

  -- The entries held, oldest first.
  abbrev pub contents : Cbuf → List ℕ
  contents c = window size c.m_entry c.m_get_idx (Cbuf.len size laps c)

  pub length-contents : (c : Cbuf) → length (contents c) ≡ Cbuf.len size laps c
  length-contents c = length-window size c.m_entry c.m_get_idx (Cbuf.len size laps c)

  place-lap : (n : ℕ) → n % (size * laps) % size ≡ n % size
  place-lap n = mod-mod_of_dvd size n (dvd-mul_right size laps)

  put-place :
      (c : Cbuf) → IsValid c → c.m_put_idx % size ≡ (c.m_get_idx + Cbuf.len size laps c) % size
  put-place c v = sym (
      sym (place-lap (c.m_get_idx + Cbuf.len size laps c))
      ∙ ap (λ k. k % size) (put-eq c.m_get_idx c.m_put_idx (size * laps) v.get_in v.put_in))

  -- A write into the next free entry leaves what is held.
  pub contents-set :
      (c : Cbuf) (x : ℕ)
      → IsValid c
      → Cbuf.len size laps c < size
      → contents (record c { m_entry = set c.m_entry (c.m_put_idx % size) x }) ≡ contents c
  contents-set c x v room =
      let n : ℕ = Cbuf.len size laps c in
      window-set_outside size c.m_entry x n n c.m_get_idx (c.m_put_idx % size) (omega arith) room
        (put-place c v)

  -- `CBUF_Push` on a buffer with a free entry appends its element and keeps the buffer valid, if the
  -- index type can count one entry more.
  pub push_refines :
      (c : Cbuf) (x : ℕ)
      → IsValid c
      → Cbuf.len size laps c < size
      → Cbuf.len size laps c + 1 < size * laps
      → IsValid (Cbuf.push size laps c x)
        × (contents (Cbuf.push size laps c x) ≡ contents c ++ x ∷ [])
  unfolding Cbuf.push
  push_refines c x v room counts =
      let m : ℕ = size * laps in
      let n : ℕ = Cbuf.len size laps c in
      let e : ((c.m_put_idx + 1) % m + m - c.m_get_idx) % m ≡ n + 1 =
        len-push c.m_get_idx c.m_put_idx m v.get_in v.put_in counts in
      let f : n + 1 ≡ suc n = omega arith in
      (
        record {
          get_in = v.get_in;
          put_in = mod-lt (c.m_put_idx + 1) (omega (arith, v.get_in));
          whole = length-set c.m_entry (c.m_put_idx % size) x ∙ v.whole;
          within = rw e (omega arith);
        },
        rw (e, f)
            (window-set size c.m_entry x n c.m_get_idx (c.m_put_idx % size) (omega (arith, v.whole))
              room (put-place c v)),
      )

  -- `CBUF_Pop` on a buffer that holds an entry returns the oldest and keeps the others, in order.
  pub pop_refines :
      (c : Cbuf)
      → IsValid c
      → Cbuf.len size laps c ≢ 0
      → IsValid (Cbuf.pop size laps c).1
        × (contents c ≡ (Cbuf.pop size laps c).0 ∷ contents (Cbuf.pop size laps c).1)
  unfolding Cbuf.pop
  pop_refines c v some_entry =
      let m : ℕ = size * laps in
      let n : ℕ = Cbuf.len size laps c in
      let n' : ℕ = (c.m_put_idx + m - (c.m_get_idx + 1) % m) % m in
      let e : n' + 1 ≡ n = len-pop c.m_get_idx c.m_put_idx m v.get_in v.put_in some_entry in
      let f : n ≡ suc n' = omega arith in
      (
        record {
          get_in = mod-lt (c.m_get_idx + 1) (omega (arith, v.get_in));
          put_in = v.put_in;
          whole = v.whole;
          within = omega (arith, v.within);
        },
        ap (window size c.m_entry c.m_get_idx) f
            ∙ ap (λ l. get_or c.m_entry (c.m_get_idx % size) 0 ∷ l)
                (window-mod size c.m_entry (c.m_get_idx + 1) ((c.m_get_idx + 1) % m) n'
                  (sym (place-lap (c.m_get_idx + 1)))),
      )

  -- The tests of a valid buffer of less than 2^32 entries: `CBUF_IsEmpty` says that it holds none,
  -- `CBUF_IsFull` that it holds as many as it has room for, and `CBUF_Error` that it is valid.
  pub tests_decide :
      (c : Cbuf)
      → IsValid c
      → size < 2 ^ 32
      → ((Cbuf.is_empty size laps c ≡ true) ↔ (contents c ≡ []))
        × ((Cbuf.is_full size laps c ≡ true) ↔ (length (contents c) ≡ size))
        × (Cbuf.error size laps c ≡ false)
  tests_decide c v small =
      let n : ℕ = Cbuf.len size laps c in
      let free : Cbuf.space size laps c ≡ size - n = omega (arith, v.within) in
      let held : length (contents c) ≡ n = length-contents c in
      (
        (
          λ e. window-nil size c.m_entry c.m_get_idx ((==_iff _ _).0 e),
          λ e. (==_iff _ _).1 (omega (arith, ap length e)),
        ),
        (
          λ e.
              let none_left : Cbuf.space size laps c ≡ 0 = (==_iff _ _).0 e in
              omega (arith, v.within),
          λ e. (==_iff _ _).1 (omega arith),
        ),
        not_less _ _ v.within,
      )

  -- Where the index type counts just the entries (one lap), a buffer with one free entry does not
  -- test full, and a push into that entry makes it test empty: all that it held is lost to its reader.
  pub push-one_lap :
      (c : Cbuf) (x : ℕ)
      → IsValid c
      → laps ≡ 1
      → size < 2 ^ 32
      → Cbuf.len size laps c + 1 ≡ size
      → (Cbuf.is_full size laps c ≡ false)
        × (Cbuf.is_empty size laps (Cbuf.push size laps c x) ≡ true)
  unfolding Cbuf.push
  push-one_lap c x v one small last =
      let n : ℕ = Cbuf.len size laps c in
      let e : size * laps ≡ size = rw one (omega arith) in
      let below : n < size = omega (
        arith,
        mod-lt (c.m_put_idx + size * laps - c.m_get_idx) {m = size * laps}
            (omega (arith, v.get_in)),
      ) in
      let free : Cbuf.space size laps c ≡ size - n = omega arith in
      (
        zero-test _ (omega arith),
        rw (len-push_wrap c.m_get_idx c.m_put_idx (size * laps) v.get_in v.put_in (omega arith)),
      )
