-- ===== src/Channel/Stream.antt =====
-- A client's connection as two streams of characters: the buffers of Channel.Input and
-- Channel.Output lose nothing and keep the order.
use blackmagic_espidf.Base.{
  ℕ, zero, suc, ◌+◌, ◌-◌, ◌≤◌, ◌<◌, ◌≡◌, refl, sym, ◌∙◌, ap, Bool, true, false, ◌||◌, List, [], ◌∷◌,
  ◌++◌, length, length-append, length-drop, get_or, take, drop, ltb, leb, if◌then◌else◌, Bool-cases,
  inl, inr, arith,
}
use blackmagic_espidf.Channel.Input.{
  Reader, Answer, got, destroyed, blocked, fill, take_char, receive, getchar, getchar_to,
  buffer_length,
}

-- The array has its length, and the indices lie in it in order.
pub record IsValid (r : Reader) : Type 0 where
  pub whole : length r.buffer ≡ buffer_length
  pub read : r.buffer_index ≤ r.buffer_size
  pub stored : r.buffer_size ≤ buffer_length

-- `recv` stores no more than it is asked to.
abbrev pub ChunksFit : List (List ℕ) → Type 0
ChunksFit [] = Unit
ChunksFit (chunk ∷ env) = (length chunk ≤ buffer_length) × ChunksFit env

-- What is stored and not yet read.
abbrev pub unread : Reader → List ℕ
unread r = take (r.buffer_size - r.buffer_index) (drop r.buffer_index r.buffer)

-- What the peer sent, up to the end of the connection.
abbrev pub received : List (List ℕ) → List ℕ
received [] = []
received ([] ∷ env) = []
received ((c ∷ cs) ∷ env) = (c ∷ cs) ++ received env

abbrev pub stream : Reader → List (List ℕ) → List ℕ
stream r env = unread r ++ received env

drop_next : (i : ℕ) (xs : List ℕ) → i < length xs → drop i xs ≡ get_or xs i 0 ∷ drop (suc i) xs
drop_next i [] h = absurd (omega arith)
drop_next zero (x ∷ xs) h = refl
drop_next (suc i) (x ∷ xs) h = drop_next i xs (omega arith)

take-append : (xs ys : List ℕ) → take (length xs) (xs ++ ys) ≡ xs
take-append [] ys = refl
take-append (x ∷ xs) ys = ap (λ l. x ∷ l) (take-append xs ys)

unread_next :
    (r : Reader)
    → IsValid r
    → r.buffer_index < r.buffer_size
    → unread r
      ≡ get_or r.buffer r.buffer_index 0 ∷ unread (record r { buffer_index = r.buffer_index + 1 })
unread_next r v h =
    let n : ℕ = r.buffer_size - (r.buffer_index + 1) in
    let e : r.buffer_size - r.buffer_index ≡ suc n = omega arith in
    let f : suc r.buffer_index ≡ r.buffer_index + 1 = omega arith in
    rw (e, drop_next r.buffer_index r.buffer (omega (arith, v.whole)))
      (ap (λ i. get_or r.buffer r.buffer_index 0 ∷ take n (drop i r.buffer)) f)

-- What a call's answer says of the stream that it read from.
abbrev pub Reads : Answer → List ℕ → Type 0
Reads (got c r env) s = (s ≡ c ∷ stream r env) × IsValid r × ChunksFit env
Reads (destroyed env) s = s ≡ []
Reads blocked s = s ≡ []

take_char-Reads :
    (r : Reader) (env : List (List ℕ))
    → IsValid r
    → ChunksFit env
    → r.buffer_index < r.buffer_size
    → Reads (take_char r env) (stream r env)
take_char-Reads r env v fit h = (
  ap (λ l. l ++ received env) (unread_next r v h),
  record { whole = v.whole; read = omega arith; stored = v.stored },
  fit,
)

filled : ℕ → List ℕ → Reader → Reader
filled c cs r = record {
  buffer = fill (c ∷ cs) r.buffer;
  buffer_index = 0;
  buffer_size = length (c ∷ cs);
}

filled-IsValid :
    (c : ℕ) (cs : List ℕ) (r : Reader)
    → IsValid r
    → length (c ∷ cs) ≤ buffer_length
    → IsValid (filled c cs r)
unfolding filled
filled-IsValid c cs r v h = record {
  whole = omega (
    arith,
    v.whole,
    length-append {0} (c ∷ cs) (drop (length (c ∷ cs)) r.buffer),
    length-drop {0} (length (c ∷ cs)) r.buffer,
  );
  read = omega arith;
  stored = h;
}

filled-unread : (c : ℕ) (cs : List ℕ) (r : Reader) → unread (filled c cs r) ≡ c ∷ cs
unfolding filled
filled-unread c cs r =
    let e : suc (length cs) - 0 ≡ suc (length cs) = omega arith in
    rw e (take-append (c ∷ cs) (drop (length (c ∷ cs)) r.buffer))

receive-Reads :
    (r : Reader) (env : List (List ℕ))
    → IsValid r
    → ChunksFit env
    → Reads (receive r env) (received env)
unfolding filled
receive-Reads r [] v fit = refl
receive-Reads r ([] ∷ env) v fit = refl
receive-Reads r ((c ∷ cs) ∷ env) v fit =
    let r' : Reader = filled c cs r in
    let (step, v', fit') =
      take_char-Reads r' env (filled-IsValid c cs r v fit.0) fit.1 (omega arith) in
    (sym (ap (λ l. l ++ received env) (filled-unread c cs r)) ∙ step, v', fit')

unread-empty : (r : Reader) → r.buffer_size ≤ r.buffer_index → unread r ≡ []
unread-empty r h = let e : r.buffer_size - r.buffer_index ≡ 0 = omega arith in rw e

-- Each call of `gdb_if_getchar` returns the next character of what the peer sends, whatever chunks
-- `recv` delivers it in (of at most 256 characters), and keeps the reader valid; it deletes the task
-- or waits only when there is no further character before the end of the connection.
pub getchar-Reads :
    (r : Reader) (env : List (List ℕ))
    → IsValid r
    → ChunksFit env
    → Reads (getchar r env) (stream r env)
unfolding getchar
getchar-Reads r env v fit = elim (Bool-cases (leb r.buffer_size r.buffer_index)) [
  | inl spent ↦ rw (spent, unread-empty r (ground arith)) (receive-Reads r env v fit)
  | inr more ↦ rw more (take_char-Reads r env v fit (ground arith))
]

-- `gdb_if_getchar_to` with a character in the buffer or a positive `select` reads as
-- `gdb_if_getchar` does; otherwise it returns 0xFF and leaves the reader and the connection alone.
pub getchar_to-Reads :
    (ready : Bool) (r : Reader) (env : List (List ℕ))
    → IsValid r
    → ChunksFit env
    → (if ready || ltb r.buffer_index r.buffer_size
        then Reads (getchar_to ready r env) (stream r env)
        else getchar_to ready r env ≡ got 0xFF r env)
unfolding getchar_to
getchar_to-Reads ready r env v fit = elim (Bool-cases (ltb r.buffer_index r.buffer_size)) [
  | inl more ↦ by_ready_more ready (ground arith) more
  | inr spent ↦ by_ready ready spent
]
  where
    by_ready_more :
        (b : Bool)
        → r.buffer_index < r.buffer_size
        → ltb r.buffer_index r.buffer_size ≡ true
        → (if b || ltb r.buffer_index r.buffer_size
            then Reads (getchar_to b r env) (stream r env)
            else getchar_to b r env ≡ got 0xFF r env)
    by_ready_more true h e = rw e (take_char-Reads r env v fit h)
    by_ready_more false h e = rw e (take_char-Reads r env v fit h)

    by_ready :
        (b : Bool)
        → ltb r.buffer_index r.buffer_size ≡ false
        → (if b || ltb r.buffer_index r.buffer_size
            then Reads (getchar_to b r env) (stream r env)
            else getchar_to b r env ≡ got 0xFF r env)
    by_ready true e = rw e (getchar-Reads r env v fit)
    by_ready false e = rw e
