-- ===== src/Channel/Sent.antt =====
-- What a client's connection sends: the output buffer of Channel.Output loses nothing.
use blackmagic_espidf.Base.{
  ℕ, suc, ◌<◌, ◌≡◌, ◌≢◌, ◌⊎◌, refl, sym, ◌∙◌, ap, Bool, true, false, List, [], ◌∷◌, ◌++◌,
  append-nil, append_assoc, length, length-append, take, ◌==◌, Bool-cases, inl, inr, arith,
}
use blackmagic_espidf.Channel.Output.{Writer, put, buf_length, flush_out, putchar, put_all}

-- A blocking `send` accepts all that it is given.
abbrev pub AcceptsAll : (List ℕ → ℕ) → Type 0
AcceptsAll accepts = (xs : List ℕ) → accepts xs ≡ length xs

-- The next character is stored inside the array.
pub record IsReady (w : Writer) : Type 0 where
  pub on : w.connected ≡ true
  pub room : length w.buf < buf_length

take-all : (xs : List ℕ) → take (length xs) xs ≡ xs
take-all [] = refl
take-all (x ∷ xs) = ap (λ l. x ∷ l) (take-all xs)

emptied-IsReady : IsReady (record { buf = []; connected = true })
emptied-IsReady = record { on = refl; room = omega arith }

module _ (accepts : List ℕ → ℕ) (all : AcceptsAll accepts) where
  flush_out-sends :
      (w : Writer)
      → w.connected ≡ true
      → length w.buf ≢ 0
      → flush_out accepts w ≡ put (record { buf = []; connected = true }) w.buf
  flush_out-sends w on some_char = ground (arith, all w.buf, take-all w.buf)

  length-snoc : (xs : List ℕ) (c : ℕ) → length (xs ++ c ∷ []) ≡ suc (length xs)
  length-snoc xs c = omega (arith, length-append {0} xs (c ∷ []))

  pub putchar-flush :
      (w : Writer) (c : ℕ)
      → IsReady w
      → putchar accepts w c true ≡ put (record { buf = []; connected = true }) (w.buf ++ c ∷ [])
  unfolding putchar
  putchar-flush w c v =
      flush_out-sends (record w { buf = w.buf ++ c ∷ [] }) v.on (omega (arith, length-snoc w.buf c))

  -- A call of `gdb_if_putchar` leaves the writer ready (the next index is in the array), and what
  -- it sends and what it keeps are, in order, what was kept before and the character; a call with
  -- `flush` keeps nothing.
  pub putchar-keeps :
      (w : Writer) (c : ℕ) (flush : Bool)
      → IsReady w
      → (w' : Writer) × (sent : List ℕ) × (putchar accepts w c flush ≡ put w' sent)
        × IsReady w'
        × (sent ++ w'.buf ≡ w.buf ++ c ∷ [])
        × ((flush ≡ false) ⊎ (w'.buf ≡ []))
  putchar-keeps w c true v = (
    record { buf = []; connected = true },
    w.buf ++ c ∷ [],
    putchar-flush w c v,
    emptied-IsReady,
    append-nil (w.buf ++ c ∷ []),
    inr refl,
  )
  putchar-keeps w c false v = elim (Bool-cases (length (w.buf ++ c ∷ []) == buf_length)) [
    | inl full ↦ (
      record { buf = []; connected = true },
      w.buf ++ c ∷ [],
      unfold putchar in rw full (putchar-flush w c v),
      emptied-IsReady,
      append-nil (w.buf ++ c ∷ []),
      inr refl,
    )
    | inr room ↦ (
      record w { buf = w.buf ++ c ∷ [] },
      [],
      unfold putchar in rw room,
      record { on = v.on; room = ground (arith, length-snoc w.buf c, v.room) },
      refl,
      inl refl,
    )
  ]

  -- The calls that send a packet hand to `send` exactly what was kept and the packet's characters,
  -- in order, and keep nothing back.
  pub put_all-sends :
      (cs : List ℕ) (c : ℕ) (w : Writer)
      → IsReady w
      → put_all accepts w (c ∷ cs) ≡ put (record { buf = []; connected = true }) (w.buf ++ c ∷ cs)
  unfolding put_all
  put_all-sends [] c w v = putchar-flush w c v
  put_all-sends (d ∷ cs) c w v =
      let (w', sent, e, v', kept, _) = putchar-keeps w c false v in
      rw (e, put_all-sends cs d w' v')
        (ap (put (record { buf = []; connected = true })) (
          sym (append_assoc sent w'.buf (d ∷ cs))
          ∙ ap (λ l. l ++ d ∷ cs) kept
          ∙ append_assoc w.buf (c ∷ []) (d ∷ cs)))
