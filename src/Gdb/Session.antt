-- ===== src/Gdb/Session.antt =====
-- A session of GDB over TCP: the loop of main/gdb_main.cpp on the characters that `gdb_if_getchar` takes
-- out of what `recv` delivers, and `gdb_if_putchar` of main/gdb_if.cpp for those that are sent.
use blackmagic_espidf.Base.{
  Option, ℕ, zero, suc, ◌≡◌, ◌≢◌, refl, sym, ap, ◌∙◌, Bool, true, some, List, [], ◌∷◌, ◌++◌,
  append-nil, append_assoc, map, length, arith,
}
use blackmagic_espidf.Packet.Decode.{Input, char}
use blackmagic_espidf.Channel.Input.{Reader, Answer, got, destroyed, blocked, getchar}
use blackmagic_espidf.Channel.Stream.{IsValid, ChunksFit, stream, Reads, getchar-Reads}
use blackmagic_espidf.Channel.Output.{Writer, Put, put, putchar, then_put}
use blackmagic_espidf.Channel.Sent.{AcceptsAll, IsReady, putchar-keeps, putchar-flush}
use blackmagic_espidf.Gdb.State.{Server, Client}
use blackmagic_espidf.Gdb.Wire.{Wire, loop_turns}
use blackmagic_espidf.Gdb.Conversation.{
  Turn, AreTurns, round_of, gdb_turns, talk, loop_turns_refine,
}

-- What `n` calls of `gdb_if_getchar` return, up to the one that does not.
unfoldable pub read_chars : (n : ℕ) → Reader → List (List ℕ) → List ℕ
unfolding getchar
read_chars zero r env = []
read_chars (suc n) r env = elim (getchar r env) [
  | got c r' env' ↦ c ∷ read_chars n r' env'
  | destroyed env' ↦ []
  | blocked ↦ []
]

-- Calls of `gdb_if_putchar`, each with its `flush`.
unfoldable pub put_flagged : (accepts : List ℕ → ℕ) → Writer → List (ℕ × Bool) → Put
unfolding putchar
put_flagged accepts w [] = put w []
put_flagged accepts w ((c, flush) ∷ cs) =
    then_put (putchar accepts w c flush) (λ w'. put_flagged accepts w' cs)

read_chars-stream :
    (cs : List ℕ) (r : Reader) (env : List (List ℕ))
    → IsValid r
    → ChunksFit env
    → stream r env ≡ cs
    → read_chars (length cs) r env ≡ cs
unfolding read_chars
read_chars-stream [] r env v fit e = refl
read_chars-stream (c ∷ cs) r env v fit e =
    by (λ r' env' v' fit' e'. read_chars-stream cs r' env' v' fit' e') (getchar r env)
      (getchar-Reads r env v fit)
  where
    by :
        ((r' : Reader) (env' : List (List ℕ))
          → IsValid r'
          → ChunksFit env'
          → stream r' env' ≡ cs
          → read_chars (length cs) r' env' ≡ cs)
        → (a : Answer) → Reads a (stream r env)
        → (elim a [
          | got c r' env' ↦ c ∷ read_chars (length cs) r' env'
          | destroyed env' ↦ []
          | blocked ↦ []
        ])
          ≡ c ∷ cs
    by ih (got c' r' env') (e', v', fit') =
        let same : c' ∷ stream r' env' ≡ c ∷ cs = sym e' ∙ e in
        let first : c' ≡ c = cc in
        let others : stream r' env' ≡ cs = cc in
        ap (λ x. x ∷ read_chars (length cs) r' env') first
        ∙ ap (λ l. c ∷ l) (ih r' env' v' fit' others)
    by ih (destroyed env') e' = absurd cc
    by ih blocked e' = absurd cc

put_flagged-sends :
    (accepts : List ℕ → ℕ) (all : AcceptsAll accepts) (cs : List (ℕ × Bool)) (c : ℕ) (w : Writer)
    → IsReady w
    → put_flagged accepts w (cs ++ (c, true) ∷ [])
      ≡ put (record { buf = []; connected = true }) (w.buf ++ (map (λ x. x.0) cs ++ c ∷ []))
unfolding put_flagged
put_flagged-sends accepts all [] c w v =
    ap (λ p. then_put p (λ w'. put w' [])) (putchar-flush accepts all w c v)
    ∙ ap (put (record { buf = []; connected = true })) (append-nil (w.buf ++ c ∷ []))
put_flagged-sends accepts all ((d, flush) ∷ cs) c w v =
    let (w', sent, e, v', kept, _) = putchar-keeps accepts all w d flush v in
    ap (λ p. then_put p (λ w''. put_flagged accepts w'' (cs ++ (c, true) ∷ []))) e
    ∙ ap (λ p. then_put (put w' sent) (λ w''. p)) (put_flagged-sends accepts all cs c w' v')
    ∙ ap (put (record { buf = []; connected = true })) (
        sym (append_assoc sent w'.buf (map (λ x. x.0) cs ++ c ∷ []))
        ∙ ap (λ l. l ++ (map (λ x. x.0) cs ++ c ∷ [])) kept
        ∙ append_assoc w.buf (d ∷ []) (map (λ x. x.0) cs ++ c ∷ []))

module _ (digits : ℕ → List ℕ) (remote_som remote_eom : ℕ) where
  -- A session over TCP: whatever chunks of at most 256 characters the requests and acknowledgements of
  -- GDB come in, the loop that reads them by `gdb_if_getchar` does what the turns say; and whichever of
  -- the characters that it answers with `gdb_if_putchar` is told to flush, the last one included, `send`
  -- is handed exactly these characters, in order, with nothing kept back. Conditions: GDB frames requests
  -- of 1 to 1024 bytes, without waits between them, no request leaves the loop, and `send` takes all that
  -- it is given.
  pub session_refines :
      (ts : List Turn) (s : Server) (c : Client) (gdb : List ℕ) (r : Reader)
      → (env : List (List ℕ)) (wire : Wire)
      → (accepts : List ℕ → ℕ) (cs : List (ℕ × Bool)) (last : ℕ) → remote_som ≢ b'$'
      → AreTurns ts
      → gdb_turns digits remote_som remote_eom ts s c ≡ map char gdb
      → IsValid r
      → ChunksFit env
      → stream r env ≡ gdb
      → talk digits remote_som remote_eom ts s c [] ≡ some wire
      → AcceptsAll accepts
      → map (λ x. x.0) cs ++ last ∷ [] ≡ wire.chars
      → (loop_turns digits remote_som remote_eom
            (map round_of ts)
            s
            c
            (map char (read_chars (length gdb) r env))
          ≡ some wire)
        × (put_flagged accepts (record { buf = []; connected = true }) (cs ++ (last, true) ∷ [])
            ≡ put (record { buf = []; connected = true }) wire.chars)
  session_refines ts s c gdb r env wire accepts cs last som h sends v fit e says all sent =
      let serve : List Input → Option Wire =
        loop_turns digits remote_som remote_eom (map round_of ts) s c in
      (
        ap (λ input. serve (map char input)) (read_chars-stream gdb r env v fit e)
            ∙ ap serve (sym sends)
            ∙ ap serve (sym (append-nil (gdb_turns digits remote_som remote_eom ts s c)))
            ∙ loop_turns_refine digits remote_som remote_eom ts s c [] som h
            ∙ says,
        put_flagged-sends accepts all cs last (record { buf = []; connected = true })
              (record { on = refl; room = omega arith })
            ∙ ap (put (record { buf = []; connected = true })) sent,
      )
