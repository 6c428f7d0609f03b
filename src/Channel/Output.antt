-- ===== src/Channel/Output.antt =====
-- Transmission: `gdb_if_putchar` of class `GDB_client` in main/gdb_if.cpp.
use blackmagic_espidf.Base.{
  ℕ, Bool, true, false, ◌||◌, List, [], ◌∷◌, ◌++◌, length, take, ◌==◌, if◌then◌else◌,
}

abbrev pub buf_length : ℕ
buf_length = 256

-- `buf[0 .. bufsize)` and whether `sock > 0`.
pub record Writer : Type 0 where
  pub buf : List ℕ
  pub connected : Bool

-- The writer after the call, and what the connection accepted.
pub data Put : Type 0 where
  put : Writer → List ℕ → Put
  -- `destroy`: the task is deleted.
  destroyed : Put

-- `accepts` is what `send` returns for what it is given, 0 standing for an error too.
abbrev pub flush_out : (List ℕ → ℕ) → Writer → Put
flush_out accepts w =
    if w.connected
    then (if accepts w.buf == 0
        then destroyed
        else put (record w { buf = [] }) (take (accepts w.buf) w.buf))
    else put (record w { buf = [] }) []

unfoldable pub putchar : (List ℕ → ℕ) → Writer → ℕ → Bool → Put
putchar accepts w c flush =
    let w' : Writer = record w { buf = w.buf ++ c ∷ [] } in
    (if flush || length w'.buf == buf_length then flush_out accepts w' else put w' [])

-- One call after another; a deleted task makes no further call.
abbrev pub then_put : Put → (Writer → Put) → Put
then_put destroyed rest = destroyed
then_put (put w sent) rest = elim (rest w) [
  | destroyed ↦ destroyed
  | put w' sent' ↦ put w' (sent ++ sent')
]

-- The calls that send a packet: all its characters with `flush` 0, but the last with 1.
unfoldable pub put_all : (List ℕ → ℕ) → Writer → List ℕ → Put
put_all accepts w [] = put w []
put_all accepts w (c ∷ []) = putchar accepts w c true
put_all accepts w (c ∷ d ∷ cs) =
    then_put (putchar accepts w c false) (λ w'. put_all accepts w' (d ∷ cs))
