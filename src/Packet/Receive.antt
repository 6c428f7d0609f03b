-- ===== src/Packet/Receive.antt =====
-- What `gdb_getpacket` does with any input: the buffer's bound, and remote control packets.
use blackmagic_espidf.Base.{
  ℕ, ◌+◌, ◌≤◌, ◌<◌, bit_xor, ◌≡◌, ◌≢◌, ◌∙◌, List, [], ◌∷◌, ◌++◌, map, append_assoc, append-nil,
  length, length-append, arith,
}
use blackmagic_espidf.Packet.Decode.{
  Input, Settings, Phase, Move, Action, Outcome, Run, char, quiet, waiting, remote, capturing,
  escaped, digit1, digit2, go, done, packet, nothing, control, putchar, remote_packet_process,
  returned, pending, start_char, remote_char, capture_char, check_sum, advance, move, run,
  getpacket, after,
}

-- The index `i` at which a phase writes next, or puts the final zero, lies in the buffer of
-- `size + 1` characters.
abbrev Fits : Settings → Phase → Type 0
Fits k waiting = Unit
Fits k (remote buf) = length buf ≤ k.size
Fits k (capturing buf csum) = length buf ≤ k.size
Fits k (escaped buf csum) = length buf < k.size
Fits k (digit1 buf csum) = length buf ≤ k.size
Fits k (digit2 buf csum recv) = length buf ≤ k.size

abbrev OutcomeFits : Settings → Outcome → Type 0
OutcomeFits k (packet buf) = length buf ≤ k.size
OutcomeFits k nothing = Unit
OutcomeFits k (control c) = Unit

abbrev ActionsFit : Settings → List Action → Type 0
ActionsFit k [] = Unit
ActionsFit k (putchar c ∷ as') = ActionsFit k as'
ActionsFit k (remote_packet_process buf ∷ as') = (length buf ≤ k.size) × ActionsFit k as'

abbrev pub RunFits : Settings → Run → Type 0
RunFits k (acts, pending ph) = ActionsFit k acts × Fits k ph
RunFits k (acts, returned o rest) = ActionsFit k acts × OutcomeFits k o

abbrev MoveFits : Settings → Move → Type 0
MoveFits k (go ph acts) = ActionsFit k acts × Fits k ph
MoveFits k (done o acts) = ActionsFit k acts × OutcomeFits k o

start-fits : (k : Settings) (c : ℕ) → MoveFits k (start_char k c)
unfolding start_char
start-fits k c = ground arith

remote-fits :
    (k : Settings) (buf : List ℕ) (c : ℕ) → length buf ≤ k.size → MoveFits k (remote_char k buf c)
unfolding remote_char
remote-fits k buf c h = ground (arith, length-append {0} buf (c ∷ []))

capture-fits :
    (k : Settings) (buf : List ℕ) (csum c : ℕ)
    → length buf ≤ k.size
    → MoveFits k (capture_char k buf csum c)
unfolding capture_char
capture-fits k buf csum c h = ground (arith, length-append {0} buf (c ∷ []))

check-fits :
    (k : Settings) (buf : List ℕ) (csum : ℕ) (recv : List ℕ)
    → length buf ≤ k.size
    → MoveFits k (check_sum k buf csum recv)
unfolding check_sum
check-fits k buf csum recv h = ground arith

advance-Fits : (k : Settings) (ph : Phase) (c : ℕ) → Fits k ph → MoveFits k (advance k ph c)
unfolding advance
advance-Fits k waiting c h = start-fits k c
advance-Fits k (remote buf) c h = remote-fits k buf c h
advance-Fits k (capturing buf csum) c h = capture-fits k buf csum c h
advance-Fits k (escaped buf csum) c h =
    (tt, omega (arith, length-append {0} buf (bit_xor c 0x20 ∷ [])))
advance-Fits k (digit1 buf csum) c h = (tt, h)
advance-Fits k (digit2 buf csum recv) c h = check-fits k buf csum (recv ∷ c ∷ []) h

move-Fits : (k : Settings) (ph : Phase) (x : Input) → Fits k ph → MoveFits k (move k ph x)
unfolding move
move-Fits k ph (char c) h = advance-Fits k ph c h
move-Fits k waiting quiet h = (tt, tt)
move-Fits k (remote buf) quiet h = (tt, h)
move-Fits k (capturing buf csum) quiet h = (tt, h)
move-Fits k (escaped buf csum) quiet h = (tt, h)
move-Fits k (digit1 buf csum) quiet h = (tt, h)
move-Fits k (digit2 buf csum recv) quiet h = (tt, h)

ActionsFit-append :
    (k : Settings) (xs ys : List Action)
    → ActionsFit k xs
    → ActionsFit k ys
    → ActionsFit k (xs ++ ys)
ActionsFit-append k [] ys h h' = h'
ActionsFit-append k (putchar c ∷ xs) ys h h' = ActionsFit-append k xs ys h h'
ActionsFit-append k (remote_packet_process buf ∷ xs) ys h h' =
    (h.0, ActionsFit-append k xs ys h.1 h')

after-fits :
    (k : Settings) (acts : List Action) (r : Run)
    → ActionsFit k acts
    → RunFits k r
    → RunFits k (after acts r)
after-fits k acts (acts', pending ph) h h' = (ActionsFit-append k acts acts' h h'.0, h'.1)
after-fits k acts (acts', returned o rest) h h' = (ActionsFit-append k acts acts' h h'.0, h'.1)

run-Fits : (k : Settings) (ph : Phase) (xs : List Input) → Fits k ph → RunFits k (run k ph xs)
unfolding run
run-Fits k ph [] h = (tt, h)
run-Fits k ph (x ∷ xs) h = by_move (move k ph x) (move-Fits k ph x h) (λ ph'. run-Fits k ph' xs)
  where
    by_move :
        (m : Move)
        → MoveFits k m
        → ((ph' : Phase) → Fits k ph' → RunFits k (run k ph' xs))
        → RunFits k (elim m [
          | go ph' acts ↦ after acts (run k ph' xs)
          | done o acts ↦ (acts, returned o xs)
        ])
    by_move (go ph' acts) f ih = after-fits k acts (run k ph' xs) f.0 (ih ph' f.1)
    by_move (done o acts) f ih = f

-- Whatever arrives, `gdb_getpacket` writes only inside its buffer: the packet that it returns, every
-- packet that it hands to `remote_packet_process`, and the characters that it has stored while it
-- still waits are at most `size`, so that `packet[i] = 0` is a write at an index up to `size`.
pub getpacket-fits : (k : Settings) (xs : List Input) → RunFits k (getpacket k xs)
unfolding getpacket
getpacket-fits k xs = run-Fits k waiting xs tt

-- Characters that a remote control packet holds.
abbrev AreRemote : Settings → List ℕ → Type 0
AreRemote k [] = Unit
AreRemote k (c ∷ cs) = (c ≢ k.remote_som) × (c ≢ k.remote_eom) × (c ≢ b'$') × AreRemote k cs

-- What tells REMOTE_SOM and REMOTE_EOM apart from the other characters that the loops look for.
pub record AreDelimiters (k : Settings) : Type 0 where
  pub som_no_timeout : k.remote_som ≢ 0xFF
  pub som_no_eot : k.remote_som ≢ 0x04
  pub som_no_interrupt : k.remote_som ≢ 0x03
  pub som_no_start : k.remote_som ≢ b'$'
  pub eom_no_som : k.remote_eom ≢ k.remote_som
  pub eom_no_start : k.remote_eom ≢ b'$'

module _ (k : Settings) (apart : AreDelimiters k) where
  remote-start :
      (rest : List Input) → getpacket k (char k.remote_som ∷ rest) ≡ run k (remote []) rest
  unfolding getpacket start_char
  remote-start rest = ground arith

  remote-chars :
      (cs buf : List ℕ) (rest : List Input)
      → AreRemote k cs
      → length buf + length cs ≤ k.size
      → run k (remote buf) (map char cs ++ rest) ≡ run k (remote (buf ++ cs)) rest
  unfolding run remote_char
  remote-chars [] buf rest h fits = rw append-nil
  remote-chars (c ∷ cs) buf rest h fits =
      one
      ∙ remote-chars cs (buf ++ c ∷ []) rest h.3 (omega (arith, length-append {0} buf (c ∷ [])))
      ∙ rw append_assoc
    where
      one :
          run k (remote buf) (char c ∷ (map char cs ++ rest))
          ≡ run k (remote (buf ++ c ∷ [])) (map char cs ++ rest)
      one = ground arith

  remote-captured :
      (cs : List ℕ) (rest : List Input)
      → AreRemote k cs
      → length cs ≤ k.size
      → getpacket k (char k.remote_som ∷ (map char cs ++ rest)) ≡ run k (remote cs) rest
  remote-captured cs rest h fits =
      remote-start (map char cs ++ rest) ∙ remote-chars cs [] rest h (omega arith)

  -- A complete remote control packet of at most `size` characters is handed to
  -- `remote_packet_process` whole, and the wait for a packet goes on behind it.
  pub getpacket-remote :
      (cs : List ℕ) (rest : List Input)
      → AreRemote k cs
      → length cs ≤ k.size
      → getpacket k (char k.remote_som ∷ (map char cs ++ char k.remote_eom ∷ rest))
        ≡ after (remote_packet_process cs ∷ []) (getpacket k rest)
  unfolding getpacket remote_char
  getpacket-remote cs rest h fits =
      remote-captured cs (char k.remote_eom ∷ rest) h fits ∙ ground arith

  -- A `$` inside a remote control packet is dropped with the packet, and starts no capture: the
  -- call goes on as if its input began behind the `$`.
  pub getpacket-remote_dollar :
      (cs : List ℕ) (rest : List Input)
      → AreRemote k cs
      → length cs ≤ k.size
      → getpacket k (char k.remote_som ∷ (map char cs ++ char b'$' ∷ rest)) ≡ getpacket k rest
  unfolding getpacket remote_char
  getpacket-remote_dollar cs rest h fits =
      remote-captured cs (char b'$' ∷ rest) h fits ∙ ground arith
