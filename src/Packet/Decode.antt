-- ===== src/Packet/Decode.antt =====
-- Reception: `gdb_getpacket` of main/gdb_packet.cpp, as an automaton over what arrives. Each of its
-- loops is a phase; `advance` says what a character does in each.
use blackmagic_espidf.Base.{
  ℕ, ◌+◌, ◌%◌, bit_xor, Bool, ◌||◌, List, [], ◌∷◌, ◌++◌, length, ◌==◌, ltb, if◌then◌else◌,
}
use blackmagic_espidf.Base.Text.{eq_long, strtol16}

-- What the two read calls see: a character, or 20 ms without one (only `gdb_if_getchar_to` ends
-- then; `gdb_if_getchar` waits on).
pub data Input : Type 0 where
  char : ℕ → Input
  quiet : Input

-- What the function does besides filling the buffer.
pub data Action : Type 0 where
  putchar : ℕ → Action  -- `gdb_if_putchar(c, 1)`
  remote_packet_process : List ℕ → Action  -- the probe firmware's, under `GDB_LOCK`

-- The return: nothing came (0), an interrupt or an end of transmission (1, with the character in
-- `packet[0]`), a packet (its size).
pub data Outcome : Type 0 where
  nothing : Outcome
  control : ℕ → Outcome
  packet : List ℕ → Outcome

-- `size`, `no_ack_mode` and the probe firmware's REMOTE_SOM and REMOTE_EOM.
pub record Settings : Type 0 where
  pub size : ℕ
  pub no_ack_mode : Bool
  pub remote_som : ℕ
  pub remote_eom : ℕ

-- `buf` is `packet[0 .. i)`.
pub data Phase : Type 0 where
  waiting : Phase  -- for the start of a packet
  remote : (buf : List ℕ) → Phase  -- in a remote control packet
  capturing : (buf : List ℕ) (csum : ℕ) → Phase
  escaped : (buf : List ℕ) (csum : ℕ) → Phase  -- behind a `}`
  digit1 : (buf : List ℕ) (csum : ℕ) → Phase  -- before `recv_csum[0]`
  digit2 : (buf : List ℕ) (csum : ℕ) (recv : ℕ) → Phase

pub data Move : Type 0 where
  go : Phase → List Action → Move
  done : Outcome → List Action → Move

-- The loops up to the start character. `packet[0]` is zeroed after a remote control packet, so
-- every way out of that loop leads back here.
unfoldable pub start_char : Settings → ℕ → Move
start_char k c =
    if c == 0xFF
    then done nothing []
    else if c == 0x04 || c == 0x03
    then done (control c) []
    else if c == k.remote_som
    then go (remote []) []
    else if c == b'$'
    then go (capturing [] 0) []
    else go waiting []

unfoldable pub remote_char : Settings → List ℕ → ℕ → Move
remote_char k buf c =
    if c == k.remote_som
    then go (remote []) []
    else if c == k.remote_eom
    then go waiting (remote_packet_process buf ∷ [])
    else if c == b'$'
    then go waiting []
    else if ltb (length buf) k.size
    then go (remote (buf ++ c ∷ [])) []
    else go waiting []

-- One round of the capture loop. At `i == size` the character is dropped and the loop left.
unfoldable pub capture_char : Settings → List ℕ → ℕ → ℕ → Move
capture_char k buf csum c =
    if c == b'#'
    then go (digit1 buf csum) []
    else if length buf == k.size
    then go (digit1 buf csum) []
    else if c == b'$'
    then go (capturing [] 0) []
    else if c == b'}'
    then go (escaped buf csum) []
    else go (capturing (buf ++ c ∷ []) ((csum + c) % 256)) []

unfoldable pub escaped_char : List ℕ → ℕ → ℕ → Move
escaped_char buf csum c = go (capturing (buf ++ bit_xor c 0x20 ∷ []) ((csum + (c + b'}')) % 256)) []

-- The comparison of the checksums, and the answer to the sender.
unfoldable pub check_sum : Settings → List ℕ → ℕ → List ℕ → Move
check_sum k buf csum recv_csum =
    if eq_long csum (strtol16 recv_csum)
    then done (packet buf) (if k.no_ack_mode then [] else putchar b'+' ∷ [])
    else go waiting (if k.no_ack_mode then [] else putchar b'-' ∷ [])

unfoldable pub advance : Settings → Phase → ℕ → Move
unfolding start_char remote_char capture_char escaped_char check_sum
advance k waiting c = start_char k c
advance k (remote buf) c = remote_char k buf c
advance k (capturing buf csum) c = capture_char k buf csum c
advance k (escaped buf csum) c = escaped_char buf csum c
advance k (digit1 buf csum) c = go (digit2 buf csum c) []
advance k (digit2 buf csum recv) c = check_sum k buf csum (recv ∷ c ∷ [])

-- 20 ms without a character end the wait for a start character, and nothing else.
unfoldable on_quiet : Phase → Move
on_quiet waiting = done nothing []
on_quiet (remote buf) = go (remote buf) []
on_quiet (capturing buf csum) = go (capturing buf csum) []
on_quiet (escaped buf csum) = go (escaped buf csum) []
on_quiet (digit1 buf csum) = go (digit1 buf csum) []
on_quiet (digit2 buf csum recv) = go (digit2 buf csum recv) []

unfoldable pub move : Settings → Phase → Input → Move
unfolding advance on_quiet
move k ph (char c) = advance k ph c
move k ph quiet = on_quiet ph

-- What a call came to over the input so far. `pending`: it still waits, in this phase (at the end
-- of the connection the task ends there).
pub data Result : Type 0 where
  returned : Outcome → (rest : List Input) → Result
  pending : Phase → Result

abbrev pub Run : Type 0
Run = List Action × Result

abbrev pub after : List Action → Run → Run
after acts (acts', r) = (acts ++ acts', r)

unfoldable pub run : Settings → Phase → List Input → Run
unfolding move
run k ph [] = ([], pending ph)
run k ph (x ∷ xs) = elim (move k ph x) [
  | go ph' acts ↦ after acts (run k ph' xs)
  | done o acts ↦ (acts, returned o xs)
]

unfoldable pub getpacket : Settings → List Input → Run
unfolding run
getpacket k xs = run k waiting xs

-- The `int` that `gdb_getpacket` returns.
abbrev pub return_value : Outcome → ℕ
return_value nothing = 0
return_value (control c) = 1
return_value (packet buf) = length buf
