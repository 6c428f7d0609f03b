-- ===== src/Packet/Encode.antt =====
-- Transmission: `gdb_next_char`, `gdb_putpacket`, `gdb_putpacket2`, `gdb_put_notification` and
-- `gdb_out` of main/gdb_packet.cpp. A function returns the characters that it hands to
-- `gdb_if_putchar`, in order.
use blackmagic_espidf.Base.{
  ℕ, zero, suc, ◌+◌, ◌*◌, ◌%◌, bit_xor, Bool, true, false, ◌||◌, not, List, [], ◌∷◌, ◌++◌, length,
  take, ◌==◌, if◌then◌else◌,
}
use blackmagic_espidf.Base.Text.{hex_byte}

-- The characters that are sent escaped.
abbrev pub is_special : ℕ → Bool
is_special c = c == b'$' || (c == b'#' || (c == b'}' || c == b'*'))

-- `gdb_next_char`: what is sent for one character, and the checksum after it (`uint8_t`).
unfoldable pub next_char : ℕ → ℕ → List ℕ × ℕ
next_char c csum =
    if is_special c
    then (b'}' ∷ bit_xor c 0x20 ∷ [], (csum + (b'}' + bit_xor c 0x20)) % 256)
    else (c ∷ [], (csum + c) % 256)

-- The `for` loop over a packet's characters.
unfoldable pub put_chars : List ℕ → ℕ → List ℕ × ℕ
put_chars [] csum = ([], csum)
put_chars (c ∷ cs) csum =
    let (out, csum') = next_char c csum in
    let (rest, csum'') = put_chars cs csum' in (out ++ rest, csum'')

-- What stands behind the body: `#` and the checksum in two digits.
abbrev pub trailer : ℕ → List ℕ
trailer csum = b'#' ∷ hex_byte csum

-- One transmission of `gdb_putpacket`, from `pktstart` to the checksum.
unfoldable pub frame : ℕ → List ℕ → List ℕ
unfolding put_chars
frame pktstart packet = let (body, csum) = put_chars packet 0 in pktstart ∷ (body ++ trailer csum)

-- One transmission of `gdb_putpacket2`: two loops, one checksum.
unfoldable pub frame2 : List ℕ → List ℕ → List ℕ
unfolding put_chars
frame2 packet1 packet2 =
    let (body1, csum1) = put_chars packet1 0 in
    let (body2, csum2) = put_chars packet2 csum1 in b'$' ∷ ((body1 ++ body2) ++ trailer csum2)

-- What `gdb_if_getchar_to` answers when nothing came in time.
abbrev pub no_char : ℕ
no_char = 0xFF

-- The answers still to come, and the next of them; after the last, only timeouts.
abbrev next_answer : List ℕ → ℕ × List ℕ
next_answer [] = (no_char, [])
next_answer (a ∷ rest) = (a, rest)

-- `do { send } while (waits && gdb_if_getchar_to(2000) != '+' && tries++ < 3)`. The first argument
-- is 3 - tries, so that the loop ends by recursion; `answers` is what each call of
-- `gdb_if_getchar_to` returns. The result is what was sent, and the answers not read.
unfoldable pub send_until_acked : ℕ → Bool → List ℕ → List ℕ → List ℕ × List ℕ
send_until_acked tries_left false packet answers = (packet, answers)
send_until_acked zero true packet answers = (packet, (next_answer answers).1)
send_until_acked (suc tries_left) true packet answers =
    let (a, rest) = next_answer answers in
    let (again, rest') = send_until_acked tries_left true packet rest in
    if a == b'+' then (packet, rest) else (packet ++ again, rest')

abbrev pub max_tries : ℕ
max_tries = 3

unfoldable pub putpacket : Bool → ℕ → List ℕ → List ℕ → List ℕ × List ℕ
putpacket no_ack_mode pktstart packet answers =
    send_until_acked max_tries (not no_ack_mode) (frame pktstart packet) answers

-- `gdb_putpacket2` reads no `no_ack_mode`.
unfoldable pub putpacket2 : List ℕ → List ℕ → List ℕ → List ℕ × List ℕ
putpacket2 packet1 packet2 answers =
    send_until_acked max_tries true (frame2 packet1 packet2) answers

-- `gdb_put_notification` sends once, from `%`, and waits for no answer.
unfoldable pub put_notification : List ℕ → List ℕ
unfolding put_chars
put_notification packet = let (body, csum) = put_chars packet 0 in b'%' ∷ (body ++ trailer csum)

-- `strlen`: the characters in front of the first zero.
unfoldable pub c_string : List ℕ → List ℕ
c_string [] = []
c_string (c ∷ cs) = let rest = c_string cs in if c == 0 then [] else c ∷ rest

-- `gdb_out` sends `O` and the text in hexadecimal; `hexify` is the probe firmware's.
unfoldable pub out : (List ℕ → List ℕ) → Bool → List ℕ → List ℕ → List ℕ × List ℕ
unfolding c_string
out hexify no_ack_mode buf answers =
    putpacket no_ack_mode b'$' (take (length (c_string buf) * 2 + 1) (b'O' ∷ hexify (c_string buf)))
      answers
