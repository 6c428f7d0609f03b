-- ===== src/Packet/Frame.antt =====
-- Whole frames: what `gdb_putpacket` of one side sends, `gdb_getpacket` of the other accepts.
use blackmagic_espidf.Base.{
  ℕ, ◌≤◌, ◌≡◌, ◌≢◌, ◌∙◌, true, false, List, [], ◌∷◌, ◌++◌, map, map-append, append_assoc, length,
  refl, if◌then◌else◌, arith,
}
use blackmagic_espidf.Base.Bytes.{AreBytes}
use blackmagic_espidf.Base.Text.{strtol16, strtol16-hex_byte, eq_long}
use blackmagic_espidf.Packet.Encode.{next_char, put_chars, frame, frame2, put_notification, trailer}
use blackmagic_espidf.Packet.Decode.{
  Input, Settings, Action, char, capturing, packet, putchar, returned, start_char, capture_char,
  check_sum, run, getpacket, after,
}
use blackmagic_espidf.Packet.Body.{capture-put_chars, put_chars-csum-lt, put_chars-append}

-- The checksum that a frame of `p` carries.
abbrev pub checksum : List ℕ → ℕ
checksum p = (put_chars p 0).1

module _ (k : Settings) (som : k.remote_som ≢ b'$') where
  -- A `$` starts the capture; this wants a REMOTE_SOM other than `$`.
  getpacket-dollar :
      (rest : List Input) → getpacket k (char b'$' ∷ rest) ≡ run k (capturing [] 0) rest
  unfolding getpacket start_char
  getpacket-dollar rest = ground arith

  -- A body between `$` and `#` is captured whole, whatever checksum follows.
  getpacket-body :
      (p : List ℕ) (rest : List Input)
      → AreBytes p
      → length p ≤ k.size
      → getpacket k (char b'$' ∷ (map char (put_chars p 0).0 ++ rest))
        ≡ run k (capturing p (checksum p)) rest
  getpacket-body p rest bytes fits =
      getpacket-dollar (map char (put_chars p 0).0 ++ rest)
      ∙ capture-put_chars k p [] 0 rest bytes (omega arith)

abbrev pub ack : Settings → List Action
ack k = if k.no_ack_mode then [] else putchar b'+' ∷ []

abbrev pub nack : Settings → List Action
nack k = if k.no_ack_mode then [] else putchar b'-' ∷ []

module _ (k : Settings) (buf : List ℕ) (csum a b : ℕ) (rest : List Input) where
  -- The end of a frame: `#`, two digits, and the comparison.
  digits-accepted :
      eq_long csum (strtol16 (a ∷ b ∷ [])) ≡ true
      → run k (capturing buf csum) (char b'#' ∷ char a ∷ char b ∷ rest)
        ≡ (ack k, returned (packet buf) rest)
  unfolding run capture_char check_sum
  digits-accepted same = rw same

  digits-rejected :
      eq_long csum (strtol16 (a ∷ b ∷ [])) ≡ false
      → run k (capturing buf csum) (char b'#' ∷ char a ∷ char b ∷ rest)
        ≡ after (nack k) (getpacket k rest)
  unfolding getpacket capture_char check_sum
  digits-rejected other = rw other

wire-split :
    (xs ys : List ℕ) (rest : List Input)
    → map char (xs ++ ys) ++ rest ≡ map char xs ++ (map char ys ++ rest)
wire-split xs ys rest = simp (map-append, append_assoc)

-- The receiver of a sent frame of bytes returns exactly the payload and leaves what follows the
-- frame unread; it answers `+`, or nothing in no-ack mode. The payload may be as long as the
-- receiver's `size`, and hold any bytes; REMOTE_SOM is not `$`.
pub getpacket-frame :
    (k : Settings) (p : List ℕ) (rest : List Input)
    → k.remote_som ≢ b'$'
    → AreBytes p
    → length p ≤ k.size
    → getpacket k (map char (frame b'$' p) ++ rest) ≡ (ack k, returned (packet p) rest)
unfolding frame
getpacket-frame k p rest som bytes fits =
    rw (wire-split (put_chars p 0).0 (trailer (checksum p)) rest) (
      getpacket-body k som p (map char (trailer (checksum p)) ++ rest) bytes fits
      ∙ digits-accepted k p (checksum p) _ _ rest
          (strtol16-hex_byte (checksum p) (put_chars-csum-lt p 0 (omega arith))))

-- A frame whose two checksum characters do not read as the checksum of its body is answered by
-- `-` (by nothing in no-ack mode), delivers no packet, and reception goes on behind it.
pub getpacket-bad_checksum :
    (k : Settings) (p : List ℕ) (a b : ℕ) (rest : List Input)
    → k.remote_som ≢ b'$'
    → AreBytes p
    → length p ≤ k.size
    → eq_long (checksum p) (strtol16 (a ∷ b ∷ [])) ≡ false
    → getpacket k (char b'$' ∷ (map char (put_chars p 0).0 ++ char b'#' ∷ char a ∷ char b ∷ rest))
      ≡ after (nack k) (getpacket k rest)
getpacket-bad_checksum k p a b rest som bytes fits other =
    getpacket-body k som p (char b'#' ∷ char a ∷ char b ∷ rest) bytes fits
    ∙ digits-rejected k p (checksum p) a b rest other

-- No character of a body is taken for framing.
abbrev NoFraming : List ℕ → Type 0
NoFraming [] = Unit
NoFraming (c ∷ cs) = (c ≢ b'$') × (c ≢ b'#') × (c ≢ b'*') × NoFraming cs

NoFraming-append : (xs ys : List ℕ) → NoFraming xs → NoFraming ys → NoFraming (xs ++ ys)
NoFraming-append [] ys h h' = h'
NoFraming-append (x ∷ xs) ys h h' = (h.0, h.1, h.2, NoFraming-append xs ys h.3 h')

next_char-NoFraming : (c csum : ℕ) → NoFraming (next_char c csum).0
unfolding next_char
next_char-NoFraming c csum = ground arith

-- Between `pktstart` and the `#` of a frame no `$`, `#` or `*` is sent, whatever the payload.
put_chars-NoFraming : (p : List ℕ) (csum : ℕ) → NoFraming (put_chars p csum).0
unfolding put_chars
put_chars-NoFraming [] csum = tt
put_chars-NoFraming (c ∷ p) csum =
    NoFraming-append (next_char c csum).0 (put_chars p (next_char c csum).1).0
      (next_char-NoFraming c csum) (put_chars-NoFraming p (next_char c csum).1)

-- `gdb_putpacket2` sends the frame of the two packets joined, and `gdb_put_notification` the frame
-- of `gdb_putpacket` from `%`, byte for byte.
pub frames_agree :
    (p q : List ℕ) → (frame2 p q ≡ frame b'$' (p ++ q)) × (put_notification p ≡ frame b'%' p)
unfolding frame frame2 put_notification
frames_agree p q = (rw (put_chars-append p q 0), refl)
