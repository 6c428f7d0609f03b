-- ===== src/Packet/Body.antt =====
-- The body of a packet on the wire: what `put_chars` of Packet.Encode writes, the capture loop of
-- Packet.Decode reads back.
use blackmagic_espidf.Base.{
  ℕ, ◌+◌, ◌%◌, ◌≤◌, ◌<◌, bit_xor, ◌≡◌, refl, ◌∙◌, false, inl, inr, List, [], ◌∷◌, ◌++◌, map,
  map-append, append-nil, append_assoc, length, length-append, Bool-cases, arith,
}
use blackmagic_espidf.Base.Bytes.{AreBytes, bit_xor-toggle}
use blackmagic_espidf.Packet.Encode.{is_special, next_char, put_chars}
use blackmagic_espidf.Packet.Decode.{
  Input, Settings, char, capturing, capture_char, escaped_char, run,
}

module _ (k : Settings) (buf : List ℕ) (csum : ℕ) (rest : List Input)
    (short : length buf < k.size) where
  capture-plain :
      (c : ℕ)
      → is_special c ≡ false
      → run k (capturing buf csum) (char c ∷ rest)
        ≡ run k (capturing (buf ++ c ∷ []) ((csum + c) % 256)) rest
  unfolding run capture_char
  capture-plain c plain = ground arith

  capture-escape :
      (c : ℕ)
      → c < 256
      → run k (capturing buf csum) (char b'}' ∷ char (bit_xor c 0x20) ∷ rest)
        ≡ run k (capturing (buf ++ c ∷ []) ((csum + (b'}' + bit_xor c 0x20)) % 256)) rest
  unfolding run capture_char escaped_char
  capture-escape c byte = ground (arith, bit_xor-toggle c byte)

  -- One character of the payload, as it is sent, adds itself to the buffer.
  capture-next_char :
      (c : ℕ)
      → c < 256
      → run k (capturing buf csum) (map char (next_char c csum).0 ++ rest)
        ≡ run k (capturing (buf ++ c ∷ []) (next_char c csum).1) rest
  unfolding next_char
  capture-next_char c byte = elim (Bool-cases (is_special c)) [
    | inl special ↦ rw special (capture-escape c byte)
    | inr plain ↦ rw plain (capture-plain c plain)
  ]

-- The whole body adds the payload to the buffer, and both sides come to the same checksum.
pub capture-put_chars :
    (k : Settings) (p buf : List ℕ) (csum : ℕ) (rest : List Input)
    → AreBytes p
    → length buf + length p ≤ k.size
    → run k (capturing buf csum) (map char (put_chars p csum).0 ++ rest)
      ≡ run k (capturing (buf ++ p) (put_chars p csum).1) rest
unfolding put_chars
capture-put_chars k [] buf csum rest bytes fits = rw append-nil
capture-put_chars k (c ∷ p) buf csum rest bytes fits =
    let csum' : ℕ = (next_char c csum).1 in
    let tail : List ℕ = (put_chars p csum').0 in
    rw (map-append, append_assoc)
      (capture-next_char k buf csum (map char tail ++ rest) (omega arith) c bytes.0
        ∙ capture-put_chars k p (buf ++ c ∷ []) csum' rest bytes.1
            (omega (arith, length-append {0} buf (c ∷ [])))
        ∙ rw append_assoc)

pub put_chars-csum-lt : (p : List ℕ) (csum : ℕ) → csum < 256 → (put_chars p csum).1 < 256
unfolding put_chars next_char
put_chars-csum-lt [] csum h = h
put_chars-csum-lt (c ∷ p) csum h = put_chars-csum-lt p (next_char c csum).1 (ground arith)

-- Two packets sent in a row, with one checksum, are sent as their concatenation.
pub put_chars-append :
    (p q : List ℕ) (csum : ℕ)
    → put_chars (p ++ q) csum ≡ (
      (put_chars p csum).0 ++ (put_chars q (put_chars p csum).1).0,
      (put_chars q (put_chars p csum).1).1,
    )
unfolding put_chars
put_chars-append [] q csum = refl
put_chars-append (c ∷ p) q csum = rw (put_chars-append p q (next_char c csum).1, append_assoc)
