-- ===== src/Gdb/Cmdline.antt =====
-- The command line of `vRun` in `GDB::handle_v_packet`, main/gdb_main.cpp, and how much of the array
-- `cmdline` it takes.
use blackmagic_espidf.Base.{
  ℕ, zero, suc, ◌+◌, ◌≤◌, ◌<◌, ◌≡◌, ◌≢◌, refl, ◌∙◌, ap, Bool, true, false, ◌&&◌, ◌||◌, none, some,
  List, [], ◌∷◌, ◌++◌, length, length-append, replicate, leb, ltb, ◌==◌, if◌then◌else◌, Bool-cases,
  inl, inr, arith,
}
use blackmagic_espidf.Base.Text.{hex_value}
use blackmagic_espidf.Packet.Encode.{c_string}

-- `sizeof(cmdline)`.
abbrev pub cmdline_length : ℕ
cmdline_length = 83

abbrev pub is_xdigit : ℕ → Bool
is_xdigit c = elim (hex_value c) [ none ↦ false | some d ↦ true ]

-- What a decoded character puts into the array, from `pbuf` on.
abbrev pub quoted : ℕ → List ℕ
quoted b = if b == b' ' || b == b'\\' then b'\\' ∷ b ∷ [] else b ∷ []

-- The loop, from `tok` on, with `cmdline[0 .. pbuf)`; `unhexify a b` is the byte of two digits. The
-- test at its head measures with `strlen`.
unfoldable pub decode : (unhexify : ℕ → ℕ → ℕ) → List ℕ → (cmdline : List ℕ) → List ℕ
decode unhexify [] cmdline = cmdline
decode unhexify (a ∷ []) cmdline =
    if a == b';' && ltb (length (c_string cmdline) + 3) cmdline_length
    then cmdline ++ b' ' ∷ []
    else cmdline
decode unhexify (a ∷ b ∷ tok) cmdline =
    let skip = decode unhexify (b ∷ tok) (cmdline ++ b' ' ∷ []) in
    let next = decode unhexify tok (cmdline ++ quoted (unhexify a b)) in
    if leb cmdline_length (length (c_string cmdline) + 3)
    then cmdline
    else if a == 0
    then cmdline
    else if a == b';'
    then skip
    else if is_xdigit a && is_xdigit b
    then next
    else cmdline

-- The command line of `vRun`: `tok` is what stands behind the word.
abbrev pub run_cmdline : (ℕ → ℕ → ℕ) → List ℕ → List ℕ
run_cmdline unhexify [] = []
run_cmdline unhexify (c ∷ tok) =
    if c == b';' then decode unhexify tok [] else decode unhexify (c ∷ tok) []

abbrev pub NoZero : List ℕ → Type 0
NoZero [] = Unit
NoZero (c ∷ cs) = (c ≢ 0) × NoZero cs

NoZero-append : (xs ys : List ℕ) → NoZero xs → NoZero ys → NoZero (xs ++ ys)
NoZero-append [] ys h h' = h'
NoZero-append (x ∷ xs) ys h h' = (h.0, NoZero-append xs ys h.1 h')

c_string-whole : (xs : List ℕ) → NoZero xs → c_string xs ≡ xs
unfolding c_string
c_string-whole [] h = refl
c_string-whole (x ∷ xs) h = ground (arith, c_string-whole xs h.1)

quoted-NoZero : (b : ℕ) → b ≢ 0 → NoZero (quoted b)
quoted-NoZero b h = ground arith

quoted-short : (b : ℕ) → length (quoted b) ≤ 2
quoted-short b = ground arith

-- No two characters in a row stand for a zero.
abbrev pub NoZeroPair : (ℕ → ℕ → ℕ) → List ℕ → Type 0
NoZeroPair unhexify [] = Unit
NoZeroPair unhexify (a ∷ []) = Unit
NoZeroPair unhexify (a ∷ b ∷ tok) = (unhexify a b ≢ 0) × NoZeroPair unhexify (b ∷ tok)

NoZeroPair-tail :
    (unhexify : ℕ → ℕ → ℕ) (a : ℕ) (tok : List ℕ)
    → NoZeroPair unhexify (a ∷ tok)
    → NoZeroPair unhexify tok
NoZeroPair-tail unhexify a [] h = tt
NoZeroPair-tail unhexify a (b ∷ tok) h = h.1

-- The test of the loop leaves room for two characters and the zero behind them.
room_of_test :
    (cmdline : List ℕ)
    → NoZero cmdline
    → leb cmdline_length (length (c_string cmdline) + 3) ≡ false
    → length cmdline + 3 < cmdline_length
room_of_test cmdline nz h = ground (arith, ap length (c_string-whole cmdline nz))

decode-fits :
    (unhexify : ℕ → ℕ → ℕ) (tok cmdline : List ℕ)
    → NoZeroPair unhexify tok
    → NoZero cmdline
    → length cmdline < cmdline_length
    → length (decode unhexify tok cmdline) < cmdline_length
unfolding decode
decode-fits u [] cmdline pairs nz short = short
decode-fits u (a ∷ []) cmdline pairs nz short =
    ground (arith, ap length (c_string-whole cmdline nz), length-append {0} cmdline (b' ' ∷ []))
decode-fits u (a ∷ b ∷ tok) cmdline pairs nz short =
    elim (Bool-cases (leb cmdline_length (length (c_string cmdline) + 3))) [
      | inl full ↦ rw full short
      | inr room ↦
          let space : length cmdline + 3 < cmdline_length = room_of_test cmdline nz room in
          rw room (
            by_char _ _
              (decode-fits u (b ∷ tok) (cmdline ++ b' ' ∷ []) pairs.1
                (NoZero-append cmdline (b' ' ∷ []) nz (omega arith))
                (omega (arith, length-append {0} cmdline (b' ' ∷ []))))
              (decode-fits u tok (cmdline ++ quoted (u a b)) (NoZeroPair-tail u b tok pairs.1)
                (NoZero-append cmdline (quoted (u a b)) nz (quoted-NoZero (u a b) pairs.0))
                (omega (arith, length-append {0} cmdline (quoted (u a b)), quoted-short (u a b)))))
    ]
  where
    by_char :
        (skip next : List ℕ)
        → length skip < cmdline_length
        → length next < cmdline_length
        → length (
            if a == 0
            then cmdline
            else if a == b';'
            then skip
            else if is_xdigit a && is_xdigit b
            then next
            else cmdline)
          < cmdline_length
    by_char skip next skips nexts = ground arith

-- The command line of `vRun` and the zero behind it fit the array, if no two characters of the
-- packet stand for a zero byte: it has 82 characters at most.
pub run_cmdline-fits :
    (unhexify : ℕ → ℕ → ℕ) (tok : List ℕ)
    → NoZeroPair unhexify tok
    → length (run_cmdline unhexify tok) < cmdline_length
run_cmdline-fits u [] pairs = omega arith
run_cmdline-fits u (c ∷ tok) pairs =
    by_char _ _ (decode-fits u tok [] (NoZeroPair-tail u c tok pairs) tt (omega arith))
      (decode-fits u (c ∷ tok) [] pairs tt (omega arith))
  where
    by_char :
        (x y : List ℕ)
        → length x < cmdline_length
        → length y < cmdline_length
        → length (if c == b';' then x else y) < cmdline_length
    by_char x y h h' = ground arith

-- `n` pairs of the digit 0.
abbrev pub zero_pairs : ℕ → List ℕ
zero_pairs zero = []
zero_pairs (suc n) = b'0' ∷ b'0' ∷ zero_pairs n

c_string-zeros : (k : ℕ) → c_string (replicate k 0) ≡ []
unfolding c_string
c_string-zeros zero = refl
c_string-zeros (suc k) = refl

zeros-snoc : (k : ℕ) → ◌++◌ {A = ℕ} (replicate k 0) (0 ∷ []) ≡ replicate (suc k) 0
zeros-snoc zero = refl
zeros-snoc (suc k) = ap (λ l. 0 ∷ l) (zeros-snoc k)

decode-zeros :
    (u : ℕ → ℕ → ℕ)
    → u b'0' b'0' ≡ 0
    → (n k : ℕ) → decode u (zero_pairs n) (replicate k 0) ≡ replicate (n + k) 0
unfolding decode
decode-zeros u z zero k = ap (λ i. replicate i 0) (omega arith)
decode-zeros u z (suc n) k =
    let e : n + suc k ≡ suc n + k = omega arith in
    rw (c_string-zeros k, z, zeros-snoc k) (decode-zeros u z n (suc k) ∙ ap (λ i. replicate i 0) e)

-- Pairs of digits that stand for zero bytes are not counted: a `vRun` with `n` pairs `00` writes `n`
-- bytes from the start of the array, whatever `n` is, though the array has 83.
pub run_cmdline-zeros :
    (unhexify : ℕ → ℕ → ℕ) (n : ℕ)
    → unhexify b'0' b'0' ≡ 0
    → run_cmdline unhexify (zero_pairs n) ≡ replicate n 0
run_cmdline-zeros u zero z = refl
run_cmdline-zeros u (suc n) z =
    let e : suc n + 0 ≡ suc n = omega arith in
    decode-zeros u z (suc n) 0 ∙ ap (λ i. replicate i 0) e
