-- ===== src/Base/Text.antt =====
-- What the firmware uses of C's text functions: `strtol` in base 16, and `%02X`.
use Prim.Native.Nat.{ℕ, ◌+◌, ◌-◌, ◌*◌, ◌/◌, ◌%◌, ◌<◌, ◌^◌}
use mathlib.Core.Path.{◌≡◌, refl}
use mathlib.Core.Bool.{Bool, true, false, ◌&&◌, ◌||◌}
use mathlib.Core.Option.{Option, none, some}
use mathlib.Core.List.{List, [], ◌∷◌, map}
use Prim.Native.Char.{code}
use Prim.Native.String.{String}
use blackmagic_espidf.Base.Tests.{leb, ◌==◌, if◌then◌else◌}
use blackmagic_espidf.Base.Int.{ℤ, pos, negsuc, neg}
use blackmagic_espidf.Base.Bytes.{every, every-byte}

-- Whether a number of type `unsigned char` equals a `long`.
abbrev pub eq_long : ℕ → ℤ → Bool
eq_long n (pos m) = n == m
eq_long n (negsuc m) = false

-- `isspace` in the C locale.
abbrev pub is_space : ℕ → Bool
is_space c = c == 32 || (leb 9 c && leb c 13)

abbrev pub hex_value : ℕ → Option ℕ
hex_value c =
    if leb b'0' c && leb c b'9'
    then some (c - 48)
    else if leb b'A' c && leb c b'F'
    then some (c - 55)
    else if leb b'a' c && leb c b'f'
    then some (c - 87)
    else none

-- The digits from the front, up to the first character that is none.
unfoldable hex_digits : ℕ → List ℕ → ℕ
hex_digits n [] = n
hex_digits n (c ∷ cs) = elim (hex_value c) [ none ↦ n | some d ↦ hex_digits (n * 16 + d) cs ]

-- The optional prefix 0x counts only with a digit behind it.
unfoldable strip_0x : List ℕ → List ℕ
strip_0x (z ∷ x ∷ d ∷ cs) =
    if z == b'0' && (x == b'x' || x == b'X')
    then elim (hex_value d) [ none ↦ z ∷ x ∷ d ∷ cs | some _ ↦ d ∷ cs ]
    else z ∷ x ∷ d ∷ cs
strip_0x cs = cs

unfoldable signed_hex : List ℕ → ℤ
unfolding hex_digits strip_0x
signed_hex [] = pos 0
signed_hex (c ∷ cs) =
    if c == b'-'
    then neg (hex_digits 0 (strip_0x cs))
    else if c == b'+'
    then pos (hex_digits 0 (strip_0x cs))
    else pos (hex_digits 0 (strip_0x (c ∷ cs)))

-- `strtol(s, NULL, 16)` on a text short enough not to overflow a `long`.
unfoldable pub strtol16 : List ℕ → ℤ
unfolding signed_hex
strtol16 [] = pos 0
strtol16 (c ∷ cs) = let rest = strtol16 cs in if is_space c then rest else signed_hex (c ∷ cs)

abbrev pub hex_digit : ℕ → ℕ
hex_digit n = if leb n 9 then n + 48 else n + 55

-- The two characters of `snprintf(s, 3, "%02X", n)` for a byte `n`.
abbrev pub hex_byte : ℕ → List ℕ
hex_byte n = hex_digit (n / 16) ∷ hex_digit (n % 16) ∷ []

-- `%08x` of 32 bits.
abbrev lower_digit : ℕ → ℕ
lower_digit n = if leb n 9 then n + 48 else n + 87

abbrev pub lower_word : ℕ → List ℕ
lower_word n = map (λ k. lower_digit (n / 16 ^ k % 16)) (7 ∷ 6 ∷ 5 ∷ 4 ∷ 3 ∷ 2 ∷ 1 ∷ 0 ∷ [])

-- What `%02X` writes, `strtol` in base 16 reads back.
pub strtol16-hex_byte : (n : ℕ) → n < 256 → eq_long n (strtol16 (hex_byte n)) ≡ true
unfolding every strtol16
strtol16-hex_byte n h = every-byte (λ m. eq_long m (strtol16 (hex_byte m))) n refl h

-- The characters of a string literal, without the zero at its end.
abbrev pub codes : String → List ℕ
codes String.[] = []
codes (String.◌∷◌ letter text) = code letter ∷ codes text

-- `strcmp(s, t) == 0`, for what stands in memory at `s` and `t`: equal up to the first zero.
unfoldable pub str_eq : List ℕ → List ℕ → Bool
str_eq [] [] = true
str_eq [] (d ∷ ds) = d == 0
str_eq (c ∷ cs) [] = c == 0
str_eq (c ∷ cs) (d ∷ ds) = let rest = str_eq cs ds in if c == d then c == 0 || rest else false
