-- ===== src/Web/History.antt =====
-- The lines of html/index.html: `sendLine`, `parseHexString` and the arrow keys. A line is a list of
-- characters; the equality of strings is JavaScript's, and a parameter, and so is `parseInt` of two
-- characters in base 16.
use blackmagic_espidf.Base.{
  ℕ, zero, suc, Bool, true, false, ◌||◌, Option, none, some, List, [], ◌∷◌, ◌++◌, length, ◌==◌, ltb,
  if◌then◌else◌,
}
use blackmagic_espidf.Base.Int.{ℤ, pos, negsuc, suc_ℤ, pred_ℤ}

abbrev pub Line : Type 0
Line = List ℕ

-- `line_items`, `idx`, and the value of the field `line`, which is `undefined` or a text.
pub record Page : Type 0 where
  pub line_items : List Line
  pub idx : ℤ
  pub value : Option Line

-- `items[i]`.
unfoldable pub item : List Line → ℕ → Option Line
item [] i = none
item (line ∷ items) zero = some line
item (line ∷ items) (suc i) = item items i

abbrev pub item_at : List Line → ℤ → Option Line
item_at items (pos i) = item items i
item_at items (negsuc i) = none

-- `length - 1`.
abbrev pub last_index : List Line → ℤ
last_index items = pred_ℤ (pos (length items))

abbrev pub is_same : ℤ → ℤ → Bool
is_same (pos m) (pos n) = m == n
is_same (pos m) (negsuc n) = false
is_same (negsuc m) (pos n) = false
is_same (negsuc m) (negsuc n) = m == n

abbrev pub is_less : ℤ → ℤ → Bool
is_less (pos m) (pos n) = ltb m n
is_less (pos m) (negsuc n) = false
is_less (negsuc m) (pos n) = true
is_less (negsuc m) (negsuc n) = ltb n m

abbrev pub is_positive : ℤ → Bool
is_positive (pos n) = ltb 0 n
is_positive (negsuc n) = false

pub data Eol : Type 0 where
  cr lf crlf hex no_end : Eol

-- A text, or the array that `socket.send` is given.
pub data Sent : Type 0 where
  text : Line → Sent
  array : List ℕ → Sent

unfoldable pub includes : (Line → Line → Bool) → Line → List Line → Bool
includes same line [] = false
includes same line (other ∷ items) = let rest = includes same line items in same other line || rest

-- `str.replace(c, "")` takes the first; the model of `replace("0x", "")`, and of `replace(" ", "")`.
unfoldable pub without_0x : Line → Line
without_0x [] = []
without_0x (a ∷ []) = a ∷ []
without_0x (a ∷ b ∷ rest) =
    let rest' = without_0x (b ∷ rest) in
    if a == b'0' then (if b == b'x' then rest else a ∷ rest') else a ∷ rest'

unfoldable pub without_space : Line → Line
without_space [] = []
without_space (a ∷ rest) = let rest' = without_space rest in if a == b' ' then rest else a ∷ rest'

unfoldable pub parse_pairs : (ℕ → ℕ → ℕ) → Line → List ℕ
parse_pairs parse_int [] = []
parse_pairs parse_int (a ∷ []) = []
parse_pairs parse_int (a ∷ b ∷ rest) = parse_int a b ∷ parse_pairs parse_int rest

unfoldable pub parse_hex_string : (ℕ → ℕ → ℕ) → Line → List ℕ
unfolding parse_pairs without_0x without_space
parse_hex_string parse_int str = parse_pairs parse_int (without_space (without_0x str))

abbrev pub line_sent : (ℕ → ℕ → ℕ) → Eol → Line → Sent
line_sent parse_int cr line = text (line ++ 13 ∷ [])
line_sent parse_int lf line = text (line ++ 10 ∷ [])
line_sent parse_int crlf line = text (line ++ 13 ∷ 10 ∷ [])
line_sent parse_int hex line = array (parse_hex_string parse_int line)
line_sent parse_int no_end line = text line

abbrev pub remember : (Line → Line → Bool) → Line → Page → Page
remember same line p = if includes same line p.line_items then p else record p {
  line_items = p.line_items ++ line ∷ [];
  idx = last_index (p.line_items ++ line ∷ []);
}

-- `line` is the value of the field.
unfoldable pub send_line : (Line → Line → Bool) → (ℕ → ℕ → ℕ) → Eol → Line → Page → Page × Sent
unfolding includes parse_hex_string
send_line same parse_int eol line p = (remember same line p, line_sent parse_int eol line)

unfoldable pub arrow_up : Page → Page
unfolding item
arrow_up p =
    let i : ℤ = if is_same (last_index p.line_items) p.idx then pred_ℤ p.idx else p.idx in
    record p { value = item_at p.line_items i; idx = if is_positive i then pred_ℤ i else i }

unfoldable pub arrow_down : Page → Page
unfolding item
arrow_down p =
    let i : ℤ = if is_less p.idx (last_index p.line_items) then suc_ℤ p.idx else p.idx in
    record p { value = item_at p.line_items i; idx = i }
