-- ===== src/Web/Keys.antt =====
-- The arrow keys of html/index.html on the lines that were sent.
use blackmagic_espidf.Base.{
  ℕ, ◌≤◌, ◌≡◌, Bool, true, false, Option, none, some, List, [], ◌∷◌, length, ltb,
}
use blackmagic_espidf.Base.Int.{ℤ, pos, negsuc}
use blackmagic_espidf.Web.History.{Line, Page, Eol, send_line, arrow_up, arrow_down}

pub data Key : Type 0 where
  up down : Key
  enter : Eol → Line → Key

abbrev pub empty : Page
empty = record { line_items = []; idx = negsuc 0; value = some [] }

module _ (same : Line → Line → Bool) (parse_int : ℕ → ℕ → ℕ) where
  unfoldable pub press : Key → Page → Page
  unfolding send_line arrow_up arrow_down
  press up p = arrow_up p
  press down p = arrow_down p
  press (enter eol line) p = (send_line same parse_int eol line p).0

  -- The keys, the last one first.
  unfoldable pub press_all : List Key → Page
  unfolding press
  press_all [] = empty
  press_all (key ∷ before) = press key (press_all before)

abbrev pub in_range : ℤ → ℕ → Bool
in_range (pos i) n = ltb i n
in_range (negsuc i) n = false

abbrev pub is_defined : Option Line → Bool
is_defined none = false
is_defined (some line) = true

-- Of two lines or more, `idx` is the index of one.
abbrev InRange : Page → Type 0
InRange p = 2 ≤ length p.line_items → in_range p.idx (length p.line_items) ≡ true

abbrev page : List Line → ℤ → Option Line → Page
page items idx value = record { line_items = items; idx = idx; value = value }
