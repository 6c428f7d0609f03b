-- ===== src/Gdb/Xfer.antt =====
-- `GDB::handle_q_string_reply` of main/gdb_main.cpp, which hands out the memory map and the target's
-- description in parts. `sscanf` of the offset and the length is C's.
use native.Mathlib.Decide.{dec_lt}
use blackmagic_espidf.Base.{
  ℕ, zero, suc, ◌+◌, ◌-◌, ◌≤◌, ◌<◌, ◌≡◌, refl, sym, ◌∙◌, ap, Option, none, some, List, [], ◌∷◌,
  ◌++◌, length, take, drop, ltb, lt→ltb, ◌==◌, if◌then◌else◌, arith, length-drop,
}
use blackmagic_espidf.Base.Text.{codes}

-- The text of the reply for an offset and a length.
unfoldable pub string_part : List ℕ → (addr len : ℕ) → List ℕ
string_part str addr len =
    if ltb addr (length str)
    then b'm' ∷ take len (drop addr str)
    else if addr == length str
    then b'l' ∷ []
    else codes "E01"

unfoldable pub handle_q_string_reply :
    (sscanf : List ℕ → Option (ℕ × ℕ)) → (str param : List ℕ) → List ℕ
handle_q_string_reply sscanf str param = elim (sscanf param) [
  | none ↦ codes "E01"
  | some (addr, len) ↦ string_part str addr len
]

-- What a client puts together that reads parts of length `n` until a reply is no `m`, on fuel.
abbrev part_of : List ℕ → Option (List ℕ)
part_of [] = none
part_of (c ∷ cs) = if c == b'm' then some cs else none

unfoldable pub read_parts : (fuel : ℕ) → (reply : ℕ → ℕ → List ℕ) → (n addr : ℕ) → List ℕ
read_parts zero reply n addr = []
read_parts (suc fuel) reply n addr = elim (part_of (reply addr n)) [
  | none ↦ []
  | some cs ↦ cs ++ read_parts fuel reply n (addr + length cs)
]

string_part-more :
    (str : List ℕ) (addr n : ℕ)
    → addr < length str
    → part_of (string_part str addr n) ≡ some (take n (drop addr str))
unfolding string_part
string_part-more str addr n more = rw (lt→ltb addr (length str) more) refl

string_part-end :
    (str : List ℕ) (addr n : ℕ) → addr ≡ length str → part_of (string_part str addr n) ≡ none
unfolding string_part
string_part-end str addr n e = ground arith

take-drop : (n : ℕ) (xs : List ℕ) → take n xs ++ drop (length (take n xs)) xs ≡ xs
take-drop zero xs = refl
take-drop (suc n) [] = refl
take-drop (suc n) (x ∷ xs) = ap (λ l. x ∷ l) (take-drop n xs)

take-some : (n : ℕ) (xs : List ℕ) → 0 < n → 0 < length xs → 0 < length (take n xs)
take-some zero xs h h' = h
take-some (suc n) [] h h' = h'
take-some (suc n) (x ∷ xs) h h' = omega arith

take-short : (n : ℕ) (xs : List ℕ) → length (take n xs) ≤ length xs
take-short zero xs = omega arith
take-short (suc n) [] = omega arith
take-short (suc n) (x ∷ xs) = omega (arith, take-short n xs)

drop-nil : (k : ℕ) → drop {A = ℕ} k [] ≡ []
drop-nil zero = refl
drop-nil (suc k) = refl

drop-drop : (m k : ℕ) (xs : List ℕ) → drop (m + k) xs ≡ drop k (drop m xs)
drop-drop zero k xs = ap (λ i. drop i xs) (omega arith)
drop-drop (suc m) k [] = drop-nil (suc m + k) ∙ sym (drop-nil k)
drop-drop (suc m) k (x ∷ xs) =
    let e : suc m + k ≡ suc (m + k) = omega arith in rw e (drop-drop m k xs)

drop-all : (xs : List ℕ) → drop (length xs) xs ≡ []
drop-all [] = refl
drop-all (x ∷ xs) = drop-all xs

read_parts-from :
    (str : List ℕ) (n fuel addr : ℕ)
    → 0 < n
    → addr ≤ length str
    → length str < fuel + addr
    → read_parts fuel (string_part str) n addr ≡ drop addr str
unfolding read_parts
read_parts-from str n zero addr some_length inside enough = absurd (omega arith)
read_parts-from str n (suc fuel) addr some_length inside enough = elim (dec_lt addr (length str)) [
  | no end ↦
      let e : addr ≡ length str = omega arith in
      rw (string_part-end str addr n e, read_parts) (rw e (sym (drop-all str)))
  | yes more ↦
      let here : List ℕ = take n (drop addr str) in
      let left : length (drop addr str) ≡ length str - addr = length-drop {0} addr str in
      rw (string_part-more str addr n more, read_parts)
        (ap (λ l. here ++ l)
            (read_parts-from str n fuel (addr + length here) some_length
                (omega (arith, take-short n (drop addr str)))
                (omega (arith, take-some n (drop addr str) some_length (omega arith)))
              ∙ drop-drop addr (length here) str)
          ∙ take-drop n (drop addr str))
]

-- A client that reads a text in parts, of any length but 0, from the offset 0 on until the reply
-- that marks the end, puts together exactly the text; one round more than the text is long is
-- enough.
pub read_parts-whole :
    (str : List ℕ) (n : ℕ) → 0 < n → read_parts (length str + 1) (string_part str) n 0 ≡ str
read_parts-whole str n some_length =
    read_parts-from str n (length str + 1) 0 some_length (omega arith) (omega arith)
