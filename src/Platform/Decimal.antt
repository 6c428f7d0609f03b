-- ===== src/Platform/Decimal.antt =====
-- Decimal numbers of C and JavaScript: what `%u` writes, `atoi` reads back.
use blackmagic_espidf.Base.{
  ℕ, zero, suc, ◌+◌, ◌-◌, ◌*◌, ◌/◌, ◌%◌, ◌^◌, ◌<◌, ◌≡◌, refl, ap, ◌∙◌, Bool, true, ◌&&◌, List, [],
  ◌∷◌, ◌++◌, length, ◌==◌, ltb, leb, if◌then◌else◌, Bool-cases, inl, inr, arith,
}
use blackmagic_espidf.Base.Int.{ℤ, pos, neg}
use blackmagic_espidf.Base.Text.{is_space}

abbrev pub is_digit : ℕ → Bool
is_digit c = leb 48 c && leb c 57

unfoldable pub digits_from : ℕ → List ℕ → ℕ
digits_from n [] = n
digits_from n (c ∷ cs) =
    let rest = digits_from (n * 10 + (c - 48)) cs in if is_digit c then rest else n

unfoldable signed : List ℕ → ℤ
unfolding digits_from
signed [] = pos 0
signed (c ∷ cs) =
    if c == b'-'
    then neg (digits_from 0 cs)
    else if c == b'+'
    then pos (digits_from 0 cs)
    else pos (digits_from 0 (c ∷ cs))

-- `atoi` of a text whose number is an `int`.
unfoldable pub atoi : List ℕ → ℤ
unfolding signed
atoi [] = pos 0
atoi (c ∷ cs) = let rest = atoi cs in if is_space c then rest else signed (c ∷ cs)

-- The digits of a number below 10 ^ k, and of one of 32 bits.
unfoldable pub decimal_of : (k : ℕ) → ℕ → List ℕ
decimal_of zero n = []
decimal_of (suc k) n =
    let front = decimal_of k (n / 10) in
    if ltb n 10 then (48 + n) ∷ [] else front ++ (48 + n % 10) ∷ []

abbrev pub decimal : ℕ → List ℕ
decimal n = decimal_of 10 n

abbrev AreDigits : List ℕ → Type 0
AreDigits [] = Unit
AreDigits (c ∷ cs) = (is_digit c ≡ true) × AreDigits cs

digit-is_digit : (n : ℕ) → n < 10 → is_digit (48 + n) ≡ true
digit-is_digit n h = ground arith

AreDigits-append :
    (xs : List ℕ) (c : ℕ) → AreDigits xs → is_digit c ≡ true → AreDigits (xs ++ c ∷ [])
AreDigits-append [] c h e = (e, tt)
AreDigits-append (x ∷ xs) c h e = (h.0, AreDigits-append xs c h.1 e)

decimal_of-AreDigits : (k n : ℕ) → AreDigits (decimal_of k n)
unfolding decimal_of
decimal_of-AreDigits zero n = tt
decimal_of-AreDigits (suc k) n = elim (Bool-cases (ltb n 10)) [
  | inl small ↦ rw small (digit-is_digit n (ground arith), tt)
  | inr large ↦ rw large (
      AreDigits-append (decimal_of k (n / 10)) (48 + n % 10) (decimal_of-AreDigits k (n / 10))
        (digit-is_digit (n % 10) (omega arith)))
]

digits_from-append :
    (m : ℕ) (xs : List ℕ) (c : ℕ)
    → AreDigits xs
    → is_digit c ≡ true
    → digits_from m (xs ++ c ∷ []) ≡ digits_from m xs * 10 + (c - 48)
unfolding digits_from
digits_from-append m [] c h e = rw e refl
digits_from-append m (x ∷ xs) c h e = rw h.0 (digits_from-append (m * 10 + (x - 48)) xs c h.1 e)

digits_from-decimal_of : (k n : ℕ) → n < 10 ^ k → digits_from 0 (decimal_of k n) ≡ n
unfolding digits_from decimal_of
digits_from-decimal_of zero n h = omega arith
digits_from-decimal_of (suc k) n h = elim (Bool-cases (ltb n 10)) [
  | inl small ↦
      let digit : is_digit (48 + n) ≡ true = digit-is_digit n (ground arith) in
      rw small (rw digit (omega arith))
  | inr large ↦
      let front : List ℕ = decimal_of k (n / 10) in
      let digit : is_digit (48 + n % 10) ≡ true = digit-is_digit (n % 10) (omega arith) in
      let small : n / 10 < 10 ^ k = omega arith in
      let ih : digits_from 0 front ≡ n / 10 = digits_from-decimal_of k (n / 10) small in
      let last : digits_from 0 front * 10 + (48 + n % 10 - 48) ≡ n = omega (arith, ih) in
      rw large
        (digits_from-append 0 front (48 + n % 10) (decimal_of-AreDigits k (n / 10)) digit ∙ last)
]

pub some_digits : (k n : ℕ) → 0 < length (decimal_of (suc k) n)
unfolding decimal_of
some_digits k n = elim (Bool-cases (ltb n 10)) [
  | inl small ↦ rw small (omega arith)
  | inr large ↦ rw large (behind (decimal_of k (n / 10)))
]
  where
    behind : (xs : List ℕ) → 0 < length (xs ++ (48 + n % 10) ∷ [])
    behind [] = omega arith
    behind (x ∷ xs) = omega arith

-- The first character of a number is a digit, neither a space nor a sign.
atoi-digits : (cs : List ℕ) → AreDigits cs → 0 < length cs → atoi cs ≡ pos (digits_from 0 cs)
unfolding atoi signed digits_from
atoi-digits [] h e = refl
atoi-digits (c ∷ cs) h e = ground (arith, h.0)

-- What is written of a number of 32 bits is read back.
pub atoi-decimal : (n : ℕ) → n < 2 ^ 32 → atoi (decimal n) ≡ pos n
atoi-decimal n h =
    atoi-digits (decimal n) (decimal_of-AreDigits 10 n) (some_digits 9 n)
    ∙ ap pos (digits_from-decimal_of 10 n (omega arith))
