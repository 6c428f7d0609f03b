-- ===== src/Web/Rate.antt =====
-- The button SET BAUD of html/index.html: the page asks `/uart/baud`, `cgi_baud` of main/http.c answers,
-- and the page shows the rate of the answer.
use blackmagic_espidf.Base.{
  ℕ, ◌+◌, zero, suc, ltb, append-nil, ◌^◌, ◌<◌, ◌≡◌, refl, ap, ◌∙◌, Bool, true, false, Option, none,
  some, List, [], ◌∷◌, ◌++◌, length, if◌then◌else◌, arith,
}
use blackmagic_espidf.Base.Int.{ℤ, pos, negsuc, is_zero}
use blackmagic_espidf.Base.Text.{codes}
use blackmagic_espidf.Platform.Decimal.{decimal, atoi, atoi-decimal, some_digits}
use blackmagic_espidf.Platform.Baud.{
  Device, Told, current_baud, setting_baud, baudrate, txpower, no_text, to_uint32,
  platform_set_baud, cgi_baud,
}

-- A JavaScript number as text; no number is NaN.
abbrev pub number_text : Option ℤ → List ℕ
number_text none = codes "NaN"
number_text (some (pos n)) = decimal n
number_text (some (negsuc n)) = b'-' ∷ decimal (n + 1)

-- What is asked for behind the prompt's answer: nothing if it is cancelled or empty.
unfoldable pub set_baud :
    (parse_int : List ℕ → Option ℤ) → (prompted : Option (List ℕ)) → Option (List ℕ)
set_baud parse_int none = none
set_baud parse_int (some []) = none
set_baud parse_int (some (c ∷ cs)) = some (codes "set=" ++ number_text (parse_int (c ∷ cs)))

-- The body that `snprintf` writes.
abbrev pub body_of : Told → List ℕ
body_of (current_baud n) = []
body_of (setting_baud n) = []
body_of (baudrate n) = codes "{\"baudrate\": " ++ decimal n ++ codes " }"
body_of (txpower n) = codes "{\"txpower\": " ++ decimal n ++ codes " }"
body_of no_text = []

abbrev bodies : List Told → List ℕ
bodies [] = []
bodies (t ∷ ts) = body_of t ++ bodies ts

positive : (n : ℕ) → 0 < n → is_zero (pos n) ≡ false
positive zero h = absurd (omega arith)
positive (suc n) h = refl

-- `find_arg` finds the value of `set` in the arguments, `baudrate_of` is `JSON.parse` and the field.
module _ (actual : ℕ → ℕ) (power_set : ℤ → ℤ → ℤ) (find_arg : List ℕ → Option (List ℕ))
    (baudrate_of : List ℕ → Option ℕ) where
  -- The device behind a request, and what the page shows.
  unfoldable pub request_baud : (args : List ℕ) → Device → Device × Option ℕ
  unfolding cgi_baud
  request_baud args d =
      let (d', told) = cgi_baud actual atoi power_set false (find_arg args) d in
      (d', baudrate_of (bodies told))

  -- The button: what `window.prompt` returns; nothing is shown anew where nothing is asked for.
  unfoldable pub on_setbaud :
      (parse_int : List ℕ → Option ℤ) → (prompted : Option (List ℕ)) → Device → Device × Option ℕ
  unfolding request_baud set_baud
  on_setbaud parse_int prompted d = elim (set_baud parse_int prompted) [
    | none ↦ (d, none)
    | some args ↦ request_baud args d
  ]

  set_when :
      (d : Device) (value : List ℕ) (b zero_rate : Bool) (asked n : ℕ)
      → b ≡ true
      → zero_rate ≡ false
      → asked ≡ n
      → let d' : Device =
          if b
          then (if zero_rate then d else platform_set_baud actual atoi power_set asked d)
          else d in
        d' ≡ platform_set_baud actual atoi power_set n d
  set_when d value b zero_rate asked n h h' e =
      rw (h, h') (ap (λ m. platform_set_baud actual atoi power_set m d) e)

  cgi_baud-decimal :
      (n : ℕ) (d : Device)
      → 0 < n
      → n < 2 ^ 31
      → cgi_baud actual atoi power_set false (some (decimal n)) d
        ≡ (platform_set_baud actual atoi power_set n d, baudrate (actual n) ∷ [])
  unfolding cgi_baud platform_set_baud
  cgi_baud-decimal n d h small =
      let text : atoi (decimal n) ≡ pos n = atoi-decimal n (omega arith) in
      let digits : ltb 0 (length (decimal n)) ≡ true = ground (arith, some_digits 9 n) in
      let nonzero : is_zero (atoi (decimal n)) ≡ false = ap is_zero text ∙ positive n h in
      let asked : to_uint32 (atoi (decimal n)) ≡ n = ap to_uint32 text ∙ omega arith in
      ap (λ (d' : Device). (d', baudrate d'.rate0 ∷ []))
        (set_when d (decimal n) _ _ _ n digits nonzero asked)

  request_baud-shows :
      (n : ℕ) (d : Device)
      → 0 < n
      → n < 2 ^ 31
      → find_arg (codes "set=" ++ number_text (some (pos n))) ≡ some (decimal n)
      → baudrate_of (body_of (baudrate (actual n))) ≡ some (actual n)
      → request_baud (codes "set=" ++ number_text (some (pos n))) d
        ≡ (platform_set_baud actual atoi power_set n d, some (actual n))
  unfolding request_baud
  request_baud-shows n d h small found read =
      ap
        (λ a.
          let (d', told) = cgi_baud actual atoi power_set false a d in
          (d', baudrate_of (bodies told)))
        found
      ∙ ap (λ (o : Device × List Told). (o.0, baudrate_of (bodies o.1)))
          (cgi_baud-decimal n d h small)
      ∙ ap (λ shown. (platform_set_baud actual atoi power_set n d, shown))
          (ap baudrate_of (append-nil (body_of (baudrate (actual n)))) ∙ read)

  -- A rate that is entered, not 0 and below 2 ^ 31, is the one that both ports are set to and that is
  -- stored, and the page shows the rate at which they run. Conditions: `parseInt` reads the rate in the
  -- text, the server finds the argument that was sent, and the page reads the number of the answer.
  pub on_setbaud-shows :
      (parse_int : List ℕ → Option ℤ) (c : ℕ) (cs : List ℕ) (n : ℕ) (d : Device)
      → parse_int (c ∷ cs) ≡ some (pos n)
      → 0 < n
      → n < 2 ^ 31
      → find_arg (codes "set=" ++ decimal n) ≡ some (decimal n)
      → baudrate_of (body_of (baudrate (actual n))) ≡ some (actual n)
      → on_setbaud parse_int (some (c ∷ cs)) d
        ≡ (platform_set_baud actual atoi power_set n d, some (actual n))
  unfolding on_setbaud set_baud
  on_setbaud-shows parse_int c cs n d parsed h small found read =
      ap (λ r. request_baud (codes "set=" ++ number_text r) d) parsed
      ∙ request_baud-shows n d h small found read
