-- ===== src/Tftp/Field.antt =====
-- `tftp_get_field` of main/ota-tftp.c: the texts in a request.
use blackmagic_espidf.Base.{
  ℕ, zero, suc, ◌+◌, ◌≡◌, ◌≢◌, refl, ◌∙◌, ap, Option, none, some, List, [], ◌∷◌, ◌++◌, length, take,
  drop, ◌==◌, if◌then◌else◌, arith,
}
use blackmagic_espidf.Base.Int.{ℤ, pos, negsuc, pred_ℤ, is_zero}
use blackmagic_espidf.Tftp.Packet.{Netbuf, bytes, read_u16_n, op_rrq, rrq_packet, octet_mode}

-- The loop, over the bytes from `offs` on: `field`, `field_offs` and `field_len` when it ends.
unfoldable pub field_loop : ℤ → ℕ → ℕ → ℕ → List ℕ → ℤ × ℕ × ℕ
field_loop (negsuc n) offs field_offs field_len cs = (negsuc n, field_offs, field_len)
field_loop (pos n) offs field_offs field_len [] = (pos n, field_offs, field_len)
field_loop (pos n) offs field_offs field_len (c ∷ cs) =
    let field : ℤ = if c == 0 then pred_ℤ (pos n) else pos n in
    field_loop field (offs + 1)
      (if c == 0 then (if is_zero field then offs + 1 else field_offs) else field_offs)
      (if n == 0 then field_len + 1 else field_len) cs

abbrev cut_field : List ℕ → ℤ × ℕ × ℕ → Option (List ℕ)
cut_field cs (pos n, field_offs, field_len) = none
cut_field cs (negsuc zero, field_offs, field_len) = some (take field_len (drop field_offs cs))
cut_field cs (negsuc (suc n), field_offs, field_len) = none

-- The field with its zero, or `none` for the null pointer.
unfoldable pub get_field : ℕ → Netbuf → Option (List ℕ)
get_field field b = cut_field (bytes b) (field_loop (pos field) 2 2 0 (drop 2 (bytes b)))

abbrev NoZero : List ℕ → Type 0
NoZero [] = Unit
NoZero (c ∷ cs) = (c ≢ 0) × NoZero cs

skip_char :
    (n c offs fo fl : ℕ) (cs : List ℕ)
    → c ≢ 0
    → field_loop (pos (suc n)) offs fo fl (c ∷ cs) ≡ field_loop (pos (suc n)) (offs + 1) fo fl cs
unfolding field_loop
skip_char n c offs fo fl cs h = ground arith

measure_char :
    (c offs fo fl : ℕ) (cs : List ℕ)
    → c ≢ 0
    → field_loop (pos 0) offs fo fl (c ∷ cs) ≡ field_loop (pos 0) (offs + 1) fo (fl + 1) cs
unfolding field_loop
measure_char c offs fo fl cs h = ground arith

-- A field in front of the one that is asked for is skipped.
skip-field :
    (n : ℕ) (name : List ℕ) (offs fo fl : ℕ) (cs : List ℕ)
    → NoZero name
    → field_loop (pos (suc n)) offs fo fl (name ++ 0 ∷ cs)
      ≡ field_loop
          (pos n)
          (offs + (length name + 1))
          (if n == 0 then offs + (length name + 1) else fo)
          fl
          cs
unfolding field_loop
skip-field n [] offs fo fl cs h = ground arith
skip-field n (c ∷ name) offs fo fl cs h =
    let e : offs + 1 + (length name + 1) ≡ offs + (suc (length name) + 1) = omega arith in
    skip_char n c offs fo fl (name ++ 0 ∷ cs) h.0
    ∙ skip-field n name (offs + 1) fo fl cs h.1
    ∙ ap (λ k. field_loop (pos n) k (if n == 0 then k else fo) fl cs) e

-- The field that is asked for is measured, with its zero.
measure-field :
    (name : List ℕ) (offs fo fl : ℕ) (cs : List ℕ)
    → NoZero name
    → field_loop (pos 0) offs fo fl (name ++ 0 ∷ cs) ≡ (negsuc 0, fo, fl + (length name + 1))
unfolding field_loop
measure-field [] offs fo fl [] h = ground arith
measure-field [] offs fo fl (c ∷ cs) h = ground arith
measure-field (c ∷ name) offs fo fl cs h =
    let e : fl + 1 + (length name + 1) ≡ fl + (suc (length name) + 1) = omega arith in
    measure_char c offs fo fl (name ++ 0 ∷ cs) h.0
    ∙ measure-field name (offs + 1) fo (fl + 1) cs h.1
    ∙ ap (λ k. (negsuc 0, fo, k)) e

take-field :
    (name : List ℕ) (cs : List ℕ) → take (length name + 1) (name ++ 0 ∷ cs) ≡ name ++ 0 ∷ []
take-field [] cs = refl
take-field (c ∷ name) cs =
    let e : suc (length name) + 1 ≡ suc (length name + 1) = omega arith in
    rw e (ap (λ l. c ∷ l) (take-field name cs))

drop-field : (name : List ℕ) (cs : List ℕ) → drop (length name + 1) (name ++ 0 ∷ cs) ≡ cs
drop-field [] cs = refl
drop-field (c ∷ name) cs =
    let e : suc (length name) + 1 ≡ suc (length name + 1) = omega arith in rw e (drop-field name cs)

-- In a request of an opcode and two texts, field 0 is the first text and field 1 the second, each
-- with its zero, however the datagram is cut into segments.
pub get_field-request :
    (b : Netbuf) (o1 o2 : ℕ) (name mode rest : List ℕ)
    → bytes b ≡ o1 ∷ o2 ∷ (name ++ 0 ∷ (mode ++ 0 ∷ rest))
    → NoZero name
    → NoZero mode
    → (get_field 0 b ≡ some (name ++ 0 ∷ [])) × (get_field 1 b ≡ some (mode ++ 0 ∷ []))
unfolding get_field
get_field-request b o1 o2 name mode rest e hn hm =
    let tail : List ℕ = name ++ 0 ∷ (mode ++ 0 ∷ rest) in
    let n1 : ℕ = length name + 1 in
    let two : 2 + n1 ≡ suc (suc n1) = omega arith in
    let zero_add : (k : ℕ) → 0 + k ≡ k = λ k. omega arith in
    (
      rw (e, measure-field name 2 2 0 (mode ++ 0 ∷ rest) hn, zero_add)
          (ap some (take-field name (mode ++ 0 ∷ rest))),
      rw
          (
            e,
            skip-field 0 name 2 2 0 (mode ++ 0 ∷ rest) hn,
            measure-field mode (2 + n1) (2 + n1) 0 rest hm,
            zero_add,
            two,
          )
          (ap some (
            ap (take (length mode + 1)) (drop-field name (mode ++ 0 ∷ rest))
            ∙ take-field mode rest)),
    )

unended :
    (n : ℕ) (name : List ℕ) (offs fo fl : ℕ) (all : List ℕ)
    → NoZero name
    → cut_field all (field_loop (pos n) offs fo fl name) ≡ none
unended n [] offs fo fl all h = unfold field_loop in refl
unended zero (c ∷ name) offs fo fl all h =
    ap (cut_field all) (measure_char c offs fo fl name h.0)
    ∙ unended 0 name (offs + 1) fo (fl + 1) all h.1
unended (suc n) (c ∷ name) offs fo fl all h =
    ap (cut_field all) (skip_char n c offs fo fl name h.0)
    ∙ unended (suc n) name (offs + 1) fo fl all h.1

-- What is not terminated is no field: a datagram whose bytes behind the opcode hold no zero has no
-- field 0, and one with a single text no field 1.
pub get_field-unterminated :
    (b b' : Netbuf) (o1 o2 : ℕ) (name mode : List ℕ)
    → NoZero name
    → NoZero mode
    → bytes b ≡ o1 ∷ o2 ∷ name
    → bytes b' ≡ o1 ∷ o2 ∷ (name ++ 0 ∷ mode)
    → (get_field 0 b ≡ none) × (get_field 1 b' ≡ none)
unfolding get_field
get_field-unterminated b b' o1 o2 name mode hn hm e e' = (
  rw e (unended 0 name 2 2 0 (o1 ∷ o2 ∷ name) hn),
  rw (e', skip-field 0 name 2 2 0 mode hn)
      (unended 0 mode (2 + (length name + 1)) (2 + (length name + 1)) 0
        (o1 ∷ o2 ∷ (name ++ 0 ∷ mode)) hm),
)

-- The request that `tftp_send_rrq` sends reads back as a read request for the file in octet mode.
pub rrq_packet-fields :
    (b : Netbuf) (filename : List ℕ) (junk : ℕ)
    → bytes b ≡ rrq_packet filename
    → NoZero filename
    → (read_u16_n junk b 0 ≡ op_rrq)
      × (get_field 0 b ≡ some (filename ++ 0 ∷ []))
      × (get_field 1 b ≡ some (octet_mode ++ 0 ∷ []))
rrq_packet-fields b filename junk e h =
    let (name, mode) = get_field-request b 0 1 filename octet_mode [] e h (omega arith) in
    (rw e, name, mode)
