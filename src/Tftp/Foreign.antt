-- ===== src/Tftp/Foreign.antt =====
-- Datagrams that are no update request, whichever way main/ota-tftp.c and main/ota-tftp.h describe one.
use blackmagic_espidf.Base.{
  ℕ, ◌+◌, ◌≡◌, ◌≢◌, ◌<◌, ◌%◌, ◌^◌, inl, inr, refl, ap, ◌∙◌, Bool, true, false, ◌||◌, ◌&&◌, Option,
  none, some, List, [], ◌∷◌, map, ◌==◌, leb, if◌then◌else◌, arith,
}
use blackmagic_espidf.Base.Text.{codes, str_eq}
use blackmagic_espidf.Tftp.Packet.{
  Netbuf, netbuf_len, read_u16_n, op_wrq, octet_mode, firmware_file,
}
use blackmagic_espidf.Tftp.Field.{get_field}
use blackmagic_espidf.Tftp.Receive.{World, Recv, datagram}
use blackmagic_espidf.Tftp.Server.{is_text, listening, serve}
use blackmagic_espidf.Tftp.Update.{flashed, IsUpdate, serve-refuses}

abbrev lower : ℕ → ℕ
lower c = if leb 65 c && leb c 90 then c + 32 else c

-- A text in letters of either case.
abbrev pub is_any_case : Option (List ℕ) → List ℕ → Bool
is_any_case none text = false
is_any_case (some field) text = str_eq (map lower field) text

abbrev AreLower : List ℕ → Type 0
AreLower [] = Unit
AreLower (c ∷ cs) = (lower c ≡ c) × AreLower cs

or_lower : (b x y : Bool) → (x ≡ true → y ≡ true) → (b || x) ≡ true → (b || y) ≡ true
or_lower true x y f h = refl
or_lower false x y f h = f h

str_eq-lower :
    (xs ys : List ℕ) → AreLower ys → str_eq xs ys ≡ true → str_eq (map lower xs) ys ≡ true
unfolding str_eq
str_eq-lower [] ys low h = h
str_eq-lower (c ∷ cs) [] low h = ground arith
str_eq-lower (c ∷ cs) (d ∷ ds) low h =
    let ih = str_eq-lower cs ds low.1 in
    let fixed : lower d ≡ d = low.0 in
    let same : c ≡ d = ground arith in
    let e : lower c ≡ d = ap lower same ∙ fixed in
    let first : (d == d) ≡ true = ground arith in
    let h' : ((d == 0) || str_eq cs ds) ≡ true = ground arith in
    rw (e, first) (or_lower (d == 0) (str_eq cs ds) _ ih h')

is_text-any_case :
    (field : Option (List ℕ))
    → is_text field octet_mode ≡ true
    → is_any_case field octet_mode ≡ true
unfolding is_text
is_text-any_case none h = h
is_text-any_case (some field) h =
    str_eq-lower field octet_mode (refl, (refl, (refl, (refl, (refl, tt))))) h

-- A short datagram, another operation, a file that neither the code nor main/ota-tftp.h names, a mode
-- that is not octet in any letters.
pub data IsForeign (w : World) (b : Netbuf) : Type 0 where
  short : netbuf_len b % 2 ^ 16 < 6 → IsForeign w b
  other_operation : read_u16_n w.junk b 0 ≢ op_wrq → IsForeign w b
  other_file :
      is_text (get_field 0 b) firmware_file ≡ false
      → is_text (get_field 0 b) (codes "filename.bin") ≡ false
      → IsForeign w b
  other_mode : is_any_case (get_field 1 b) octet_mode ≡ false → IsForeign w b

no-IsUpdate : (w : World) (b : Netbuf) → IsForeign w b → ¬ IsUpdate w b
no-IsUpdate w b (short h) u = absurd (omega (arith, h, u.long))
no-IsUpdate w b (other_operation h) u = h u.opcode
no-IsUpdate w b (other_file h h') u = ground (arith, u.file, h)
no-IsUpdate w b (other_mode h) u =
    let any = is_text-any_case (get_field 1 b) u.mode in ground (arith, any, h)

-- A round of `tftp_task` with a datagram that is short, is no write request, names another file than
-- `firmware.bin` or `filename.bin`, or has a mode that is not `octet` in upper or lower case: it writes
-- nothing, restarts nothing, and listens on.
pub serve-foreign :
    (w : World) (boots : Bool) (from : ℕ) (b : Netbuf) (rs : List Recv)
    → IsForeign w b
    → ((serve w boots (datagram from b ∷ rs)).1 ≡ listening rs)
      × (flashed (serve w boots (datagram from b ∷ rs)).0 ≡ [])
serve-foreign w boots from b rs foreign = elim (serve-refuses w boots from b rs) [
  | inl u ↦ absurd (no-IsUpdate w b foreign u)
  | inr refused ↦ refused
]
