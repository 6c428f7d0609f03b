-- ===== src/Gdb/Access.antt =====
-- Memory that is written with `M` or `X` and read with `m`.
use blackmagic_espidf.Base.{
  ℕ, zero, suc, ◌+◌, ◌*◌, ◌/◌, ◌≤◌, ◌≡◌, refl, ap, true, false, some, List, [], ◌∷◌, ◌++◌, length,
  take, drop, ltb, arith, length-append,
}
use blackmagic_espidf.Base.Text.{codes}
use blackmagic_espidf.Base.Bytes.{AreBytes}
use blackmagic_espidf.Gdb.Poll.{reply}
use blackmagic_espidf.Gdb.Memory.{
  Target, handled, pbuf_length, read_reply, read_memory, write_reply, behind, write_binary,
}

-- What the client relies on: the two conversions undo each other, two digits for a byte; what is
-- written at an address is read back from there.
pub record IsHex (hexify unhexify : List ℕ → List ℕ) : Type 0 where
  pub back : (bytes : List ℕ) → AreBytes bytes → unhexify (hexify bytes) ≡ bytes
  pub digits : (bytes : List ℕ) → length (hexify bytes) ≡ length bytes * 2

pub record Stores {Mem : Type 0} (t : Target Mem) (mem mem' : Mem) (addr : ℕ) (bytes : List ℕ)
    : Type 0 where
  pub written : t.mem_write mem addr bytes ≡ (false, mem')
  pub read : t.mem_read mem' addr (length bytes) ≡ some bytes

take-whole : (n : ℕ) (xs : List ℕ) → length xs ≡ n → take n xs ≡ xs
take-whole zero [] h = refl
take-whole (suc n) [] h = refl
take-whole zero (x ∷ xs) h = absurd (omega arith)
take-whole (suc n) (x ∷ xs) h = ap (λ l. x ∷ l) (take-whole n xs (omega arith))

drop-front : (front xs : List ℕ) → drop (length front) (front ++ xs) ≡ xs
drop-front [] xs = refl
drop-front (x ∷ front) xs = drop-front front xs

not_more : (a b : ℕ) → b ≤ a → ltb a b ≡ false
not_more a b h = ground arith

module _ {Mem : Type 0} (t : Target Mem) (mem mem' : Mem) (addr : ℕ) (bytes : List ℕ)
    (hexify unhexify : List ℕ → List ℕ) (hex : IsHex hexify unhexify)
    (stores : Stores t mem mem' addr bytes) (are_bytes : AreBytes bytes)
    (few : length bytes ≤ 512) where
  -- Bytes of a packet's front, as many as a reply may hold, are read as they are.
  read_back :
      read_memory t hexify true mem' (some (addr, length bytes))
      ≡ handled mem' (reply (hexify bytes))
  unfolding read_memory read_reply
  read_back =
      rw (not_more (pbuf_length / 2) (length bytes) (omega arith), stores.read)
        (ap (λ l. handled mem' (reply l))
          (take-whole (length bytes * 2) (hexify bytes) (hex.digits bytes)))

  -- So it is for `X`, which carries the bytes themselves.
  pub write_binary-read :
      (front : List ℕ)
      → length front ≤ 64
      → (write_binary t true mem
            (front ++ bytes)
            (length (front ++ bytes))
            (some (addr, length bytes, length front))
          ≡ handled mem' (reply (codes "OK")))
        × (read_memory t hexify true mem' (some (addr, length bytes))
            ≡ handled mem' (reply (hexify bytes)))
  unfolding write_binary write_reply
  write_binary-read front short =
      let size : length (front ++ bytes) ≡ length front + length bytes =
        length-append front bytes in
      let room : length bytes ≤ behind t (length (front ++ bytes)) (length front) = omega arith in
      (
        rw
            (
              not_more _ _ room,
              drop-front front bytes,
              take-whole (length bytes) bytes refl,
              stores.written,
            )
            refl,
        read_back,
      )
