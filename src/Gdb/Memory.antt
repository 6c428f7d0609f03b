-- ===== src/Gdb/Memory.antt =====
-- The packets `m`, `M` and `X` of `GDB::gdb_main_loop`. The target's memory and the probe firmware's
-- `hexify` and `unhexify` are parameters; so is what `sscanf` has stored.
use blackmagic_espidf.Base.{
  ℕ, ◌+◌, ◌-◌, ◌*◌, ◌/◌, ◌%◌, ◌^◌, Bool, true, false, Option, none, some, List, take, drop, ltb,
  if◌then◌else◌,
}
use blackmagic_espidf.Base.Text.{codes}
use blackmagic_espidf.Gdb.Poll.{Sent, reply}

-- BUF_SIZE, and `sizeof(pbuf)`.
abbrev buf_size : ℕ
buf_size = 1024

abbrev pub pbuf_length : ℕ
pbuf_length = buf_size + 1

-- `target_mem_read`, with no bytes on an error, and `target_mem_write`, with whether it failed.
pub record Target (Mem : Type 0) : Type 0 where
  pub mem_read : Mem → (addr len : ℕ) → Option (List ℕ)
  pub mem_write : Mem → (addr : ℕ) → List ℕ → Bool × Mem

pub data Handled (Mem : Type 0) : Type 0 where
  handled : Mem → List Sent → Handled Mem
  -- `sscanf` has left a number unset.
  unset : Handled Mem

module _ {Mem : Type 0} (t : Target Mem) where
  -- `data` is what `target_mem_read` returned.
  unfoldable pub read_reply : (List ℕ → List ℕ) → Mem → (len : ℕ) → Option (List ℕ) → Handled Mem
  read_reply hexify mem len none = handled mem (reply (codes "E01"))
  read_reply hexify mem len (some bytes) = handled mem (reply (take (len * 2) (hexify bytes)))

  -- `m addr,len`.
  unfoldable pub read_memory :
      (List ℕ → List ℕ) → (has_target : Bool) → Mem → Option (ℕ × ℕ) → Handled Mem
  unfolding read_reply
  read_memory hexify false mem args = handled mem (reply (codes "EFF"))
  read_memory hexify true mem none = unset
  read_memory hexify true mem (some (addr, len)) =
      if ltb (pbuf_length / 2) len
      then handled mem (reply (codes "E02"))
      else read_reply hexify mem len (t.mem_read mem addr len)

  unfoldable pub write_reply : Bool × Mem → Handled Mem
  write_reply (true, mem) = handled mem (reply (codes "E01"))
  write_reply (false, mem) = handled mem (reply (codes "OK"))

  -- `(unsigned)(size - offs)`.
  abbrev pub behind : (size offs : ℕ) → ℕ
  behind size offs = (size + 2 ^ 32 - offs) % 2 ^ 32

  -- `M addr,len:XX`; `hex` is the offset of the digits.
  unfoldable pub write_memory :
      (List ℕ → List ℕ)
      → (has_target : Bool) → Mem
      → (pbuf : List ℕ) → (size : ℕ) → Option (ℕ × ℕ × ℕ)
      → Handled Mem
  unfolding write_reply
  write_memory unhexify false mem pbuf size args = handled mem (reply (codes "EFF"))
  write_memory unhexify true mem pbuf size none = unset
  write_memory unhexify true mem pbuf size (some (addr, len, hex)) =
      if ltb (behind size hex / 2) len
      then handled mem (reply (codes "E02"))
      else write_reply (t.mem_write mem addr (unhexify (take (len * 2) (drop hex pbuf))))

  -- `X addr,len:XX`; `bin` is the offset of the bytes.
  unfoldable pub write_binary :
      (has_target : Bool) → Mem → (pbuf : List ℕ) → (size : ℕ) → Option (ℕ × ℕ × ℕ) → Handled Mem
  unfolding write_reply
  write_binary false mem pbuf size args = handled mem (reply (codes "EFF"))
  write_binary true mem pbuf size none = unset
  write_binary true mem pbuf size (some (addr, len, bin)) =
      if ltb (behind size bin) len
      then handled mem (reply (codes "E02"))
      else write_reply (t.mem_write mem addr (take len (drop bin pbuf)))
