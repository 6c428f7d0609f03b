-- ===== src/Base/Bytes.antt =====
-- Facts about bytes that are checked by evaluation over all their values.
use Prim.Native.Nat.{ℕ, zero, suc, ◌+◌, ◌≤◌, ◌<◌, bit_xor}
use mathlib.Core.Path.{◌≡◌, refl, ap, ◌∙◌}
use mathlib.Core.Logic.{inl, inr}
use mathlib.Core.Bool.{Bool, true, ◌&&◌}
use mathlib.Core.List.{List, [], ◌∷◌}
use native.Mathlib.Omega.{arith}
use blackmagic_espidf.Base.Tests.{◌==◌, ==_iff, Bool-cases}

-- The test `good` on `count` numbers from `first` on.
unfoldable pub every : (good : ℕ → Bool) → (first count : ℕ) → Bool
every good first zero = true
every good first (suc count) = every good (first + 1) count && good first

every_sound :
    (good : ℕ → Bool) (first count c : ℕ)
    → every good first count ≡ true
    → first ≤ c
    → c < first + count
    → good c ≡ true
unfolding every
every_sound good first zero c checked low high = absurd (omega arith)
every_sound good first (suc count) c checked low high = elim (Bool-cases (c == first)) [
  | inl here ↦ ap good ((==_iff c first).0 here) ∙ ground arith
  | inr later ↦ every_sound good (first + 1) count c (ground arith) (ground arith) (omega arith)
]

pub every-byte : (good : ℕ → Bool) (c : ℕ) → every good 0 256 ≡ true → c < 256 → good c ≡ true
every-byte good c checked byte = every_sound good 0 256 c checked (omega arith) (omega arith)

-- The bytes of a C `char` or `uint8_t` array.
abbrev pub AreBytes : List ℕ → Type 0
AreBytes [] = Unit
AreBytes (c ∷ cs) = (c < 256) × AreBytes cs

-- An escaped character is unescaped by the same operation.
pub bit_xor-toggle : (c : ℕ) → c < 256 → bit_xor (bit_xor c 0x20) 0x20 ≡ c
unfolding every
bit_xor-toggle c byte =
    (==_iff (bit_xor (bit_xor c 0x20) 0x20) c).0
      (every-byte (λ n. bit_xor (bit_xor n 0x20) 0x20 == n) c refl byte)
