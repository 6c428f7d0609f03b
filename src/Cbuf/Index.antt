-- ===== src/Cbuf/Index.antt =====
-- The arithmetic of two indices that go round, for main/CBUF.h.
use native.Mathlib.Decide.{dec_lt}
use native.Mathlib.Nat.{mod_self, mod-eq_of_lt, mod-lt, mod-eq-sub-mod}
use blackmagic_espidf.Base.{ℕ, ◌+◌, ◌-◌, ◌%◌, ◌≤◌, ◌<◌, ◌≡◌, ◌≢◌, ◌⊎◌, inl, inr, ◌∙◌, ap, arith}

-- The distance of two indices, and the next index, at any range `m`.
distance :
    (g p m : ℕ)
    → g < m
    → p < m
    → ((g ≤ p) × ((p + m - g) % m ≡ p - g)) ⊎ ((p < g) × ((p + m - g) % m ≡ p + m - g))
distance g p m hg hp = elim (dec_lt p g) [
  | yes behind ↦ inr (behind, mod-eq_of_lt (omega arith))
  | no ahead ↦ inl (
    omega arith,
    mod-eq-sub-mod {n = p + m - g} {m = m} (omega arith)
        ∙ ap (λ k. k % m) {y = p - g} (omega arith)
        ∙ mod-eq_of_lt (omega arith),
  )
]

next : (g m : ℕ) → g < m → ((g + 1 < m) × ((g + 1) % m ≡ g + 1)) ⊎ ((g + 1 ≡ m) × ((g + 1) % m ≡ 0))
next g m hg = elim (dec_lt (g + 1) m) [
  | yes below ↦ inl (below, mod-eq_of_lt below)
  | no last ↦ let e : g + 1 ≡ m = omega arith in inr (e, rw e (mod_self m))
]

pub len-push :
    (g p m : ℕ)
    → g < m
    → p < m
    → (p + m - g) % m + 1 < m
    → ((p + 1) % m + m - g) % m ≡ (p + m - g) % m + 1
len-push g p m hg hp h = omega (
  arith,
  distance g p m hg hp,
  next p m hp,
  distance g ((p + 1) % m) m hg (mod-lt (p + 1) (omega arith)),
)

pub len-pop :
    (g p m : ℕ)
    → g < m
    → p < m
    → (p + m - g) % m ≢ 0
    → (p + m - (g + 1) % m) % m + 1 ≡ (p + m - g) % m
len-pop g p m hg hp h = omega (
  arith,
  distance g p m hg hp,
  next g m hg,
  distance ((g + 1) % m) p m (mod-lt (g + 1) (omega arith)) hp,
)

pub put-eq : (g p m : ℕ) → g < m → p < m → (g + (p + m - g) % m) % m ≡ p
put-eq g p m hg hp = elim (distance g p m hg hp) [
  | inl (ahead, e) ↦ rw e (ap (λ k. k % m) {y = p} (omega arith) ∙ mod-eq_of_lt hp)
  | inr (behind, e) ↦ rw e (
      mod-eq-sub-mod {n = g + (p + m - g)} {m = m} (omega arith)
      ∙ ap (λ k. k % m) {y = p} (omega arith)
      ∙ mod-eq_of_lt hp)
]

-- The last count of the range wraps to none.
pub len-push_wrap :
    (g p m : ℕ) → g < m → p < m → (p + m - g) % m + 1 ≡ m → ((p + 1) % m + m - g) % m ≡ 0
len-push_wrap g p m hg hp h = omega (
  arith,
  distance g p m hg hp,
  next p m hp,
  distance g ((p + 1) % m) m hg (mod-lt (p + 1) (omega arith)),
)
