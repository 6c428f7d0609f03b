-- ===== src/Cbuf/Window.antt =====
-- Entries of the circular buffer of main/CBUF.h that follow each other, around its end.
use native.Mathlib.Decide.{dec_lt}
use native.Mathlib.Nat.{mod-add-mod, mod-eq_of_lt, mod-eq-sub-mod, mod-lt}
use blackmagic_espidf.Base.{
  ℕ, zero, suc, ◌+◌, ◌-◌, ◌%◌, ◌≤◌, ◌<◌, ◌≡◌, ◌≢◌, refl, sym, ◌∙◌, ap, ap₂, List, [], ◌∷◌, ◌++◌,
  length, get_or, set, arith,
}

pub get_or-set_self : (xs : List ℕ) (i v : ℕ) → i < length xs → get_or (set xs i v) i 0 ≡ v
get_or-set_self [] i v h = absurd (omega arith)
get_or-set_self (x ∷ xs) zero v h = refl
get_or-set_self (x ∷ xs) (suc i) v h = get_or-set_self xs i v (omega arith)

get_or-set_ne : (xs : List ℕ) (i j v : ℕ) → i ≢ j → get_or (set xs i v) j 0 ≡ get_or xs j 0
get_or-set_ne [] i j v h = refl
get_or-set_ne (x ∷ xs) zero zero v h = absurd (h refl)
get_or-set_ne (x ∷ xs) zero (suc j) v h = refl
get_or-set_ne (x ∷ xs) (suc i) zero v h = refl
get_or-set_ne (x ∷ xs) (suc i) (suc j) v h = get_or-set_ne xs i j v (omega arith)

-- Less than a lap further on is another place.
place-ne : (h n size : ℕ) → 0 < n → n < size → (h + n) % size ≢ h % size
place-ne h n size some_way less e =
    let r : ℕ = h % size in
    let r_lt : r < size = mod-lt h (omega arith) in
    let folded : (r + n) % size ≡ r = mod-add-mod h size n ∙ e in
    elim (dec_lt (r + n) size) [
      | yes below ↦ omega (arith, mod-eq_of_lt below)
      | no beyond ↦ omega (
        arith,
        mod-eq-sub-mod {n = r + n} {m = size} (omega arith),
        mod-eq_of_lt {n = r + n - size} {m = size} (omega arith),
      )
    ]

module _ (size : ℕ) where
  -- The `n` entries from index `h` on.
  abbrev pub window : List ℕ → ℕ → ℕ → List ℕ
  window e h zero = []
  window e h (suc n) = get_or e (h % size) 0 ∷ window e (h + 1) n

  pub length-window : (e : List ℕ) (h n : ℕ) → length (window e h n) ≡ n
  length-window e h zero = refl
  length-window e h (suc n) = ap suc (length-window e (h + 1) n)

  pub window-mod : (e : List ℕ) (h h' n : ℕ) → h % size ≡ h' % size → window e h n ≡ window e h' n
  window-mod e h h' zero p = refl
  window-mod e h h' (suc n) p = ap₂ ◌∷◌ (ap (λ i. get_or e i 0) p) (
      window-mod e (h + 1) (h' + 1) n
        (sym (mod-add-mod h size 1) ∙ ap (λ r. (r + 1) % size) p ∙ mod-add-mod h' size 1))

  pub window-nil : (e : List ℕ) (h : ℕ) {n : ℕ} → n ≡ 0 → window e h n ≡ []
  window-nil e h p = ap (window e h) p

  -- A write just behind a window that leaves a place free.
  pub window-set :
      (e : List ℕ) (x n h i : ℕ)
      → size ≤ length e
      → n < size
      → i ≡ (h + n) % size
      → window (set e i x) h (suc n) ≡ window e h n ++ x ∷ []
  window-set e x zero h i whole room p =
      let q : h + 0 ≡ h = omega arith in
      rw (p, q)
        (ap (λ v. v ∷ [])
          (get_or-set_self e (h % size) x (omega (arith, mod-lt h {m = size} (omega arith)))))
  window-set e x (suc n) h i whole room p =
      let q : h + suc n ≡ h + 1 + n = omega arith in
      ap₂ ◌∷◌
        (get_or-set_ne e i (h % size) x
          (λ same. place-ne h (suc n) size (omega arith) room (sym p ∙ same)))
        (window-set e x n (h + 1) i whole (omega arith) (p ∙ ap (λ k. k % size) q))

  -- A write `m` places on leaves the places before it.
  pub window-set_outside :
      (e : List ℕ) (x n m h i : ℕ)
      → n ≤ m
      → m < size
      → i ≡ (h + m) % size
      → window (set e i x) h n ≡ window e h n
  window-set_outside e x zero m h i le room p = refl
  window-set_outside e x (suc n) zero h i le room p = absurd (omega arith)
  window-set_outside e x (suc n) (suc m) h i le room p =
      let q : h + suc m ≡ h + 1 + m = omega arith in
      ap₂ ◌∷◌
        (get_or-set_ne e i (h % size) x
          (λ same. place-ne h (suc m) size (omega arith) room (sym p ∙ same)))
        (window-set_outside e x n m (h + 1) i (omega arith) (omega arith)
          (p ∙ ap (λ k. k % size) q))
