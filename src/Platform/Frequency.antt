-- ===== src/Platform/Frequency.antt =====
-- The frequency of the debug port: `platform_max_frequency_set` and `platform_max_frequency_get` of
-- main/platform.c.
use native.Mathlib.Nat.{div-mul-le_self, lt-div-mul-add, le-div_iff_mul-le, div-lt_iff_lt-mul}
use blackmagic_espidf.Base.{
  ℕ, ◌+◌, ◌-◌, ◌*◌, ◌/◌, ◌<◌, ◌≤◌, ◌≡◌, Option, none, some, ltb, if◌then◌else◌, arith,
}

abbrev swd_cycles_per_clock : ℕ
swd_cycles_per_clock = 19

abbrev swd_total_cycles : ℕ
swd_total_cycles = 127

abbrev clock : ℕ
clock = 160000000

-- The largest `int` over SWD_TOTAL_CYCLES: above this frequency the product overflows, which C leaves
-- undefined.
abbrev pub largest : ℕ
largest = 16909320

-- The new `swd_delay_cnt`, if it is defined. Where the products exceed the clock, C's quotient is 0 or
-- negative, and the count is 0.
unfoldable pub platform_max_frequency_set : (freq swd_delay_cnt : ℕ) → Option ℕ
platform_max_frequency_set freq swd_delay_cnt =
    if ltb freq 50000
    then some swd_delay_cnt
    else if ltb largest freq
    then none
    else if ltb clock (swd_total_cycles * freq)
    then some 0
    else some ((clock - swd_total_cycles * freq) / (swd_cycles_per_clock * freq))

unfoldable pub platform_max_frequency_get : (swd_delay_cnt : ℕ) → ℕ
platform_max_frequency_get swd_delay_cnt =
    clock / (swd_delay_cnt * swd_cycles_per_clock + swd_total_cycles)

least-delay :
    (c f : ℕ) → c * (19 * f) ≤ clock - 127 * f → 127 * f ≤ clock → f * (c * 19 + 127) ≤ clock
least-delay c f h h' = omega arith

next-delay :
    (c f : ℕ)
    → clock - 127 * f < c * (19 * f) + 19 * f
    → 127 * f ≤ clock
    → clock < f * ((c + 1) * 19 + 127)
next-delay c f h h' = omega arith

-- A frequency from 50 kHz that the fastest clock reaches: the count that is set gives a frequency that
-- is not below the requested one, and with one more it would be below.
pub platform_max_frequency_set-nearest :
    (freq old : ℕ)
    → 50000 ≤ freq
    → 127 * freq ≤ 160000000
    → let c = (160000000 - 127 * freq) / (19 * freq) in
      (platform_max_frequency_set freq old ≡ some c)
      × (freq ≤ platform_max_frequency_get c)
      × (platform_max_frequency_get (c + 1) < freq)
unfolding platform_max_frequency_set platform_max_frequency_get
platform_max_frequency_set-nearest freq old h h' =
    let c : ℕ = (160000000 - 127 * freq) / (19 * freq) in
    let below : c * (19 * freq) ≤ 160000000 - 127 * freq =
      div-mul-le_self (160000000 - 127 * freq) (19 * freq) in
    let above : 160000000 - 127 * freq < c * (19 * freq) + 19 * freq =
      lt-div-mul-add {a = 160000000 - 127 * freq} (omega arith) in
    (
      ground arith,
      (le-div_iff_mul-le {k = c * 19 + 127} (omega arith)).1 (least-delay c freq below h'),
      (div-lt_iff_lt-mul {k = (c + 1) * 19 + 127} (omega arith)).1 (next-delay c freq above h'),
    )
