-- ===== src/Schedule/Stagger.antt =====
-- The phase offsets of the beacons.
use if_sos_beacon.Base.{ℕ, ◌+◌, ◌*◌, ◌/◌, ◌^◌, ◌≤◌, ◌<◌, ◌≡◌, arith}
use if_sos_beacon.Base.Int.{pos, pos_part, wrap64_fits, quot}
use native.Mathlib.Nat.{le-div_iff_mul-le, div-mul-le_self, div-lt_iff_lt-mul}
use if_sos_beacon.Schedule.{stagger_offset}

-- Without overflow the offset is the share of the interval.
stagger_offset_exact :
    (i count n : ℕ)
    → 1 < count
    → 0 < n
    → n * i < 2 ^ 63
    → stagger_offset i count (pos n) ≡ pos (n * i / count)
unfolding stagger_offset quot
stagger_offset_exact i count n c h fits = ground (arith, wrap64_fits (pos (n * i)))

div-add-le : (a b c : ℕ) → 0 < c → a / c + b / c ≤ (a + b) / c
div-add-le a b c h =
    (le-div_iff_mul-le h).1 (grind (arith, div-mul-le_self a c, div-mul-le_self b c))

div_mono : (a b c : ℕ) → 0 < c → a ≤ b → a / c ≤ b / c
div_mono a b c h le = (le-div_iff_mul-le h).1 (omega (arith, div-mul-le_self a c, le))

-- The offsets of the beacons are apart by at least their share of the interval, and less than the
-- interval, where the product of the interval and the index does not overflow.
pub stagger_offset_apart :
    (i j count n : ℕ)
    → 1 < count
    → 0 < n
    → i < j
    → j < count
    → n * j < 2 ^ 63
    → (pos_part (stagger_offset i count (pos n)) + n / count
        ≤ pos_part (stagger_offset j count (pos n)))
      × (pos_part (stagger_offset j count (pos n)) < n)
stagger_offset_apart i j count n h k ij jc fits =
    let step : n * i + n ≤ n * j = grind arith in
    let below : n * j < n * count = grind arith in
    rw
      (
        stagger_offset_exact i count n h k (omega (arith, step, fits)),
        stagger_offset_exact j count n h k fits,
      )
      (
        omega (
          arith,
          div-add-le (n * i) n count (omega arith),
          div_mono (n * i + n) (n * j) count (omega arith) step,
        ),
        (div-lt_iff_lt-mul (omega arith)).1 below,
      )
