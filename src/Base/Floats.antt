-- ===== src/Base/Floats.antt =====
-- float64 as its IEEE 754 bit pattern, with the comparisons that the program makes. A NaN compares
-- false with everything, and the two zeros are equal.
use if_sos_beacon.Base.Tests.{ltb, leb, ◌==◌, if◌then◌else◌}
use if_sos_beacon.Base.Int.{ℤ, pos, sub_ℕ, ltb_ℤ}
use Prim.Native.Nat.{ℕ, ◌%◌, ◌^◌}
use mathlib.Core.Bool.{Bool, not, ◌&&◌}

pub record Float64 : Type 0 where
  pub bits : ℕ

abbrev sign_bit : ℕ
sign_bit = 2 ^ 63

abbrev infinity_bits : ℕ
infinity_bits = 0x7FF0000000000000

abbrev magnitude : Float64 → ℕ
magnitude x = x.bits % sign_bit

unfoldable pub is_nan : Float64 → Bool
is_nan x = ltb infinity_bits (magnitude x)

-- Bit patterns of the same sign are ordered as their magnitudes.
rank : Float64 → ℤ
rank x = if leb sign_bit x.bits then sub_ℕ 0 (magnitude x) else pos (magnitude x)

-- a < b
unfoldable pub flt : Float64 → Float64 → Bool
unfolding is_nan rank
flt a b = not (is_nan a) && not (is_nan b) && ltb_ℤ (rank a) (rank b)

-- a >= b
unfoldable pub fge : Float64 → Float64 → Bool
unfolding is_nan rank
fge a b = not (is_nan a) && not (is_nan b) && not (ltb_ℤ (rank a) (rank b))

-- a == 0
unfoldable pub is_zero : Float64 → Bool
is_zero x = magnitude x == 0

abbrev pub zero_point : Float64
zero_point = record { bits = 0 }

-- 0.50
abbrev pub half : Float64
half = record { bits = 0x3FE0000000000000 }

-- 0.75
abbrev pub three_quarters : Float64
three_quarters = record { bits = 0x3FE8000000000000 }

-- 0.90
abbrev pub nine_tenths : Float64
nine_tenths = record { bits = 0x3FECCCCCCCCCCCCD }
