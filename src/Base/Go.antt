-- ===== src/Base/Go.antt =====
-- Parts of the Go standard library that the program calls. The case tables of package unicode and
-- time.ParseDuration are a parameter, `Platform`; the space test and the trims are written out.
use if_sos_beacon.Base.Tests.{leb, ◌==◌, if◌then◌else◌}
use if_sos_beacon.Base.Texts.{Text}
use if_sos_beacon.Base.Errors.{Result}
use if_sos_beacon.Base.Int.{ℤ, pos, negsuc, ◌-ℤ◌, ltb_ℤ}
use Prim.Native.Nat.{ℕ}
use mathlib.Core.Bool.{Bool, ◌&&◌, ◌||◌}
use mathlib.Core.List.{[], ◌∷◌, map, reverse}

pub record Platform : Type 0 where
  -- unicode.ToLower and unicode.ToUpper
  pub lower : ℕ → ℕ
  pub upper : ℕ → ℕ
  -- time.ParseDuration, in nanoseconds
  pub parse_duration : Text → Result ℤ

-- strings.ToLower and strings.ToUpper of a valid string
unfoldable pub to_lower : Platform → Text → Text
to_lower p = map p.lower

unfoldable pub to_upper : Platform → Text → Text
to_upper p = map p.upper

-- unicode.IsSpace
unfoldable pub is_space : ℕ → Bool
is_space c =
    (leb 9 c && leb c 13)
    || c == 32
    || c == 0x85
    || c == 0xA0
    || c == 0x1680
    || (leb 0x2000 c && leb c 0x200A)
    || c == 0x2028
    || c == 0x2029
    || c == 0x202F
    || c == 0x205F
    || c == 0x3000

-- Drops the leading runes that pass a test.
unfoldable pub trim_left : (ℕ → Bool) → Text → Text
trim_left p [] = []
trim_left p (c ∷ s) = let rest = trim_left p s in if p c then rest else c ∷ s

unfoldable pub trim_right : (ℕ → Bool) → Text → Text
unfolding trim_left
trim_right p s = reverse (trim_left p (reverse s))

-- strings.Trim with a cutset given as a test
unfoldable pub trim : (ℕ → Bool) → Text → Text
unfolding trim_left trim_right
trim p s = trim_right p (trim_left p s)

-- strings.TrimSpace
unfoldable pub trim_space : Text → Text
unfolding trim is_space
trim_space = trim is_space

abbrev max_duration : ℤ
max_duration = pos 9223372036854775807

abbrev min_duration : ℤ
min_duration = negsuc 9223372036854775807

-- t.Sub(u), which saturates.
unfoldable pub time_sub : ℤ → ℤ → ℤ
time_sub t u =
    let d = t -ℤ u in
    if ltb_ℤ max_duration d then max_duration else if ltb_ℤ d min_duration then min_duration else d
