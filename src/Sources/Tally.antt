-- ===== src/Sources/Tally.antt =====
-- How often an id occurs among the signals that a source returns.
use if_sos_beacon.Base.{Text, ◌=ᵗ◌, ℕ, ◌+◌, ◌≡◌, List, [], ◌∷◌, ◌++◌, arith, bit}
use if_sos_beacon.Core.{Signal}

-- How many signals have the id.
abbrev pub times : Text → List Signal → ℕ
times id [] = 0
times id (s ∷ ss) = bit (s.id =ᵗ id) + times id ss

pub times-concat :
    (id : Text) (out : List Signal) (s : Signal)
    → times id (out ++ s ∷ []) ≡ times id out + bit (s.id =ᵗ id)
times-concat id [] s = omega arith
times-concat id (t ∷ out) s = omega (arith, times-concat id out s)
