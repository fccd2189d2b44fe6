-- ===== src/Delivery/Pace/Spacing.antt =====
-- Two posts are never closer than the spacing.
use if_sos_beacon.Base.{none, ◌≡◌, arith, Bool-cases, Option-cases, inl, inr}
use if_sos_beacon.Base.Int.{pos, ◌-ℤ◌, ◌+ℤ◌, ◌≤ℤ◌, ltb_ℤ, InInt64, wrap64_fits, -ℤ_parts, +ℤ_parts}
use if_sos_beacon.Base.Go.{time_sub}
use if_sos_beacon.Core.{Time, Duration}
use if_sos_beacon.Delivery.Pace.{Clock, Discord, pace, needed, stamp, paused, wait_for}

-- The clock never runs backwards, and a wait that ends without an error has lasted as long as asked.
-- `at` is the time in a state of the world.
pub record ClockLaws {W : Type 0} (c : Clock W) (at : W → Time) : Type 0 where
  pub forward : (w : W) → at w ≤ℤ (c.now w).0
  pub read : (w : W) → (c.now w).0 ≤ℤ at (c.now w).1
  pub waited : (d : Duration) (w : W) → (c.wait d w).0 ≡ none → at w +ℤ d ≤ℤ at (c.wait d w).1

-- The saturating difference of instants in order.
time_sub_bounds :
    (last t : Time) → last ≤ℤ t → (pos 0 ≤ℤ time_sub t last) × (time_sub t last ≤ℤ t -ℤ last)
unfolding time_sub
time_sub_bounds last t le = ground (arith, -ℤ_parts t last)

-- The wait fills the spacing up.
wait_for_enough :
    (spacing : Duration) (last t : Time)
    → InInt64 spacing
    → last ≤ℤ t
    → last +ℤ spacing ≤ℤ t +ℤ wait_for spacing (time_sub t last)
unfolding wait_for
wait_for_enough spacing last t fits le =
    let e = time_sub t last in
    let (least, enough) = time_sub_bounds last t le in
    elim (Bool-cases (ltb_ℤ e spacing)) [
      | inl short ↦
          let small : InInt64 (spacing -ℤ e) = (
            ground (arith, short, least, fits, -ℤ_parts spacing e),
            ground (arith, short, least, fits, -ℤ_parts spacing e),
          ) in
          let gap = wrap64_fits (spacing -ℤ e) small in
          rw (short, gap)
            (ground (
              arith,
              short,
              enough,
              -ℤ_parts spacing e,
              -ℤ_parts t last,
              +ℤ_parts last spacing,
              +ℤ_parts t (spacing -ℤ e),
            ))
      | inr long ↦
          rw long (
            ground
              (arith, long, enough, -ℤ_parts t last, +ℤ_parts last spacing, +ℤ_parts t (pos 0)))
    ]

module _ {W : Type 0} (c : Clock W) (at : W → Time) (laws : ClockLaws c at) where
  stamp-late : (d : Discord) (w : W) (t : Time) → t ≤ℤ at w → t ≤ℤ (stamp c d w).0.1.last_post
  unfolding stamp
  stamp-late d w t le = omega (arith, laws.forward w, le)

  needed_enough :
      (d : Discord) (w : W)
      → InInt64 d.min_spacing
      → pos 1 ≤ℤ d.last_post
      → d.last_post ≤ℤ at w
      → d.last_post +ℤ d.min_spacing ≤ℤ at (needed c d w).1 +ℤ (needed c d w).0
  unfolding needed
  needed_enough d w fits posted past =
      let t = (c.now w).0 in
      let gap = wait_for d.min_spacing (time_sub t d.last_post) in
      let le : d.last_post ≤ℤ t = omega (arith, past, laws.forward w) in
      let enough = wait_for_enough d.min_spacing d.last_post t fits le in
      elim (Bool-cases (ltb_ℤ (pos 0) d.min_spacing)) [
        | inl on ↦
            ground (
              arith,
              on,
              posted,
              enough,
              laws.read w,
              +ℤ_parts t gap,
              +ℤ_parts (at (c.now w).1) gap,
            )
        | inr off ↦
            ground (arith, off, past, +ℤ_parts d.last_post d.min_spacing, +ℤ_parts (at w) (pos 0))
      ]

  paused-late :
      (d : Discord) (gap : Duration) (w : W) (t : Time)
      → t ≤ℤ at w +ℤ gap
      → (paused c d (c.wait gap w)).0.0 ≡ none
      → t ≤ℤ (paused c d (c.wait gap w)).0.1.last_post
  unfolding paused
  paused-late d gap w t le done = elim (Option-cases (c.wait gap w).0) [
    | inl e ↦ rw e (stamp-late d (c.wait gap w).1 t (omega (arith, le, laws.waited gap w e)))
    | inr (x, e) ↦ ground (arith, rw e at done)
  ]

  -- A post whose pace ends without an error is stamped at least the spacing after the last one, where
  -- there has been one. The spacing is an int64, and the clock reads no earlier than the last post.
  pub pace_spacing :
      (d : Discord) (w : W)
      → InInt64 d.min_spacing
      → pos 1 ≤ℤ d.last_post
      → d.last_post ≤ℤ at w
      → (pace c d w).0.0 ≡ none
      → d.last_post +ℤ d.min_spacing ≤ℤ (pace c d w).0.1.last_post
  unfolding pace
  pace_spacing d w fits posted past done =
      let (gap, w') = needed c d w in
      let enough = needed_enough d w fits posted past in
      elim (Bool-cases (ltb_ℤ (pos 0) gap)) [
        | inl long ↦ rw long (paused-late d gap w' _ enough (rw long at done))
        | inr none_left ↦
            rw none_left
              (stamp-late d w' _ (ground (arith, enough, none_left, +ℤ_parts (at w') gap)))
      ]
