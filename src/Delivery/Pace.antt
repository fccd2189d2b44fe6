-- ===== src/Delivery/Pace.antt =====
-- discord.go, pace: the gap between two posts to one webhook.
pub mod Spacing
use if_sos_beacon.Base.{Text, Bool, ◌&&◌, not, Option, none, some, if◌then◌else◌, ◌≡◌}
use if_sos_beacon.Base.Int.{ℤ, pos, ◌-ℤ◌, ◌+ℤ◌, ◌≤ℤ◌, ltb_ℤ, wrap64}
use if_sos_beacon.Base.Errors.{Error}
use if_sos_beacon.Base.Go.{time_sub}
use if_sos_beacon.Core.{Time, Duration}

-- time.Now, and the select on time.After and the context: an error if the context ends first.
pub record Clock (W : Type 0) : Type 0 where
  pub now : W → Time × W
  pub wait : Duration → W → Option Error × W

-- `last_post` is the zero time until the first post.
pub record Discord : Type 0 where
  pub webhook_url : Text
  pub min_spacing : Duration
  pub last_post : Time

abbrev pub is_zero : Time → Bool
is_zero t = not (ltb_ℤ t (pos 0)) && not (ltb_ℤ (pos 0) t)

wait_for : Duration → Duration → Duration
wait_for spacing elapsed = if ltb_ℤ elapsed spacing then wrap64 (spacing -ℤ elapsed) else pos 0

module _ {W : Type 0} (c : Clock W) where
  -- time.Since is called only where a post has gone before.
  needed : Discord → W → Duration × W
  unfolding time_sub wait_for
  needed d w =
      if ltb_ℤ (pos 0) d.min_spacing && not (is_zero d.last_post)
      then (wait_for d.min_spacing (time_sub (c.now w).0 d.last_post), (c.now w).1)
      else (pos 0, w)

  stamp : Discord → W → (Option Error × Discord) × W
  stamp d w = ((none, record d { last_post = (c.now w).0 }), (c.now w).1)

  paused : Discord → Option Error × W → (Option Error × Discord) × W
  unfolding stamp
  paused d (none, w) = stamp d w
  paused d (some e, w) = ((some e, d), w)

  unfoldable pub pace : Discord → W → (Option Error × Discord) × W
  unfolding needed stamp paused
  pace d w =
      let (gap, w') = needed d w in
      if ltb_ℤ (pos 0) gap then paused d (c.wait gap w') else stamp d w'
