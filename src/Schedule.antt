-- ===== src/Schedule.antt =====
-- cmd/sos-beacon/main.go: when the beacons of a long-running process poll. Durations are int64
-- nanoseconds; where the code multiplies them, the wrap-around is written out.
pub mod Laws
pub mod Stagger
use if_sos_beacon.Base.{
  Text, codes, ◌=ᵗ◌, ℕ, ◌*◌, Bool, true, false, not, ◌&&◌, ◌||◌, Option, List, [], ◌∷◌, leb, ltb,
  any, if◌then◌else◌,
}
use if_sos_beacon.Base.Int.{ℤ, pos, pos_part, ◌+ℤ◌, ltb_ℤ, wrap64, quot}
use if_sos_beacon.Base.Errors.{Result, ok, err}
use if_sos_beacon.Base.Go.{Platform, trim_space, to_lower}
use if_sos_beacon.Core.{Duration}
use if_sos_beacon.Config.{BeaconConfig}

interval_of : Platform → Duration → Text → Result Duration
interval_of p global [] = ok global
interval_of p global (c ∷ s) = p.parse_duration (c ∷ s)

unfoldable pub resolve_interval : Platform → BeaconConfig → Duration → Result Duration
unfolding interval_of
resolve_interval p b global = interval_of p global (trim_space b.poll_interval)

-- max = iv, if the interval resolves and is larger
raise : Result Duration → Duration → Duration
raise (err e) top = top
raise (ok iv) top = if ltb_ℤ top iv then iv else top

max_from : Platform → Duration → List BeaconConfig → Duration → Duration
unfolding raise
max_from p global [] top = top
max_from p global (b ∷ bs) top = max_from p global bs (raise (resolve_interval p b global) top)

abbrev pub minute : Duration
minute = pos 60000000000

unfoldable pub max_poll_interval : Platform → List BeaconConfig → Duration → Duration
unfolding max_from
max_poll_interval p bs global =
    let top = max_from p global bs global in if ltb_ℤ (pos 0) top then top else minute

-- staleAfter := 2 * maxPollInterval(cfg, globalInterval)
unfoldable pub stale_after : Platform → List BeaconConfig → Duration → Duration
stale_after p bs global = let top = max_poll_interval p bs global in wrap64 (top +ℤ top)

abbrev is_blank : Text → Bool
is_blank [] = true
is_blank (c ∷ s) = false

unfoldable pub loop_mode : List BeaconConfig → Duration → Bool
loop_mode bs global =
    ltb_ℤ (pos 0) global || any (λ b. not (is_blank (trim_space b.poll_interval))) bs

-- interval >= max_age, both positive
unfoldable pub coverage_gap : Duration → Duration → Bool
coverage_gap interval max_age =
    ltb_ℤ (pos 0) interval && ltb_ℤ (pos 0) max_age && not (ltb_ℤ interval max_age)

-- The index and the count of the beacons are not negative; behind the guard the interval is positive.
unfoldable pub stagger_offset : ℕ → ℕ → Duration → Duration
stagger_offset index count interval =
    if leb count 1 || not (ltb_ℤ (pos 0) interval)
    then pos 0
    else quot (wrap64 (pos (pos_part interval * index))) count

pub data Level : Type 0 where
  debug info warn error : Level

unfoldable pub level_for : ℕ → Level
level_for count = if ltb 0 count then error else info

-- The flag, then the value of SOS_BEACON_LOG_LEVEL.
unfoldable pub resolve_level : Platform → Text → Text → Level
unfolding to_lower trim_space
resolve_level p flag env =
    let v = to_lower p (trim_space (if is_blank flag then env else flag)) in
    if v =ᵗ codes "debug"
    then debug
    else if v =ᵗ codes "warn" || v =ᵗ codes "warning"
    then warn
    else if v =ᵗ codes "error"
    then error
    else info
