-- ===== src/Schedule/Laws.antt =====
-- The liveness window against the poll intervals.
use if_sos_beacon.Base.{◌<◌, ◌^◌, ◌≡◌, sym, ◌∙◌, true, List, [], ◌∷◌, ◌++◌, arith}
use mathlib.Core.Path.{subst}
use if_sos_beacon.Base.Int.{pos, pos_part, ◌≤ℤ◌, ltb_ℤ, ◌-ℤ◌, ◌+ℤ◌, InInt64, wrap64_fits, +ℤ_parts}
use if_sos_beacon.Base.Errors.{Result, ok, err}
use if_sos_beacon.Base.Go.{Platform}
use if_sos_beacon.Core.{Time, Duration}
use if_sos_beacon.Config.{BeaconConfig}
use if_sos_beacon.Health.{Monitor, beat, healthz, unix_epoch}
use if_sos_beacon.Health.Laws.{healthz-beat}
use if_sos_beacon.Schedule.{resolve_interval, raise, max_from, max_poll_interval, stale_after}

le-raise : (r : Result Duration) (top : Duration) → top ≤ℤ raise r top
unfolding raise
le-raise (err e) top = omega arith
le-raise (ok iv) top = ground arith

raise-ok : (iv top : Duration) → iv ≤ℤ raise (ok iv) top
unfolding raise
raise-ok iv top = ground arith

le-max_from :
    (p : Platform) (global : Duration) (bs : List BeaconConfig) (top : Duration)
    → top ≤ℤ max_from p global bs top
unfolding max_from
le-max_from p global [] top = omega arith
le-max_from p global (b ∷ bs) top =
    let r = resolve_interval p b global in
    omega (arith, le-raise r top, le-max_from p global bs (raise r top))

interval-le-max_from :
    (p : Platform) (global : Duration) (b : BeaconConfig) (iv : Duration)
    (xs ys : List BeaconConfig) (top : Duration)
    → resolve_interval p b global ≡ ok iv
    → iv ≤ℤ max_from p global (xs ++ b ∷ ys) top
unfolding max_from
interval-le-max_from p global b iv [] ys top h =
    let k = le-max_from p global ys (raise (ok iv) top) in
    subst (λ r. iv ≤ℤ max_from p global ys (raise r top)) (sym h)
      (omega (arith, k, raise-ok iv top))
interval-le-max_from p global b iv (x ∷ xs) ys top h = interval-le-max_from p global b iv xs ys _ h

-- The window is twice the longest interval, so it exceeds the gap between two polls.
interval-le-max_poll_interval :
    (p : Platform) (global : Duration) (b : BeaconConfig) (iv : Duration)
    (xs ys : List BeaconConfig)
    → resolve_interval p b global ≡ ok iv
    → iv ≤ℤ max_poll_interval p (xs ++ b ∷ ys) global
unfolding max_poll_interval
interval-le-max_poll_interval p global b iv xs ys h =
    ground (arith, interval-le-max_from p global b iv xs ys global h)

max_poll_interval-pos :
    (p : Platform) (global : Duration) (bs : List BeaconConfig)
    → pos 1 ≤ℤ max_poll_interval p bs global
unfolding max_poll_interval
max_poll_interval-pos p global bs = ground arith

-- A ready process answers 200 to the liveness probe whenever less than two poll intervals of some
-- configured beacon have passed since its last beat. The longest interval is taken to be under 2 ^ 62
-- nanoseconds, where doubling it does not overflow, and the instants to lie in the range of UnixNano.
pub healthz_between_polls :
    (p : Platform) (global : Duration) (b : BeaconConfig) (iv : Duration)
    (xs ys : List BeaconConfig) (m : Monitor) (t now : Time)
    → resolve_interval p b global ≡ ok iv
    → pos_part (max_poll_interval p (xs ++ b ∷ ys) global) < 2 ^ 62
    → m.stale_after ≡ stale_after p (xs ++ b ∷ ys) global
    → m.is_ready ≡ true
    → InInt64 (t -ℤ unix_epoch)
    → InInt64 (now -ℤ t)
    → ltb_ℤ (now -ℤ t) (iv +ℤ iv) ≡ true
    → (healthz now (beat t m)).0 ≡ 200
unfolding stale_after
healthz_between_polls p global b iv xs ys m t now r small window on h k soon =
    let top = max_poll_interval p (xs ++ b ∷ ys) global in
    let le = interval-le-max_poll_interval p global b iv xs ys r in
    let least = max_poll_interval-pos p global (xs ++ b ∷ ys) in
    let fits = wrap64_fits (top +ℤ top) (ground (arith, +ℤ_parts top top, least, small)) in
    let wide : m.stale_after ≡ top +ℤ top = window ∙ fits in
    let young : ltb_ℤ (now -ℤ t) m.stale_after ≡ true =
      rw wide (ground (arith, soon, le, +ℤ_parts top top, +ℤ_parts iv iv)) in
    ground (arith, healthz-beat m t now h k, on, young)
