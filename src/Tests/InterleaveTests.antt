-- ===== src/Tests/InterleaveTests.antt =====
-- Two goroutines that take turns, of beacons with two names and of beacons with one.
use if_sos_beacon.Base.{ℕ, codes, ◌≤◌, ◌≡◌, ◌=ᵗ◌, refl, true, List, [], ◌∷◌, map, arith}
use if_sos_beacon.Base.Int.{pos}
use if_sos_beacon.Config.{BeaconConfig}
use if_sos_beacon.Base.Maps.{lookup}
use if_sos_beacon.Base.Floats.{flt, fge}
use if_sos_beacon.Engine.Pipeline.{is_stale, is_filtered, is_dropped}
use if_sos_beacon.Engine.Pipeline.Dedupe.{posts}
use if_sos_beacon.Engine.Pipeline.Script.{script_of}
use if_sos_beacon.Engine.Interleave.{Pool, here}
use if_sos_beacon.Engine.Interleave.Schedule.{schedule, schedule-Reach}
use if_sos_beacon.Store.File.{file_store, World, seen, record_finding, save_locked, save_bytes}
use if_sos_beacon.Wiring.Once.{BeaconRun}
use if_sos_beacon.Wiring.Together.{Goroutine, NamesApart, worker_of, file_interleaved_posts}
use if_sos_beacon.Tests.Fixtures.{
  ascii, beacon, context, always_cry, open_sink, post, hn, apm, codec, empty, store_world, Outside,
}

abbrev poll : BeaconRun Outside
poll = record {
  cfg = beacon;
  context = context;
  classifier = always_cry;
  sink = open_sink;
  max_age = pos 0;
  now = pos 300;
  prefiltered = (hn, true) ∷ [];
  signals = post ∷ [];
}

abbrev of_beacon : BeaconConfig → Goroutine Outside
of_beacon cfg = record { cfg = cfg; first = poll; later = poll ∷ [] }

abbrev two_names : List (Goroutine Outside)
two_names = of_beacon beacon ∷ of_beacon (record beacon { name = codes "rum" }) ∷ []

abbrev one_name : List (Goroutine Outside)
one_name = of_beacon beacon ∷ of_beacon beacon ∷ []

abbrev fresh : World × Outside
fresh = (store_world empty [], tt)

abbrev pool : List (Goroutine Outside) → Pool (World × Outside)
pool gs = record { workers = map (worker_of (codec empty) ascii) gs; world = (fresh, []) }

-- Each takes up its signal, asks, judges and posts, turn by turn, and records it.
abbrev in_turn : List ℕ
in_turn = 0 ∷ 1 ∷ 0 ∷ 1 ∷ 0 ∷ 1 ∷ 0 ∷ 1 ∷ 0 ∷ 1 ∷ []

two_names-NamesApart : NamesApart (codec empty) ascii two_names
two_names-NamesApart = ground arith

file_interleaved_posts_example :
    posts apm hn (codes "1") (schedule in_turn (pool two_names)).world.1 ≤ 1
file_interleaved_posts_example =
    file_interleaved_posts (codec empty) ascii two_names fresh (schedule in_turn (pool two_names))
      apm hn (codes "1") two_names-NamesApart (schedule-Reach in_turn (pool two_names) here)

one_post : posts apm hn (codes "1") (schedule in_turn (pool two_names)).world.1 ≡ 1
unfolding schedule worker_of script_of seen record_finding save_locked save_bytes is_stale
    is_filtered is_dropped file_store lookup flt fge ◌=ᵗ◌
one_post = refl

-- Under one name both ask before either records, and the finding goes out twice.
two_posts : posts apm hn (codes "1") (schedule in_turn (pool one_name)).world.1 ≡ 2
unfolding schedule worker_of script_of seen record_finding save_locked save_bytes is_stale
    is_filtered is_dropped file_store lookup flt fge ◌=ᵗ◌
two_posts = refl
