-- ===== src/Tests/EngineTests.antt =====
-- The pipeline on one post, fetched twice.
use if_sos_beacon.Base.{length, ◌≤◌, ◌≡◌, refl, ap, codes, none, some, [], ◌∷◌, map}
use if_sos_beacon.Base.Int.{pos, ◌-ℤ◌}
use if_sos_beacon.Base.{◌=ᵗ◌}
use if_sos_beacon.Base.Floats.{flt, fge}
use if_sos_beacon.Base.Maps.{insert, lookup}
use if_sos_beacon.Filter.{matches}
use if_sos_beacon.Engine.Tally.{at, add_to, bump, plus, rollup}
use if_sos_beacon.Engine.Pipeline.{
  Env, process, process_all, is_stale, is_dropped, is_filtered, flag,
}
use if_sos_beacon.Engine.Pipeline.Trace.{traced}
use if_sos_beacon.Engine.Pipeline.Protocol.{Grows, Handles, process-Handles}
use if_sos_beacon.Engine.Pipeline.Balance.{Funnel}
use if_sos_beacon.Engine.Pipeline.Dedupe.{posts}
use if_sos_beacon.Engine.Pipeline.Once.{loops}
use if_sos_beacon.Engine.Pipeline.Logged.{Logged}
use if_sos_beacon.Engine.Pipeline.Counts.{process_all_counts}
use if_sos_beacon.Engine.Tally.Totals.{total}
use if_sos_beacon.Engine.Run.{
  Deps, run_beacon, run_pipeline, fetch_all, prefiltered_sources, parse_max_age, context_of, env_at,
}
use if_sos_beacon.Engine.Run.Funnel.{run_beacon-Funnel}
use if_sos_beacon.Store.Key.{key}
use if_sos_beacon.Store.File.{
  World, file_store, seen, record_finding, mark_seen, save_locked, save_bytes,
}
use if_sos_beacon.Wiring.{wired, store_deduper, store_recorder}
use if_sos_beacon.Wiring.Once.{BeaconRun, run_env, file_posts_at_most_once}
use if_sos_beacon.Tests.Fixtures.{
  ascii, beacon, context, always_cry, open_sink, two_posts, stopped_clock, codec, empty,
  store_world, Outside, post, apm, hn, closing_fails,
}

abbrev pub world : World × Outside
world = (store_world empty (closing_fails ∷ []), tt)

abbrev pub env : Env (World × Outside)
env =
    wired ascii beacon context (file_store (codec empty)) always_cry open_sink (pos 1000) (pos 300)
      []

abbrev deps : Deps (World × Outside)
deps = record {
  fetchers = two_posts ∷ [];
  classifier = some always_cry;
  sink = some open_sink;
  deduper = some (store_deduper (file_store (codec empty)));
  recorder = some (store_recorder (file_store (codec empty)));
  source_spacing = pos 0;
}

-- The post is delivered once and seen once; the save behind Record fails, and is counted.
run_counts : (run_beacon ascii stopped_clock beacon deps world).0 ≡ (
  record {
    total = record {
      fetched = 2;
      stale = 0;
      seen = 1;
      filtered = 0;
      classified = 1;
      delivered = 1;
      digest = 0;
      dropped = 0;
      errors = 1;
    };
    by_source =
        (
          hn,
          record {
            fetched = 2;
            stale = 0;
            seen = 1;
            filtered = 0;
            classified = 1;
            delivered = 1;
            digest = 0;
            dropped = 0;
            errors = 1;
          },
        )
        ∷ [];
  },
  none,
)
unfolding run_beacon run_pipeline fetch_all process_all process bump rollup file_store seen
    record_finding mark_seen save_locked save_bytes prefiltered_sources parse_max_age insert lookup
    key is_stale is_dropped is_filtered flt fge flag matches at add_to plus context_of env_at ◌=ᵗ◌
    ◌-ℤ◌
run_counts = refl

run_beacon-Funnel_example :
    Funnel (length deps.fetchers) 0 0 0 (run_beacon ascii stopped_clock beacon deps world).0.0.total
run_beacon-Funnel_example =
    run_beacon-Funnel ascii stopped_clock beacon deps world (ap (λ r. r.1) run_counts)

process-Handles_example :
    Grows
      (Handles env post)
      []
      (process (traced env) post (record { tally = []; world = (world, []) }))
process-Handles_example = process-Handles env post (record { tally = []; world = (world, []) })

-- Two runs that both fetch the post, twice each.
abbrev one_run : BeaconRun Outside
one_run = record {
  cfg = beacon;
  context = context;
  classifier = always_cry;
  sink = open_sink;
  max_age = pos 1000;
  now = pos 300;
  prefiltered = [];
  signals = post ∷ post ∷ [];
}

file_posts_at_most_once_example :
    posts apm hn
      (codes "1")
      (loops (map (run_env (codec empty) ascii) (one_run ∷ one_run ∷ [])) (world, [])).1
    ≤ 1
file_posts_at_most_once_example =
    file_posts_at_most_once (codec empty) ascii (one_run ∷ one_run ∷ []) world apm hn (codes "1")

-- The bound is met: the log of the two runs holds one post.
one_post :
    posts apm hn
      (codes "1")
      (loops (map (run_env (codec empty) ascii) (one_run ∷ one_run ∷ [])) (world, [])).1
    ≡ 1
unfolding loops process_all process bump file_store seen record_finding mark_seen save_locked
    save_bytes insert lookup key is_stale is_dropped is_filtered flt fge flag matches at add_to ◌=ᵗ◌
    ◌-ℤ◌
one_post = refl

process_all_counts_example :
    let l =
      process_all (traced env) (post ∷ post ∷ []) (record { tally = []; world = (world, []) }) in
    Logged 2 0 0 l.world.1 (total l.tally)
process_all_counts_example = process_all_counts env (post ∷ post ∷ []) world
