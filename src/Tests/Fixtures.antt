-- ===== src/Tests/Fixtures.antt =====
-- The concrete inputs of the tests: an ASCII platform, signals, verdicts, a store and its world.
use if_sos_beacon.Base.{
  Text, ◌+◌, codes, true, false, ◌&&◌, none, some, List, [], ◌∷◌, leb, if◌then◌else◌,
}
use if_sos_beacon.Base.Int.{pos}
use if_sos_beacon.Base.Floats.{half, three_quarters, nine_tenths}
use if_sos_beacon.Base.Errors.{message, ok}
use if_sos_beacon.Base.Go.{Platform}
use if_sos_beacon.Core.{Signal, Verdict, Finding, BeaconContext, Fetcher, Classifier, Sink}
use if_sos_beacon.Config.{BeaconConfig}
use if_sos_beacon.Engine.Run.{Clock}
use if_sos_beacon.Store.Disk.{Faults, Disk}
use if_sos_beacon.Store.File.{Codec, State, World, calm}

abbrev pub ascii : Platform
ascii = record {
  lower = λ c. if leb b'A' c && leb c b'Z' then c + 32 else c;
  upper = λ c. c;
  parse_duration = λ s. ok (pos 43200000000000);
}

abbrev pub hn : Text
hn = codes "hn"

abbrev pub apm : Text
apm = codes "apm"

abbrev pub post : Signal
post = record {
  source = hn;
  id = codes "1";
  title = codes "Datadog bill tripled";
  url = [];
  permalink = codes "https://news.ycombinator.com/item?id=1";
  author = codes "alice";
  body = [];
  tags = codes "DevOps" ∷ [];
  top_comments = [];
  score = pos 10;
  num_comments = pos 2;
  created_at = pos 100;
  fetched_at = pos 200;
  raw = [];
  prenarrowed = false;
}

abbrev pub cry : Verdict
cry = record {
  bucket = codes "help";
  scores = [];
  fit = nine_tenths;
  summary = codes "cost";
  reasoning = codes "bill";
}

abbrev pub finding : Finding
finding = record { beacon = apm; signal = post; verdict = cry }

abbrev pub beacon : BeaconConfig
beacon = record {
  name = apm;
  mode = codes "dispatch";
  sources = hn ∷ [];
  reddit = record { subreddits = []; client_id_env = []; client_secret_env = [] };
  lobsters = record { tags = [] };
  filter = [];
  keywords = codes "datadog" ∷ [];
  context = [];
  buckets = [];
  destination = record { kind = codes "discord"; webhook_env = codes "HOOK" };
  thresholds = record { realtime = three_quarters; digest = half };
  max_age = codes "12h";
  poll_interval = [];
}

abbrev pub context : BeaconContext
context = record { beacon = apm; context = []; buckets = [] }

-- The other ports act on nothing.
abbrev pub Outside : Type 0
Outside = Unit {0}

abbrev pub always_cry : {X : Type 0} → Classifier X
always_cry = record { classify = λ s bc x. (ok cry, x) }

abbrev pub open_sink : {X : Type 0} → Sink X
open_sink = record { deliver = λ f x. (none, x) }

abbrev pub two_posts : {X : Type 0} → Fetcher X
two_posts = record {
  name = hn;
  fetch = λ x. ((post ∷ post ∷ [], none), x);
  prefilters_by_keyword = some true;
}

abbrev pub stopped_clock : {X : Type 0} → Clock X
stopped_clock = record { now = λ x. (pos 300, x); wait = λ d x. (false, x) }

-- It writes any state as `{}` and reads the given one.
abbrev pub codec : State → Codec
codec s = record {
  marshal = λ _. ok (codes "{}");
  unmarshal =
      λ _. ok (record { seen = some s.seen; findings = s.findings; claims = some s.claims });
}

abbrev pub state_path : Text
state_path = codes "sos-state.json"

abbrev pub one_row : State
one_row = record { seen = (codes "apm:hn:1", true) ∷ []; findings = finding ∷ []; claims = [] }

-- The save that comes next fails when it closes the temporary file.
abbrev pub closing_fails : Faults
closing_fails = record calm { close_error = some (message (codes "disk full")) }

abbrev pub blank_disk : Disk
blank_disk = record { files = λ _. none; moments = [] }

abbrev pub store_world : State → List Faults → World
store_world s fs = record {
  file = record { path = state_path; state = s };
  disk = blank_disk;
  faults = fs;
}

abbrev pub empty : State
empty = record { seen = []; findings = []; claims = [] }
