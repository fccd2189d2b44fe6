-- ===== src/Tests/AiTests.antt =====
-- A prompt, and an answer of the endpoint.
use if_sos_beacon.Base.{codes, ◌≡◌, ◌↔◌, refl, none, [], ◌∷◌, Lacks, arith}
use if_sos_beacon.Base.Int.{pos}
use if_sos_beacon.Base.Errors.{ok}
use if_sos_beacon.Base.Go.{trim_space}
use if_sos_beacon.Core.{BeaconContext}
use if_sos_beacon.Prompts.{bucket_lines, build_system}
use if_sos_beacon.Prompts.Replace.{brace}
use if_sos_beacon.Prompts.Filled.{laid_out, build_system-laid_out}
use if_sos_beacon.Ai.{OpenAiCompat, Backend, ChatResponse, new_openai_compat, classify}
use if_sos_beacon.Ai.Classified.{Answered, classify_iff}
use if_sos_beacon.Tests.Fixtures.{post, cry, apm, Outside}

abbrev told : BeaconContext
told = record {
  beacon = apm;
  context = codes " we sell traces\n";
  buckets = record { name = codes "help"; emoji = codes "!"; definition = codes "asks" } ∷ [];
}

context-Lacks : Lacks brace (trim_space told.context)
unfolding trim_space
context-Lacks = omega arith

buckets-Lacks : Lacks brace (trim_space (bucket_lines told.buckets))
unfolding trim_space bucket_lines
buckets-Lacks = omega arith

build_system-laid_out_example :
    build_system
      (laid_out
        (codes "A ")
        (codes " B ")
        (codes " C ")
        (codes ".")
        (codes "{{CONTEXT}}")
        (codes "{{BUCKETS}}")
        (codes "{{SCHEMA}}"))
      (codes "{}\n")
      told
    ≡ laid_out
        (codes "A ")
        (codes " B ")
        (codes " C ")
        (codes ".")
        (trim_space told.context)
        (trim_space (bucket_lines told.buckets))
        (trim_space (codes "{}\n"))
build_system-laid_out_example =
    build_system-laid_out (codes "A ") (codes " B ") (codes " C ") (codes ".") (codes "{}\n") told
      (omega arith) (omega arith) (omega arith) (omega arith) context-Lacks buckets-Lacks

abbrev pub answer : ChatResponse
answer = record {
  model = codes "gpt";
  choices =
      record {
        message = record { role = codes "assistant"; content = codes "{}" };
        finish_reason = codes "stop";
      }
      ∷ [];
  prompt_tokens = pos 10;
  completion_tokens = pos 5;
  total_tokens = pos 15;
}

abbrev endpoint : Backend Outside
endpoint = record {
  encode_payload = λ p. ok p.title;
  encode_request = λ r. ok r.model;
  build = λ r. none;
  send = λ r w. (ok (record { status = 200; body = codes "{}" }), w);
  decode_response = λ b. ok answer;
  decode_verdict = λ b. ok cry;
  record_gen_ai = λ cr w. w;
  decimal = λ n. [];
}

abbrev pub client : OpenAiCompat
client = new_openai_compat [] (codes "gpt") (codes "key") []

classify_iff_example :
    ((classify endpoint client [] [] post told tt).0 ≡ ok cry)
    ↔ Answered endpoint client [] [] post told tt cry
classify_iff_example = classify_iff endpoint client [] [] post told tt cry

classified : (classify endpoint client [] [] post told tt).0 ≡ ok cry
unfolding classify
classified = refl
