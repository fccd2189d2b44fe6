-- ===== src/Ai.antt =====
-- internal/ai/openaicompat.go: the classifier behind a chat endpoint. encoding/json, net/http and the
-- span are parameters: `Backend` has the encoders, the decoders and the call.
pub mod Classified
pub mod Enrichments
pub mod Registry
use if_sos_beacon.Base.{
  Text, codes, ◌=ᵗ◌, ℕ, ◌==◌, Bool, true, false, Option, none, some, List, [], ◌∷◌, ◌++◌,
  if◌then◌else◌,
}
use if_sos_beacon.Base.Int.{ℤ}
use if_sos_beacon.Base.Floats.{Float64, zero_point}
use if_sos_beacon.Base.Go.{trim_right}
use if_sos_beacon.Base.Errors.{Error, message, wrap, Result, ok, err}
use if_sos_beacon.Core.{Signal, Verdict, BeaconContext, Classifier}
use if_sos_beacon.Prompts.{build_system}

pub record OpenAiCompat : Type 0 where
  pub base_url : Text
  pub model : Text
  pub key : Text
  pub api_version : Text

abbrev pub default_base_url : Text
default_base_url = codes "https://api.openai.com/v1"

or_text : Text → Text → Text
or_text [] other = other
or_text (c ∷ s) other = c ∷ s

unfoldable pub new_openai_compat : Text → Text → Text → Text → OpenAiCompat
unfolding or_text trim_right
new_openai_compat base_url model key api_version = record {
  base_url = trim_right (λ c. c == b'/') (or_text base_url default_base_url);
  model = model;
  key = key;
  api_version = api_version;
}

pub record ChatMessage : Type 0 where
  pub role : Text
  pub content : Text

-- The response format is its type.
pub record ChatRequest : Type 0 where
  pub model : Text
  pub messages : List ChatMessage
  pub temperature : Float64
  pub response_format : Text

pub record Choice : Type 0 where
  pub message : ChatMessage
  pub finish_reason : Text

pub record ChatResponse : Type 0 where
  pub model : Text
  pub choices : List Choice
  pub prompt_tokens : ℤ
  pub completion_tokens : ℤ
  pub total_tokens : ℤ

pub record UserPayload : Type 0 where
  pub title : Text
  pub body : Text
  pub tags : List Text
  pub top_comments : List Text
  pub source : Text

-- A request over HTTP, and what came back.
pub record HttpRequest : Type 0 where
  pub url : Text
  pub headers : List (Text × Text)
  pub body : Text

pub record HttpReply : Type 0 where
  pub status : ℕ
  pub body : Text

-- `build` is what http.NewRequest objects to; `send` is client.Do, and a body that breaks off is one that
-- does not decode; `record_gen_ai` annotates the active span.
pub record Backend (W : Type 0) : Type 0 where
  pub encode_payload : UserPayload → Result Text
  pub encode_request : ChatRequest → Result Text
  pub build : HttpRequest → Option Error
  pub send : HttpRequest → W → Result HttpReply × W
  pub decode_response : Text → Result ChatResponse
  pub decode_verdict : Text → Result Verdict
  pub record_gen_ai : ChatResponse → W → W
  pub decimal : ℕ → Text

unfoldable pub payload_of : Signal → UserPayload
payload_of s = record {
  title = s.title;
  body = s.body;
  tags = s.tags;
  top_comments = s.top_comments;
  source = s.source;
}

unfoldable pub chat_request : OpenAiCompat → Text → Text → ChatRequest
chat_request c system user = record {
  model = c.model;
  messages =
      record { role = codes "system"; content = system }
      ∷ record { role = codes "user"; content = user }
      ∷ [];
  temperature = zero_point;
  response_format = codes "json_object";
}

version_query : Text → Text
version_query [] = []
version_query (c ∷ s) = codes "?api-version=" ++ c ∷ s

key_header : Text → Text → Text × Text
key_header [] key = (codes "Authorization", codes "Bearer " ++ key)
key_header (c ∷ s) key = (codes "api-key", key)

unfoldable pub http_request : OpenAiCompat → Text → HttpRequest
unfolding version_query key_header
http_request c body = record {
  url = c.base_url ++ codes "/chat/completions" ++ version_query c.api_version;
  headers = (codes "Content-Type", codes "application/json") ∷ key_header c.api_version c.key ∷ [];
  body = body;
}

module _ {W : Type 0} (h : Backend W) where
  -- The content of the first choice.
  verdict_of : List Choice → ChatResponse → W → Result Verdict × W
  verdict_of [] cr w = (err (message (codes "no choices in response")), w)
  verdict_of (choice ∷ rest) cr w =
      let w' = h.record_gen_ai cr w in
      elim (h.decode_verdict choice.message.content) [
        | err e ↦ (err (wrap (codes "parse verdict json") e), w')
        | ok v ↦ (ok v, w')
      ]

  read_reply : HttpReply → W → Result Verdict × W
  unfolding verdict_of
  read_reply r w =
      if r.status == 200
      then elim (h.decode_response r.body) [
        | err e ↦ (err (wrap (codes "decode response") e), w)
        | ok cr ↦ verdict_of cr.choices cr w
      ]
      else (err (message (codes "chat completions status " ++ h.decimal r.status)), w)

  send_request : HttpRequest → W → Result Verdict × W
  unfolding read_reply
  send_request req w = elim (h.build req) [
    | some e ↦ (err e, w)
    | none ↦
        let (answer, w') = h.send req w in
        elim answer [ err e ↦ (err e, w') | ok r ↦ read_reply r w' ]
  ]

  -- `template` and `schema` are the embedded files.
  unfoldable pub classify :
      OpenAiCompat → Text → Text → Signal → BeaconContext → W → Result Verdict × W
  unfolding send_request payload_of chat_request http_request
  classify c template schema s bc w =
      let system = build_system template schema bc in
      elim (h.encode_payload (payload_of s)) [
        | err e ↦ (err (wrap (codes "marshal user payload") e), w)
        | ok user ↦ elim (h.encode_request (chat_request c system user)) [
          | err e ↦ (err (wrap (codes "marshal request") e), w)
          | ok body ↦ send_request (http_request c body) w
        ]
      ]

  unfoldable pub openai_classifier : OpenAiCompat → Text → Text → Classifier W
  unfolding classify
  openai_classifier c template schema = record { classify = classify c template schema }

-- recordGenAI: the attributes, each with the text of its value. `number` is the text of an integer.
finish_attributes : List Choice → List (Text × Text)
finish_attributes [] = []
finish_attributes (choice ∷ rest) =
    if choice.finish_reason =ᵗ []
    then []
    else (codes "gen_ai.response.finish_reasons", choice.finish_reason) ∷ []

unfoldable pub gen_ai_attributes : (ℤ → Text) → OpenAiCompat → ChatResponse → List (Text × Text)
unfolding finish_attributes
gen_ai_attributes number c cr =
    (codes "gen_ai.operation.name", codes "chat")
    ∷ (codes "gen_ai.system", codes "openai")
    ∷ (codes "gen_ai.request.model", c.model)
    ∷ (codes "gen_ai.response.model", cr.model)
    ∷ (codes "gen_ai.usage.input_tokens", number cr.prompt_tokens)
    ∷ (codes "gen_ai.usage.output_tokens", number cr.completion_tokens)
    ∷ finish_attributes cr.choices
