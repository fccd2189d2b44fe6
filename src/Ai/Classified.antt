-- ===== src/Ai/Classified.antt =====
-- When a classification gives a verdict, and what its span carries.
use if_sos_beacon.Base.{
  Text, ◌=ᵗ◌, ◌≡◌, ◌↔◌, refl, true, none, List, [], ◌∷◌, ◌==◌, ==_iff, arith, Bool-cases,
  Option-cases, All, inl, inr, has_prefix,
}
use if_sos_beacon.Base.Int.{ℤ}
use if_sos_beacon.Base.Maps.{lookup}
use if_sos_beacon.Base.Errors.{Result-cases, ok}
use if_sos_beacon.Core.{Signal, Verdict, BeaconContext}
use if_sos_beacon.Prompts.{build_system}
use if_sos_beacon.Telemetry.{allowed}
use if_sos_beacon.Ai.{
  OpenAiCompat, Backend, HttpRequest, HttpReply, ChatResponse, Choice, payload_of, chat_request,
  http_request, verdict_of, read_reply, send_request, classify, finish_attributes,
  gen_ai_attributes,
}

-- The steps of a classification that gives a verdict: both encodings succeed, the request is sent, the
-- answer has status 200 and decodes, and the content of its first choice is the verdict.
pub record Answered {W : Type 0} (h : Backend W) (c : OpenAiCompat) (template schema : Text)
    (s : Signal) (bc : BeaconContext) (w : W) (v : Verdict) : Type 0 where
  pub user : Text
  pub body : Text
  pub reply : HttpReply
  pub response : ChatResponse
  pub first : Choice
  pub rest : List Choice
  pub encoded : h.encode_payload (payload_of s) ≡ ok user
  pub requested : h.encode_request (chat_request c (build_system template schema bc) user) ≡ ok body
  pub built : h.build (http_request c body) ≡ none
  pub sent : (h.send (http_request c body) w).0 ≡ ok reply
  pub accepted : reply.status ≡ 200
  pub decoded : h.decode_response reply.body ≡ ok response
  pub chosen : response.choices ≡ first ∷ rest
  pub parsed : h.decode_verdict first.message.content ≡ ok v

module _ {W : Type 0} (h : Backend W) (c : OpenAiCompat) (template schema : Text) (s : Signal)
    (bc : BeaconContext) (w : W) (v : Verdict) where
  Answered-classify :
      Answered h c template schema s bc w v → (classify h c template schema s bc w).0 ≡ ok v
  unfolding classify send_request read_reply verdict_of
  Answered-classify a = ground arith

  abbrev Chosen : ChatResponse → Type 0
  Chosen cr =
      (first : Choice) × (rest : List Choice) × (cr.choices ≡ first ∷ rest)
      × (h.decode_verdict first.message.content ≡ ok v)

  verdict_of_ok :
      (cs : List Choice) (cr : ChatResponse) (u : W)
      → (verdict_of h cs cr u).0 ≡ ok v
      → (first : Choice) × (rest : List Choice) × (cs ≡ first ∷ rest)
        × (h.decode_verdict first.message.content ≡ ok v)
  unfolding verdict_of
  verdict_of_ok [] cr u e = absurd (ground arith)
  verdict_of_ok (x ∷ cs) cr u e = (x, cs, refl, ground arith)

  read_reply_ok :
      (r : HttpReply) (u : W)
      → (read_reply h r u).0 ≡ ok v
      → (r.status ≡ 200) × (cr : ChatResponse) × (h.decode_response r.body ≡ ok cr) × Chosen cr
  unfolding read_reply
  read_reply_ok r u e = elim (Bool-cases (r.status == 200)) [
    | inr bad ↦ absurd (ground (arith, rw (bad, read_reply) at e))
    | inl fine ↦ elim (Result-cases (h.decode_response r.body)) [
      | inr (x, d) ↦ absurd (ground (arith, fine, d))
      | inl (cr, d) ↦ (
        (==_iff r.status 200).0 fine,
        cr,
        d,
        verdict_of_ok cr.choices cr u (ground (arith, fine, d)),
      )
    ]
  ]

  send_request_ok :
      (req : HttpRequest)
      → (send_request h req w).0 ≡ ok v
      → (h.build req ≡ none)
        × (r : HttpReply) × ((h.send req w).0 ≡ ok r)
        × ((read_reply h r (h.send req w).1).0 ≡ ok v)
  unfolding send_request
  send_request_ok req e = elim (Option-cases (h.build req)) [
    | inr (x, b) ↦ absurd (ground (arith, b))
    | inl b ↦ elim (Result-cases (h.send req w).0) [
      | inr (x, d) ↦ absurd (ground (arith, b, d))
      | inl (r, d) ↦ (b, r, d, ground (arith, b, d))
    ]
  ]

  classify-Answered :
      (classify h c template schema s bc w).0 ≡ ok v → Answered h c template schema s bc w v
  unfolding classify
  classify-Answered e = elim (Result-cases (h.encode_payload (payload_of s))) [
    | inr (x, p) ↦ absurd (ground (arith, p))
    | inl (user, p) ↦
        elim (Result-cases
          (h.encode_request (chat_request c (build_system template schema bc) user))) [
            | inr (x, q) ↦ absurd (ground (arith, p, q))
            | inl (body, q) ↦
                let (b, r, d, k) = send_request_ok (http_request c body) (ground (arith, p, q)) in
                let (fine, cr, dec, (first, rest, cho, par)) =
                  read_reply_ok r (h.send (http_request c body) w).1 k in
                record {
                  user = user;
                  body = body;
                  reply = r;
                  response = cr;
                  first = first;
                  rest = rest;
                  encoded = p;
                  requested = q;
                  built = b;
                  sent = d;
                  accepted = fine;
                  decoded = dec;
                  chosen = cho;
                  parsed = par;
                }
          ]
  ]

  -- A classification gives a verdict exactly if each of its steps succeeds: the two encodings, the
  -- request, an answer of status 200 that decodes, and a first choice whose content is that verdict.
  pub classify_iff :
      ((classify h c template schema s bc w).0 ≡ ok v) ↔ Answered h c template schema s bc w v
  classify_iff = (classify-Answered, Answered-classify)

-- Whatever the endpoint answers, the attributes that recordGenAI puts on the span all pass the
-- exporter's allowlist.
pub gen_ai_attributes-allowed :
    (number : ℤ → Text) (c : OpenAiCompat) (cr : ChatResponse)
    → All (λ kv. allowed kv.0 ≡ true) (gen_ai_attributes number c cr)
unfolding gen_ai_attributes allowed has_prefix lookup ◌=ᵗ◌
gen_ai_attributes-allowed number c cr =
    (refl, (refl, (refl, (refl, (refl, (refl, finish cr.choices))))))
  where
    finish : (cs : List Choice) → All (λ kv. allowed kv.0 ≡ true) (finish_attributes cs)
    finish [] = tt
    finish (x ∷ cs) = elim (Bool-cases (x.finish_reason =ᵗ [])) [
      | inl blank ↦ rw blank tt
      | inr given ↦ rw given (refl, tt)
    ]
