-- ===== src/Delivery/Deliver/Redacted.antt =====
-- The webhook's URL holds a secret, and the errors of the HTTP library name it.
use if_sos_beacon.Base.{Text, Option, none, some}
use if_sos_beacon.Base.Go.{Platform}
use if_sos_beacon.Delivery.Pace.{Clock}
use if_sos_beacon.Delivery.Describe.{Format}
use if_sos_beacon.Delivery.Deliver.{HttpError, url_error, plain, Answer, status, broken, Poster}

-- An error that names another URL.
abbrev rename_url : (Text → Text) → HttpError → HttpError
rename_url g (url_error op u e) = url_error op (g u) e
rename_url g (plain e) = plain e

abbrev rename_objection : (Text → Text) → Option HttpError → Option HttpError
rename_objection g none = none
rename_objection g (some e) = some (rename_url g e)

abbrev rename_answer : (Text → Text) → Answer → Answer
rename_answer g (status n) = status n
rename_answer g (broken e) = broken (rename_url g e)

-- The same HTTP library, but that its errors name the URL `g u` where they named `u`.
abbrev pub with_urls : {W : Type 0} → (Text → Text) → Poster W → Poster W
with_urls g h = record {
  encode = h.encode;
  build = λ u b. rename_objection g (h.build u b);
  send = λ u b w. (rename_answer g (h.send u b w).0, (h.send u b w).1);
  decimal = h.decimal;
}

module _ {W : Type 0} (p : Platform) (x : Format) (c : Clock W) (h : Poster W)
    (g : Text → Text) where
  abbrev h' : Poster W
  h' = with_urls g h
