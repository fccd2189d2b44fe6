-- ===== src/Delivery/Deliver.antt =====
-- discord.go, Deliver and redactURL. net/http and encoding/json are the parameter `Poster`.
pub mod Redacted
use if_sos_beacon.Base.{
  Text, codes, ℕ, ◌==◌, ◌||◌, Bool, Option, none, some, List, [], ◌∷◌, ◌++◌, if◌then◌else◌,
}
use if_sos_beacon.Base.Errors.{Error, message, wrap, Result, ok, err}
use if_sos_beacon.Base.Go.{Platform}
use if_sos_beacon.Core.{Finding}
use if_sos_beacon.Delivery.Labels.{source_label, embed_title, thread_link}
use if_sos_beacon.Delivery.Pace.{Clock, Discord, pace}
use if_sos_beacon.Delivery.Describe.{Format, build_description}

-- An error of net/http: a *url.Error, whose text holds the URL, or another.
pub data HttpError : Type 0 where
  url_error : Text → Text → Error → HttpError
  plain : Error → HttpError

unfoldable pub redact_url : HttpError → Error
redact_url (url_error op url e) = wrap (codes "discord " ++ op) e
redact_url (plain e) = e

-- The payload has one embed.
pub record DiscordEmbed : Type 0 where
  pub title : Text
  pub url : Text
  pub description : Text
  pub color : ℕ

pub data Answer : Type 0 where
  status : ℕ → Answer
  broken : HttpError → Answer

-- `build` is what http.NewRequest objects to, at a URL; `send` is client.Do.
pub record Poster (W : Type 0) : Type 0 where
  pub encode : DiscordEmbed → Result Text
  pub build : Text → Text → Option HttpError
  pub send : Text → Text → W → Answer × W
  pub decimal : ℕ → Text

module _ {W : Type 0} (p : Platform) (x : Format) (c : Clock W) (h : Poster W) where
  unfoldable pub embed_of : Finding → W → DiscordEmbed × W
  unfolding build_description
  embed_of f w =
      let (text, w') = build_description x c f w in
      (
        record {
          title = embed_title p f.signal;
          url = thread_link f.signal;
          description = text;
          color = (source_label p f.signal.source).1;
        },
        w',
      )

  unfoldable pub judge : Answer → Option Error
  unfolding redact_url
  judge (broken e) = some (redact_url e)
  judge (status n) =
      if n == 204 || n == 200
      then none
      else some (message (codes "discord webhook status " ++ h.decimal n))

  unfoldable pub send_body : Text → Text → W → Option Error × W
  unfolding judge redact_url
  send_body url body w = elim (h.build url body) [
    | some e ↦ (some (redact_url e), w)
    | none ↦ let (answer, w') = h.send url body w in (judge answer, w')
  ]

  unfoldable pub post_embed : Text → Finding → W → Option Error × W
  unfolding embed_of send_body
  post_embed url f w =
      let (embed, w') = embed_of f w in
      elim (h.encode embed) [
        | err e ↦ (some (wrap (codes "marshal discord payload") e), w')
        | ok body ↦ send_body url body w'
      ]

  -- A pace that ends in an error ends the delivery.
  unfoldable pub deliver : Discord → Finding → W → (Option Error × Discord) × W
  deliver d f w =
      let ((stop, d'), w') = pace c d w in
      elim stop [
        | some e ↦ ((some e, d'), w')
        | none ↦ let (r, w'') = post_embed d.webhook_url f w' in ((r, d'), w'')
      ]
