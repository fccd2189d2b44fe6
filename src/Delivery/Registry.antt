-- ===== src/Delivery/Registry.antt =====
-- internal/delivery/registry.go, and the constructor of the sink (discord.go). os.Getenv and the quoting
-- of %q are parameters.
use if_sos_beacon.Base.{Text, codes, ◌=ᵗ◌, [], if◌then◌else◌}
use if_sos_beacon.Base.Int.{pos}
use if_sos_beacon.Base.Errors.{Error, message, detail, Result, ok, err}
use if_sos_beacon.Config.{Destination}
use if_sos_beacon.Delivery.Pace.{Discord}

abbrev pub unknown_destination : Error
unknown_destination = message (codes "unknown destination")

abbrev pub missing_webhook : Error
missing_webhook = message (codes "destination webhook env is empty")

-- Two seconds between two posts.
unfoldable pub new_discord : Text → Discord
new_discord webhook_url = record {
  webhook_url = webhook_url;
  min_spacing = pos 2000000000;
  last_post = pos 0;
}

unfoldable pub build_sink : (Text → Text) → (Text → Text) → Destination → Result Discord
unfolding new_discord
build_sink getenv quote dest =
    if dest.kind =ᵗ codes "discord"
    then (if getenv dest.webhook_env =ᵗ []
        then err (detail missing_webhook dest.webhook_env)
        else ok (new_discord (getenv dest.webhook_env)))
    else err (detail unknown_destination (quote dest.kind))
