-- ===== src/Ai/Registry.antt =====
-- internal/ai/registry.go: the registry of the classifiers. os.Getenv and the quoting of %q are
-- parameters.
use if_sos_beacon.Base.{Text, codes, ◌=ᵗ◌, if◌then◌else◌}
use if_sos_beacon.Base.Errors.{Error, message, detail, Result, ok, err}
use if_sos_beacon.Config.{AiConfig}
use if_sos_beacon.Ai.{OpenAiCompat, new_openai_compat}

abbrev pub unknown_provider : Error
unknown_provider = message (codes "unknown ai provider")

unfoldable pub build_classifier : (Text → Text) → (Text → Text) → AiConfig → Result OpenAiCompat
unfolding new_openai_compat
build_classifier getenv quote cfg =
    if cfg.provider =ᵗ codes "openai-compatible"
    then ok
        (new_openai_compat (getenv cfg.base_url_env) cfg.model (getenv cfg.key_env) cfg.api_version)
    else err (detail unknown_provider (quote cfg.provider))
