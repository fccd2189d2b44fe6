-- ===== src/Telemetry/Setup.antt =====
-- internal/telemetry/telemetry.go, Init: what it installs. The exporter's constructor, the resources of
-- the SDK and their merge are parameters.
use if_sos_beacon.Base.{
  Text, codes, [], ◌=ᵗ◌, ◌≡◌, refl, Bool, not, ◌||◌, Bool-cases, inl, inr, Option, none, some,
  if◌then◌else◌,
}
use if_sos_beacon.Base.Errors.{Error, Result, ok, err}

-- The provider over the allowlist exporter in front of `behind`.
pub record Provider (E R : Type 0) : Type 0 where
  pub behind : E
  pub resource : R

-- The SDK's globals: the logger that takes asynchronous errors, and the provider.
pub record Globals (E R L : Type 0) : Type 0 where
  pub error_log : Option L
  pub provider : Option (Provider E R)

-- What the caller is to run at the end.
pub data Shutdown (E R : Type 0) : Type 0 where
  nothing : Shutdown E R
  shut : Provider E R → Shutdown E R

-- What the SDK gives.
pub record Sdk (W E R : Type 0) : Type 0 where
  pub exporter : W → Result E × W
  pub default_resource : R
  pub named_resource : Text → R
  pub merge : R → R → Result R

unfoldable pub otlp_configured : (Text → Text) → Bool
unfolding ◌=ᵗ◌
otlp_configured getenv =
    not (getenv (codes "OTEL_EXPORTER_OTLP_ENDPOINT") =ᵗ [])
    || not (getenv (codes "OTEL_EXPORTER_OTLP_TRACES_ENDPOINT") =ᵗ [])

abbrev pub service_name : Text
service_name = codes "sos-beacon"

unfoldable pub new_resource : {W E R : Type 0} → Sdk W E R → R
new_resource sdk = elim (sdk.merge sdk.default_resource (sdk.named_resource service_name)) [
  | err e ↦ sdk.default_resource
  | ok r ↦ r
]

module _ {W E R L : Type 0} (sdk : Sdk W E R) where
  -- A nil log leaves the error handler as it is.
  handled : Option L → Option L → Option L
  handled none old = old
  handled (some l) old = some l

  install : Option L → Result E → Globals E R L → (Shutdown E R × Option Error) × Globals E R L
  unfolding new_resource handled
  install log (err e) g = ((nothing, some e), g)
  install log (ok exp) g =
      let tp : Provider E R = record { behind = exp; resource = new_resource sdk } in
      ((shut tp, none), record { error_log = handled log g.error_log; provider = some tp })

  unfoldable pub init :
      (Text → Text)
      → Option L
      → Globals E R L
      → W
      → ((Shutdown E R × Option Error) × Globals E R L) × W
  unfolding otlp_configured install
  init getenv log g w =
      if otlp_configured getenv
      then (let (r, w') = sdk.exporter w in (install log r g, w'))
      else (((nothing, none), g), w)

  -- A provider that the caller is to shut down is the installed one, and no error comes with it; where
  -- there is nothing to shut down, Init has changed none of the SDK's globals.
  abbrev pub Consistent : Globals E R L → (Shutdown E R × Option Error) × Globals E R L → Type 0
  Consistent g ((nothing, x), g') = g' ≡ g
  Consistent g ((shut tp, x), g') = (g'.provider ≡ some tp) × (x ≡ none)

  install-Consistent :
      (log : Option L) (r : Result E) (g : Globals E R L) → Consistent g (install log r g)
  unfolding install
  install-Consistent log (err e) g = refl
  install-Consistent log (ok exp) g = (refl, refl)

  -- Whatever the environment is and however the exporter's constructor answers, a provider that the caller
  -- is to shut down is the installed one, and no error comes with it; where there is nothing to shut
  -- down, Init has changed none of the SDK's globals.
  pub init-Consistent :
      (getenv : Text → Text) (log : Option L) (g : Globals E R L) (w : W)
      → Consistent g (init getenv log g w).0
  unfolding init
  init-Consistent getenv log g w = elim (Bool-cases (otlp_configured getenv)) [
    | inl on ↦ rw on (install-Consistent log (sdk.exporter w).0 g)
    | inr off ↦ rw off refl
  ]
