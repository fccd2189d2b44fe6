-- ===== src/Store/Registry.antt =====
-- internal/store/registry.go, and cmd/sos-beacon/main.go, purge: the store that is configured, and the
-- command that purges one source. The quoting of %q is a parameter.
use if_sos_beacon.Base.{Text, ℕ, codes, ◌=ᵗ◌, Option, none, some, if◌then◌else◌}
use if_sos_beacon.Base.Errors.{Error, message, detail, Result, ok, err}
use if_sos_beacon.Config.{StoreConfig}
use if_sos_beacon.Core.{Store}
use if_sos_beacon.Store.Disk.{Disk}
use if_sos_beacon.Store.File.{Codec, File, open_file}
use if_sos_beacon.Store.AzureSql.{Database}
use if_sos_beacon.Store.AzureSql.Open.{open_azure_sql}

abbrev pub unknown_store : Error
unknown_store = message (codes "unknown store type")

pub data Opened : Type 0 where
  file : File → Opened
  azure_sql : Opened

opened_file : Result File → Result Opened
opened_file (ok f) = ok (file f)
opened_file (err e) = err e

opened_azure : Option Error → Result Opened
opened_azure none = ok azure_sql
opened_azure (some e) = err e

module _ (quote : Text → Text) (c : Codec) (read_error : Option Error) (env : Text) where
  unfoldable pub build_store : StoreConfig → Disk → Database → Result Opened × Database
  unfolding opened_file opened_azure open_file open_azure_sql
  build_store cfg disk d =
      let (r, d') = open_azure_sql env cfg d in
      if cfg.kind =ᵗ codes "file"
      then (opened_file (open_file c read_error disk cfg.path), d)
      else if cfg.kind =ᵗ codes "azuresql"
      then (opened_azure r, d')
      else (err (detail unknown_store (quote cfg.kind)), d)

-- The purge of one source behind the opening: the receipt's count, and the closed store.
unfoldable pub purge_opened : {W : Type 0} → Store W → Text → W → Result ℕ × W
purge_opened st source w =
    let ((n, e), w') = st.purger.purge_source source w in
    (elim e [ none ↦ ok n | some x ↦ err x ], (st.close w').1)
