-- ===== src/Store/AzureSql/Open.antt =====
-- azuresql.go, OpenAzureSQL and ensureSchema. The tables of the model are there from the start, as the
-- batch of the schema leaves them; where it has not run, the opening fails.
use if_sos_beacon.Base.{Text, codes, Option, none, some}
use if_sos_beacon.Base.Errors.{Error, wrap, ok, err}
use if_sos_beacon.Config.{StoreConfig}
use if_sos_beacon.Store.AzureSql.{
  Outcome, Database, done, failed, lost, consult, resolve_dsn, close,
}

-- The error of a call, if it has one.
abbrev refused : Text → Outcome → Option Error
refused what done = none
refused what (failed e) = some (wrap what e)
refused what (lost e) = some (wrap what e)

ensure_schema : Database → Option Error × Database
ensure_schema d = (refused (codes "azuresql: ensure schema") (consult d).0, (consult d).1)

-- A connection that does not answer, or whose schema cannot be made, is closed again.
connect : Database → Option Error × Database
unfolding ensure_schema close
connect d = elim (refused (codes "azuresql: connect") (consult d).0) [
  | some e ↦ (some e, (close (consult d).1).1)
  | none ↦
      let (r, d') = ensure_schema (consult d).1 in
      elim r [ none ↦ (none, d') | some e ↦ (some e, (close d').1) ]
]

-- `env` is the value of SOS_STORE_DSN.
unfoldable pub open_azure_sql : Text → StoreConfig → Database → Option Error × Database
unfolding connect resolve_dsn
open_azure_sql env cfg d = elim (resolve_dsn env cfg) [
  | err e ↦ (some e, d)
  | ok dsn ↦ elim (refused (codes "azuresql: open") (consult d).0) [
    | some e ↦ (some e, (consult d).1)
    | none ↦ connect (consult d).1
  ]
]
