-- ===== src/Tracker/Alpha/Setup.antt =====
-- How the graph store of tracker/internal/graphstore/v1alpha/server.go is opened.
pub mod Laws
use depscloud.Base.{◌>>=◌, ◌>>◌, Error, Option, Result, [], check, err, errorf, if◌then◌else◌}
use depscloud.Base.{list_eq, nat_eq, none, ok, option_eq, some, ◌==◌, ◌∷◌}
use depscloud.Tracker.Alpha.Sql.{Driver, mysql, postgres, sqlite}
use depscloud.Base.Bytes.{Bytes, bytes}
use depscloud.Tracker.Alpha.Store.{Db, GraphStore}
use depscloud.Tracker.Alpha.Types.{key_eq}

-- `ResolveDriverName`
unfoldable pub resolve_driver_name : Bytes → Result Driver
resolve_driver_name name =
    if name == bytes "mysql"
    then ok mysql
    else if name == bytes "sqlite"
    then ok sqlite
    else if name == bytes "postgres"
    then ok postgres
    else err
        (errorf "%s not supported, specify one of the supported systems; mysql/postgres/sqlite")

-- What opening a connection, creating the table and reading the statements answer.
pub record Setup : Type 0 where
  pub open_db : Driver → Bytes → Option Error
  pub create_table : Db → Option Error
  pub load_statements : Driver → Option Error

module _ (setup : Setup) where
  -- `sqlx.Open`, if there is an address
  unfoldable pub open_for : Driver → Bytes → Option Db → Result (Option Db)
  open_for driver [] old = ok old
  open_for driver (c ∷ cs) old = do
    check (setup.open_db driver (c ∷ cs))
    ok (some (record { address = c ∷ cs }))

  -- `NewSQLGraphStore`
  unfoldable pub new_sql_graph_store : Option Db → Option Db → Driver → Result GraphStore
  new_sql_graph_store none rodb driver =
      ok (record { rwdb = none; rodb = rodb; statements = driver })
  new_sql_graph_store (some db) rodb driver = do
    check (setup.create_table db)
    ok (record { rwdb = some db; rodb = rodb; statements = driver })

  -- `if rodb == nil && rwdb == nil`
  abbrev one_address : Option Db → Option Db → Result (Unit {0})
  one_address none none =
      err (errorf "either a storage-address or storage-readonly-address must be provided")
  one_address _ _ = ok tt

  -- `NewGraphStoreFor`
  unfoldable pub new_graph_store_for : Bytes → Bytes → Bytes → Result GraphStore
  unfolding resolve_driver_name open_for new_sql_graph_store
  new_graph_store_for driver address read_only_address = do
    d ← resolve_driver_name driver
    rwdb ← open_for d address none
    rodb ← open_for d read_only_address rwdb
    one_address rwdb rodb
    check (setup.load_statements d)
    new_sql_graph_store rwdb rodb d
