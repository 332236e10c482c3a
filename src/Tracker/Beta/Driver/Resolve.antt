-- ===== src/Tracker/Beta/Driver/Resolve.antt =====
-- `Resolve` of tracker/internal/graphstore/v1beta/driver.go, which opens a `sqlDriver`.
use depscloud.Base.{◌>>=◌, ◌>>◌, check, Error, Option, Result, [], err, errorf, if◌then◌else◌}
use depscloud.Base.{list_eq, nat_eq, none, ok, option_eq, some, ◌==◌, ◌||◌, ◌∷◌}
use depscloud.Tracker.Alpha.Sql.{Driver, mysql, postgres, sqlite}
use depscloud.Tracker.Alpha.Store.{Db}
use depscloud.Base.Bytes.{Bytes, bytes}
use depscloud.Tracker.Alpha.Types.{key_eq}

-- What `gorm.Open`, `AutoMigrate` and `DB` answer for an address.
pub record Gorm : Type 0 where
  pub open_db : Driver → Bytes → Option Error
  pub auto_migrate : Bytes → Option Error
  pub db : Bytes → Option Error

-- The fields of `sqlDriver`, with the name that its connections carry. A connection may be nil
-- within its wrapper.
pub record SqlDriver : Type 0 where
  pub rwdb : Option Db
  pub rodb : Option Db
  pub name : Bytes
  pub statements : Driver

-- `switch driver`
unfoldable pub dialect : Bytes → Result (Bytes × Driver)
dialect driver =
    if driver == bytes "mysql"
    then ok (bytes "mysql", mysql)
    else if driver == bytes "sqlite" || driver == bytes "sqlite3"
    then ok (bytes "sqlite3", sqlite)
    else if driver == bytes "postgres" || (driver == bytes "postgresql" || driver == bytes "pgx")
    then ok (bytes "postgres", postgres)
    else err (errorf "failed to resolve driver: %s")

module _ (gorm : Gorm) where
  -- `if len(storageAddress) > 0`
  unfoldable pub open_rw : Driver → Bytes → Result (Option Db)
  open_rw d [] = ok none
  open_rw d (c ∷ cs) = do
    check (gorm.open_db d (c ∷ cs))
    check (gorm.auto_migrate (c ∷ cs))
    check (gorm.db (c ∷ cs))
    ok (some (record { address = c ∷ cs }))

  -- `if len(storageReadOnlyAddress) > 0`
  unfoldable pub open_ro : Driver → Bytes → Option Db → Result (Option Db)
  open_ro d [] dbrw = ok dbrw
  open_ro d (c ∷ cs) dbrw = do
    check (gorm.open_db d (c ∷ cs))
    check (gorm.db (c ∷ cs))
    ok (some (record { address = c ∷ cs }))

  -- `if dbrw == nil && dbro == nil`
  abbrev pub some_address : Option Db → Option Db → Result (Unit {0})
  some_address none none = err (errorf "must provide one storage address")
  some_address _ _ = ok tt

  -- `Resolve`
  unfoldable pub resolve : Bytes → Bytes → Bytes → Result SqlDriver
  unfolding dialect open_rw open_ro
  resolve driver storage_address storage_read_only_address = do
    (name, d) ← dialect driver
    dbrw ← open_rw d storage_address
    dbro ← open_ro d storage_read_only_address dbrw
    some_address dbrw dbro
    ok (record { rwdb = dbrw; rodb = dbro; name = name; statements = d })
