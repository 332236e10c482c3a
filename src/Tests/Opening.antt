-- ===== src/Tests/Opening.antt =====
-- Opening a graph store with two addresses.
use depscloud.Tracker.Alpha.Store.{GraphStore}
use depscloud.Tracker.Alpha.Setup.{Setup, new_graph_store_for, new_sql_graph_store, open_for}
use depscloud.Tracker.Alpha.Setup.{resolve_driver_name}
use depscloud.Base.Bytes.{bytes}
use depscloud.Base.{list_eq, nat_eq, none, ok, refl, some, ℕ_discrete, ◌≡◌}
use depscloud.Tracker.Alpha.Sql.{mysql, sqlite}
use depscloud.Tracker.Beta.Driver.Resolve.{Gorm, SqlDriver, resolve, dialect, open_rw, open_ro}

abbrev setup : Setup
setup = record { open_db = λ d a. none; create_table = λ db. none; load_statements = λ d. none }

abbrev opened : GraphStore
opened = record {
  rwdb = some (record { address = bytes "rw" });
  rodb = some (record { address = bytes "ro" });
  statements = mysql;
}

opens : new_graph_store_for setup (bytes "mysql") (bytes "rw") (bytes "ro") ≡ ok opened
unfolding new_graph_store_for resolve_driver_name open_for new_sql_graph_store list_eq nat_eq
    ℕ_discrete
opens = refl

abbrev gorm : Gorm
gorm = record { open_db = λ d a. none; auto_migrate = λ a. none; db = λ a. none }

abbrev resolved : SqlDriver
resolved = record {
  rwdb = none;
  rodb = some (record { address = bytes "ro" });
  name = bytes "sqlite3";
  statements = sqlite;
}

resolves : resolve gorm (bytes "sqlite") (bytes "") (bytes "ro") ≡ ok resolved
unfolding resolve dialect open_rw open_ro list_eq nat_eq ℕ_discrete
resolves = refl
