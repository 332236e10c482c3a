-- ===== src/Tracker/Alpha/Setup/Laws.antt =====
-- What a graph store that was opened is.
use depscloud.Base.{>>=-eq-ok, Option, [], ap, arith, check, none, ok, refl, some}
use depscloud.Base.{sym, ◌∙◌, ◌∷◌, ◌≡◌, ◌≢◌}
use depscloud.Tracker.Alpha.Sql.{Driver}
use depscloud.Base.Bytes.{Bytes}
use depscloud.Tracker.Alpha.Store.{Db, GraphStore}
use depscloud.Tracker.Alpha.Setup.{Setup, new_graph_store_for, new_sql_graph_store, one_address}
use depscloud.Tracker.Alpha.Setup.{open_for, resolve_driver_name}

-- The connection of an address, and none of an empty one.
abbrev pub connection : Bytes → Option Db
connection [] = none
connection (c ∷ cs) = some (record { address = c ∷ cs })

abbrev pub or_other : Option Db → Option Db → Option Db
or_other none old = old
or_other (some db) old = some db

open_for-ok :
    (setup : Setup) (d : Driver) (address : Bytes) (old db : Option Db)
    → open_for setup d address old ≡ ok db
    → db ≡ or_other (connection address) old
unfolding open_for
open_for-ok setup d [] old db h = ground arith
open_for-ok setup d (c ∷ cs) old db h =
    let (_, _, h1) = >>=-eq-ok (check (setup.open_db d (c ∷ cs))) _ h in ground arith

new_sql_graph_store-ok :
    (setup : Setup) (rwdb rodb : Option Db) (d : Driver) (gs : GraphStore)
    → new_sql_graph_store setup rwdb rodb d ≡ ok gs
    → (gs.rwdb ≡ rwdb) × (gs.rodb ≡ rodb) × (gs.statements ≡ d)
unfolding new_sql_graph_store
new_sql_graph_store-ok setup none rodb d gs h = ground arith
new_sql_graph_store-ok setup (some db) rodb d gs h =
    let (_, _, h1) = >>=-eq-ok (check (setup.create_table db)) _ h in ground arith

one_address-ok :
    (setup : Setup) (rwdb rodb : Option Db) (u : Unit {0})
    → one_address setup rwdb rodb ≡ ok u
    → (rwdb ≡ none)
    → rodb ≢ none
one_address-ok setup none none u h e = cc
one_address-ok setup none (some _) u h e = λ x. cc x
one_address-ok setup (some _) rodb u h e = cc

-- A graph store that was opened for a driver has the statements of that driver; it writes to the
-- first address, and cannot write if that is empty; it reads from the second address, and from the
-- first if that is empty; and one of the two is not empty.
pub new_graph_store_for-ok :
    (setup : Setup) (driver address read_only_address : Bytes) (gs : GraphStore)
    → new_graph_store_for setup driver address read_only_address ≡ ok gs
    → (resolve_driver_name driver ≡ ok gs.statements)
      × (gs.rwdb ≡ connection address)
      × (gs.rodb ≡ or_other (connection read_only_address) (connection address))
      × (gs.rwdb ≡ none → gs.rodb ≢ none)
unfolding new_graph_store_for
new_graph_store_for-ok setup driver address read_only_address gs h =
    let (d, ed, h1) = >>=-eq-ok (resolve_driver_name driver) _ h in
    let (rw_, erw, h2) = >>=-eq-ok (open_for setup d address none) _ h1 in
    let (ro, ero, h3) = >>=-eq-ok (open_for setup d read_only_address rw_) _ h2 in
    let (u, one, h4) = >>=-eq-ok (one_address setup rw_ ro) _ h3 in
    let (_, _, h5) = >>=-eq-ok (check (setup.load_statements d)) _ h4 in
    let (frw, fro, fd) = new_sql_graph_store-ok setup rw_ ro d gs h5 in
    let writes : rw_ ≡ connection address =
      open_for-ok setup d address none rw_ erw ∙ plain (connection address) in
    (
      ed ∙ ap ok (sym fd),
      frw ∙ writes,
      fro
          ∙ open_for-ok setup d read_only_address rw_ ro ero
          ∙ ap (or_other (connection read_only_address)) writes,
      λ e x. one_address-ok setup rw_ ro u one (sym frw ∙ e) (sym fro ∙ x),
    )
  where
    plain : (c : Option Db) → or_other c none ≡ c
    plain none = refl
    plain (some _) = refl
