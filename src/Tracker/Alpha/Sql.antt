-- ===== src/Tracker/Alpha/Sql.antt =====
-- The statements of tracker/internal/graphstore/v1alpha/statements.go, one function each over the
-- table as a list of rows. A select yields its rows in the order of the table here, and a query that
-- reads them in an order of its own.
pub mod Laws
pub mod Joins
use depscloud.Base.{Bool, List, Option, [], contains, drop, if◌then◌else◌, keep, list_eq, map}
use depscloud.Base.{nat_eq, none, not, option_eq, some, take, ℕ, ◌&&◌, ◌++◌, ◌==◌, ◌∷◌}
use depscloud.Base.Bytes.{Bytes}
use depscloud.Tracker.Alpha.Types.{FindRequest, Key, Row, key_eq}
use depscloud.Base.Int32.{negsuc, pos, ℤ}

abbrev pub Table : Type 0
Table = List Row

-- mysql, sqlite3 and pgx, by the statements that `DefaultStatementsFor` picks.
pub data Driver : Type 0 where
  mysql sqlite postgres : Driver

unfoldable pub find_row : Key → Table → Option Row
find_row k [] = none
find_row k (r ∷ t) = if k == r.key then some r else find_row k t

-- `REPLACE INTO dts_graphdata … VALUES (…, NULL)`: the old row goes, the new one is added.
unfoldable pub without : Key → Table → Table
without k [] = []
without k (r ∷ t) = let rest = without k t in if k == r.key then rest else r ∷ rest

-- `INSERT … ON DUPLICATE KEY UPDATE` sets the four other columns, date_deleted to NULL.
unfoldable pub upsert_mysql : Row → Table → Table
upsert_mysql new [] = new ∷ []
upsert_mysql new (r ∷ t) =
    if new.key == r.key
    then record r {
      encoding = new.encoding;
      graph_item_data = new.graph_item_data;
      last_modified = new.last_modified;
      date_deleted = none;
    }
      ∷ t
    else r ∷ upsert_mysql new t

-- `INSERT … ON CONFLICT … DO UPDATE SET` names three columns, and not date_deleted.
unfoldable pub upsert_postgres : Row → Table → Table
upsert_postgres new [] = new ∷ []
upsert_postgres new (r ∷ t) =
    if new.key == r.key
    then record r {
      graph_item_data = new.graph_item_data;
      encoding = new.encoding;
      last_modified = new.last_modified;
    }
      ∷ t
    else r ∷ upsert_postgres new t

-- insertGraphData
unfoldable pub insert_graph_data : Driver → Row → Table → Table
insert_graph_data sqlite new t = without new.key t ++ (new ∷ [])
insert_graph_data mysql new t = upsert_mysql new t
insert_graph_data postgres new t = upsert_postgres new t

-- deleteGraphData, the same for all drivers: it marks the row, and keeps it.
unfoldable pub delete_graph_data : ℕ → Key → Table → Table
delete_graph_data time k [] = []
delete_graph_data time k (r ∷ t) =
    (if k == r.key then record r { date_deleted = some time } else r) ∷ delete_graph_data time k t

-- `LIMIT :limit OFFSET :offset` on the rows in the order that the database reads them in. sqlite
-- documents that a negative limit is none and that a negative offset skips nothing; MySQL and
-- Postgres refuse both, which is `none`.
unfoldable pub limited : Driver → ℤ → ℤ → Table → Option Table
limited d (pos limit) (pos offset) t = some (take limit (drop offset t))
limited sqlite (pos limit) (negsuc _) t = some (take limit t)
limited sqlite (negsuc _) (pos offset) t = some (drop offset t)
limited sqlite (negsuc _) (negsuc _) t = some t
limited mysql (pos _) (negsuc _) t = none
limited mysql (negsuc _) _ t = none
limited postgres (pos _) (negsuc _) t = none
limited postgres (negsuc _) _ t = none

-- `WHERE graph_item_type = :graph_item_type`
abbrev pub of_type : Bytes → Table → Table
of_type item_type t = keep (λ r. item_type == r.key.graph_item_type) t

-- listGraphData, which has no ORDER BY: the order of the rows is the database's.
unfoldable pub list_graph_data : Driver → (Table → Table) → Bytes → ℤ → ℤ → Table → Option Table
unfolding limited
list_graph_data d arrange item_type limit offset t =
    limited d limit offset (arrange (of_type item_type t))

abbrev pub is_live : Row → Bool
is_live r = r.date_deleted == none

-- The conditions on the edge `g2` and on the node `g1` that both selects share.
unfoldable pub is_edge : List Bytes → Row → Bool
is_edge edge_types g2 =
    contains edge_types g2.key.graph_item_type && not (g2.key.k1 == g2.key.k2) && is_live g2

unfoldable pub is_node : List Bytes → Row → Bool
is_node node_types g1 =
    contains node_types g1.key.graph_item_type && g1.key.k1 == g1.key.k2 && is_live g1

-- The inner join of the table with itself, filtered.
unfoldable pub join : (Row → Row → Bool) → Table → Table → List (Row × Row)
join on [] t = []
join on (g1 ∷ rest) t = map (λ g2. (g1, g2)) (keep (on g1) t) ++ join on rest t

-- selectGraphDataUpstreamDependencies: ON g1.k1 = g2.k2 WHERE g2.k1 IN (:keys)
abbrev pub upstream_of : FindRequest → Row → Row → Bool
upstream_of req g1 g2 =
    g1.key.k1 == g2.key.k2
    && contains req.keys g2.key.k1
    && is_edge req.edge_types g2
    && is_node req.node_types g1

-- selectGraphDataDownstreamDependencies: ON g1.k2 = g2.k1 WHERE g2.k2 IN (:keys)
abbrev pub downstream_of : FindRequest → Row → Row → Bool
downstream_of req g1 g2 =
    g1.key.k2 == g2.key.k1
    && contains req.keys g2.key.k2
    && is_edge req.edge_types g2
    && is_node req.node_types g1

unfoldable pub select_upstream : FindRequest → Table → List (Row × Row)
select_upstream req t = join (upstream_of req) t t

unfoldable pub select_downstream : FindRequest → Table → List (Row × Row)
select_downstream req t = join (downstream_of req) t t
