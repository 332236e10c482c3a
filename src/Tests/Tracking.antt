-- ===== src/Tests/Tracking.antt =====
-- `Track` and the handlers that read, at concrete inputs.
use depscloud.Codec.Base64
use depscloud.Base.Bytes.{Bytes, bytes}
use depscloud.Tracker.Alpha.Client.{GraphStoreClient, IsStore}
use depscloud.Tracker.Alpha.Track.{Index, ManifestDependency, SourceRequest, get_current}
use depscloud.Tracker.Alpha.Track.{get_proposed, add_dependencies, add_discovered, add_files}
use depscloud.Tracker.Alpha.Track.{collect, index, owned}
use depscloud.Tracker.Alpha.Track.{to_delete, track}
use depscloud.Base.{List, Result, [], ok, refl, ◌∷◌, ◌≡◌, list_eq, nat_eq, option_eq, ℕ_discrete}
use depscloud.Base.{All, none}
use depscloud.Tracker.Alpha.Sql.{Table, is_edge, is_node, join, select_upstream}
use depscloud.Tests.Samples.{answering, sample_env, sqlite_store, sample_env-AreBytes}
use depscloud.Tracker.Alpha.Store.Contract.{live_view, sql_client, sql_client-IsStore}
use depscloud.Tracker.Alpha.Schema.{encode, depends_type, hashed, key_for_module, key_for_source}
use depscloud.Tracker.Alpha.Schema.{key_of, manages_type, module_type, readable_key, render}
use depscloud.Tracker.Alpha.Schema.{tagged, source}
use depscloud.Tracker.Alpha.Types.{GraphItem, key_eq}
use depscloud.Codec.Crc32.{checksum}
use depscloud.Codec.Base64.{digit, pair, quad, raw_decode, raw_encode, raw_groups, strip, triple}
use depscloud.Codec.Base64.{undigit}
use depscloud.Tracker.Alpha.Store.{find_upstream, read_rows, row_of}
use depscloud.Base.Dict.{insert, lookup}
use depscloud.Tracker.Alpha.Track.Plan.{IsOwnEdge, plan-IsOwnEdge}

abbrev dependency : Bytes → ManifestDependency
dependency name = record {
  organization = [];
  module_name = name;
  name = [];
  version_constraint = bytes "v1";
  scopes = [];
}

abbrev request_of : List ManifestDependency → SourceRequest
request_of dependencies = record {
  source = record { url = bytes "s"; kind = bytes "repository"; ref = bytes "main" };
  management_files =
      record {
        language = bytes "go";
        system = bytes "vgo";
        version = bytes "v1";
        organization = [];
        module_name = bytes "a";
        name = [];
        source_url = [];
        dependencies = dependencies;
      }
      ∷ [];
}

abbrev before : SourceRequest
before = request_of (dependency (bytes "b") ∷ dependency (bytes "c") ∷ [])

abbrev after : SourceRequest
after = request_of (dependency (bytes "b") ∷ [])

abbrev client : GraphStoreClient Table
client = sql_client sqlite_store answering

contract : IsStore client live_view
contract = sql_client-IsStore sqlite_store answering (λ e. cc e)

abbrev item : Bytes → Bytes → Bytes → Bytes → GraphItem
item item_type k1 k2 k3 = record {
  graph_item_type = item_type;
  k1 = k1;
  k2 = k2;
  k3 = k3;
  encoding = 1;
  graph_item_data = [];
}

-- The source manages the module a, which depends on the module c.
abbrev tracked : Table
tracked =
    row_of 1 (item manages_type (bytes "s") (bytes "a") [])
    ∷ row_of 1 (item module_type (bytes "a") (bytes "a") [])
    ∷ row_of 1 (item depends_type (bytes "a") (bytes "c") (bytes "s"))
    ∷ row_of 1 (item module_type (bytes "c") (bytes "c") [])
    ∷ []

abbrev or_empty : Result Index → Index
or_empty (ok idx) = idx
or_empty _ = []

abbrev current : Index
current = or_empty (get_current sample_env client after.source tracked)

abbrev proposed : Index
proposed = or_empty (get_proposed sample_env after)

read_current : get_current sample_env client after.source tracked ≡ ok current
unfolding sample_env get_current get_proposed collect owned index add_files add_discovered
    add_dependencies encode tagged key_for_source key_for_module key_of hashed checksum readable_key
    render insert find_upstream read_rows select_upstream join is_edge is_node raw_encode raw_decode
    Base64.encode strip pair triple quad raw_groups digit undigit key_eq option_eq list_eq nat_eq
    ℕ_discrete
read_current = refl

read_proposed : get_proposed sample_env after ≡ ok proposed
unfolding sample_env get_current get_proposed collect owned index add_files add_discovered
    add_dependencies encode tagged key_for_source key_for_module key_of hashed checksum readable_key
    render insert find_upstream read_rows select_upstream join is_edge is_node raw_encode raw_decode
    Base64.encode strip pair triple quad raw_groups digit undigit key_eq option_eq list_eq nat_eq
    ℕ_discrete
read_proposed = refl

plan-IsOwnEdge_example :
    (src_item : GraphItem) × (encode sample_env (source after.source) ≡ ok src_item)
    × All
        (λ x. IsOwnEdge sample_env src_item x × (lookup (readable_key x) proposed ≡ none))
        (to_delete sample_env client current proposed)
plan-IsOwnEdge_example =
    plan-IsOwnEdge sample_env client sample_env-AreBytes live_view contract after tracked current
      proposed read_current read_proposed

abbrev deleted_edge : GraphItem
deleted_edge = item depends_type (bytes "a") (bytes "c") (bytes "s")

deletes_edge : to_delete sample_env client current proposed ≡ deleted_edge ∷ []
unfolding to_delete lookup sample_env get_current get_proposed collect owned index add_files
    add_discovered add_dependencies encode tagged key_for_source key_for_module key_of hashed
    checksum readable_key render insert find_upstream read_rows select_upstream join is_edge is_node
    raw_encode raw_decode Base64.encode strip pair triple quad raw_groups digit undigit key_eq
    option_eq list_eq nat_eq ℕ_discrete
deletes_edge = refl

abbrev retracked : Table
retracked = (track sample_env client after tracked).1
