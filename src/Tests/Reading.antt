-- ===== src/Tests/Reading.antt =====
-- The handlers that read, at concrete inputs.
use depscloud.Codec.Base64
use depscloud.Tracker.Alpha.Schema.{encode, Depends, Source, as_depends, as_module, decode}
use depscloud.Tracker.Alpha.Schema.{depends, depends_type, hashed, key_for_module}
use depscloud.Tracker.Alpha.Schema.{key_for_source, key_of, manages_type, module_, module_type}
use depscloud.Tracker.Alpha.Schema.{source_type, tagged, unmarshal}
use depscloud.Tracker.Alpha.Services.Answers.{Answered, asks, reads-Answered}
use depscloud.Base.Bytes.{AreBytes, Bytes, bytes}
use depscloud.Tracker.Alpha.Services.{Dependency, DependencyRequest, dependency_of, each}
use depscloud.Tracker.Alpha.Services.{key_for_dependency_request, list_dependencies}
use depscloud.Tracker.Alpha.Services.{list_dependents, list_managed, list_sources}
use depscloud.Tracker.Alpha.Services.{managed_module_of, managed_source_of}
use depscloud.Tracker.Alpha.Types.{GraphItem, key_eq}
use depscloud.Tracker.Alpha.Client.{GraphStoreClient}
use depscloud.Base.{In, Result, [], arith, inl, inr, list_eq, nat_eq, ok, option_eq, refl}
use depscloud.Base.{ℕ_discrete, ◌∷◌, ◌≡◌, ◌≢◌}
use depscloud.Tracker.Alpha.Sql.{Table, is_edge, is_node, join, select_upstream}
use depscloud.Tests.Samples.{answering, go_module, sample_env, sample_env-AreBytes}
use depscloud.Tests.Samples.{sample_env-ReadsBack, sqlite_store}
use depscloud.Codec.Crc32.{checksum}
use depscloud.Codec.Base64.{digit, pair, quad, raw_decode, raw_encode, raw_groups, strip, triple}
use depscloud.Codec.Base64.{undigit}
use depscloud.Tracker.Alpha.Store.{find_upstream, read_rows, row_of}
use depscloud.Tracker.Alpha.Track.{linked}
use depscloud.Tracker.Alpha.Services.Stored.{list_dependencies-Track}
use depscloud.Tracker.Alpha.Store.Contract.{sql_client}

abbrev item : Bytes → Bytes → Bytes → Bytes → Bytes → GraphItem
item item_type k1 k2 k3 text = record {
  graph_item_type = item_type;
  k1 = k1;
  k2 = k2;
  k3 = k3;
  encoding = 1;
  graph_item_data = text;
}

abbrev needs : Depends
needs = record { language = bytes "go"; version_constraint = bytes "v1"; scopes = []; ref = [] }

abbrev or_nothing : Result GraphItem → GraphItem
or_nothing (ok x) = x
or_nothing _ = item [] [] [] [] []

abbrev managed : GraphItem
managed = or_nothing (encode sample_env (module_ (go_module (bytes "a"))))

abbrev depended : GraphItem
depended = or_nothing (encode sample_env (module_ (go_module (bytes "b"))))

abbrev edge : GraphItem
edge = or_nothing (encode sample_env (depends needs))

abbrev pub table : Table
table = row_of 1 depended ∷ row_of 2 (record (linked edge managed depended) { k3 = bytes "s" }) ∷ []

abbrev site : Source
site = record { url = bytes "s"; kind = bytes "repository"; ref = [] }

abbrev pub client : GraphStoreClient Table
client = sql_client sqlite_store answering

abbrev pub of_a : DependencyRequest
of_a = record { language = bytes "go"; organization = []; module_name = bytes "a"; name = [] }

abbrev pub b_needed : Dependency
b_needed = record { module_ = go_module (bytes "b"); depends = needs }

encoded_a : encode sample_env (module_ (go_module (bytes "a"))) ≡ ok managed
unfolding sample_env encode tagged
encoded_a = refl

encoded_b : encode sample_env (module_ (go_module (bytes "b"))) ≡ ok depended
unfolding sample_env encode tagged
encoded_b = refl

encoded_edge : encode sample_env (depends needs) ≡ ok edge
unfolding sample_env encode tagged
encoded_edge = refl

key_a : key_for_module sample_env (go_module (bytes "a")) ≡ 97 ∷ []
unfolding sample_env key_for_module key_of hashed checksum
key_a = refl

key_b : key_for_module sample_env (go_module (bytes "b")) ≡ 98 ∷ []
unfolding sample_env key_for_module key_of hashed checksum
key_b = refl

apart : {x y : Bytes} → x ≡ 97 ∷ [] → y ≡ 98 ∷ [] → x ≢ y
apart ex ey e = ground arith

keys_differ :
    key_for_module sample_env (go_module (bytes "a"))
    ≢ key_for_module sample_env (go_module (bytes "b"))
keys_differ = apart key_a key_b

source_bytes : AreBytes (bytes "s")
source_bytes = (omega arith, tt)

listed : list_dependencies sample_env client of_a table ≡ ok (b_needed ∷ [])
unfolding list_dependencies each key_for_dependency_request decode unmarshal as_module as_depends
    sample_env encode tagged key_for_source key_for_module key_of hashed checksum find_upstream
    read_rows select_upstream join is_edge is_node raw_encode raw_decode Base64.encode strip pair
    triple quad raw_groups digit undigit key_eq option_eq list_eq nat_eq ℕ_discrete
listed = refl

list_dependencies-Track_example : In b_needed (b_needed ∷ [])
list_dependencies-Track_example =
    list_dependencies-Track sample_env sample_env-ReadsBack sample_env-AreBytes sqlite_store
      answering table (go_module (bytes "a")) (go_module (bytes "b")) needs managed depended edge
      (bytes "s") 1 2 (b_needed ∷ []) refl encoded_a encoded_b encoded_edge source_bytes keys_differ
      (inl refl) (inr (inl refl)) listed

reads-Answered_example :
    Answered
      (dependency_of sample_env)
      (client.downstream
        (asks (key_for_dependency_request sample_env of_a) depends_type module_type)
        table)
      (list_dependents sample_env client of_a table)
    × Answered
        (dependency_of sample_env)
        (client.upstream
          (asks (key_for_dependency_request sample_env of_a) depends_type module_type)
          table)
        (list_dependencies sample_env client of_a table)
    × Answered
        (managed_source_of sample_env)
        (client.downstream
          (asks (key_for_module sample_env (go_module (bytes "a"))) manages_type source_type)
          table)
        (list_sources sample_env client (go_module (bytes "a")) table)
    × Answered
        (managed_module_of sample_env)
        (client.upstream (asks (key_for_source sample_env site) manages_type module_type) table)
        (list_managed sample_env client site table)
reads-Answered_example = reads-Answered sample_env client of_a (go_module (bytes "a")) site table
