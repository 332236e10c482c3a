-- ===== src/Tracker/Alpha/Search.antt =====
-- `searchService` of tracker/internal/services/v1alpha/service_search.go over a client of the graph
-- store, with the loops of Traversal.
use depscloud.Base.{◌>>=◌, Bool, List, Option, Result, [], err, false, if◌then◌else◌, map, none}
use depscloud.Base.{ok, panic, some, unimplemented, ℕ, ◌∷◌}
use depscloud.Base.Bytes.{Bytes}
use depscloud.Tracker.Alpha.Services.{Dependency, DependencyRequest, ManagedModule}
use depscloud.Tracker.Alpha.Services.{ManagedSource, key_for_dependency_request}
use depscloud.Tracker.Alpha.Services.{list_dependencies, list_dependents, list_managed}
use depscloud.Tracker.Alpha.Services.{list_sources}
use depscloud.Tracker.Alpha.Schema.{Env, Module, Source, key_for_module, key_for_source}
use depscloud.Tracker.Alpha.Client.{GraphStoreClient}
use depscloud.Tracker.Alpha.Traversal.{Outcome, Peer, breadth_first, depth_first, panicked}
use depscloud.Tracker.Alpha.Traversal.{returned}
use depscloud.Codec.Base64.{raw_encode}
-- `tracker.SearchRequest`
pub mod Laws
pub mod Dependencies

pub record SearchRequest : Type 0 where
  pub dependencies_of : Option DependencyRequest
  pub dependents_of : Option DependencyRequest
  pub sources_for : Option Module
  pub modules_for : Option Source
  pub cancel : Bool

-- `tracker.SearchResponse`, where nil is `none`.
pub record SearchResponse : Type 0 where
  pub request : SearchRequest
  pub dependencies : Option (List Dependency)
  pub dependents : Option (List Dependency)
  pub sources : Option (List ManagedSource)
  pub modules : Option (List ManagedModule)

abbrev pub empty_request : SearchRequest
empty_request = record {
  dependencies_of = none;
  dependents_of = none;
  sources_for = none;
  modules_for = none;
  cancel = false;
}

abbrev pub empty_response : SearchRequest → SearchResponse
empty_response request = record {
  request = request;
  dependencies = none;
  dependents = none;
  sources = none;
  modules = none;
}

abbrev pub request_for : Dependency → DependencyRequest
request_for dependency = record {
  language = dependency.module_.language;
  organization = dependency.module_.organization;
  module_name = dependency.module_.module_name;
  name = dependency.module_.name;
}

-- `transformResponse`
unfoldable pub transform_response : SearchResponse → Result (List SearchRequest)
transform_response response = elim response.dependencies [
  | some found ↦
      ok (map (λ d. record empty_request { dependencies_of = some (request_for d) }) found)
  | none ↦ elim response.dependents [
    | some found ↦
        ok (map (λ d. record empty_request { dependents_of = some (request_for d) }) found)
    | none ↦ err unimplemented
  ]
]

module _ (env : Env) where
  -- `keyFor`
  unfoldable pub key_for : SearchRequest → Bytes
  key_for request = elim request.dependencies_of [
    | some req ↦ raw_encode (key_for_dependency_request env req)
    | none ↦ elim request.dependents_of [
      | some req ↦ raw_encode (key_for_dependency_request env req)
      | none ↦ elim request.sources_for [
        | some m ↦ raw_encode (key_for_module env m)
        | none ↦ elim request.modules_for [ some s ↦ raw_encode (key_for_source env s) | none ↦ [] ]
      ]
    ]
  ]

  module _ {S : Type 0} (client : GraphStoreClient S) (s : S) where
    -- `processRequest`
    unfoldable pub process_request : SearchRequest → Result SearchResponse
    process_request request = elim request.dependencies_of [
      | some req ↦ (do
        found ← list_dependencies env client req s
        ok (record (empty_response request) { dependencies = some found }))
      | none ↦ elim request.dependents_of [
        | some req ↦ (do
          found ← list_dependents env client req s
          ok (record (empty_response request) { dependents = some found }))
        | none ↦ elim request.sources_for [
          | some m ↦ (do
            found ← list_sources env client m s
            ok (record (empty_response request) { sources = some found }))
          | none ↦ elim request.modules_for [
            | some src ↦ (do
              found ← list_managed env client src s
              ok (record (empty_response request) { modules = some found }))
            | none ↦ err unimplemented
          ]
        ]
      ]
    ]

    -- `Search`, where the select takes the end of the context (`none`) or a request.
    unfoldable pub search : Peer → Option SearchRequest → Outcome SearchResponse
    unfolding process_request
    search peer none = returned none []
    search peer (some request) =
        if request.cancel then returned none [] else elim (process_request request) [
          | err e ↦ returned (some e) []
          | panic ↦ panicked []
          | ok response ↦ elim (peer.send 0) [
            | some e ↦ returned (some e) []
            | none ↦ returned none (response ∷ [])
          ]
        ]

    -- A round of either search: `processRequest`, then `transformResponse`.
    unfoldable pub explore : SearchRequest → Result (SearchResponse × List SearchRequest)
    unfolding process_request transform_response
    explore request = do
      response ← process_request request
      batch ← transform_response response
      ok (response, batch)

    -- `BreadthFirstSearch`
    unfoldable pub breadth_first_search : Peer → ℕ → SearchRequest → Outcome SearchResponse
    unfolding explore key_for
    breadth_first_search = breadth_first key_for explore

    -- `DepthFirstSearch`
    unfoldable pub depth_first_search : Peer → ℕ → SearchRequest → Outcome SearchResponse
    unfolding explore key_for
    depth_first_search = depth_first key_for explore
