-- ===== src/Tracker/Alpha/Search/Dependencies.antt =====
-- A breadth first search for the dependencies of a module visits all of them.
use depscloud.Base.{◌>>=◌, >>=-eq-ok, In, List, [], ap, arith, contains, inl, inr, length}
use depscloud.Base.{list_eq, map, nat_eq, none, ok, option_eq, refl, some, sym, true, ℕ, ◌<◌}
use depscloud.Base.{◌∙◌, ◌∷◌, ◌≡◌}
use depscloud.Base.Bytes.{AreBytes, Bytes}
use depscloud.Tracker.Alpha.Traversal.Tier.{Child}
use depscloud.Tracker.Alpha.Services.{Dependency, DependencyRequest, key_for_dependency_request}
use depscloud.Tracker.Alpha.Services.{list_dependencies}
use depscloud.Tracker.Alpha.Schema.{Env}
use depscloud.Tracker.Alpha.Client.{GraphStoreClient}
use depscloud.Tracker.Alpha.Traversal.Complete.{IsQuiet, breadth_first_complete}
use depscloud.Tracker.Alpha.Search.Laws.{Leads, explore-request}
use depscloud.Tracker.Alpha.Traversal.{Peer, returned}
use depscloud.Tracker.Alpha.Search.{SearchRequest, SearchResponse, breadth_first_search}
use depscloud.Tracker.Alpha.Search.{empty_request, empty_response, explore, key_for}
use depscloud.Tracker.Alpha.Search.{process_request, request_for, transform_response}
use depscloud.Tracker.Alpha.Types.{key_eq}
use depscloud.Tracker.Alpha.Schema.Laws.{key_for_module-AreBytes}
use depscloud.Tracker.Alpha.Store.Reads.{raw_encode-injective}
use depscloud.Tracker.Alpha.Traversal.Breadth.{reach_child, reach_root}
use mathlib.Core.Path.{subst}
use depscloud.Tracker.Alpha.Services.Answers.{list_dependencies-key}

module _ (env : Env) {S : Type 0} (client : GraphStoreClient S) (s : S) where
  -- A request for the dependencies of a module.
  abbrev pub dependencies_request : DependencyRequest → SearchRequest
  dependencies_request req = record empty_request { dependencies_of = some req }

  abbrev pub IsDependencies : SearchRequest → Type 0
  IsDependencies r = (req : DependencyRequest) × (r ≡ dependencies_request req)

  In-requests :
      (t : SearchRequest) (found : List Dependency)
      → In t (map (λ d. dependencies_request (request_for d)) found)
      → IsDependencies t
  In-requests t [] m = absurd m
  In-requests t (d ∷ found) (inl e) = (request_for d, e)
  In-requests t (d ∷ found) (inr m) = In-requests t found m

  -- What the answer to such a request is.
  explore-dependencies :
      (req : DependencyRequest)
      → explore env client s (dependencies_request req) ≡ (
          list_dependencies env client req s >>= λ found. ok (
            record (empty_response (dependencies_request req)) { dependencies = some found },
            map (λ d. dependencies_request (request_for d)) found,
          ))
  unfolding explore process_request transform_response
  explore-dependencies req = ground arith

  Child-IsDependencies :
      (r t : SearchRequest)
      → IsDependencies r
      → Child (key_for env) (explore env client s) r t
      → IsDependencies t
  Child-IsDependencies r t (req, e) c =
      let (found, _, h) =
        >>=-eq-ok (list_dependencies env client req s) _
          (sym (explore-dependencies req) ∙ ap (explore env client s) (sym e) ∙ c.visited) in
      let same : c.batch ≡ map (λ d. dependencies_request (request_for d)) found = cc h in
      In-requests t found (subst (In t) same c.listed)

  Reach-IsDependencies :
      (root r : SearchRequest) → IsDependencies root → Leads env client s root r → IsDependencies r
  Reach-IsDependencies root r d reach_root = d
  Reach-IsDependencies root r d (reach_child {r = q} before c) =
      Child-IsDependencies q r (Reach-IsDependencies root q d before) c

  module _ (digests : (x : Bytes) → AreBytes (env.digest x)) where
    key_for-injective :
        (req req' : DependencyRequest)
        → key_for env (dependencies_request req) ≡ key_for env (dependencies_request req')
        → key_for_dependency_request env req ≡ key_for_dependency_request env req'
    unfolding key_for key_for_dependency_request
    key_for-injective req req' e =
        raw_encode-injective _ _ (key_for_module-AreBytes env digests _)
          (key_for_module-AreBytes env digests _) e

    same-children :
        (r r' t : SearchRequest)
        → IsDependencies r
        → IsDependencies r'
        → key_for env r ≡ key_for env r'
        → Child (key_for env) (explore env client s) r t
        → Child (key_for env) (explore env client s) r' t
    same-children r r' t (req, e) (req', e') same c =
        let (found, listed, h) =
          >>=-eq-ok (list_dependencies env client req s) _
            (sym (explore-dependencies req) ∙ ap (explore env client s) (sym e) ∙ c.visited) in
        let keys =
          key_for-injective req req' (ap (key_for env) (sym e) ∙ same ∙ ap (key_for env) e') in
        let listed' : list_dependencies env client req' s ≡ ok found =
          sym (list_dependencies-key env client req req' s keys) ∙ listed in
        let batch : map (λ d. dependencies_request (request_for d)) found ≡ c.batch = cc h in
        record {
          resp = record (empty_response (dependencies_request req')) { dependencies = some found };
          batch = c.batch;
          visited =
              ap (explore env client s) e'
              ∙ explore-dependencies req'
              ∙ rw listed' (
                  ap
                    (λ b. ok (
                      record (empty_response (dependencies_request req')) {
                        dependencies = some found;
                      },
                      b,
                    ))
                    batch);
          listed = c.listed;
        }

    -- The keys of SHA-256 are bytes, all the sends succeed and the context is never done, the store
    -- answers every request to which the first one leads, and their keys stand in the list
    -- `universe`: with more fuel than `universe` is long, a breadth first search for the
    -- dependencies of a module ends without an error, and has then answered the key of every module
    -- on which the first one depends, at any distance.
    pub breadth_first_search_complete :
        (peer : Peer)
        → IsQuiet peer
        → (req : DependencyRequest) (universe : List Bytes)
        → ((r : SearchRequest)
            → Leads env client s (dependencies_request req) r
            → (v : SearchResponse × List SearchRequest) × (explore env client s r ≡ ok v))
        → ((r : SearchRequest)
            → Leads env client s (dependencies_request req) r
            → contains universe (key_for env r) ≡ true)
        → (fuel : ℕ) → length universe < fuel
        → (final : List SearchResponse) × (breadth_first_search env client s peer fuel
              (dependencies_request req)
            ≡ returned none final)
          × ((r : SearchRequest)
              → Leads env client s (dependencies_request req) r
              → contains (map (key_for env) (map (λ resp. resp.request) final)) (key_for env r)
                ≡ true)
    unfolding breadth_first_search
    breadth_first_search_complete peer quiet req universe answers bounded fuel enough =
        let root = dependencies_request req in
        breadth_first_complete (key_for env) (explore env client s) (λ resp. resp.request) root
          (explore-request env client s) peer quiet universe answers
          (λ r r' t before before' same c.
            same-children r r' t (Reach-IsDependencies root r (req, refl) before)
              (Reach-IsDependencies root r' (req, refl) before') same c)
          bounded fuel enough
