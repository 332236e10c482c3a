-- ===== src/Tracker/Alpha/Search/Laws.antt =====
-- What the searches answer with: which requests, in which direction, and when they end.
use depscloud.Base.{>>=-eq-ok, List, ap, ok, ℕ, ◌∙◌, ◌≡◌, arith, none, some, ◌≢◌, Error, Result}
use depscloud.Base.{[], err, inl, inr, panic, refl, suc, ◌⊎◌}
use depscloud.Tracker.Alpha.Schema.{Env}
use depscloud.Tracker.Alpha.Client.{GraphStoreClient}
use depscloud.Tracker.Alpha.Traversal.{Peer, panicked, returned, Outcome}
use depscloud.Tracker.Alpha.Traversal.Breadth.{Reach, SoundOutcome, breadth_first-SoundOutcome}
use depscloud.Tracker.Alpha.Search.{SearchRequest, SearchResponse, breadth_first_search, explore}
use depscloud.Tracker.Alpha.Search.{key_for, process_request, transform_response}
use depscloud.Tracker.Alpha.Search.{depth_first_search}
use depscloud.Tracker.Alpha.Traversal.Refusal.{searches-err, searches-panic}

module _ (env : Env) {S : Type 0} (client : GraphStoreClient S) (s : S) where
  abbrev pub Leads : SearchRequest → SearchRequest → Type 0
  Leads = Reach (key_for env) (explore env client s) (λ resp. resp.request)

  process_request-request :
      (r : SearchRequest) (resp : SearchResponse)
      → process_request env client s r ≡ ok resp
      → resp.request ≡ r
  unfolding process_request
  process_request-request r resp h = ground arith

  pub explore-request :
      (r : SearchRequest) (resp : SearchResponse) (batch : List SearchRequest)
      → explore env client s r ≡ ok (resp, batch)
      → resp.request ≡ r
  unfolding explore
  explore-request r resp batch h =
      let (resp', e, h1) = >>=-eq-ok (process_request env client s r) _ h in
      let (batch', _, h2) = >>=-eq-ok (transform_response resp') _ h1 in
      let same : resp' ≡ resp = cc h2 in process_request-request r resp (e ∙ ap ok same)

  -- However a breadth first search ends, each response that it sent is that of a request to which
  -- the first one leads, by the answers of the store, and no two are of requests with one key.
  pub breadth_first_search-SoundOutcome :
      (peer : Peer) (fuel : ℕ) (root : SearchRequest)
      → SoundOutcome
          (key_for env)
          (explore env client s)
          (λ resp. resp.request)
          root
          (breadth_first_search env client s peer fuel root)
  unfolding breadth_first_search
  breadth_first_search-SoundOutcome peer fuel root =
      breadth_first-SoundOutcome (key_for env) (explore env client s) (λ resp. resp.request) root
        explore-request peer fuel

  explore-sources_for :
      (r : SearchRequest) (resp : SearchResponse) (batch : List SearchRequest)
      → r.dependencies_of ≡ none
      → r.dependents_of ≡ none
      → explore env client s r ≢ ok (resp, batch)
  unfolding explore process_request transform_response
  explore-sources_for r resp batch no_deps no_dependents = ground arith

  -- Both searches end in one way.
  abbrev pub BothEnd : Peer → ℕ → SearchRequest → Outcome SearchResponse → Type 0
  BothEnd peer fuel r ending =
      (breadth_first_search env client s peer fuel r ≡ ending)
      × (depth_first_search env client s peer fuel r ≡ ending)

  -- A request for the sources of a module or for the modules of a source, or one without a subject,
  -- ends both searches in the first round: with an error or a panic, and without a response.
  pub searches-unsupported :
      (peer : Peer) (fuel : ℕ) (r : SearchRequest)
      → r.dependencies_of ≡ none
      → r.dependents_of ≡ none
      → ((e : Error) × BothEnd peer (suc fuel) r (returned (some e) []))
        ⊎ BothEnd peer (suc fuel) r (panicked [])
  unfolding breadth_first_search depth_first_search
  searches-unsupported peer fuel r no_deps no_dependents = by_answer (explore env client s r) refl
    where
      by_answer :
          (v : Result (SearchResponse × List SearchRequest))
          → explore env client s r ≡ v
          → ((e : Error) × BothEnd peer (suc fuel) r (returned (some e) []))
            ⊎ BothEnd peer (suc fuel) r (panicked [])
      by_answer (err e) h =
          inl (e, searches-err (key_for env) (explore env client s) peer fuel r e h)
      by_answer panic h = inr (searches-panic (key_for env) (explore env client s) peer fuel r h)
      by_answer (ok (resp, batch)) h =
          absurd (explore-sources_for r resp batch no_deps no_dependents h)
