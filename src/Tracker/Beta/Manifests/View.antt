-- ===== src/Tracker/Beta/Manifests/View.antt =====
-- The edges of the store after `Store` of
-- tracker/internal/services/v1beta/manifeststorageservice.go, by a contract of the client.
use depscloud.Base.Actions.{Action, after, finally}
use depscloud.Tracker.Beta.Manifests.{Env, StoreRequest}
use depscloud.Tracker.Beta.Manifests.Edges.{IsSized, last_body, names, names-edges_to_delete}
use depscloud.Tracker.Beta.Manifests.Edges.{is_some-last_body}
use depscloud.Tracker.Beta.Manifests.Storage.{StorageClient, Found, add_neighbors, ask_all}
use depscloud.Tracker.Beta.Manifests.Storage.{collect_stored, edges_to_delete, from_request}
use depscloud.Tracker.Beta.Manifests.Storage.{get_stored, recv_all, rounds, last_node, store}
use depscloud.Tracker.Beta.Manifests.Outcome.{initial, store-Stored}
use depscloud.Base.{All, List, Option, Result, [], ap, arith, err, if◌then◌else◌, length, none}
use depscloud.Base.{ok, panic, refl, some, suc, sym, zero, ℕ, ◌∙◌, ◌∷◌, ◌≡◌, ◌≢◌}
use depscloud.Tracker.Beta.Manifests.Proposal.{get_proposed}
use depscloud.Base.Bytes.{Bytes, AreBytes}
use depscloud.Tracker.Beta.Types.{Edge, NeighborsRequest, Node}
use depscloud.Tracker.Beta.Manifests.Sizes.{get_proposed-IsSized}
use depscloud.Base.Dict.{values}
use mathlib.Core.Path.{subst}
use depscloud.Tracker.Alpha.Store.Pages.{request}

-- The body of the edge at a place, if there is one.
abbrev pub View : Type 0 → Type 0
View S = S → List Bytes → Option (Bytes × Bytes)

-- A client whose reads leave the edges as they are, and whose writes, where they report success,
-- do what they are to do and nothing else. Of a put this is asked at the places between two
-- different keys: the row of an edge from a key to itself is that of the node of that key.
pub record IsGraphStore {S : Type 0} (client : StorageClient S) (view : View S) : Type 0 where
  pub opens : (s : S) → view (client.open_stream s).1 ≡ view s
  pub asks : (r : NeighborsRequest) (s : S) → view (client.ask r s).1 ≡ view s
  pub recvs : (s : S) → view (client.recv s).1 ≡ view s
  pub quits : (s : S) → view (client.quit s) ≡ view s
  pub puts :
      (nodes : List (Option Node)) (edges : List Edge) (s s' : S)
      → client.put nodes edges s ≡ (ok tt, s')
      → All (λ e. AreBytes e.value) edges
      → (from_key to_key key : Bytes) → from_key ≢ to_key
      → view s' (from_key ∷ to_key ∷ key ∷ [])
        ≡ elim (last_body (from_key ∷ to_key ∷ key ∷ []) edges) [
          | some b ↦ some b
          | none ↦ view s (from_key ∷ to_key ∷ key ∷ [])
        ]
  pub deletes :
      (edges : List Edge) (s s' : S)
      → client.delete edges s ≡ (ok tt, s')
      → (k : List Bytes) → view s' k ≡ (if names k edges then none else view s k)

module _ {S : Type 0} (client : StorageClient S) (view : View S)
    (laws : IsGraphStore client view) where
  after-view :
      {A B : Type 0} (first : Result A × S) (rest : A → Action S B) (s : S)
      → view first.1 ≡ view s
      → ((a : A) (s : S) → view (rest a s).1 ≡ view s)
      → view (after first rest).1 ≡ view s
  after-view (ok a, s') rest s h go_on = go_on a s' ∙ h
  after-view (err _, s') rest s h go_on = h
  after-view (panic, s') rest s h go_on = h

  ask_all-view : (nodes : List Node) (s : S) → view (ask_all client nodes s).1 ≡ view s
  unfolding ask_all
  ask_all-view [] s = refl
  ask_all-view (n ∷ ns) s =
      after-view (client.ask (from_request n) s) (λ _. ask_all client ns) s
        (laws.asks (from_request n) s) (λ _ s'. ask_all-view ns s')

  recv_all-view :
      (k : Bytes) (n : ℕ) (f : Found) (s : S) → view (recv_all client k n f s).1 ≡ view s
  unfolding recv_all
  recv_all-view k zero f s = refl
  recv_all-view k (suc n) f s =
      after-view (client.recv s) (λ ns. recv_all client k n (add_neighbors k ns f)) s (laws.recvs s)
        (λ ns s'. recv_all-view k n (add_neighbors k ns f) s')

  rounds-view : (k : Bytes) (n : ℕ) (f : Found) (s : S) → view (rounds client k n f s).1 ≡ view s
  unfolding rounds
  rounds-view k zero f s = refl
  rounds-view k (suc n) f s =
      after-view (ask_all client (values f.next) s) _ s (ask_all-view (values f.next) s) (λ _ s1.
        after-view (recv_all client k (length f.next) (record f { next = [] }) s1)
          (rounds client k n) s1 (recv_all-view k (length f.next) (record f { next = [] }) s1)
          (λ f' s2. rounds-view k n f' s2))

  get_stored-view : (n : Node) (s : S) → view (get_stored client (some n) s).1 ≡ view s
  unfolding get_stored collect_stored
  get_stored-view n s =
      after-view (client.open_stream s) (λ _. finally client.quit (collect_stored client (some n)))
        s (laws.opens s)
        (λ _ s1.
          laws.quits _
          ∙ after-view (rounds client n.key 2 (initial n) s1) _ s1
              (rounds-view n.key 2 (initial n) s1) (λ f s2. refl))

  -- Over a store that keeps the contract of the client, with digests of 32 bytes, edges that were
  -- read under such, and proposed bodies that hold bytes: after a `Store` that succeeds, at every
  -- place between two different keys, an edge of the proposal has the body that was proposed last,
  -- an edge that was read and not proposed is gone, and any other edge is as it was before the call.
  pub store-view :
      (env : Env) (request : StoreRequest) (nodes : List (Option Node)) (edges old : List Edge)
      (from_source : Node) (old_nodes : List Node) (s s1 s' : S)
      → get_proposed env request ≡ ok (nodes, edges)
      → last_node client nodes ≡ ok (some from_source)
      → get_stored client (some from_source) s ≡ (ok (old_nodes, old), s1)
      → store client env request s ≡ (ok tt, s')
      → ((x : Bytes) → length (env.digest x) ≡ 32)
      → All (λ e. AreBytes e.value) edges
      → All IsSized old
      → (from_key to_key key : Bytes) → from_key ≢ to_key
      → view s' (from_key ∷ to_key ∷ key ∷ [])
        ≡ elim (last_body (from_key ∷ to_key ∷ key ∷ []) edges) [
          | some b ↦ some b
          | none ↦
              if names (from_key ∷ to_key ∷ key ∷ []) old
              then none
              else view s (from_key ∷ to_key ∷ key ∷ [])
        ]
  store-view env request nodes edges old from_source old_nodes s s1 s' proposal last current stores
        sized valued old_sized from_key to_key key differ =
      let done = store-Stored client env request s s' stores in
      let k = from_key ∷ to_key ∷ key ∷ [] in
      let same_edges : done.edges ≡ edges = cc (done.proposal, proposal) in
      let same_nodes : done.nodes ≡ nodes = cc (done.proposal, proposal) in
      let same_source : done.from_source ≡ from_source =
        cc (ap (last_node client) same_nodes, done.last, last) in
      let again : get_stored client (some done.from_source) s ≡ (ok (old_nodes, old), s1) =
        subst (λ n. get_stored client (some n) s ≡ (ok (old_nodes, old), s1)) (sym same_source)
          current in
      let same_old : done.old ≡ old = cc (done.current, again) in
      let read : view done.read ≡ view s =
        sym (ap (λ o. view o.1) done.current) ∙ get_stored-view done.from_source s in
      let put : view done.between k
          ≡ elim (last_body k done.edges) [ some b ↦ some b | none ↦ view done.read k ] =
        laws.puts done.nodes done.edges done.read done.between done.puts
          (subst (All (λ e. AreBytes e.value)) (sym same_edges) valued) from_key to_key key
          differ in
      let kept =
        names-edges_to_delete k done.edges done.old
          (get_proposed-IsSized env sized request done.nodes done.edges done.proposal)
          (subst (All IsSized) (sym same_old) old_sized) in
      subst
        (λ es. view s' k ≡ elim (last_body k es) [
          | some b ↦ some b
          | none ↦ if names k old then none else view s k
        ])
        same_edges
        (subst
          (λ o. view s' k ≡ elim (last_body k done.edges) [
            | some b ↦ some b
            | none ↦ if names k o then none else view s k
          ])
          same_old
          (ground (
            arith,
            ap (λ v. v k) read,
            put,
            laws.deletes (edges_to_delete done.edges done.old) done.between s' done.deletes k,
            kept,
            is_some-last_body k done.edges,
          )))
