-- ===== src/Tracker/Alpha/Services/Answers.antt =====
-- What the reading handlers answer, on every branch.
use depscloud.Base.{◌>>=◌, Error, In, List, Result, [], ap, arith, err, inl, inr}
use depscloud.Base.{module_not_found, ok, panic, refl, ◌∷◌, ◌≡◌, ◌≢◌, ◌⊎◌, list_eq, nat_eq}
use depscloud.Base.{option_eq}
use depscloud.Base.Bytes.{Bytes}
use depscloud.Tracker.Alpha.Services.{DependencyRequest, dependency_of, each}
use depscloud.Tracker.Alpha.Services.{key_for_dependency_request, list_dependencies}
use depscloud.Tracker.Alpha.Services.{list_dependents, list_managed, list_sources}
use depscloud.Tracker.Alpha.Services.{managed_module_of, managed_source_of, or_not_found}
use depscloud.Tracker.Alpha.Schema.{Env, Module, Source, depends_type, key_for_module}
use depscloud.Tracker.Alpha.Schema.{key_for_source, manages_type, module_type, source_type}
use depscloud.Tracker.Alpha.Schema.{as_depends, as_manages, as_module, as_source, decode}
use depscloud.Tracker.Alpha.Types.{FindRequest, key_eq}
use depscloud.Tracker.Alpha.Client.{GraphStoreClient}
use depscloud.Tracker.Alpha.Schema.Laws.{asserts-safe}

-- The results are those of the items, in order.
abbrev pub Each : {A B : Type 0} → (A → Result B) → List A → List B → Type 0
Each f [] [] = Unit
Each f (x ∷ xs) (y ∷ ys) = (f x ≡ ok y) × Each f xs ys
Each _ _ _ = ⊥

-- How a handler answers, by the answer of the graph store and the reading of one pair.
pub data Answered {A B : Type 0} (f : A → Result B) (answer : Result (List A))
    : Result (List B) → Type 0 where
  answered :
      (pairs : List A) (found : List B)
      → answer ≡ ok pairs
      → Each f pairs found
      → Answered f answer (ok found)
  not_found : (e : Error) → answer ≡ err e → Answered f answer (err module_not_found)
  unreadable :
      (pairs : List A) (p : A)
      → answer ≡ ok pairs
      → In p pairs
      → f p ≡ panic
      → Answered f answer panic
  broken : answer ≡ panic → Answered f answer panic

pub or_not_found-ok : {A : Type 0} (r : Result A) (a : A) → or_not_found r ≡ ok a → r ≡ ok a
or_not_found-ok (ok x) a h = h
or_not_found-ok (err _) a h = cc
or_not_found-ok panic a h = cc

module _ {A B : Type 0} (f : A → Result B) (safe : (a : A) (e : Error) → f a ≢ err e) where
  -- A loop ends with all the results or with the panic of an item.
  each-cases :
      (xs : List A)
      → ((ys : List B) × (each f xs ≡ ok ys) × Each f xs ys)
        ⊎ ((x : A) × In x xs × (f x ≡ panic) × (each f xs ≡ panic))
  unfolding each
  each-cases [] = inl ([], refl, tt)
  each-cases (x ∷ xs) = by_head (f x) refl (each-cases xs)
    where
      by_head :
          (r : Result B)
          → f x ≡ r
          → ((ys : List B) × (each f xs ≡ ok ys) × Each f xs ys)
            ⊎ ((x' : A) × In x' xs × (f x' ≡ panic) × (each f xs ≡ panic))
          → ((ys : List B) × (each f (x ∷ xs) ≡ ok ys) × Each f (x ∷ xs) ys)
            ⊎ ((x' : A) × In x' (x ∷ xs) × (f x' ≡ panic) × (each f (x ∷ xs) ≡ panic))
      by_head (err e) h rest = absurd (safe x e h)
      by_head panic h rest = inr (x, inl refl, h, ground (arith, h))
      by_head (ok y) h (inl (ys, e, es)) = inl (y ∷ ys, ground (arith, h, e), (h, es))
      by_head (ok y) h (inr (x', m, p, e)) = inr (x', inr m, p, ground (arith, h, e))

  each-Answered : (answer : Result (List A)) → Answered f answer (or_not_found answer >>= each f)
  each-Answered (err e) = not_found e refl
  each-Answered panic = broken refl
  each-Answered (ok pairs) = elim (each-cases pairs) [
    | inl (ys, e, es) ↦ rw e (answered pairs ys refl es)
    | inr (x, m, p, e) ↦ rw e (unreadable pairs x refl m p)
  ]

-- Two readings in a row, of a node and of an edge.
both-safe :
    {A B C : Type 0} (r : Result A) (q : Result B) (f : A → B → C) (e : Error)
    → r ≢ err e
    → q ≢ err e
    → (r >>= λ a. q >>= λ b. ok (f a b)) ≢ err e
both-safe (ok a) (ok b) f e hr hq = λ h. cc
both-safe (ok a) (err e') f e hr hq = λ h. hq (cc h)
both-safe (ok a) panic f e hr hq = λ h. cc
both-safe (err e') q f e hr hq = λ h. hr (cc h)
both-safe panic q f e hr hq = λ h. cc

-- The request of a handler: edges of one type at one key.
abbrev pub asks : Bytes → Bytes → Bytes → FindRequest
asks key edge_type node_type = record {
  keys = key ∷ [];
  edge_types = edge_type ∷ [];
  node_types = node_type ∷ [];
}

module _ (env : Env) {S : Type 0} (client : GraphStoreClient S) where
  pub list_dependencies-key :
      (req req' : DependencyRequest) (s : S)
      → key_for_dependency_request env req ≡ key_for_dependency_request env req'
      → list_dependencies env client req s ≡ list_dependencies env client req' s
  unfolding list_dependencies
  list_dependencies-key req req' s e =
      ap
        (λ k.
          or_not_found (client.upstream (asks k depends_type module_type) s)
          >>= each (dependency_of env))
        e

  -- Each of the four handlers asks the graph store for the edges of its type at the key of the
  -- request, in its direction, and answers with one entry for each pair, in order; with the error
  -- `ErrModuleNotFound` exactly if the store answers with an error; and with a panic only if the
  -- store does or the reading of one of its pairs panics.
  pub reads-Answered :
      (req : DependencyRequest) (m : Module) (src : Source) (s : S)
      → Answered
          (dependency_of env)
          (client.downstream (asks (key_for_dependency_request env req) depends_type module_type) s)
          (list_dependents env client req s)
        × Answered
            (dependency_of env)
            (client.upstream (asks (key_for_dependency_request env req) depends_type module_type) s)
            (list_dependencies env client req s)
        × Answered
            (managed_source_of env)
            (client.downstream (asks (key_for_module env m) manages_type source_type) s)
            (list_sources env client m s)
        × Answered
            (managed_module_of env)
            (client.upstream (asks (key_for_source env src) manages_type module_type) s)
            (list_managed env client src s)
  unfolding list_dependents list_dependencies list_sources list_managed
  reads-Answered req m src s = (
    each-Answered (dependency_of env)
        (λ p e.
          both-safe (as_module (decode env p.node).0) (as_depends (decode env p.edge).0) _ e
            (asserts-safe (decode env p.node).0 e).2 (asserts-safe (decode env p.edge).0 e).3)
        _,
    each-Answered (dependency_of env)
        (λ p e.
          both-safe (as_module (decode env p.node).0) (as_depends (decode env p.edge).0) _ e
            (asserts-safe (decode env p.node).0 e).2 (asserts-safe (decode env p.edge).0 e).3)
        _,
    each-Answered (managed_source_of env)
        (λ p e.
          both-safe (as_source (decode env p.node).0) (as_manages (decode env p.edge).0) _ e
            (asserts-safe (decode env p.node).0 e).0 (asserts-safe (decode env p.edge).0 e).1)
        _,
    each-Answered (managed_module_of env)
        (λ p e.
          both-safe (as_module (decode env p.node).0) (as_manages (decode env p.edge).0) _ e
            (asserts-safe (decode env p.node).0 e).2 (asserts-safe (decode env p.edge).0 e).1)
        _,
  )
