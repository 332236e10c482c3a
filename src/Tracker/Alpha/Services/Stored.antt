-- ===== src/Tracker/Alpha/Services/Stored.antt =====
-- The handlers over the SQL store: what was written comes back.
use depscloud.Tracker.Alpha.Schema.{encode, Depends, Env, Module, depends, key_for_module}
use depscloud.Tracker.Alpha.Schema.{module_, as_depends, as_module, depends_type, module_type}
use depscloud.Base.{>>=-eq-ok, In, List, Result, [], inl, inr, list_eq, nat_eq, ok, option_eq, ℕ}
use depscloud.Base.{◌∷◌, ◌≡◌, ◌≢◌, refl, sym, ◌∙◌, arith, contains, true, none}
use depscloud.Tracker.Alpha.Store.Contract.{Answering, sql_client}
use depscloud.Base.Bytes.{AreBytes, Bytes}
use depscloud.Tracker.Alpha.Services.{Dependency, dependency_of, each, list_dependencies}
use depscloud.Tracker.Alpha.Services.{key_for_dependency_request, or_not_found}
use depscloud.Tracker.Alpha.Types.{GraphItem, key_eq}
use depscloud.Tracker.Alpha.Store.{GraphStore, row_of, find_upstream}
use depscloud.Tracker.Alpha.Schema.Laws.{ReadsBack, decode-encode, encode-depends_type}
use depscloud.Tracker.Alpha.Schema.Laws.{encode-module_keys, key_for_module-AreBytes}
use depscloud.Tracker.Alpha.Schema.Laws.{key_for_module-name}
use depscloud.Tracker.Alpha.Sql.{Table}
use depscloud.Tracker.Alpha.Track.{linked}
use mathlib.Core.Path.{subst}
use depscloud.Tracker.Alpha.Services.Answers.{asks, or_not_found-ok}
use depscloud.Tracker.Alpha.Store.Reads.{find_upstream-row_of}

contains-one : (k k' : Bytes) → k ≡ k' → contains (k' ∷ []) k ≡ true
contains-one k k' e = ground arith

each-In :
    {A B : Type 0} (f : A → Result B) (xs : List A) (ys : List B) (x : A) (y : B)
    → each f xs ≡ ok ys
    → In x xs
    → f x ≡ ok y
    → In y ys
unfolding each
each-In f [] ys x y h m e = absurd m
each-In f (x' ∷ xs) ys x y h m e =
    let (y', e', h1) = >>=-eq-ok (f x') _ h in
    let (more, es, h2) = >>=-eq-ok (each f xs) _ h1 in
    let same : y' ∷ more ≡ ys = cc h2 in
    elim m [
      | inl here ↦ subst (In y) same (inl (cc (here, e, e')))
      | inr later ↦ subst (In y) same (inr (each-In f xs more x y es later e))
    ]

module _ (env : Env) (reads : ReadsBack env) (digests : (x : Bytes) → AreBytes (env.digest x)) where
  dependency_of-encode :
      (target : Module) (d : Depends) (depended edge : GraphItem) (k1 k2 k3 : Bytes)
      → encode env (module_ target) ≡ ok depended
      → encode env (depends d) ≡ ok edge
      → dependency_of env (record {
        edge = record edge { k1 = k1; k2 = k2; k3 = k3 };
        node = record depended { k3 = [] };
      })
        ≡ ok (record { module_ = target; depends = d })
  unfolding as_module as_depends
  dependency_of-encode target d depended edge k1 k2 k3 hm hd =
      rw
        (
          decode-encode env reads (module_ target) depended depended.k1 depended.k2 [] hm,
          decode-encode env reads (depends d) edge k1 k2 k3 hd,
        )
        refl

  -- JSON is read back as written and SHA-256 yields bytes: when the rows of a module and of a depends
  -- edge to it from another module stand live in the table, as `Track` writes them, and
  -- `ListDependencies` for that other module succeeds with no error of the database that interrupts
  -- the rows, then its answer has the module with the edge.
  pub list_dependencies-Track :
      (gs : GraphStore) (a : Answering) (t : Table) (m target : Module) (d : Depends)
      (managed depended edge : GraphItem) (source_key : Bytes) (n n' : ℕ) (found : List Dependency)
      → a.find_answers.interrupted ≡ none
      → encode env (module_ m) ≡ ok managed
      → encode env (module_ target) ≡ ok depended
      → encode env (depends d) ≡ ok edge
      → AreBytes source_key
      → key_for_module env m ≢ key_for_module env target
      → In (row_of n depended) t
      → In (row_of n' (record (linked edge managed depended) { k3 = source_key })) t
      → list_dependencies env
          (sql_client gs a)
          (record {
            language = m.language;
            organization = m.organization;
            module_name = m.module_name;
            name = m.name;
          })
          t
        ≡ ok found
      → In (record { module_ = target; depends = d }) found
  unfolding list_dependencies key_for_dependency_request
  list_dependencies-Track gs a t m target d managed depended edge source_key n n' found whole hm ht
        hd bs differ mn me h =
      let (_, km1, _, _) = encode-module_keys env m managed hm in
      let (tk, kt1, kt2, kt3) = encode-module_keys env target depended ht in
      let te = encode-depends_type env d edge hd in
      let req =
        asks
          (key_for_dependency_request env (record {
            language = m.language;
            organization = m.organization;
            module_name = m.module_name;
            name = m.name;
          }))
          depends_type module_type in
      let (pairs, e, h1) = >>=-eq-ok (or_not_found (find_upstream a.find_answers req t)) _ h in
      let stored_edge = record (linked edge managed depended) { k3 = source_key } in
      let bm = subst AreBytes (sym km1) (key_for_module-AreBytes env digests m) in
      let bt = subst AreBytes (sym kt1) (key_for_module-AreBytes env digests target) in
      let bt2 = subst AreBytes (sym kt2) (key_for_module-AreBytes env digests target) in
      let listed =
        find_upstream-row_of a.find_answers req t pairs n n' depended stored_edge whole
          (or_not_found-ok _ pairs e)
          (record { k1_bytes = bt; k2_bytes = bt2; k3_bytes = subst AreBytes (sym kt3) tt })
          (record { k1_bytes = bm; k2_bytes = bt; k3_bytes = bs }) mn me (kt1 ∙ sym kt2)
          (λ x. differ (sym km1 ∙ x ∙ kt1)) refl
          (contains-one _ _ (km1 ∙ sym (key_for_module-name env m []))) (contains-one _ _ te)
          (contains-one _ _ tk) in
      each-In (dependency_of env) pairs found _ _ h1 listed
        (dependency_of-encode target d depended edge _ _ _ ht hd)
