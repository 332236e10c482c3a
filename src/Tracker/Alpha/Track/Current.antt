-- ===== src/Tracker/Alpha/Track/Current.antt =====
-- `getCurrent` finds what is of the source, and modules.
-- Every item of an index stands under its own readable key, and has a property.
use depscloud.Tracker.Alpha.Schema.{encode, source, Env, Source, depends_type, key_for_source}
use depscloud.Tracker.Alpha.Schema.{manages_type, module_type, readable_key}
use depscloud.Base.{>>=-eq-ok, All, Bool-cases, In, List, [], arith, contains, inl, inr, list_eq}
use depscloud.Base.{nat_eq, ok, option_eq, refl, sym, true, ◌==◌, ◌||◌, ◌∷◌, ◌≡◌, ◌⊎◌}
use depscloud.Base.Bytes.{Bytes, AreBytes}
use depscloud.Tracker.Alpha.Types.{FindRequest, GraphItem, GraphItemPair, key_eq}
use depscloud.Tracker.Alpha.Client.{Fits, GraphStoreClient}
use depscloud.Tracker.Alpha.Track.{Index, collect, get_current, index, owned, modules_by}
use depscloud.Tracker.Alpha.Schema.Laws.{encode-source_key, key_for_source-AreBytes}
use depscloud.Base.Dict.{insert}
use mathlib.Core.Path.{subst}

abbrev pub Items : (GraphItem → Type 0) → Index → Type 0
Items P = All (λ (key, item). (key ≡ readable_key item) × P item)

pub index-Items :
    (P : GraphItem → Type 0) (item : GraphItem) (idx : Index)
    → P item
    → Items P idx
    → Items P (index item idx)
unfolding index insert
index-Items P item [] p a = ((refl, p), tt)
index-Items P item ((j, w) ∷ d) p (q, a) = elim (Bool-cases (readable_key item == j)) [
  | inl same ↦ rw same ((refl, p), a)
  | inr differs ↦ rw differs (q, index-Items P item d p a)
]

-- An item that `getCurrent` may hold for a source with this item.
pub data Owned (src_item : GraphItem) (item : GraphItem) : Type 0 where
  own_source : item ≡ src_item → Owned src_item item
  own_module : item.graph_item_type ≡ module_type → Owned src_item item
  own_manages : item.graph_item_type ≡ manages_type → item.k1 ≡ src_item.k1 → Owned src_item item
  own_depends :
      item.graph_item_type ≡ depends_type
      → (item.k3 ≡ []) ⊎ (item.k3 ≡ src_item.k1)
      → Owned src_item item

one_type : (k k' : Bytes) → contains (k' ∷ []) k ≡ true → k ≡ k'
one_type k k' h = ground arith

one_key : (k k' : Bytes) → In k (k' ∷ []) → k ≡ k'
one_key k k' (inl e) = e
one_key k k' (inr m) = absurd m

module _ (env : Env) where
  module _ (src_item : GraphItem) where
    owned-Items :
        (key : Bytes) (pairs : List GraphItemPair) (idx : Index)
        → All (Fits (modules_by depends_type key)) pairs
        → Items (Owned src_item) idx
        → Items (Owned src_item) (owned env src_item.k1 pairs idx)
    unfolding owned
    owned-Items key [] idx f a = a
    owned-Items key (p ∷ pairs) idx (f, fs) a =
        elim (Bool-cases (p.edge.k3 == [] || p.edge.k3 == src_item.k1)) [
          | inl ours ↦ rw ours (
              owned-Items key pairs _ fs (
                index-Items (Owned src_item) p.edge _
                  (own_depends (one_type _ _ f.edge_type) (ground arith))
                  (index-Items (Owned src_item) p.node idx (own_module (one_type _ _ f.node_type))
                    a)))
          | inr theirs ↦ rw theirs (owned-Items key pairs idx fs a)
        ]

    module _ (is_bytes : AreBytes src_item.k1) {S : Type 0} (client : GraphStoreClient S) (s : S)
        (fits : (req : FindRequest) (pairs : List GraphItemPair)
          → client.upstream req s ≡ ok pairs
          → All (Fits req) pairs) where
      collect-Items :
          (pairs : List GraphItemPair) (idx idx' : Index)
          → All (Fits (modules_by manages_type src_item.k1)) pairs
          → collect env client s src_item.k1 pairs idx ≡ ok idx'
          → Items (Owned src_item) idx
          → Items (Owned src_item) idx'
      unfolding collect
      collect-Items [] idx idx' f h a = subst (Items (Owned src_item)) (cc) a
      collect-Items (p ∷ pairs) idx idx' (f, fs) h a =
          let (found, e, h') =
            >>=-eq-ok (client.upstream (modules_by depends_type p.node.k1) s) _ h in
          collect-Items pairs _ idx' fs h' (
            owned-Items p.node.k1 found _ (fits _ found e) (
              index-Items (Owned src_item) p.edge _
                (own_manages (one_type _ _ f.edge_type) (one_key _ _ (f.source_key (is_bytes, tt))))
                (index-Items (Owned src_item) p.node idx (own_module (one_type _ _ f.node_type))
                  a)))

  module _ (digests : (x : Bytes) → AreBytes (env.digest x)) {S : Type 0}
      (client : GraphStoreClient S) (s : S)
      (fits : (req : FindRequest) (pairs : List GraphItemPair)
        → client.upstream req s ≡ ok pairs
        → All (Fits req) pairs) where
    pub get_current-Items :
        (src : Source) (current : Index)
        → get_current env client src s ≡ ok current
        → (src_item : GraphItem) × (encode env (source src) ≡ ok src_item)
          × Items (Owned src_item) current
    unfolding get_current
    get_current-Items src current h =
        let (src_item, e, h1) = >>=-eq-ok (encode env (source src)) _ h in
        let (pairs, found, h2) =
          >>=-eq-ok (client.upstream (modules_by manages_type (key_for_source env src)) s) _ h1 in
        let key = encode-source_key env src src_item e in
        (
          src_item,
          e,
          collect-Items src_item
              (subst AreBytes (sym key) (key_for_source-AreBytes env digests src)) client s fits
              pairs _ current
              (subst (λ k. All (Fits (modules_by manages_type k)) pairs) (sym key)
                (fits _ pairs found))
              h2 (index-Items (Owned src_item) src_item [] (own_source refl) tt),
        )
