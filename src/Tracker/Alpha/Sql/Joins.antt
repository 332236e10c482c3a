-- ===== src/Tracker/Alpha/Sql/Joins.antt =====
-- The two selects against a description by propositions.
use depscloud.Base.{Bool, In, In-append, In-append_left, In-append_right, In-keep, In-of_keep}
use depscloud.Base.{List, [], ap, arith, contains, inl, inr, keep, list_eq, map, nat_eq, none}
use depscloud.Base.{option_eq, refl, true, ◌↔◌, ◌∷◌, ◌≡◌, ◌≢◌}
use depscloud.Tracker.Alpha.Types.{FindRequest, Row, key_eq}
use depscloud.Tracker.Alpha.Sql.{Table, downstream_of, is_edge, is_node, join, upstream_of}
use depscloud.Tracker.Alpha.Sql.{select_downstream, select_upstream}
use mathlib.Core.List.{map-append}

pub In-map : {A B : Type 0} (f : A → B) (a : A) (xs : List A) → In a xs → In (f a) (map f xs)
In-map f a [] m = absurd m
In-map f a (x ∷ xs) (inl e) = inl (ap f e)
In-map f a (x ∷ xs) (inr m) = inr (In-map f a xs m)

pub In-of_map :
    {A B : Type 0} (f : A → B) (b : B) (xs : List A)
    → In b (map f xs)
    → (a : A) × In a xs × (b ≡ f a)
In-of_map f b [] m = absurd m
In-of_map f b (x ∷ xs) (inl e) = (x, inl refl, e)
In-of_map f b (x ∷ xs) (inr m) = let (a, m', e) = In-of_map f b xs m in (a, inr m', e)

-- An edge row and a node row that the request asks for: both live and of the wanted types, the
-- edge no loop, the node a loop.
pub record AreWanted (req : FindRequest) (node edge : Row) : Type 0 where
  pub edge_type : contains req.edge_types edge.key.graph_item_type ≡ true
  pub node_type : contains req.node_types node.key.graph_item_type ≡ true
  pub edge_ends : edge.key.k1 ≢ edge.key.k2
  pub node_ends : node.key.k1 ≡ node.key.k2
  pub edge_live : edge.date_deleted ≡ none
  pub node_live : node.date_deleted ≡ none

-- The edge leads from a key of the request to the node.
abbrev pub IsUpstream : FindRequest → Row → Row → Type 0
IsUpstream req node edge =
    AreWanted req node edge × (node.key.k1 ≡ edge.key.k2) × (contains req.keys edge.key.k1 ≡ true)

-- The edge leads from the node to a key of the request.
abbrev pub IsDownstream : FindRequest → Row → Row → Type 0
IsDownstream req node edge =
    AreWanted req node edge × (node.key.k2 ≡ edge.key.k1) × (contains req.keys edge.key.k2 ≡ true)

module _ (on : Row → Row → Bool) where
  In-join :
      (xs t : Table) (g1 g2 : Row)
      → In g1 xs
      → In g2 t
      → on g1 g2 ≡ true
      → In (g1, g2) (join on xs t)
  unfolding join
  In-join [] t g1 g2 m1 m2 h = absurd m1
  In-join (x ∷ xs) t g1 g2 (inl e) m2 h =
      let here : In {A = Row × Row} (x, g2) (map (λ g. (x, g)) (keep (on x) t)) =
        In-map (λ g. (x, g)) g2 _ (In-keep (on x) g2 t m2 (rw (← e) h)) in
      rw e (
        In-append_left {A = Row × Row} (x, g2) (map (λ g. (x, g)) (keep (on x) t)) (join on xs t)
          here)
  In-join (x ∷ xs) t g1 g2 (inr m1) m2 h =
      In-append_right {A = Row × Row} (g1, g2) (map (λ g. (x, g)) (keep (on x) t)) (join on xs t)
        (In-join xs t g1 g2 m1 m2 h)

  In-of_join :
      (xs t : Table) (p : Row × Row)
      → In p (join on xs t)
      → In p.0 xs × In p.1 t × (on p.0 p.1 ≡ true)
  unfolding join
  In-of_join [] t p m = absurd m
  In-of_join (x ∷ xs) t p m =
      elim (In-append p (map (λ g. (x, g)) (keep (on x) t)) (join on xs t) m) [
        | inl here ↦
            let (g, m2, e) = In-of_map (λ g. (x, g)) p (keep (on x) t) here in
            let (m3, h) = In-of_keep (on x) g t m2 in ground arith
        | inr later ↦ let (m1, m2, h) = In-of_join xs t p later in (inr m1, m2, h)
      ]

upstream_of_iff :
    (req : FindRequest) (g1 g2 : Row) → (upstream_of req g1 g2 ≡ true) ↔ IsUpstream req g1 g2
unfolding is_edge is_node
upstream_of_iff req g1 g2 = ground arith

downstream_of_iff :
    (req : FindRequest) (g1 g2 : Row) → (downstream_of req g1 g2 ≡ true) ↔ IsDownstream req g1 g2
unfolding is_edge is_node
downstream_of_iff req g1 g2 = ground arith

-- The upstream select yields exactly the pairs of a node row and an edge row of the table, both
-- live, of the wanted types, the node a loop and the edge none, where the edge leads from a wanted
-- key to the node.
pub select_upstream_iff :
    (req : FindRequest) (t : Table) (node edge : Row)
    → In (node, edge) (select_upstream req t) ↔ (In node t × In edge t × IsUpstream req node edge)
unfolding select_upstream
select_upstream_iff req t node edge = (
  λ m.
      let (m1, m2, h) = In-of_join (upstream_of req) t t (node, edge) m in
      (m1, m2, (upstream_of_iff req node edge).0 h),
  λ (m1, m2, h).
      In-join (upstream_of req) t t node edge m1 m2 ((upstream_of_iff req node edge).1 h),
)

-- The downstream select yields exactly the pairs where the edge leads from the node to a wanted
-- key, under the same conditions.
pub select_downstream_iff :
    (req : FindRequest) (t : Table) (node edge : Row)
    → In (node, edge) (select_downstream req t)
      ↔ (In node t × In edge t × IsDownstream req node edge)
unfolding select_downstream
select_downstream_iff req t node edge = (
  λ m.
      let (m1, m2, h) = In-of_join (downstream_of req) t t (node, edge) m in
      (m1, m2, (downstream_of_iff req node edge).0 h),
  λ (m1, m2, h).
      In-join (downstream_of req) t t node edge m1 m2 ((downstream_of_iff req node edge).1 h),
)

-- Every edge turned round.
abbrev pub transpose : Row → Row
transpose r = record r { key = record (r.key) { k1 = r.key.k2; k2 = r.key.k1 } }

abbrev pub transpose_pair : Row × Row → Row × Row
transpose_pair (node, edge) = (transpose node, transpose edge)

upstream_of-transpose :
    (req : FindRequest) (g1 g2 : Row)
    → upstream_of req (transpose g1) (transpose g2) ≡ downstream_of req g1 g2
unfolding is_edge is_node
upstream_of-transpose req g1 g2 = ground arith

keep-transpose :
    (req : FindRequest) (g : Row) (t : Table)
    → map (λ g2. (transpose g, g2)) (keep (upstream_of req (transpose g)) (map transpose t))
      ≡ map transpose_pair (map (λ g2. (g, g2)) (keep (downstream_of req g) t))
keep-transpose req g [] = refl
keep-transpose req g (x ∷ t) =
    rw (upstream_of-transpose req g x) (ground (arith, keep-transpose req g t))

join-transpose :
    (req : FindRequest) (xs t : Table)
    → join (upstream_of req) (map transpose xs) (map transpose t)
      ≡ map transpose_pair (join (downstream_of req) xs t)
unfolding join
join-transpose req [] t = refl
join-transpose req (x ∷ xs) t =
    rw (keep-transpose req x t, join-transpose req xs t, map-append) refl

-- The downstream select is the upstream select in the graph with every edge turned round.
select_upstream-transpose :
    (req : FindRequest) (t : Table)
    → select_upstream req (map transpose t) ≡ map transpose_pair (select_downstream req t)
unfolding select_upstream select_downstream
select_upstream-transpose req t = join-transpose req t t
