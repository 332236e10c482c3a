-- ===== src/Tracker/Alpha/Store/Reads.antt =====
-- What `FindUpstream`, `FindDownstream` and `List` of
-- tracker/internal/graphstore/v1alpha/server.go answer, errors included.
use depscloud.Base.{All, Error, List, Option, [], arith, map, none, ok, refl, ◌∷◌, ◌≡◌}
use depscloud.Base.{>>=-eq-ok, Bool, In, ap, check, contains, list_eq, nat_eq, option_eq, sym}
use depscloud.Base.{true, ℕ, ◌↔◌, ◌∙◌, ◌≢◌, inl, inr, some, suc, take, zero}
use depscloud.Tracker.Alpha.Types.{FindRequest, GraphItemPair, Row, GraphItem, key_eq}
use depscloud.Tracker.Alpha.Store.{QueryAnswers, encoded, find_upstream, pair_of, read_rows}
use depscloud.Tracker.Alpha.Store.{decoded, find_downstream, row_of, arrived}
use depscloud.Tracker.Alpha.Sql.{Table, select_upstream, select_downstream}
use depscloud.Base.Bytes.{AreBytes, Bytes}
use depscloud.Tracker.Alpha.Sql.Joins.{In-map, In-of_map, IsDownstream, IsUpstream}
use depscloud.Tracker.Alpha.Sql.Joins.{select_downstream_iff, select_upstream_iff}
use depscloud.Codec.Base64.RoundTrip.{raw_decode-raw_encode}
use depscloud.Codec.Base64.{raw_encode}
use mathlib.Core.Path.{subst}
use depscloud.Tracker.Beta.Driver.{selected}

pub read_rows-map :
    {R A : Type 0} (scan : R → Option Error) (read : R → A) (rs : List R)
    → All (λ r. scan r ≡ none) rs
    → read_rows scan read rs ≡ ok (map read rs)
unfolding read_rows
read_rows-map scan read [] h = refl
read_rows-map scan read (r ∷ rs) (h, hs) = rw (h, read_rows-map scan read rs hs)

read_rows-ok :
    {R A : Type 0} (scan : R → Option Error) (read : R → A) (rs : List R) (items : List A)
    → read_rows scan read rs ≡ ok items
    → items ≡ map read rs
unfolding read_rows
read_rows-ok scan read [] items h = ground arith
read_rows-ok scan read (r ∷ rs) items h =
    let (_, _, h1) = >>=-eq-ok (check (scan r)) _ h in
    let (more, e, h2) = >>=-eq-ok (read_rows scan read rs) _ h1 in
    cc (read_rows-ok scan read rs more e)

-- The pairs that a request is to be answered with, by the rows that hold them.
abbrev pub AnswersOf :
    (FindRequest → Row → Row → Type 0) → FindRequest → Table → GraphItemPair → Type 0
AnswersOf Selects req t p =
    (node : Row) × (edge : Row) × In node t
    × In edge t
    × Selects (encoded req) node edge
    × (p ≡ pair_of (node, edge))

In-pairs :
    (Selects : FindRequest → Row → Row → Type 0) (req : FindRequest) (t : Table)
    (rows : List (Row × Row))
    → ((node edge : Row)
        → In (node, edge) rows ↔ (In node t × In edge t × Selects (encoded req) node edge))
    → (p : GraphItemPair) → In p (map pair_of rows) ↔ AnswersOf Selects req t p
In-pairs Selects req t rows selected p = (
  λ m.
      let ((node, edge), m', e) = In-of_map pair_of p rows m in
      let (m1, m2, s) = (selected node edge).0 m' in (node, edge, m1, m2, s, e),
  λ (node, edge, m1, m2, s, e).
      subst (λ q. In q (map pair_of rows)) (sym e)
        (In-map pair_of (node, edge) rows ((selected node edge).1 (m1, m2, s))),
)

In-take : {A : Type 0} (n : ℕ) (x : A) (xs : List A) → In x (take n xs) → In x xs
In-take zero x xs m = absurd m
In-take (suc n) x [] m = absurd m
In-take (suc n) x (y ∷ xs) (inl e) = inl e
In-take (suc n) x (y ∷ xs) (inr m) = inr (In-take n x xs m)

In-arrived :
    {R : Type 0} (answers : QueryAnswers R) (rows : List R) (r : R)
    → In r (arrived answers rows)
    → In r rows
In-arrived answers rows r m = go answers.interrupted m
  where
    go : (cut : Option ℕ) → In r (elim cut [ none ↦ rows | some n ↦ take n rows ]) → In r rows
    go none m = m
    go (some n) m = In-take n r rows m

module _ (answers : QueryAnswers (Row × Row)) (req : FindRequest) (t : Table) where
  -- What a query yields is what the statement selects, in some order.
  selected_iff :
      (Selects : FindRequest → Row → Row → Type 0) (rows : List (Row × Row))
      → ((node edge : Row)
          → In (node, edge) rows ↔ (In node t × In edge t × Selects (encoded req) node edge))
      → (p : GraphItemPair)
      → In p (map pair_of (answers.arrangement.order rows)) ↔ AnswersOf Selects req t p
  selected_iff Selects rows chosen p =
      In-pairs Selects req t (answers.arrangement.order rows)
        (λ node edge.
          let there = answers.arrangement.members rows (node, edge) in
          (λ m. (chosen node edge).0 (there.0 m), λ s. there.1 ((chosen node edge).1 s)))
        p

  read_sound :
      (Selects : FindRequest → Row → Row → Type 0) (rows : List (Row × Row))
      (pairs : List GraphItemPair)
      → ((node edge : Row)
          → In (node, edge) rows ↔ (In node t × In edge t × Selects (encoded req) node edge))
      → read_rows answers.scan pair_of (arrived answers (answers.arrangement.order rows)) ≡ ok pairs
      → (p : GraphItemPair) → In p pairs
      → AnswersOf Selects req t p
  read_sound Selects rows pairs chosen found p m =
      let ordered = answers.arrangement.order rows in
      let e = read_rows-ok answers.scan pair_of (arrived answers ordered) pairs found in
      let (r, m', er) = In-of_map pair_of p (arrived answers ordered) (subst (In p) e m) in
      (selected_iff Selects rows chosen p).0 (
        subst (λ q. In q (map pair_of ordered)) (sym er)
          (In-map pair_of r ordered (In-arrived answers ordered r m')))

  read_iff :
      (Selects : FindRequest → Row → Row → Type 0) (rows : List (Row × Row))
      (pairs : List GraphItemPair)
      → ((node edge : Row)
          → In (node, edge) rows ↔ (In node t × In edge t × Selects (encoded req) node edge))
      → answers.interrupted ≡ none
      → read_rows answers.scan pair_of (arrived answers (answers.arrangement.order rows)) ≡ ok pairs
      → (p : GraphItemPair) → In p pairs ↔ AnswersOf Selects req t p
  read_iff Selects rows pairs chosen whole found p =
      let ordered = answers.arrangement.order rows in
      let all : arrived answers ordered ≡ ordered = rw whole refl in
      let e =
        read_rows-ok answers.scan pair_of (arrived answers ordered) pairs found
        ∙ ap (map pair_of) all in
      rw e (selected_iff Selects rows chosen p)

  -- `FindUpstream`, when it succeeds, answers with pairs of a live node of a wanted type and a live
  -- edge of a wanted type that leads from a wanted key to that node.
  pub find_upstream_sound :
      (pairs : List GraphItemPair)
      → find_upstream answers req t ≡ ok pairs
      → (p : GraphItemPair) → In p pairs
      → AnswersOf IsUpstream req t p
  unfolding find_upstream
  find_upstream_sound pairs h =
      let (_, _, found) = >>=-eq-ok (check answers.query) _ h in
      read_sound IsUpstream (select_upstream (encoded req) t) pairs
        (select_upstream_iff (encoded req) t) found

  -- They are all such pairs where no error interrupts the rows.
  pub find_upstream_iff :
      (pairs : List GraphItemPair)
      → answers.interrupted ≡ none
      → find_upstream answers req t ≡ ok pairs
      → (p : GraphItemPair) → In p pairs ↔ AnswersOf IsUpstream req t p
  unfolding find_upstream
  find_upstream_iff pairs whole h =
      let (_, _, found) = >>=-eq-ok (check answers.query) _ h in
      read_iff IsUpstream (select_upstream (encoded req) t) pairs
        (select_upstream_iff (encoded req) t) whole found

  -- `FindDownstream` likewise, where the edge leads from the node to a wanted key.
  find_downstream_iff :
      (pairs : List GraphItemPair)
      → answers.interrupted ≡ none
      → find_downstream answers req t ≡ ok pairs
      → (p : GraphItemPair) → In p pairs ↔ AnswersOf IsDownstream req t p
  unfolding find_downstream
  find_downstream_iff pairs whole h =
      let (_, _, found) = >>=-eq-ok (check answers.query) _ h in
      read_iff IsDownstream (select_downstream (encoded req) t) pairs
        (select_downstream_iff (encoded req) t) whole found

-- `FindUpstream` and `FindDownstream`, when they succeed and no error of the database interrupted
-- the rows, answer with exactly the pairs of a live node of a wanted type and a live edge of a wanted
-- type that leads, for the first, from a wanted key to that node, and for the second from the node
-- to a wanted key.
pub finds_iff :
    (answers : QueryAnswers (Row × Row)) (req : FindRequest) (t : Table)
    (up down : List GraphItemPair)
    → answers.interrupted ≡ none
    → find_upstream answers req t ≡ ok up
    → find_downstream answers req t ≡ ok down
    → (p : GraphItemPair)
    → (In p up ↔ AnswersOf IsUpstream req t p) × (In p down ↔ AnswersOf IsDownstream req t p)
finds_iff answers req t up down whole h h' p = (
  find_upstream_iff answers req t up whole h p,
  find_downstream_iff answers req t down whole h' p,
)

-- The keys of an item are bytes.
pub record HasByteKeys (item : GraphItem) : Type 0 where
  pub k1_bytes : AreBytes item.k1
  pub k2_bytes : AreBytes item.k2
  pub k3_bytes : AreBytes item.k3

pub decoded-raw_encode : (x : Bytes) → AreBytes x → decoded (raw_encode x) ≡ x
decoded-raw_encode x h = ap (λ (p : Bytes × Bool). p.0) (raw_decode-raw_encode x h)

pub raw_encode-injective :
    (x y : Bytes) → AreBytes x → AreBytes y → raw_encode x ≡ raw_encode y → x ≡ y
raw_encode-injective x y hx hy e =
    sym (decoded-raw_encode x hx) ∙ ap decoded e ∙ decoded-raw_encode y hy

pair_of-row_of :
    (m n : ℕ) (node edge : GraphItem)
    → HasByteKeys node
    → HasByteKeys edge
    → pair_of (row_of m node, row_of n edge)
      ≡ record { edge = edge; node = record node { k3 = [] } }
pair_of-row_of m n node edge hn he = ground (
  arith,
  decoded-raw_encode node.k1 hn.k1_bytes,
  decoded-raw_encode node.k2 hn.k2_bytes,
  decoded-raw_encode edge.k1 he.k1_bytes,
  decoded-raw_encode edge.k2 he.k2_bytes,
  decoded-raw_encode edge.k3 he.k3_bytes,
)

contains-map :
    (f : Bytes → Bytes) (k : Bytes) (ks : List Bytes)
    → contains ks k ≡ true
    → contains (map f ks) (f k) ≡ true
contains-map f k [] h = cc
contains-map f k (j ∷ ks) h = ground (arith, contains-map f k ks)

-- A node and an edge that were written as rows and are still live come back from `FindUpstream` as
-- they were given, but for the third key of the node, for a request that wants the edge's source
-- and the two types, and that succeeds with no error of the database in between.
pub find_upstream-row_of :
    (answers : QueryAnswers (Row × Row)) (req : FindRequest) (t : Table)
    (pairs : List GraphItemPair) (m n : ℕ) (node edge : GraphItem)
    → answers.interrupted ≡ none
    → find_upstream answers req t ≡ ok pairs
    → HasByteKeys node
    → HasByteKeys edge
    → In (row_of m node) t
    → In (row_of n edge) t
    → node.k1 ≡ node.k2
    → edge.k1 ≢ edge.k2
    → node.k1 ≡ edge.k2
    → contains req.keys edge.k1 ≡ true
    → contains req.edge_types edge.graph_item_type ≡ true
    → contains req.node_types node.graph_item_type ≡ true
    → In (record { edge = edge; node = record node { k3 = [] } }) pairs
find_upstream-row_of answers req t pairs m n node edge whole found hn he mn me loop ends meets
      wanted et nt =
    (find_upstream_iff answers req t pairs whole found _).1 (
      row_of m node,
      row_of n edge,
      mn,
      me,
      (
        record {
          edge_type = et;
          node_type = nt;
          edge_ends = λ e. ends (raw_encode-injective edge.k1 edge.k2 he.k1_bytes he.k2_bytes e);
          node_ends = ap raw_encode loop;
          edge_live = refl;
          node_live = refl;
        },
        ap raw_encode meets,
        contains-map raw_encode edge.k1 req.keys wanted,
      ),
      sym (pair_of-row_of m n node edge hn he),
    )
