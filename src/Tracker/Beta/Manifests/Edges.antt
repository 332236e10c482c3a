-- ===== src/Tracker/Beta/Manifests/Edges.antt =====
-- The edges that `Store` of tracker/internal/services/v1beta/manifeststorageservice.go deletes.
use depscloud.Tracker.Beta.Manifests.Storage.{edge_key, edges_to_delete, index_edges}
use depscloud.Base.{All, Bool, List, Option, [], arith, contains, if◌then◌else◌, length, list_eq}
use depscloud.Base.{map, nat_eq, none, not, option_eq, refl, some, sym, ◌&&◌, ◌++◌, ◌==◌, ◌||◌}
use depscloud.Base.{◌∙◌, ◌∷◌, ◌≡◌}
use depscloud.Base.Bytes.{Bytes}
use depscloud.Base.Dict.{Dict, insert, lookup, lookup-insert, lookup-nil}
use depscloud.Tracker.Beta.Types.{Edge}
use depscloud.Tracker.Alpha.Track.{index}
use depscloud.Base.Options.{is_some}
use depscloud.Tracker.Alpha.Types.{key_eq}

-- The three keys that an edge is stored under.
abbrev pub place : Edge → List Bytes
place e = e.from_key ∷ e.to_key ∷ e.key ∷ []

abbrev pub names : List Bytes → List Edge → Bool
names k es = contains (map place es) k

-- The body that a list of edges leaves at a place.
abbrev pub last_body : List Bytes → List Edge → Option (Bytes × Bytes)
last_body k [] = none
last_body k (e ∷ es) = elim (last_body k es) [
  | some b ↦ some b
  | none ↦ if k == place e then some (e.type_url, e.value) else none
]

-- The keys of nodes are digests, of 32 bytes.
abbrev pub IsSized : Edge → Type 0
IsSized e = (length e.from_key ≡ 32) × (length e.to_key ≡ 32)

pub is_some-last_body : (k : List Bytes) (es : List Edge) → is_some (last_body k es) ≡ names k es
is_some-last_body k [] = refl
is_some-last_body k (e ∷ es) = ground (arith, is_some-last_body k es)

lookup-index_edges :
    (x : Bytes) (es : List Edge) (index : Dict Bytes Edge)
    → is_some (lookup x (index_edges es index))
      ≡ (contains (map edge_key es) x || is_some (lookup x index))
unfolding index_edges
lookup-index_edges x [] index = refl
lookup-index_edges x (e ∷ es) index = ground (
  arith,
  lookup-index_edges x es (insert (edge_key e) e index),
  lookup-insert x (edge_key e) e index,
)

-- Two texts in front of a separator are equal with what is behind, if they are of one length.
split_at : (xs ys r s : Bytes) → length xs ≡ length ys → xs ++ r ≡ ys ++ s → (xs ≡ ys) × (r ≡ s)
split_at [] [] r s l h = (refl, h)
split_at [] (_ ∷ _) r s l h = absurd (omega arith)
split_at (_ ∷ _) [] r s l h = absurd (omega arith)
split_at (x ∷ xs) (y ∷ ys) r s l h = ground (arith, split_at xs ys r s)

edge_key-injective :
    (e f : Edge) → IsSized e → IsSized f → edge_key e ≡ edge_key f → place e ≡ place f
unfolding edge_key
edge_key-injective e f (ef, et) (ff, ft) h =
    let (p, h1) = split_at e.from_key f.from_key _ _ (ef ∙ sym ff) h in
    let h2 : e.to_key ++ (47 ∷ e.key) ≡ f.to_key ++ (47 ∷ f.key) = cc h1 in
    let (q, h3) = split_at e.to_key f.to_key _ _ (et ∙ sym ft) h2 in cc (p, q, h3)

edge_key-place : (e f : Edge) → place e ≡ place f → edge_key e ≡ edge_key f
unfolding edge_key
edge_key-place e f h =
    let from : e.from_key ≡ f.from_key = cc h in
    let to : e.to_key ≡ f.to_key = cc h in let key : e.key ≡ f.key = cc h in cc (from, to, key)

contains-edge_key :
    (f : Edge) (es : List Edge)
    → IsSized f
    → All IsSized es
    → contains (map edge_key es) (edge_key f) ≡ names (place f) es
contains-edge_key f [] sf ses = refl
contains-edge_key f (e ∷ es) sf (se, ses) =
    ground (arith, contains-edge_key f es sf ses, edge_key-injective f e sf se, edge_key-place f e)

is_indexed :
    (e : Edge) (proposed : List Edge)
    → IsSized e
    → All IsSized proposed
    → is_some (lookup (edge_key e) (index_edges proposed [])) ≡ names (place e) proposed
is_indexed e proposed se sp = ground (
  arith,
  lookup-index_edges (edge_key e) proposed [],
  lookup-nil {V = Edge} (edge_key e),
  contains-edge_key e proposed se sp,
)

-- What is deleted is what is stored and not proposed.
pub names-edges_to_delete :
    (k : List Bytes) (proposed old : List Edge)
    → All IsSized proposed
    → All IsSized old
    → names k (edges_to_delete proposed old) ≡ (names k old && not (names k proposed))
unfolding edges_to_delete
names-edges_to_delete k proposed [] sp ss = refl
names-edges_to_delete k proposed (e ∷ old) sp (se, ss) =
    ground (arith, names-edges_to_delete k proposed old sp ss, is_indexed e proposed se sp)
