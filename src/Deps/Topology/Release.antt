-- ===== src/Deps/Topology/Release.antt =====
-- What the loops over edges add to the next tier.
-- The state: keys that were put in a tier are no longer counted, and the nodes of the others are
-- those of the start.
use depscloud.Tracker.Alpha.Traversal.Tier.{Distinct-snoc, Distinct, contains-append}
use depscloud.Base.{Bool, List, Option-cases, [], ap, arith, contains, false, inl, inr, length}
use depscloud.Base.{length-append, list_eq, map, nat_eq, none, option_eq, refl, some, sym, true}
use depscloud.Base.{◌++◌, ◌+◌, ◌∙◌, ◌∷◌, ◌≡◌, ◌≤◌}
use depscloud.Base.Bytes.{Bytes}
use depscloud.Base.Dict.{Dict, erase, insert, lookup, lookup-erase, lookup-insert}
use depscloud.Base.Dict.{length-erase-some, length-insert-some}
use depscloud.Deps.Topology.{Graph, Tier, release, or_empty, release_all, release_one}
use depscloud.Tracker.Alpha.Schema.{Module}
use mathlib.Core.List.{append-nil, append_assoc, map-append}
use depscloud.Tracker.Alpha.Types.{key_eq}
use mathlib.Core.Path.{subst}
use depscloud.Tracker.Alpha.Traversal.{tier}

module _ (start : Dict Bytes Module) where
  pub record Left (seen : List Bytes) (g : Graph) : Type 0 where
    pub once : Distinct seen
    pub gone : (k : Bytes) → contains seen k ≡ true → lookup k g.counter ≡ none
    pub kept : (k : Bytes) → contains seen k ≡ false → lookup k g.nodes ≡ lookup k start

  abbrev pub modules_at : List Bytes → Tier
  modules_at = map (λ k. lookup k start)

  -- What a loop over edges adds.
  pub record Released (seen : List Bytes) (g : Graph) (next : List Bytes) (tier : Tier)
      (out : Graph × List Bytes × Tier) : Type 0 where
    pub new : List Bytes
    pub queued : out.1 ≡ next ++ new
    pub listed : out.2 ≡ tier ++ modules_at new
    pub left : Left (seen ++ new) out.0
    pub fewer : length out.0.counter + length new ≤ length g.counter

  nothing :
      (seen : List Bytes) (g : Graph) (next : List Bytes) (tier : Tier)
      → Left seen g
      → Released seen g next tier (g, next, tier)
  nothing seen g next tier l = record {
    new = [];
    queued = sym (append-nil next);
    listed = sym (append-nil tier);
    left = subst (λ s. Left s g) (sym (append-nil seen)) l;
    fewer = omega arith;
  }

  chain :
      (seen : List Bytes) (g : Graph) (next : List Bytes) (tier : Tier)
      (mid out : Graph × List Bytes × Tier) (r : Released seen g next tier mid)
      → Released (seen ++ r.new) mid.0 mid.1 mid.2 out
      → Released seen g next tier out
  chain seen g next tier mid out r q = record {
    new = r.new ++ q.new;
    queued = q.queued ∙ ap (λ l. l ++ q.new) r.queued ∙ append_assoc next r.new q.new;
    listed =
        q.listed
        ∙ ap (λ l. l ++ modules_at q.new) r.listed
        ∙ append_assoc tier (modules_at r.new) (modules_at q.new)
        ∙ ap (λ l. tier ++ l) (sym (map-append (λ k. lookup k start) r.new q.new));
    left = subst (λ s. Left s out.0) (append_assoc seen r.new q.new) q.left;
    fewer = omega (arith, r.fewer, q.fewer, length-append r.new q.new);
  }

  Left-recount :
      (seen : List Bytes) (g : Graph) (d : Bytes) (preds left : Dict Bytes Bool)
      → lookup d g.counter ≡ some preds
      → Left seen g
      → Left seen (record g { counter = insert d left g.counter })
  Left-recount seen g d preds left found l = record {
    once = l.once;
    gone = λ k h. lookup-insert k d left g.counter ∙ ground (arith, l.gone k h, found);
    kept = l.kept;
  }

  Left-release :
      (seen : List Bytes) (g : Graph) (d : Bytes) (preds : Dict Bytes Bool)
      → lookup d g.counter ≡ some preds
      → Left seen g
      → (contains seen d ≡ false)
        × Left
            (seen ++ (d ∷ []))
            (record g { counter = erase d g.counter; nodes = erase d g.nodes })
  Left-release seen g d preds found l =
      let fresh : contains seen d ≡ false = ground (arith, l.gone d, found) in
      (
        fresh,
        record {
          once = Distinct-snoc seen d l.once fresh;
          gone = λ k h.
              lookup-erase k d g.counter
              ∙ ground (arith, l.gone k, contains-append seen (d ∷ []) k);
          kept = λ k h.
              lookup-erase k d g.nodes ∙ ground (arith, l.kept k, contains-append seen (d ∷ []) k);
        },
      )

  release_one-Released :
      (d : Bytes) (preds left : Dict Bytes Bool) (seen : List Bytes) (g : Graph) (next : List Bytes)
      (tier : Tier)
      → lookup d g.counter ≡ some preds
      → Left seen g
      → Released seen g next tier (release_one d left g next tier)
  unfolding release_one nothing
  release_one-Released d preds [] seen g next tier found l =
      let (fresh, l') = Left-release seen g d preds found l in
      record {
        new = d ∷ [];
        queued = refl;
        listed = ap (λ m. tier ++ (m ∷ [])) (l.kept d fresh);
        left = l';
        fewer = omega (arith, length-erase-some d preds g.counter found);
      }
  release_one-Released d preds (p ∷ ps) seen g next tier found l =
      let same =
        nothing seen (record g { counter = insert d (p ∷ ps) g.counter }) next tier
          (Left-recount seen g d preds (p ∷ ps) found l) in
      record {
        new = [];
        queued = same.queued;
        listed = same.listed;
        left = same.left;
        fewer = omega (arith, length-insert-some d (p ∷ ps) preds g.counter found);
      }

  release-Released :
      (k : Bytes) (ds : List Bytes) (seen : List Bytes) (g : Graph) (next : List Bytes)
      (tier : Tier)
      → Left seen g
      → Released seen g next tier (release k ds g next tier)
  unfolding release
  release-Released k [] seen g next tier l = nothing seen g next tier l
  release-Released k (d ∷ ds) seen g next tier l = elim (Option-cases (lookup d g.counter)) [
    | inl gone ↦ rw (gone, release) (release-Released k ds seen g next tier l)
    | inr (preds, found) ↦
        let r = release_one-Released d preds (erase k preds) seen g next tier found l in
        rw (found, release)
          (chain seen g next tier _ _ r (release-Released k ds (seen ++ r.new) _ _ _ r.left))
  ]

  pub release_all-Released :
      (ks : List Bytes) (seen : List Bytes) (g : Graph) (next : List Bytes) (tier : Tier)
      → Left seen g
      → Released seen g next tier (release_all ks g next tier)
  unfolding release_all
  release_all-Released [] seen g next tier l = nothing seen g next tier l
  release_all-Released (k ∷ ks) seen g next tier l =
      let same : Left seen (record g { edges = erase k g.edges }) = record {
        once = l.once;
        gone = l.gone;
        kept = l.kept;
      } in
      let r =
        release-Released k (or_empty (lookup k g.edges)) seen (record g { edges = erase k g.edges })
          next tier same in
      let r' : Released seen g next tier _ = record {
        new = r.new;
        queued = r.queued;
        listed = r.listed;
        left = r.left;
        fewer = r.fewer;
      } in
      chain seen g next tier _ _ r' (release_all-Released ks (seen ++ r.new) _ _ _ r.left)
