-- ===== src/Tracker/Alpha/Traversal/Tier.antt =====
-- What the inner loop and one tier do: they enqueue each request whose key is new, once.
-- No key stands twice in a list.
use depscloud.Base.{All, In, List, Result, [], arith, contains, false, list_eq, map, nat_eq}
use depscloud.Base.{option_eq, refl, sym, true, ◌++◌, ◌||◌, ◌∷◌, ◌≡◌, All-weaken, Bool-cases}
use depscloud.Base.{inl, inr, ok, ◌∙◌, >>=-eq-ok, All-In, All-append, ap}
use depscloud.Base.Bytes.{Bytes}
use mathlib.Core.List.{append-nil, append_assoc, map-append}
use depscloud.Tracker.Alpha.Types.{key_eq}
use depscloud.Tracker.Alpha.Traversal.{offer, tier}
use mathlib.Core.Path.{subst}

abbrev pub Distinct : List Bytes → Type 0
Distinct [] = Unit
Distinct (k ∷ ks) = (contains ks k ≡ false) × Distinct ks

pub contains-append :
    (xs ys : List Bytes) (k : Bytes) → contains (xs ++ ys) k ≡ (contains xs k || contains ys k)
contains-append [] ys k = refl
contains-append (x ∷ xs) ys k = ground (arith, contains-append xs ys k)

pub Distinct-prefix : (xs ys : List Bytes) → Distinct (xs ++ ys) → Distinct xs
Distinct-prefix [] ys d = tt
Distinct-prefix (x ∷ xs) ys (fresh, d) =
    (ground (arith, contains-append xs ys x), Distinct-prefix xs ys d)

pub Distinct-snoc :
    (xs : List Bytes) (k : Bytes) → Distinct xs → contains xs k ≡ false → Distinct (xs ++ (k ∷ []))
Distinct-snoc [] k d h = (refl, tt)
Distinct-snoc (x ∷ xs) k (fresh, d) h =
    ground (arith, Distinct-snoc xs k d, contains-append xs (k ∷ []) x)

module _ {Req Resp : Type 0} (key : Req → Bytes) (visit : Req → Result (Resp × List Req)) where
  -- The keys of `xs` are among `ks`.
  abbrev pub Covers : List Bytes → List Req → Type 0
  Covers ks = All (λ r. contains ks (key r) ≡ true)

  -- What a batch adds to the queue and to the keys that were seen.
  pub record Offered (batch : List Req) (seen : List Bytes) (next : List Req)
      (out : List Req × List Bytes) : Type 0 where
    pub new : List Req
    pub queued : out.0 ≡ next ++ new
    pub marked : out.1 ≡ seen ++ map key new
    pub from_batch : All (λ r. In r batch) new
    pub distinct : Distinct seen → Distinct out.1
    pub covered : Covers out.1 batch

  module _ (item : Req) (items : List Req) (seen : List Bytes) (next : List Req)
      (out : List Req × List Bytes) where
    wider : (new : List Req) → All (λ r. In r items) new → All (λ r. In r (item ∷ items)) new
    wider = All-weaken (λ r. In r items) (λ r. In r (item ∷ items)) (λ r m. inr m)

    Offered-old :
        contains seen (key item) ≡ true
        → Offered items seen next out
        → Offered (item ∷ items) seen next out
    Offered-old old o = record {
      new = o.new;
      queued = o.queued;
      marked = o.marked;
      from_batch = wider o.new o.from_batch;
      distinct = o.distinct;
      covered =
          (ground (arith, o.marked, contains-append seen (map key o.new) (key item)), o.covered);
    }

    Offered-new :
        contains seen (key item) ≡ false
        → Offered items (seen ++ (key item ∷ [])) (next ++ (item ∷ [])) out
        → Offered (item ∷ items) seen next out
    Offered-new fresh o = record {
      new = item ∷ o.new;
      queued = o.queued ∙ append_assoc next (item ∷ []) o.new;
      marked = o.marked ∙ append_assoc seen (key item ∷ []) (map key o.new);
      from_batch = (inl refl, wider o.new o.from_batch);
      distinct = λ d. o.distinct (Distinct-snoc seen (key item) d fresh);
      covered = (
        ground (
          arith,
          o.marked,
          contains-append (seen ++ (key item ∷ [])) (map key o.new) (key item),
          contains-append seen (key item ∷ []) (key item),
        ),
        o.covered,
      );
    }

  pub offer-Offered :
      (batch : List Req) (seen : List Bytes) (next : List Req)
      → Offered batch seen next (offer key visit batch seen next)
  unfolding offer
  offer-Offered [] seen next = record {
    new = [];
    queued = sym (append-nil next);
    marked = sym (append-nil seen);
    from_batch = tt;
    distinct = λ d. d;
    covered = tt;
  }
  offer-Offered (item ∷ items) seen next = elim (Bool-cases (contains seen (key item))) [
    | inl old ↦ rw old (Offered-old item items seen next _ old (offer-Offered items seen next))
    | inr fresh ↦ rw fresh (
        Offered-new item items seen next _ fresh
          (offer-Offered items (seen ++ (key item ∷ [])) (next ++ (item ∷ []))))
  ]

  -- The responses are those of the requests, in order.
  abbrev pub Answered : List Req → List Resp → Type 0
  Answered [] [] = Unit
  Answered (r ∷ rs) (resp ∷ resps) =
      ((batch : List Req) × (visit r ≡ ok (resp, batch))) × Answered rs resps
  Answered _ _ = ⊥

  -- `s` is among the requests that `r` leads to.
  pub record Child (r s : Req) : Type 0 where
    pub resp : Resp
    pub batch : List Req
    pub visited : visit r ≡ ok (resp, batch)
    pub listed : In s batch

  abbrev pub Out : Type 0
  Out = List Resp × List Req × List Bytes

  -- What a tier that succeeds adds to the next queue and to the keys that were seen.
  pub record Tiered (queue : List Req) (seen : List Bytes) (next : List Req) (out : Out)
      : Type 0 where
    pub new : List Req
    pub queued : out.1 ≡ next ++ new
    pub marked : out.2 ≡ seen ++ map key new
    pub children : All (λ s. (r : Req) × In r queue × Child r s) new
    pub distinct : Distinct seen → Distinct out.2
    pub closed : (r s : Req) → In r queue → Child r s → contains out.2 (key s) ≡ true
    pub answered : Answered queue out.0

  module _ (r : Req) (rs : List Req) (seen : List Bytes) (next : List Req) (resp : Resp)
      (batch : List Req) (visited : visit r ≡ ok (resp, batch)) (mid : List Req × List Bytes)
      (o : Offered batch seen next mid) (rest : Out) (t : Tiered rs mid.1 mid.0 rest) where
    children-cons : All (λ s. (q : Req) × In q (r ∷ rs) × Child q s) (o.new ++ t.new)
    children-cons =
        All-append (λ s. (q : Req) × In q (r ∷ rs) × Child q s) o.new t.new
          (All-weaken (λ s. In s batch) (λ s. (q : Req) × In q (r ∷ rs) × Child q s)
            (λ s m.
              (r, inl refl, record { resp = resp; batch = batch; visited = visited; listed = m }))
            o.new o.from_batch)
          (All-weaken (λ s. (q : Req) × In q rs × Child q s)
            (λ s. (q : Req) × In q (r ∷ rs) × Child q s) (λ s (q, m, c). (q, inr m, c)) t.new
            t.children)

    closed-head : (s : Req) → Child r s → contains rest.2 (key s) ≡ true
    closed-head s c =
        let same : c.batch ≡ batch = cc (c.visited) in
        let listed : In s batch = subst (In s) same c.listed in
        ground (
          arith,
          All-In (λ q. contains mid.1 (key q) ≡ true) batch s o.covered listed,
          t.marked,
          contains-append mid.1 (map key t.new) (key s),
        )

    closed-cons : (q s : Req) → In q (r ∷ rs) → Child q s → contains rest.2 (key s) ≡ true
    closed-cons q s (inl e) c = closed-head s (subst (λ x. Child x s) e c)
    closed-cons q s (inr m) c = t.closed q s m c

    Tiered-cons : Tiered (r ∷ rs) seen next (resp ∷ rest.0, rest.1, rest.2)
    Tiered-cons = record {
      new = o.new ++ t.new;
      queued = t.queued ∙ ap (λ l. l ++ t.new) o.queued ∙ append_assoc next o.new t.new;
      marked =
          t.marked
          ∙ ap (λ l. l ++ map key t.new) o.marked
          ∙ append_assoc seen (map key o.new) (map key t.new)
          ∙ ap (λ l. seen ++ l) (sym (map-append key o.new t.new));
      children = children-cons;
      distinct = λ d. t.distinct (o.distinct d);
      closed = closed-cons;
      answered = ((batch, visited), t.answered);
    }

  pub tier-Tiered :
      (queue : List Req) (seen : List Bytes) (next : List Req) (out : Out)
      → tier key visit queue seen next ≡ ok out
      → Tiered queue seen next out
  unfolding tier
  tier-Tiered [] seen next out h = subst (Tiered [] seen next) (cc) start
    where
      start : Tiered [] seen next ([], next, seen)
      start = record {
        new = [];
        queued = sym (append-nil next);
        marked = sym (append-nil seen);
        children = tt;
        distinct = λ d. d;
        closed = λ q s m c. absurd m;
        answered = tt;
      }
  tier-Tiered (r ∷ rs) seen next out h =
      let ((resp, batch), visited, h1) = >>=-eq-ok (visit r) _ h in
      let mid = offer key visit batch seen next in
      let (rest, found, h2) = >>=-eq-ok (tier key visit rs mid.1 mid.0) _ h1 in
      subst (Tiered (r ∷ rs) seen next) (cc h2) (
        Tiered-cons r rs seen next resp batch visited mid (offer-Offered batch seen next) rest
          (tier-Tiered rs mid.1 mid.0 rest found))
