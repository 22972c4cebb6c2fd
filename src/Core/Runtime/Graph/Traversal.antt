-- ===== src/Core/Runtime/Graph/Traversal.antt =====
-- runtime.rs, `traverse`: the breadth-first search visits what walks of allowed length reach.
use mathlib.Core.Path.{subst}
use vyrm.Prelude.{
  ℕ, suc, ◌≤◌, ◌<◌, ◌≡◌, refl, sym, ap, ◌∙◌, true, not, ◌&&◌, List, [], ◌∷◌, ◌++◌, if◌then◌else◌,
  if-rule, arith, inl, inr, ◌⊎◌, All, All-append, In, Map, put, contains_key, contains_key-put,
  contains_key-put_self, find-put_other, key-cases,
}
use vyrm.Core.Error.{Bytes}
use vyrm.Core.Runtime.Graph.{
  RuntimeRef, ref_order, ref_eq, RuntimeRelation, Refs, permits, Queue, outgoing, visit,
}
use vyrm.Core.Runtime.Graph.Snapshot.{ref_eq_refl, eq_of_ref_eq}

module _ (relations : List RuntimeRelation) (kinds : Map Bytes (Unit {0}))
    (start : RuntimeRef) where
  -- The specification: a walk along permitted relations, and its length.
  pub data Walk : ℕ → RuntimeRef → Type 0 where
    stay : Walk 0 start
    step :
        (n : ℕ) (r : RuntimeRelation)
        → Walk n r.from
        → In r relations
        → permits kinds r ≡ true
        → Walk (suc n) r.to

  module _ (max_depth : ℕ) where
    -- Every permitted relation out of a node leads to an entry at most one deeper.
    abbrev pub Closed : Queue → RuntimeRef → ℕ → Type 0
    Closed seen x d =
        d < max_depth
        → (r : RuntimeRelation) → In r relations
        → r.from ≡ x
        → permits kinds r ≡ true
        → (e : ℕ) × (e ≤ suc d) × In (r.to, e) seen

    abbrev pub IsSorted : Queue → Type 0
    IsSorted [] = Unit
    IsSorted ((x, d) ∷ queue) = All (λ (e : RuntimeRef × ℕ). d ≤ e.1) queue × IsSorted queue

    -- `seen` are all entries that were ever in the queue. `Left` holds of those that may be open
    -- though they have left it, and no entry is deeper than `deepest`.
    pub record Search (Left : RuntimeRef × ℕ → Type 0) (deepest : ℕ) (seen : Queue) (visited : Refs)
        (queue : Queue) : Type 0 where
      pub entries :
          (x : RuntimeRef) (d : ℕ)
          → In (x, d) seen
          → In (x, d) queue ⊎ Closed seen x d ⊎ Left (x, d)
      pub known :
          (x : RuntimeRef) → contains_key ref_order x visited ≡ true → (d : ℕ) × In (x, d) seen
      pub counted :
          (x : RuntimeRef) (d : ℕ) → In (x, d) seen → contains_key ref_order x visited ≡ true
      pub walked : (x : RuntimeRef) (d : ℕ) → In (x, d) seen → Walk d x × (d ≤ max_depth)
      pub bound : (x : RuntimeRef) (d : ℕ) → In (x, d) seen → d ≤ deepest
      pub queued : (x : RuntimeRef) (d : ℕ) → In (x, d) queue → In (x, d) seen
      pub sorted : IsSorted queue
      pub begun : In (start, 0) seen

    IsSorted-snoc :
        (queue : Queue) (x : RuntimeRef) (d : ℕ)
        → ((y : RuntimeRef) (e : ℕ) → In (y, e) queue → e ≤ d)
        → IsSorted queue
        → IsSorted (queue ++ (x, d) ∷ [])
    IsSorted-snoc [] x d f s = (tt, tt)
    IsSorted-snoc ((y, e) ∷ queue) x d f s = (
      All-append (λ (z : RuntimeRef × ℕ). e ≤ z.1) queue ((x, d) ∷ []) s.0 (f y e (inl refl), tt),
      IsSorted-snoc queue x d (λ z c i. f z c (inr i)) s.1,
    )

    In-snoc : (queue : Queue) (a b : RuntimeRef × ℕ) → In a (queue ++ b ∷ []) → In a queue ⊎ (a ≡ b)
    In-snoc [] a b (inl e) = inr e
    In-snoc [] a b (inr i) = elim i [ ]
    In-snoc (c ∷ queue) a b (inl e) = inl (inl e)
    In-snoc (c ∷ queue) a b (inr i) = elim (In-snoc queue a b i) [
      | inl j ↦ inl (inr j)
      | inr e ↦ inr e
    ]

    In-left : (queue : Queue) (a b : RuntimeRef × ℕ) → In a queue → In a (queue ++ b ∷ [])
    In-left [] a b i = elim i [ ]
    In-left (c ∷ queue) a b (inl e) = inl e
    In-left (c ∷ queue) a b (inr i) = inr (In-left queue a b i)

    In-last : (queue : Queue) (b : RuntimeRef × ℕ) → In b (queue ++ b ∷ [])
    In-last [] b = inl refl
    In-last (c ∷ queue) b = inr (In-last queue b)

    contains-put :
        (x y : RuntimeRef) (visited : Refs)
        → contains_key ref_order x (put ref_order y tt visited) ≡ true
        → (x ≡ y) ⊎ (contains_key ref_order x visited ≡ true)
    unfolding contains_key
    contains-put x y visited c = elim (key-cases ref_order x y) [
      | inl same ↦ inl same
      | inr differs ↦ inr (ground (arith, c, find-put_other ref_order x y tt visited differs))
    ]

    -- A node that no one has visited joins the queue.
    push :
        (Left : RuntimeRef × ℕ → Type 0) (d : ℕ) (r : RuntimeRelation) (seen : Queue)
        (visited : Refs) (queue : Queue)
        → Search Left (suc d) seen visited queue
        → Walk d r.from
        → d < max_depth
        → In r relations
        → permits kinds r ≡ true
        → Search Left
            (suc d)
            ((r.to, suc d) ∷ seen)
            (put ref_order r.to tt visited)
            (queue ++ (r.to, suc d) ∷ [])
    push Left d r seen visited queue v walk deeper i allowed = record {
      entries = λ x e j. elim j [
        | inl new ↦ inl (
            subst (λ z. In z (queue ++ (r.to, suc d) ∷ [])) (sym new) (In-last queue (r.to, suc d)))
        | inr old ↦ elim (v.entries x e old) [
          | inl here ↦ inl (In-left queue (x, e) (r.to, suc d) here)
          | inr (inl closed) ↦ inr (
              inl (λ less q k from ok.
                let (c, low, there) = closed less q k from ok in (c, low, inr there)))
          | inr (inr left) ↦ inr (inr left)
        ]
      ];
      known = λ x c. elim (contains-put x r.to visited c) [
        | inl same ↦ (suc d, inl (λ k. (same k, suc d)))
        | inr old ↦ let (e, there) = v.known x old in (e, inr there)
      ];
      counted = λ x e j. elim j [
        | inl new ↦
            subst
              (λ (z : RuntimeRef × ℕ).
                contains_key ref_order z.0 (put ref_order r.to tt visited) ≡ true)
              (sym new) (contains_key-put_self ref_order r.to tt visited)
        | inr old ↦ contains_key-put ref_order x r.to tt visited (v.counted x e old)
      ];
      walked = λ x e j. elim j [
        | inl new ↦
            subst (λ (z : RuntimeRef × ℕ). Walk z.1 z.0 × (z.1 ≤ max_depth)) (sym new)
              (step d r walk i allowed, omega (arith, deeper))
        | inr old ↦ v.walked x e old
      ];
      bound = λ x e j. elim j [
        | inl new ↦ subst (λ (z : RuntimeRef × ℕ). z.1 ≤ suc d) (sym new) (omega arith)
        | inr old ↦ v.bound x e old
      ];
      queued = λ x e j. elim (In-snoc queue (x, e) (r.to, suc d) j) [
        | inl old ↦ inr (v.queued x e old)
        | inr new ↦ inl new
      ];
      sorted = IsSorted-snoc queue r.to (suc d) (λ y e j. v.bound y e (v.queued y e j)) v.sorted;
      begun = inr v.begun;
    }

    -- What the relations of one node make of a search.
    pub record Visited (Left : RuntimeRef × ℕ → Type 0) (d : ℕ) (rs : List RuntimeRelation)
        (seen : Queue) (queue : Queue) (state : Refs × Queue) : Type 0 where
      pub now : Queue
      pub search : Search Left (suc d) now state.0 state.1
      pub more : (x : RuntimeRef) (e : ℕ) → In (x, e) seen → In (x, e) now
      pub edges :
          (r : RuntimeRelation)
          → In r rs
          → permits kinds r ≡ true
          → (e : ℕ) × (e ≤ suc d) × In (r.to, e) now
      pub level :
          All (λ (e : RuntimeRef × ℕ). d ≤ e.1) queue
          → All (λ (e : RuntimeRef × ℕ). d ≤ e.1) state.1

    visit-Visited :
        (Left : RuntimeRef × ℕ → Type 0) (d : ℕ) (x : RuntimeRef) (rs : List RuntimeRelation)
        (seen : Queue) (visited : Refs) (queue : Queue)
        → Search Left (suc d) seen visited queue
        → Walk d x
        → d < max_depth
        → All (λ (r : RuntimeRelation). In r relations × (r.from ≡ x)) rs
        → Visited Left d rs seen queue (visit kinds d rs (visited, queue))
    unfolding visit
    visit-Visited Left d x [] seen visited queue v walk less a = record {
      now = seen;
      search = v;
      more = λ y e i. i;
      edges = λ r i. elim i [ ];
      level = λ l. l;
    }
    visit-Visited Left d x (r ∷ rs) seen visited queue v walk less ((i, from), a) =
        if-rule
          (λ (state : Refs × Queue). Visited Left d (r ∷ rs) seen queue (visit kinds d rs state))
          (permits kinds r && not (contains_key ref_order r.to visited))
          (put ref_order r.to tt visited, queue ++ (r.to, suc d) ∷ []) (visited, queue)
          (λ fresh.
            let pushed =
              push Left d r seen visited queue v (subst (Walk d) (sym from) walk) less i
                (ground (arith, fresh)) in
            let rest = visit-Visited Left d x rs _ _ _ pushed walk less a in
            record {
              now = rest.now;
              search = rest.search;
              more = λ y e j. rest.more y e (inr j);
              edges = λ q j ok. elim j [
                | inl e ↦
                    (suc d, omega arith, rest.more q.to (suc d) (inl (λ k. ((e k).to, suc d))))
                | inr k ↦ rest.edges q k ok
              ];
              level = λ l.
                  rest.level
                    (All-append (λ (e : RuntimeRef × ℕ). d ≤ e.1) queue _ l (omega arith, tt));
            })
          (λ stale.
            let rest = visit-Visited Left d x rs seen visited queue v walk less a in
            record {
              now = rest.now;
              search = rest.search;
              more = rest.more;
              edges = λ q j ok. elim j [
                | inl e ↦
                    let here : contains_key ref_order r.to visited ≡ true =
                      ground (arith, stale, ok, ap (permits kinds) e) in
                    let (c, there) = v.known r.to here in
                    let now_there = rest.more r.to c there in
                    (
                      c,
                      v.bound r.to c there,
                      subst (λ (z : RuntimeRelation). In (z.to, c) rest.now) (sym e) now_there,
                    )
                | inr k ↦ rest.edges q k ok
              ];
              level = rest.level;
            })

    pub outgoing-All :
        (x : RuntimeRef) (rs : List RuntimeRelation)
        → ((r : RuntimeRelation) → In r rs → In r relations)
        → All (λ (r : RuntimeRelation). In r relations × (r.from ≡ x)) (outgoing x rs)
    unfolding outgoing
    outgoing-All x [] f = tt
    outgoing-All x (r ∷ rs) f =
        let rest = outgoing-All x rs (λ q i. f q (inr i)) in
        if-rule (All (λ (q : RuntimeRelation). In q relations × (q.from ≡ x))) (ref_eq r.from x)
          (r ∷ outgoing x rs) (outgoing x rs)
          (λ same. ((f r (inl refl), eq_of_ref_eq r.from x same), rest)) (λ differs. rest)

    pub In-outgoing :
        (r : RuntimeRelation) (rs : List RuntimeRelation) → In r rs → In r (outgoing r.from rs)
    unfolding outgoing
    In-outgoing r [] i = elim i [ ]
    In-outgoing r (q ∷ rs) (inl e) =
        let same : ref_eq q.from r.from ≡ true =
          ap (λ (z : RuntimeRelation). ref_eq z.from r.from) (sym e) ∙ ref_eq_refl r.from in
        subst (λ b. In r (if b then q ∷ outgoing r.from rs else outgoing r.from rs)) (sym same)
          (inl e)
    In-outgoing r (q ∷ rs) (inr i) =
        let rest = In-outgoing r rs i in
        if-rule (In r) (ref_eq q.from r.from) (q ∷ outgoing r.from rs) (outgoing r.from rs)
          (λ same. inr rest) (λ differs. rest)

    abbrev pub Head : ℕ → Queue → Type 0
    Head deepest [] = Unit
    Head deepest ((x, d) ∷ queue) = deepest ≤ suc d

    pub Head-level :
        (d deepest : ℕ) (queue : Queue)
        → deepest ≤ suc d
        → All (λ (e : RuntimeRef × ℕ). d ≤ e.1) queue
        → Head deepest queue
    Head-level d deepest [] p a = tt
    Head-level d deepest (e ∷ queue) p a = let low = a.0 in omega (arith, p, low)

    abbrev pub Nothing : RuntimeRef × ℕ → Type 0
    Nothing e = ⊥

    -- The node at the head of the queue, once its relations have been looked at.
    pub after-visit :
        (x : RuntimeRef) (d : ℕ) (seen : Queue) (visited : Refs) (queue : Queue) (deepest : ℕ)
        → Search Nothing deepest seen visited ((x, d) ∷ queue)
        → deepest ≤ suc d
        → d < max_depth
        → Visited
            (λ z. z ≡ (x, d))
            d
            (outgoing x relations)
            seen
            queue
            (visit kinds d (outgoing x relations) (visited, queue))
    after-visit x d seen visited queue deepest v head less =
        visit-Visited (λ z. z ≡ (x, d)) d x (outgoing x relations) seen visited queue
          (record {
            entries = λ y e i. elim (v.entries y e i) [
              | inl here ↦ elim here [ inl same ↦ inr (inr same) | inr later ↦ inl later ]
              | inr (inl closed) ↦ inr (inl closed)
              | inr (inr none_left) ↦ absurd none_left
            ];
            known = v.known;
            counted = v.counted;
            walked = v.walked;
            bound = λ y e i. let b = v.bound y e i in omega (arith, b, head);
            queued = λ y e i. v.queued y e (inr i);
            sorted = v.sorted.1;
            begun = v.begun;
          })
          (v.walked x d (v.queued x d (inl refl))).0 less (outgoing-All x relations (λ r i. i))
