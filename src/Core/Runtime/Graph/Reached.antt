-- ===== src/Core/Runtime/Graph/Reached.antt =====
-- runtime.rs, `traverse`: the search ends, and what it has visited.
use mathlib.Core.Path.{Path, subst}
use vyrm.Prelude.{
  ℕ, zero, suc, ◌+◌, ◌≤◌, ◌<◌, ◌≡◌, ◌↔◌, refl, sym, ap, ◌∙◌, true, false, not, ◌&&◌, List, [], ◌∷◌,
  ◌++◌, Option, some, if◌then◌else◌, if-rule, leb, length, arith, Bool-cases, inl, inr, All, In,
  Map, put, contains_key, contains_key-put, contains_key-put_self, find, find-absent,
  find-put_other, key-cases,
}
use vyrm.Core.Error.{Bytes}
use vyrm.Core.Runtime.Graph.{
  RuntimeRef, ref_order, RuntimeRelation, Refs, permits, Queue, outgoing, visit, traverse_loop,
  traverse, RuntimeGraphSnapshot,
}
use vyrm.Core.Runtime.Graph.Traversal.{
  Walk, stay, step, Closed, Search, Head, Nothing, Head-level, after-visit, Visited, In-outgoing,
  outgoing-All,
}

-- The relations whose target no one has visited.
unfoldable unseen : Refs → List RuntimeRelation → ℕ
unseen visited [] = 0
unseen visited (r ∷ rs) = (if contains_key ref_order r.to visited then 0 else 1) + unseen visited rs

unseen-put :
    (x : RuntimeRef) (visited : Refs) (rs : List RuntimeRelation)
    → unseen (put ref_order x tt visited) rs ≤ unseen visited rs
unfolding unseen
unseen-put x visited [] = omega arith
unseen-put x visited (r ∷ rs) =
    let rest = unseen-put x visited rs in
    elim (Bool-cases (contains_key ref_order r.to visited)) [
      | inl there ↦ ground (arith, there, rest, contains_key-put ref_order r.to x tt visited there)
      | inr absent ↦ ground (arith, absent, rest)
    ]

unseen-visit :
    (r : RuntimeRelation) (visited : Refs) (rs : List RuntimeRelation)
    → In r rs
    → contains_key ref_order r.to visited ≡ false
    → suc (unseen (put ref_order r.to tt visited) rs) ≤ unseen visited rs
unfolding unseen
unseen-visit r visited [] i absent = elim i [ ]
unseen-visit r visited (q ∷ rs) (inl e) absent =
    let here : contains_key ref_order q.to visited ≡ false =
      ap (λ (z : RuntimeRelation). contains_key ref_order z.to visited) (sym e) ∙ absent in
    let now : contains_key ref_order q.to (put ref_order r.to tt visited) ≡ true =
      ap (λ (z : RuntimeRelation). contains_key ref_order z.to (put ref_order r.to tt visited))
        (sym e)
      ∙ contains_key-put_self ref_order r.to tt visited in
    ground (arith, here, now, unseen-put r.to visited rs)
unseen-visit r visited (q ∷ rs) (inr i) absent =
    let rest = unseen-visit r visited rs i absent in
    elim (Bool-cases (contains_key ref_order q.to visited)) [
      | inl there ↦
          ground (arith, there, rest, contains_key-put ref_order q.to r.to tt visited there)
      | inr here ↦ ground (arith, here, rest)
    ]

length-snoc : (queue : Queue) (e : RuntimeRef × ℕ) → length (queue ++ e ∷ []) ≡ suc (length queue)
length-snoc [] e = refl
length-snoc (x ∷ queue) e = let rest = length-snoc queue e in omega (arith, rest)

module _ (relations : List RuntimeRelation) (kinds : Map Bytes (Unit {0})) where
  abbrev pending : Refs × Queue → ℕ
  pending state = length state.1 + unseen state.0 relations

  visit-pending :
      (d : ℕ) (x : RuntimeRef) (rs : List RuntimeRelation) (visited : Refs) (queue : Queue)
      → All (λ (r : RuntimeRelation). In r relations × (r.from ≡ x)) rs
      → pending (visit kinds d rs (visited, queue)) ≤ pending (visited, queue)
  unfolding visit
  visit-pending d x [] visited queue a = omega arith
  visit-pending d x (r ∷ rs) visited queue ((i, from), a) =
      if-rule
        (λ (state : Refs × Queue). pending (visit kinds d rs state) ≤ pending (visited, queue))
        (permits kinds r && not (contains_key ref_order r.to visited))
        (put ref_order r.to tt visited, queue ++ (r.to, suc d) ∷ []) (visited, queue)
        (λ fresh.
          let rest =
            visit-pending d x rs (put ref_order r.to tt visited) (queue ++ (r.to, suc d) ∷ []) a in
          let fewer = unseen-visit r visited relations i (ground (arith, fresh)) in
          omega (arith, rest, fewer, length-snoc queue (r.to, suc d)))
        (λ stale. visit-pending d x rs visited queue a)

  module _ (max_depth : ℕ) (start : RuntimeRef) where
    record Found (o : Option Refs) : Type 0 where
      visited : Refs
      returned : o ≡ some visited
      seen : Queue
      deepest : ℕ
      search :
          Search relations kinds start max_depth
            (Nothing relations kinds start max_depth)
            deepest
            seen
            visited
            []

    -- A node whose relations have been looked at is closed.
    close :
        (x : RuntimeRef) (d : ℕ) (seen : Queue) (queue : Queue) (state : Refs × Queue)
        (after : Visited relations kinds start max_depth
          (λ z. z ≡ (x, d))
          d
          (outgoing x relations)
          seen
          queue
          state)
        → Search relations kinds start max_depth
            (Nothing relations kinds start max_depth)
            (suc d)
            after.now
            state.0
            state.1
    close x d seen queue state after =
        let closed : Closed relations kinds start max_depth after.now x d = λ less r i from ok.
          after.edges r
            (subst (λ z. In r (outgoing z relations)) from
              (In-outgoing relations kinds start max_depth r relations i))
            ok in
        record {
          entries = λ y e i. elim (after.search.entries y e i) [
            | inl here ↦ inl here
            | inr (inl c) ↦ inr (inl c)
            | inr (inr same) ↦ inr (
                inl (
                  subst
                    (λ (z : RuntimeRef × ℕ).
                      Closed relations kinds start max_depth after.now z.0 z.1)
                    (sym same) closed))
          ];
          known = after.search.known;
          counted = after.search.counted;
          walked = after.search.walked;
          bound = after.search.bound;
          queued = after.search.queued;
          sorted = after.search.sorted;
          begun = after.search.begun;
        }

    traverse_loop-Found :
        (fuel : ℕ) (seen : Queue) (visited : Refs) (queue : Queue) (deepest : ℕ)
        → Search relations kinds start max_depth
            (Nothing relations kinds start max_depth)
            deepest
            seen
            visited
            queue
        → Head relations kinds start max_depth deepest queue
        → pending (visited, queue) < fuel
        → Found (traverse_loop relations max_depth kinds fuel (visited, queue))
    unfolding traverse_loop
    traverse_loop-Found zero seen visited queue deepest v head enough =
        absurd (omega (arith, enough))
    traverse_loop-Found (suc fuel) seen visited [] deepest v head enough = record {
      visited = visited;
      returned = refl;
      seen = seen;
      deepest = deepest;
      search = v;
    }
    traverse_loop-Found (suc fuel) seen visited ((x, d) ∷ queue) deepest v head enough =
        if-rule
          (λ (state : Refs × Queue). Found (traverse_loop relations max_depth kinds fuel state))
          (leb max_depth d) (visited, queue) (visit kinds d (outgoing x relations) (visited, queue))
          (λ far.
            traverse_loop-Found fuel seen visited queue deepest
              (record {
                entries = λ y e i. elim (v.entries y e i) [
                  | inl here ↦ elim here [
                    | inl same ↦ inr (
                        inl (λ less.
                          absurd
                            (ground (arith, far, less, ap (λ (z : RuntimeRef × ℕ). z.1) same))))
                    | inr later ↦ inl later
                  ]
                  | inr rest ↦ inr rest
                ];
                known = v.known;
                counted = v.counted;
                walked = v.walked;
                bound = v.bound;
                queued = λ y e i. v.queued y e (inr i);
                sorted = v.sorted.1;
                begun = v.begun;
              })
              (Head-level relations kinds start max_depth d deepest queue head v.sorted.0)
              (omega (arith, enough)))
          (λ near.
            let after =
              after-visit relations kinds start max_depth x d seen visited queue deepest v head
                (ground (arith, near)) in
            let state = visit kinds d (outgoing x relations) (visited, queue) in
            let smaller =
              visit-pending d x (outgoing x relations) visited queue
                (outgoing-All relations kinds start max_depth x relations (λ r i. i)) in
            traverse_loop-Found fuel after.now state.0 state.1 (suc d)
              (close x d seen queue state after)
              (Head-level relations kinds start max_depth d (suc d) state.1 (omega arith)
                (after.level v.sorted.0))
              (omega (arith, enough, smaller)))

    -- Where the queue is empty, every walk that is short enough has been seen.
    Walk-seen :
        (n : ℕ) (x : RuntimeRef) (seen : Queue) (visited : Refs) (deepest : ℕ)
        → Search relations kinds start max_depth
            (Nothing relations kinds start max_depth)
            deepest
            seen
            visited
            []
        → Walk relations kinds start n x
        → n ≤ max_depth
        → (d : ℕ) × (d ≤ n) × In (x, d) seen
    Walk-seen zero x seen visited deepest v stay near = (0, omega arith, v.begun)
    Walk-seen (suc n) x seen visited deepest v (step _ r w i ok) near =
        let (d, low, there) = Walk-seen n r.from seen visited deepest v w (omega (arith, near)) in
        elim (v.entries r.from d there) [
          | inl here ↦ elim here [ ]
          | inr (inl closed) ↦
              let (e, next, reached) = closed (omega (arith, low, near)) r i refl ok in
              (e, omega (arith, next, low), reached)
          | inr (inr none_left) ↦ absurd none_left
        ]

-- The references at the end of a walk of allowed length.
abbrev pub IsReached :
    RuntimeGraphSnapshot → RuntimeRef → ℕ → Map Bytes (Unit {0}) → RuntimeRef → Type 0
IsReached s start max_depth kinds x = (n : ℕ) × (n ≤ max_depth) × Walk s.relations kinds start n x

start_found : (start : RuntimeRef) → contains_key ref_order start ((start, tt) ∷ []) ≡ true
unfolding put
start_found start = contains_key-put_self ref_order start tt []

start_only : (start x : RuntimeRef) → contains_key ref_order x ((start, tt) ∷ []) ≡ true → x ≡ start
unfolding put find
start_only start x c = elim (key-cases ref_order x start) [
  | inl same ↦ same
  | inr differs ↦ absurd (
      find-absent ref_order x ((start, tt) ∷ []) (find-put_other ref_order x start tt [] differs) c)
]

unseen-length : (visited : Refs) (rs : List RuntimeRelation) → unseen visited rs ≤ length rs
unfolding unseen
unseen-length visited [] = omega arith
unseen-length visited (r ∷ rs) =
    let rest = unseen-length visited rs in
    if-rule (λ n. n + unseen visited rs ≤ length (r ∷ rs)) (contains_key ref_order r.to visited) 0 1
      (λ there. omega (arith, rest)) (λ absent. omega (arith, rest))

only_start :
    (start x : RuntimeRef) (d : ℕ)
    → In {A = RuntimeRef × ℕ} (x, d) ((start, 0) ∷ [])
    → Path (RuntimeRef × ℕ) (x, d) (start, 0)
only_start start x d (inl e) = e
only_start start x d (inr i) = elim i [ ]

module _ (relations : List RuntimeRelation) (kinds : Map Bytes (Unit {0})) (start : RuntimeRef)
    (max_depth : ℕ) where
  begin :
      Search relations kinds start max_depth
        (Nothing relations kinds start max_depth)
        0
        ((start, 0) ∷ [])
        ((start, tt) ∷ [])
        ((start, 0) ∷ [])
  begin = record {
    entries = λ x d i. inl i;
    known = λ x c. (0, inl (λ k. (start_only start x c k, 0)));
    counted = λ x d i.
        subst (λ (z : RuntimeRef × ℕ). contains_key ref_order z.0 ((start, tt) ∷ []) ≡ true)
          (sym (only_start start x d i)) (start_found start);
    walked = λ x d i.
        subst (λ (z : RuntimeRef × ℕ). Walk relations kinds start z.1 z.0 × (z.1 ≤ max_depth))
          (sym (only_start start x d i)) (stay, omega arith);
    bound = λ x d i.
        subst (λ (z : RuntimeRef × ℕ). z.1 ≤ 0) (sym (only_start start x d i)) (omega arith);
    queued = λ x d i. i;
    sorted = (tt, tt);
    begun = inl refl;
  }

-- A traversal ends within a step for each relation and two more, and has visited exactly the
-- references that a walk along permitted relations, no longer than the depth, reaches.
pub traverse-IsReached :
    (s : RuntimeGraphSnapshot) (start : RuntimeRef) (max_depth : ℕ) (kinds : Map Bytes (Unit {0}))
    → (visited : Refs) × (traverse (length s.relations + 2) s start max_depth kinds ≡ some visited)
      × ((x : RuntimeRef)
          → (contains_key ref_order x visited ≡ true) ↔ IsReached s start max_depth kinds x)
unfolding traverse
traverse-IsReached s start max_depth kinds =
    let found =
      traverse_loop-Found s.relations kinds max_depth start (length s.relations + 2)
        ((start, 0) ∷ []) ((start, tt) ∷ []) ((start, 0) ∷ []) 0
        (begin s.relations kinds start max_depth) (omega arith)
        (let few = unseen-length ((start, tt) ∷ []) s.relations in omega (arith, few)) in
    (
      found.visited,
      found.returned,
      λ x. (
        λ c.
            let (d, there) = found.search.known x c in
            let (walk, low) = found.search.walked x d there in (d, low, walk),
        λ (n, low, walk).
            let (d, less, there) =
              Walk-seen s.relations kinds max_depth start n x found.seen found.visited found.deepest
                found.search walk low in
            found.search.counted x d there,
      ),
    )
