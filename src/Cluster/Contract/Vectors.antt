-- ===== src/Cluster/Contract/Vectors.antt =====
-- contract.rs, `SnapshotVector::relation`: what the comparison of two snapshots says of them.
use mathlib.Core.Path.{Path}
use vyrm.Prelude.{
  ◌≡◌, refl, sym, ap, ◌∙◌, Bool, true, false, List, [], ◌∷◌, some, ok, err, ◌>>=◌, bytes_eq,
  bytes_eq_refl, eq_of_bytes_eq, All, In, arith, Bool-cases, Result-cases, inl, inr, Map, find,
  In-find, IsAscending, nat_order,
}
use vyrm.Core.Error.{Bytes}
use vyrm.Cluster.Error.{Outcome, ShardId}
use vyrm.Cluster.Contract.{
  ShardReadStamp, SnapshotVector, VectorRelation, equal, dominates, dominated, concurrent,
  validate_vector, same_keys, compare_stamps, relation_loop, relation_of, relation,
}

-- The comparison of two vectors, shard by shard.
unfoldable paired :
    Map ShardId ShardReadStamp → Map ShardId ShardReadStamp → Bool × Bool → Outcome (Bool × Bool)
paired [] m saw = ok saw
paired (e ∷ l) [] saw = ok saw
paired ((i, s) ∷ l) ((j, t) ∷ m) saw = compare_stamps s t saw >>= paired l m

All-intro : {A : Type 0} (P : A → Type 0) (xs : List A) → ((x : A) → In x xs → P x) → All P xs
All-intro P [] f = tt
All-intro P (x ∷ xs) f = (f x (inl refl), All-intro P xs (λ y i. f y (inr i)))

relation_loop-paired :
    (l m other : Map ShardId ShardReadStamp) (saw : Bool × Bool)
    → same_keys l m ≡ true
    → All (λ (e : ShardId × ShardReadStamp). find nat_order e.0 other ≡ some e.1) m
    → relation_loop l other saw ≡ paired l m saw
unfolding relation_loop paired same_keys
relation_loop-paired [] m other saw same a = refl
relation_loop-paired ((i, s) ∷ l) [] other saw same a = absurd (ground (arith, same))
relation_loop-paired ((i, s) ∷ l) ((j, t) ∷ m) other saw same a =
    let key : i ≡ j = ground (arith, same) in
    let there : find nat_order i other ≡ some t = ap (λ k. find nat_order k other) key ∙ a.0 in
    let rest =
      λ (now : Bool × Bool). relation_loop-paired l m other now (ground (arith, same)) a.1 in
    elim (Result-cases (compare_stamps s t saw)) [
      | inl (now, fine) ↦ rw (there, fine) (rest now)
      | inr (e, fails) ↦ rw (there, fails) refl
    ]

-- What the other side sees.
abbrev swap : Bool × Bool → Bool × Bool
swap (less, greater) = (greater, less)

abbrev swapped : Outcome (Bool × Bool) → Outcome (Bool × Bool)
swapped (ok saw) = ok (swap saw)
swapped (err e) = err e

bytes_eq-sym : (a b : Bytes) → bytes_eq a b ≡ bytes_eq b a
bytes_eq-sym a b = elim (Bool-cases (bytes_eq a b)) [
  | inl same ↦ let is = eq_of_bytes_eq a b same in same ∙ sym (ap (bytes_eq b) is ∙ bytes_eq_refl b)
  | inr differs ↦ elim (Bool-cases (bytes_eq b a)) [
    | inl same ↦
        let is = eq_of_bytes_eq b a same in
        absurd (ground (arith, differs, ap (bytes_eq a) is, bytes_eq_refl a))
    | inr other ↦ differs ∙ sym other
  ]
]

compare_stamps-swap :
    (s t : ShardReadStamp) (saw : Bool × Bool)
    → compare_stamps t s (swap saw) ≡ swapped (compare_stamps s t saw)
unfolding compare_stamps
compare_stamps-swap s t (less, greater) = ground (arith, bytes_eq-sym s.state_digest t.state_digest)

same_keys-sym : (l m : Map ShardId ShardReadStamp) → same_keys l m ≡ same_keys m l
unfolding same_keys
same_keys-sym [] [] = refl
same_keys-sym [] (e ∷ m) = refl
same_keys-sym (e ∷ l) [] = refl
same_keys-sym ((i, s) ∷ l) ((j, t) ∷ m) = ground (arith, same_keys-sym l m)

paired-swap :
    (l m : Map ShardId ShardReadStamp) (saw : Bool × Bool)
    → same_keys l m ≡ true
    → paired m l (swap saw) ≡ swapped (paired l m saw)
unfolding paired same_keys
paired-swap [] [] saw same = refl
paired-swap [] (e ∷ m) saw same = absurd (ground (arith, same))
paired-swap (e ∷ l) [] saw same = absurd (ground (arith, same))
paired-swap ((i, s) ∷ l) ((j, t) ∷ m) saw same = elim (Result-cases (compare_stamps s t saw)) [
  | inl (now, fine) ↦
      rw (compare_stamps-swap s t saw, fine) (paired-swap l m now (ground (arith, same)))
  | inr (e, fails) ↦ rw (compare_stamps-swap s t saw, fails) refl
]

-- Every entry of a map in ascending order is found in it.
loop-paired :
    (l m : Map ShardId ShardReadStamp) (saw : Bool × Bool)
    → IsAscending nat_order m
    → same_keys l m ≡ true
    → relation_loop l m saw ≡ paired l m saw
loop-paired l m saw ascends same = relation_loop-paired l m m saw same (
    All-intro (λ (e : ShardId × ShardReadStamp). find nat_order e.0 m ≡ some e.1) m
      (λ e i. In-find nat_order e.0 e.1 m ascends i))

abbrev pub flip : VectorRelation → VectorRelation
flip equal = equal
flip dominates = dominated
flip dominated = dominates
flip concurrent = concurrent

abbrev pub flipped : Outcome VectorRelation → Outcome VectorRelation
flipped (ok r) = ok (flip r)
flipped (err e) = err e

flip-relation_of : (saw : Bool × Bool) → relation_of (swap saw) ≡ flip (relation_of saw)
flip-relation_of (false, false) = refl
flip-relation_of (false, true) = refl
flip-relation_of (true, false) = refl
flip-relation_of (true, true) = refl

bind-swapped :
    (o : Outcome (Bool × Bool))
    → Path
        (Outcome VectorRelation)
        (swapped o >>= λ saw. ok (relation_of saw))
        (flipped (o >>= λ saw. ok (relation_of saw)))
bind-swapped (ok saw) = ap (λ r. ok r) (flip-relation_of saw)
bind-swapped (err e) = refl

-- Two valid vectors compare the other way round with the converse relation: `dominates` for
-- `dominated`, and the same failure where the comparison fails. The shards are in order of their keys.
pub relation-flip :
    (v w : SnapshotVector)
    → validate_vector v ≡ ok tt
    → validate_vector w ≡ ok tt
    → IsAscending nat_order v.shards
    → IsAscending nat_order w.shards
    → relation w v ≡ flipped (relation v w)
unfolding relation
relation-flip v w valid fine here there = elim (Bool-cases (bytes_eq v.scope w.scope)) [
  | inl scope ↦ elim (Bool-cases (same_keys v.shards w.shards)) [
    | inl same ↦
        let back : same_keys w.shards v.shards ≡ true = same_keys-sym w.shards v.shards ∙ same in
        let left = loop-paired v.shards w.shards (false, false) there same in
        let right =
          loop-paired w.shards v.shards (false, false) here back
          ∙ paired-swap v.shards w.shards (false, false) same in
        let scope' : bytes_eq w.scope v.scope ≡ true = bytes_eq-sym w.scope v.scope ∙ scope in
        rw (valid, fine, scope, scope', same, back, left, right)
          (bind-swapped (paired v.shards w.shards (false, false)))
    | inr differ ↦ ground (
      arith,
      valid,
      fine,
      scope,
      differ,
      same_keys-sym w.shards v.shards,
      bytes_eq-sym w.scope v.scope,
    )
  ]
  | inr apart ↦ ground (arith, valid, fine, apart, bytes_eq-sym w.scope v.scope)
]

compare_stamps-equal :
    (s t : ShardReadStamp) (saw : Bool × Bool)
    → compare_stamps s t saw ≡ ok (false, false)
    → (saw ≡ (false, false)) × (s ≡ t)
unfolding compare_stamps
compare_stamps-equal s t (less, greater) e =
    let epoch : s.placement_epoch ≡ t.placement_epoch = ground (arith, e) in
    let cursor : s.commit_index ≡ t.commit_index = ground (arith, e, epoch) in
    let digests : bytes_eq s.state_digest t.state_digest ≡ true =
      ground (arith, e, epoch, cursor) in
    let term : s.term ≡ t.term = ground (arith, e, epoch, cursor, digests) in
    let seen : Path (Bool × Bool) (less, greater) (false, false) =
      ground (arith, e, epoch, cursor, digests, term) in
    let digest = eq_of_bytes_eq s.state_digest t.state_digest digests in
    (
      seen,
      λ k. record {
        term = term k;
        commit_index = cursor k;
        placement_epoch = epoch k;
        state_digest = digest k;
      },
    )

paired-equal :
    (l m : Map ShardId ShardReadStamp) (saw : Bool × Bool)
    → same_keys l m ≡ true
    → paired l m saw ≡ ok (false, false)
    → (saw ≡ (false, false)) × (l ≡ m)
unfolding paired same_keys
paired-equal [] [] saw same e = (ground (arith, e), refl)
paired-equal [] (e ∷ m) saw same is = absurd (ground (arith, same))
paired-equal (e ∷ l) [] saw same is = absurd (ground (arith, same))
paired-equal ((i, s) ∷ l) ((j, t) ∷ m) saw same e = elim (Result-cases (compare_stamps s t saw)) [
  | inl (now, fine) ↦
      let key : i ≡ j = ground (arith, same) in
      let (unseen, rest) = paired-equal l m now (ground (arith, same)) (ground (arith, fine, e)) in
      let (first, stamp) = compare_stamps-equal s t saw (fine ∙ ap (λ x. ok x) unseen) in
      (first, λ k. (key k, stamp k) ∷ rest k)
  | inr (b, fails) ↦ absurd (ground (arith, fails, e))
]

relation_of-equal : (saw : Bool × Bool) → relation_of saw ≡ equal → saw ≡ (false, false)
relation_of-equal (less, greater) e = ground (arith, e)

-- Two vectors that compare as equal have the same stamp for every shard. The shards are in order of
-- their keys.
relation-equal :
    (v w : SnapshotVector)
    → IsAscending nat_order w.shards
    → relation v w ≡ ok equal
    → v.shards ≡ w.shards
unfolding relation
relation-equal v w ascends e =
    let valid : validate_vector v ≡ ok tt = ground (arith, e) in
    let fine : validate_vector w ≡ ok tt = ground (arith, e, valid) in
    let same : same_keys v.shards w.shards ≡ true = ground (arith, e, valid, fine) in
    let loop = loop-paired v.shards w.shards (false, false) ascends same in
    elim (Result-cases (relation_loop v.shards w.shards (false, false))) [
      | inl (saw, done) ↦
          let is : relation_of saw ≡ equal = ground (arith, e, valid, fine, same, done) in
          (paired-equal v.shards w.shards (false, false) same
            (sym loop ∙ done ∙ ap (λ x. ok x) (relation_of-equal saw is))).1
      | inr (b, fails) ↦ absurd (ground (arith, e, valid, fine, same, fails))
    ]
