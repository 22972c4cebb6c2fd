-- ===== src/Prelude/Maps.antt =====
-- `BTreeMap` and `BTreeSet`: entries in ascending order of their keys, under any total order.
use mathlib.Core.Path.{◌≡◌, refl, sym, ap, ◌∙◌, subst}
use mathlib.Core.Logic.{◌⊎◌, ◌≢◌, inl, inr}
use mathlib.Core.Bool.{Bool, true, false}
use mathlib.Core.Option.{Option, none, some}
use mathlib.Core.List.{List, [], ◌∷◌, ◌++◌}
use Prim.Native.Nat.{◌≤◌}
use native.Mathlib.Omega.{arith}
use vyrm.Prelude.Tests.{if◌then◌else◌, Bool-cases, Option-cases}
use vyrm.Prelude.Lists.{length, All, In, All-In}

-- `Ord` of a key type.
pub record KeyOrder (K : Type 0) : Type 0 where
  pub lt : K → K → Bool
  pub irrefl : (a : K) → lt a a ≡ false
  pub trans : (a b c : K) → lt a b ≡ true → lt b c ≡ true → lt a c ≡ true
  pub total : (a b : K) → lt a b ≡ false → lt b a ≡ false → a ≡ b

abbrev pub Map : Type 0 → Type 0 → Type 0
Map K V = List (K × V)

lt_asym : {K : Type 0} (o : KeyOrder K) (j k : K) → o.lt j k ≡ true → o.lt k j ≡ false
lt_asym o j k h = elim (Bool-cases (o.lt k j)) [
  | inl back ↦ absurd (ground (arith, o.trans j k j h back, o.irrefl j))
  | inr kept ↦ kept
]

-- Two keys are one, or not.
pub key-cases : {K : Type 0} (o : KeyOrder K) (j k : K) → (j ≡ k) ⊎ (j ≢ k)
key-cases o j k = elim (Bool-cases (o.lt j k)) [
  | inl less ↦ inr (λ e. ground (arith, less, ap (λ t. o.lt t k) e, o.irrefl k))
  | inr here ↦ elim (Bool-cases (o.lt k j)) [
    | inl more ↦ inr (λ e. ground (arith, more, ap (o.lt k) e, o.irrefl k))
    | inr equal ↦ inl (o.total j k here equal)
  ]
]

module _ {K V : Type 0} (o : KeyOrder K) where
  -- `get`, which stops at the first key that is not below the one it looks for.
  unfoldable pub find : K → Map K V → Option V
  find k [] = none
  find k ((j, v) ∷ m) = if o.lt k j then none else if o.lt j k then find k m else some v

  unfoldable pub contains_key : K → Map K V → Bool
  contains_key k m = elim (find k m) [ none ↦ false | some v ↦ true ]

  -- `insert`, in order, replacing the value of a key that is there.
  unfoldable pub put : K → V → Map K V → Map K V
  put k v [] = (k, v) ∷ []
  put k v ((j, w) ∷ m) =
      if o.lt k j then (k, v) ∷ (j, w) ∷ m else if o.lt j k then (j, w) ∷ put k v m else (j, v) ∷ m

  unfoldable pub remove : K → Map K V → Map K V
  remove k [] = []
  remove k ((j, w) ∷ m) =
      let rest = remove k m in
      if o.lt k j then (j, w) ∷ m else if o.lt j k then (j, w) ∷ rest else m

  -- What holds of an entry and of a new one holds after the insertion.
  pub put-All :
      (P : K × V → Type 0) (k : K) (v : V) (m : Map K V) → All P m → P (k, v) → All P (put k v m)
  unfolding put
  put-All P k v [] a p = (p, tt)
  put-All P k v ((j, w) ∷ m) a p = elim (Bool-cases (o.lt k j)) [
    | inl before ↦ rw before (p, a)
    | inr here ↦ elim (Bool-cases (o.lt j k)) [
      | inl after ↦ rw (here, after) (a.0, put-All P k v m a.1 p)
      | inr equal ↦ rw (here, equal) (subst (λ i. P (i, v)) (o.total k j here equal) p, a.1)
    ]
  ]

  pub find-put_self : (k : K) (v : V) (m : Map K V) → find k (put k v m) ≡ some v
  unfolding find put
  find-put_self k v [] = ground (arith, o.irrefl k)
  find-put_self k v ((j, w) ∷ m) = elim (Bool-cases (o.lt k j)) [
    | inl before ↦ ground (arith, before, o.irrefl k)
    | inr here ↦ elim (Bool-cases (o.lt j k)) [
      | inl after ↦ ground (arith, here, after, find-put_self k v m)
      | inr equal ↦ ground (arith, here, equal)
    ]
  ]

  -- Under every other key, an insertion changes nothing.
  pub find-put_other : (j k : K) (v : V) (m : Map K V) → j ≢ k → find j (put k v m) ≡ find j m
  unfolding find put
  find-put_other j k v [] h = elim (Bool-cases (o.lt j k)) [
    | inl less ↦ ground (arith, less)
    | inr here ↦ elim (Bool-cases (o.lt k j)) [
      | inl more ↦ ground (arith, here, more)
      | inr equal ↦ absurd (h (o.total j k here equal))
    ]
  ]
  find-put_other j k v ((i, w) ∷ m) h = elim (Bool-cases (o.lt k i)) [
    | inl before ↦ elim (Bool-cases (o.lt j k)) [
      | inl less ↦ ground (arith, before, less, o.trans j k i less before)
      | inr here ↦ elim (Bool-cases (o.lt k j)) [
        | inl more ↦ ground (arith, before, here, more)
        | inr equal ↦ absurd (h (o.total j k here equal))
      ]
    ]
    | inr here ↦ elim (Bool-cases (o.lt i k)) [
      | inl after ↦ ground (arith, here, after, find-put_other j k v m h)
      | inr equal ↦ elim (Bool-cases (o.lt j i)) [
        | inl less ↦ ground (arith, here, equal, less)
        | inr other ↦ elim (Bool-cases (o.lt i j)) [
          | inl more ↦ ground (arith, here, equal, other, more)
          | inr same ↦ absurd (h (o.total j i other same ∙ sym (o.total k i here equal)))
        ]
      ]
    ]
  ]

  -- What is found is an entry.
  pub find-In : (k : K) (v : V) (m : Map K V) → find k m ≡ some v → In (k, v) m
  unfolding find
  find-In k v [] e = absurd (ground arith)
  find-In k v ((j, w) ∷ m) e = elim (Bool-cases (o.lt k j)) [
    | inl before ↦ absurd (ground (arith, before))
    | inr here ↦ elim (Bool-cases (o.lt j k)) [
      | inl after ↦ inr (find-In k v m (ground (arith, here, after)))
      | inr equal ↦
          let value : w ≡ v = ground (arith, here, equal) in
          inl (λ i. (o.total k j here equal i, sym value i))
    ]
  ]

  abbrev pub Above : K → Map K V → Type 0
  Above k = All (λ (e : K × V). o.lt k e.0 ≡ true)

  abbrev pub IsAscending : Map K V → Type 0
  IsAscending [] = Unit
  IsAscending (e ∷ m) = Above e.0 m × IsAscending m

  Above-trans : (j k : K) (m : Map K V) → o.lt j k ≡ true → Above k m → Above j m
  Above-trans j k [] h a = tt
  Above-trans j k (e ∷ m) h a = (o.trans j k e.0 h a.0, Above-trans j k m h a.1)

  pub put-IsAscending : (k : K) (v : V) (m : Map K V) → IsAscending m → IsAscending (put k v m)
  unfolding put
  put-IsAscending k v [] a = (tt, tt)
  put-IsAscending k v ((j, w) ∷ m) a = elim (Bool-cases (o.lt k j)) [
    | inl before ↦ rw before ((before, Above-trans k j m before a.0), a)
    | inr here ↦ elim (Bool-cases (o.lt j k)) [
      | inl after ↦
          rw (here, after)
            (put-All (λ e. o.lt j e.0 ≡ true) k v m a.0 after, put-IsAscending k v m a.1)
      | inr equal ↦ rw (here, equal) a
    ]
  ]

  -- In ascending order, every entry is found.
  pub In-find : (k : K) (v : V) (m : Map K V) → IsAscending m → In (k, v) m → find k m ≡ some v
  unfolding find
  In-find k v [] a i = elim i [ ]
  In-find k v ((j, w) ∷ m) a (inl e) =
      let key : k ≡ j = ap (λ (x : K × V). x.0) e in
      let value : v ≡ w = ap (λ (x : K × V). x.1) e in
      let before : o.lt k j ≡ false = ap (o.lt k) (sym key) ∙ o.irrefl k in
      let after : o.lt j k ≡ false = ap (λ i. o.lt i k) (sym key) ∙ o.irrefl k in
      ground (arith, before, after, value)
  In-find k v ((j, w) ∷ m) a (inr i) =
      let after : o.lt j k ≡ true = All-In (λ (e : K × V). o.lt j e.0 ≡ true) m a.0 i in
      ground (arith, after, lt_asym o j k after, In-find k v m a.1 i)

  -- An insertion above every key goes to the end.
  pub put-last :
      (k : K) (v : V) (m : Map K V)
      → All (λ (e : K × V). o.lt e.0 k ≡ true) m
      → put k v m ≡ m ++ (k, v) ∷ []
  unfolding put
  put-last k v [] a = refl
  put-last k v ((j, w) ∷ m) a = ground (arith, a.0, lt_asym o j k a.0, put-last k v m a.1)

  -- What is left of one set of keys after those of another.
  unfoldable pub missing : Map K V → Map K V → Option K
  missing [] m = none
  missing ((k, v) ∷ l) m = if contains_key k m then missing l m else some k

  contains_key-tail :
      (k j : K) (w : V) (m : Map K V)
      → o.lt j k ≡ true
      → contains_key k ((j, w) ∷ m) ≡ contains_key k m
  unfolding contains_key find
  contains_key-tail k j w m h = ground (arith, h, lt_asym o j k h)

  missing-tail :
      (l : Map K V) (j : K) (w : V) (m : Map K V) → Above j l → missing l ((j, w) ∷ m) ≡ missing l m
  unfolding missing
  missing-tail [] j w m a = refl
  missing-tail ((k, v) ∷ l) j w m a =
      ground (arith, contains_key-tail k j w m a.0, missing-tail l j w m a.1)

  -- A set whose every key is in another is no larger.
  pub missing-length : (l m : Map K V) → IsAscending l → missing l m ≡ none → length l ≤ length m
  missing-length [] m a h = omega arith
  missing-length ((k, v) ∷ l) [] a h = absurd (unfold missing contains_key find in ground arith)
  missing-length ((k, v) ∷ l) ((j, w) ∷ m) a h = elim (Bool-cases (o.lt k j)) [
    | inl before ↦ absurd (unfold missing contains_key find in ground (arith, before))
    | inr here ↦ elim (Bool-cases (o.lt j k)) [
      | inl after ↦
          let rest =
            missing-length ((k, v) ∷ l) m a
              (sym (missing-tail ((k, v) ∷ l) j w m (after, Above-trans j k l after a.0)) ∙ h) in
          omega (arith, rest)
      | inr equal ↦
          let same : k ≡ j = o.total k j here equal in
          let tail : missing l ((j, w) ∷ m) ≡ none =
            unfold missing contains_key find in ground (arith, here, equal, h) in
          let rest =
            missing-length l m a.1
              (sym (missing-tail l j w m (subst (λ i. Above i l) same a.0)) ∙ tail) in
          omega (arith, rest)
    ]
  ]

  pub missing-In :
      (l m : Map K V) (k : K) → missing l m ≡ some k → ((v : V) × In (k, v) l) × (find k m ≡ none)
  unfolding missing contains_key
  missing-In [] m k h = absurd (ground arith)
  missing-In ((j, v) ∷ l) m k h = elim (Option-cases (find j m)) [
    | inl gone ↦
        let same : j ≡ k = ground (arith, gone, h) in
        ((v, inl (λ i. (sym same i, v))), subst (λ i. find i m ≡ none) same gone)
    | inr (w, found) ↦
        let ((u, i), gone) = missing-In l m k (ground (arith, found, h)) in ((u, inr i), gone)
  ]

  -- A property of every entry is one of what is found.
  pub find-All :
      (P : K × V → Type 0) (k : K) (v : V) (m : Map K V) → All P m → find k m ≡ some v → P (k, v)
  find-All P k v m a e = All-In P m a (find-In k v m e)

  pub length-put : (k : K) (v : V) (m : Map K V) → length m ≤ length (put k v m)
  unfolding put
  length-put k v [] = omega arith
  length-put k v ((j, w) ∷ m) = ground (arith, length-put k v m)

  -- A key that is there is found, and stays there.
  pub find-contains_key :
      (k : K) (v : V) (m : Map K V) → find k m ≡ some v → contains_key k m ≡ true
  unfolding contains_key
  find-contains_key k v m e = ground (arith, e)

  pub find-absent : (k : K) (m : Map K V) → find k m ≡ none → contains_key k m ≡ true → ⊥
  unfolding contains_key
  find-absent k m e c = ground (arith, e)

  pub contains_key-put_self : (k : K) (v : V) (m : Map K V) → contains_key k (put k v m) ≡ true
  contains_key-put_self k v m = find-contains_key k v (put k v m) (find-put_self k v m)

  pub contains_key-put :
      (j k : K) (v : V) (m : Map K V) → contains_key j m ≡ true → contains_key j (put k v m) ≡ true
  contains_key-put j k v m c = elim (key-cases o j k) [
    | inl same ↦
        subst (λ i. contains_key i (put k v m) ≡ true) (sym same) (contains_key-put_self k v m)
    | inr differs ↦ unfold contains_key in ground (arith, c, find-put_other j k v m differs)
  ]

  -- Under the first key, under one below all keys, and under another than the first.
  pub find-first : (k : K) (v : V) (m : Map K V) → find k ((k, v) ∷ m) ≡ some v
  unfolding find
  find-first k v m = ground (arith, o.irrefl k)

  pub find-Above : (k : K) (m : Map K V) → Above k m → find k m ≡ none
  unfolding find
  find-Above k [] a = refl
  find-Above k ((j, v) ∷ m) a = ground (arith, a.0)

  pub find-later :
      (k j : K) (v : V) (m : Map K V)
      → IsAscending ((j, v) ∷ m)
      → k ≢ j
      → find k ((j, v) ∷ m) ≡ find k m
  find-later k j v m a differs = elim (Bool-cases (o.lt k j)) [
    | inl before ↦
        unfold find in ground (arith, before, find-Above k m (Above-trans k j m before a.0))
    | inr here ↦ elim (Bool-cases (o.lt j k)) [
      | inl after ↦ unfold find in ground (arith, here, after)
      | inr equal ↦ absurd (differs (o.total k j here equal))
    ]
  ]
