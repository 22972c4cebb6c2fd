-- ===== src/Kv/Memtable/Scans.antt =====
-- memtable.rs: a scan against the reads of single keys.
use mathlib.Core.Path.{subst}
use vyrm.Prelude.{
  ℕ, ◌≡◌, ◌↔◌, refl, sym, ap, ◌∙◌, true, false, List, [], ◌∷◌, Option, none, some, lex_lt, arith,
  Bool-cases, Option-cases, inl, inr, In, find, bytes_order, Above, IsAscending, find-In, In-find,
}
use vyrm.Core.Error.{Bytes}
use vyrm.Kv.Memtable.{
  VersionedValue, Versions, Memtable, entry_of, newest_at, and_then, get_version, get, within,
  cons_some, filter_map, map_option, scan_entry, scan, visible_entry, visible_versions,
}

pub entry_of-find : (k : Bytes) (m : Versions) → entry_of k m ≡ find bytes_order k m
unfolding entry_of find
entry_of-find k [] = refl
entry_of-find k ((j, vs) ∷ m) = ground (arith, entry_of-find k m)

-- A key from `start` on and below the end, where there is one.
abbrev pub Between : Bytes → Option Bytes → Bytes → Type 0
Between start none k = lex_lt k start ≡ false
Between start (some end) k = (lex_lt k start ≡ false) × (lex_lt k end ≡ true)

within_iff :
    (start : Bytes) (end : Option Bytes) (k : Bytes)
    → (within start end k ≡ true) ↔ Between start end k
within_iff start none k = ground arith
within_iff start (some end) k = ground arith

-- A selection that keeps the keys of the entries that it takes.
module _ {B : Type 0} (f : Bytes × List VersionedValue → Option (Bytes × B))
    (keeps : (j : Bytes) (vs : List VersionedValue) (k : Bytes) (b : B)
      → f (j, vs) ≡ some (k, b)
      → j ≡ k) where
  filter_map-Above :
      (i : Bytes) (m : Versions) → Above bytes_order i m → Above bytes_order i (filter_map f m)
  unfolding filter_map
  filter_map-Above i [] a = tt
  filter_map-Above i ((j, vs) ∷ m) a =
      let rest = filter_map-Above i m a.1 in
      elim (Option-cases (f (j, vs))) [
        | inl dropped ↦ rw dropped rest
        | inr ((k, b), taken) ↦
            rw taken (subst (λ x. lex_lt i x ≡ true) (keeps j vs k b taken) a.0, rest)
      ]

  filter_map-IsAscending :
      (m : Versions) → IsAscending bytes_order m → IsAscending bytes_order (filter_map f m)
  unfolding filter_map
  filter_map-IsAscending [] a = tt
  filter_map-IsAscending ((j, vs) ∷ m) a =
      let rest = filter_map-IsAscending m a.1 in
      elim (Option-cases (f (j, vs))) [
        | inl dropped ↦ rw dropped rest
        | inr ((k, b), taken) ↦ rw taken (
          subst (λ x. Above bytes_order x (filter_map f m)) (keeps j vs k b taken)
              (filter_map-Above j m a.0),
          rest,
        )
      ]

  filter_map-In :
      (k : Bytes) (b : B) (m : Versions)
      → In (k, b) (filter_map f m)
      → (vs : List VersionedValue) × In (k, vs) m × (f (k, vs) ≡ some (k, b))
  unfolding filter_map
  filter_map-In k b [] i = elim i [ ]
  filter_map-In k b ((j, vs) ∷ m) i = elim (Option-cases (f (j, vs))) [
    | inl dropped ↦
        let rest : In (k, b) (filter_map f m) =
          subst (λ o. In (k, b) (cons_some o (filter_map f m))) dropped i in
        let (ws, there, is) = filter_map-In k b m rest in (ws, inr there, is)
    | inr ((l, c), taken) ↦
        let here : In (k, b) ((l, c) ∷ filter_map f m) =
          subst (λ o. In (k, b) (cons_some o (filter_map f m))) taken i in
        elim here [
          | inl e ↦
              let key : k ≡ j = ap (λ (x : Bytes × B). x.0) e ∙ sym (keeps j vs l c taken) in
              (
                vs,
                inl (ap (λ x. (x, vs)) key),
                ap (λ x. f (x, vs)) key ∙ taken ∙ ap (λ x. some x) (sym e),
              )
          | inr rest ↦ let (ws, there, is) = filter_map-In k b m rest in (ws, inr there, is)
        ]
  ]

  In-filter_map :
      (k : Bytes) (b : B) (vs : List VersionedValue) (m : Versions)
      → In (k, vs) m
      → f (k, vs) ≡ some (k, b)
      → In (k, b) (filter_map f m)
  unfolding filter_map
  In-filter_map k b vs [] i is = elim i [ ]
  In-filter_map k b vs (e ∷ m) (inl here) is =
      let taken : f e ≡ some (k, b) = ap f (sym here) ∙ is in rw taken (inl refl)
  In-filter_map k b vs (e ∷ m) (inr i) is =
      let rest = In-filter_map k b vs m i is in
      elim (Option-cases (f e)) [
        | inl dropped ↦ rw dropped rest
        | inr (x, taken) ↦ rw taken (inr rest)
      ]

map_option-some :
    {A : Type 0} (j k : Bytes) (b : A) (o : Option A)
    → map_option {B = Bytes × A} (λ a. (j, a)) o ≡ some (k, b)
    → (j ≡ k) × (o ≡ some b)
map_option-some j k b none h = absurd (ground (arith, h))
map_option-some j k b (some a) h = (ground (arith, h), ground (arith, h))

scan_entry-some :
    (start : Bytes) (end : Option Bytes) (n : ℕ) (j : Bytes) (vs : List VersionedValue)
    (k b : Bytes)
    → scan_entry start end n (j, vs) ≡ some (k, b)
    → (within start end j ≡ true)
      × (j ≡ k)
      × (and_then (newest_at n vs) (λ (v : VersionedValue). v.value) ≡ some b)
scan_entry-some start end n j vs k b h = elim (Bool-cases (within start end j)) [
  | inl inside ↦
      let (same, value) = map_option-some j k b _ (rw inside at h) in (inside, same, value)
  | inr outside ↦ absurd (ground (arith, h, outside))
]

scan_entry-keeps :
    (start : Bytes) (end : Option Bytes) (n : ℕ) (j : Bytes) (vs : List VersionedValue)
    (k b : Bytes)
    → scan_entry start end n (j, vs) ≡ some (k, b)
    → j ≡ k
scan_entry-keeps start end n j vs k b h = (scan_entry-some start end n j vs k b h).1

visible_entry-keeps :
    (n : ℕ) (j : Bytes) (vs : List VersionedValue) (k : Bytes) (v : VersionedValue)
    → visible_entry n (j, vs) ≡ some (k, v)
    → j ≡ k
visible_entry-keeps n j vs k v h = (map_option-some j k v _ h).0

entry_found :
    (t : Memtable) (k : Bytes) (vs : List VersionedValue)
    → IsAscending bytes_order t.versions
    → In (k, vs) t.versions
    → entry_of k t.versions ≡ some vs
entry_found t k vs order i =
    entry_of-find k t.versions ∙ In-find bytes_order k vs t.versions order i

entry_there :
    (t : Memtable) (k : Bytes) (vs : List VersionedValue)
    → entry_of k t.versions ≡ some vs
    → In (k, vs) t.versions
entry_there t k vs found =
    find-In bytes_order k vs t.versions (sym (entry_of-find k t.versions) ∙ found)

scan-In :
    (t : Memtable) (start : Bytes) (end : Option Bytes) (n : ℕ) (k b : Bytes)
    → IsAscending bytes_order t.versions
    → In (k, b) (scan t start end n) ↔ (Between start end k × (get t k n ≡ some b))
unfolding scan get get_version
scan-In t start end n k b order = (
  λ i.
      let (vs, there, taken) =
        filter_map-In (scan_entry start end n) (scan_entry-keeps start end n) k b t.versions i in
      let (inside, _, value) = scan_entry-some start end n k vs k b taken in
      ((within_iff start end k).0 inside, rw (entry_found t k vs order there) value),
  λ (between, value). elim (Option-cases (entry_of k t.versions)) [
    | inl absent ↦ absurd (ground (arith, value, absent))
    | inr (vs, found) ↦
        let newest : and_then (newest_at n vs) (λ (v : VersionedValue). v.value) ≡ some b =
          rw found at value in
        In-filter_map (scan_entry start end n) (scan_entry-keeps start end n) k b vs t.versions
          (entry_there t k vs found) (rw ((within_iff start end k).1 between, newest) refl)
  ],
)

visible-In :
    (t : Memtable) (n : ℕ) (k : Bytes) (v : VersionedValue)
    → IsAscending bytes_order t.versions
    → In (k, v) (visible_versions t n) ↔ (get_version t k n ≡ some v)
unfolding visible_versions get_version
visible-In t n k v order = (
  λ i.
      let (vs, there, taken) =
        filter_map-In (visible_entry n) (visible_entry-keeps n) k v t.versions i in
      rw (entry_found t k vs order there) (map_option-some k k v _ taken).1,
  λ value. elim (Option-cases (entry_of k t.versions)) [
    | inl absent ↦ absurd (ground (arith, value, absent))
    | inr (vs, found) ↦
        let newest : newest_at n vs ≡ some v = rw found at value in
        In-filter_map (visible_entry n) (visible_entry-keeps n) k v vs t.versions
          (entry_there t k vs found) (rw newest refl)
  ],
)

-- In a table whose keys ascend strictly, a scan returns its keys in strictly ascending order, and
-- returns a key with a value exactly where the key lies in the range and `get` at the same sequence
-- number returns that value. The visible versions ascend strictly by key too, and are exactly what
-- `get_version` returns for any key.
pub scan-get :
    (t : Memtable) (start : Bytes) (end : Option Bytes) (n : ℕ)
    → IsAscending bytes_order t.versions
    → IsAscending bytes_order (scan t start end n)
      × ((k b : Bytes)
          → In (k, b) (scan t start end n) ↔ (Between start end k × (get t k n ≡ some b)))
      × IsAscending bytes_order (visible_versions t n)
      × ((k : Bytes) (v : VersionedValue)
          → In (k, v) (visible_versions t n) ↔ (get_version t k n ≡ some v))
unfolding scan visible_versions
scan-get t start end n order = (
  filter_map-IsAscending (scan_entry start end n) (scan_entry-keeps start end n) t.versions order,
  λ k b. scan-In t start end n k b order,
  filter_map-IsAscending (visible_entry n) (visible_entry-keeps n) t.versions order,
  λ k v. visible-In t n k v order,
)
