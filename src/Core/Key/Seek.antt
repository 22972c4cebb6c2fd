-- ===== src/Core/Key/Seek.antt =====
-- key.rs: the scan of an as-of query, from `seek_key` to the end of the version prefix.
use vyrm.Prelude.{
  ℕ, ◌≤◌, ◌<◌, ◌≡◌, refl, ap, ◌∙◌, Bool, true, false, ◌&&◌, not, [], ◌∷◌, ◌++◌, leb, All-append,
  bytes_eq, eq_of_bytes_eq, lex_lt, lex_lt-append, arith, Bool-cases, inl, inr, lex_lt-nil,
}
use mathlib.Core.Path.{subst₂}
use mathlib.Core.List.{append_assoc}
use vyrm.Core.Error.{Bytes}
use vyrm.Core.Ident.{sep, contains, Ident, Subject, Predicate, IsIdent, is_utf8-All}
use vyrm.Core.Key.{
  u64_max, inv_width, invert, decimal, version_prefix, valid_from_bound, claim_key, seek_key,
  subject_prefix, prefix_end,
}
use vyrm.Core.Key.Order.{stamps, claim_key-stamps, lex_lt-inverted}
use vyrm.Core.Key.Decimal.{decimal-All}
use vyrm.Core.Key.Prefix.{IsBytes, starts_with, below, prefix_end_range}

-- `rows.range(from..end)` for the end that `prefix_end` gives.
abbrev pub in_range : Bytes → Bytes → Bytes → Bool
in_range from prefix k = not (lex_lt k from) && below k (prefix_end prefix)

lex_lt-extend : (k p z : Bytes) → lex_lt k p ≡ true → lex_lt k (p ++ z) ≡ true
unfolding lex_lt
lex_lt-extend [] [] z h = absurd (ground arith)
lex_lt-extend [] (y ∷ p) z h = refl
lex_lt-extend (x ∷ k) [] z h = absurd (ground arith)
lex_lt-extend (x ∷ k) (y ∷ p) z h = ground (arith, lex_lt-extend k p z)

starts_with-append : (p a b : Bytes) → starts_with (p ++ a) (p ++ b) ≡ starts_with a b
unfolding starts_with
starts_with-append [] a b = refl
starts_with-append (x ∷ p) a b = ground (arith, starts_with-append p a b)

starts_with-nil : (k : Bytes) → starts_with [] k ≡ true
unfolding starts_with
starts_with-nil k = refl

-- A field that ends in the separator is met whole or not at all.
starts_with-field :
    (a b x y : Bytes)
    → contains a sep ≡ false
    → contains b sep ≡ false
    → starts_with (a ++ sep ∷ x) (b ++ sep ∷ y) ≡ (bytes_eq a b && starts_with x y)
unfolding starts_with contains bytes_eq
starts_with-field [] [] x y ha hb = ground arith
starts_with-field [] (d ∷ b) x y ha hb = ground arith
starts_with-field (c ∷ a) [] x y ha hb = ground arith
starts_with-field (c ∷ a) (d ∷ b) x y ha hb = ground (arith, starts_with-field a b x y)

version_prefix-IsBytes :
    (s : Subject) (p : Predicate) → IsIdent s → IsIdent p → IsBytes (version_prefix s p)
unfolding version_prefix
version_prefix-IsBytes s p hs hp =
    let last : IsBytes (sep ∷ []) = (omega arith, tt) in
    let tail = All-append (λ b. b < 256) p.text (sep ∷ []) (is_utf8-All p.text hp.utf8) last in
    let body =
      All-append (λ b. b < 256) s.text (sep ∷ (p.text ++ sep ∷ [])) (is_utf8-All s.text hs.utf8)
        (omega arith, tail) in
    (omega arith, (omega arith, body))

subject_prefix-IsBytes : (s : Subject) → IsIdent s → IsBytes (subject_prefix s)
unfolding subject_prefix
subject_prefix-IsBytes s hs =
    let last : IsBytes (sep ∷ []) = (omega arith, tt) in
    (
      omega arith,
      (omega arith, All-append (λ b. b < 256) s.text (sep ∷ []) (is_utf8-All s.text hs.utf8) last),
    )

starts_with-subject_prefix :
    (s s' : Subject) (p' : Predicate) (rest : Bytes)
    → IsIdent s
    → IsIdent s'
    → starts_with (subject_prefix s) (version_prefix s' p' ++ rest) ≡ bytes_eq s.text s'.text
unfolding subject_prefix version_prefix starts_with
starts_with-subject_prefix s s' p' rest hs hs' = simp append_assoc (
    starts_with-field s.text s'.text [] (p'.text ++ sep ∷ rest) hs.no_sep hs'.no_sep ∙ ground arith)

claim_key-IsBytes :
    (s : Subject) (p : Predicate) (from tx : ℕ)
    → IsIdent s
    → IsIdent p
    → IsBytes (claim_key s p from tx)
claim_key-IsBytes s p from tx hs hp = rw claim_key-stamps (
    All-append (λ b. b < 256) (version_prefix s p) (stamps from tx)
      (version_prefix-IsBytes s p hs hp)
      (All-append (λ b. b < 256) (decimal inv_width (invert from))
        (sep ∷ decimal inv_width (invert tx)) (decimal-All 20 (invert from))
        (omega arith, decimal-All 20 (invert tx))))

module _ {s s' : Subject} {p p' : Predicate} (hs : IsIdent s) (hs' : IsIdent s') (hp : IsIdent p)
    (hp' : IsIdent p') where
  starts_with-version_prefix :
      (rest : Bytes)
      → starts_with (version_prefix s p) (version_prefix s' p' ++ rest)
        ≡ (bytes_eq s.text s'.text && bytes_eq p.text p'.text)
  unfolding version_prefix starts_with
  starts_with-version_prefix rest = simp append_assoc (
      starts_with-field s.text s'.text (p.text ++ sep ∷ []) (p'.text ++ sep ∷ rest) hs.no_sep
        hs'.no_sep
      ∙ ap (λ b. bytes_eq s.text s'.text && b)
          (starts_with-field p.text p'.text [] rest hp.no_sep hp'.no_sep ∙ ground arith))

  -- A key has the version prefix exactly if it is a key of that subject and predicate.
  pub prefix_range :
      (from tx : ℕ)
      → in_range (version_prefix s p) (version_prefix s p) (claim_key s' p' from tx)
        ≡ (bytes_eq s.text s'.text && bytes_eq p.text p'.text)
  prefix_range from tx =
      prefix_end_range (version_prefix s p) (claim_key s' p' from tx)
        (version_prefix-IsBytes s p hs hp) (claim_key-IsBytes s' p' from tx hs' hp')
      ∙ rw claim_key-stamps (starts_with-version_prefix (stamps from tx))

-- The scan of a subject meets exactly the keys of that subject.
pub subject_range :
    (s s' : Subject) (p' : Predicate) (from tx : ℕ)
    → IsIdent s
    → IsIdent s'
    → IsIdent p'
    → in_range (subject_prefix s) (subject_prefix s) (claim_key s' p' from tx)
      ≡ bytes_eq s.text s'.text
subject_range s s' p' from tx hs hs' hp' =
    prefix_end_range (subject_prefix s) (claim_key s' p' from tx) (subject_prefix-IsBytes s hs)
      (claim_key-IsBytes s' p' from tx hs' hp')
    ∙ rw claim_key-stamps (starts_with-subject_prefix s s' p' (stamps from tx) hs hs')

-- Of the keys that share the version prefix, those at or above the seek key start at or before it.
seek_same :
    (s : Subject) (p : Predicate) (as_of from tx : ℕ)
    → as_of ≤ u64_max
    → from ≤ u64_max
    → not (lex_lt (claim_key s p from tx) (seek_key s p as_of)) ≡ leb from as_of
unfolding seek_key valid_from_bound
seek_same s p as_of from tx ht hf =
    simp (claim_key-stamps, append_assoc)
      (rw lex_lt-append (
        rw (lex_lt-inverted from as_of (sep ∷ decimal inv_width (invert tx)) (sep ∷ []) hf ht) (
          ground (
            arith,
            lex_lt-append (sep ∷ []) (decimal inv_width (invert tx)) [],
            lex_lt-nil (decimal inv_width (invert tx)),
          ))))

ident_eq : (i j : Ident) → bytes_eq i.text j.text ≡ true → i ≡ j
ident_eq i j h = λ t. record { text = eq_of_bytes_eq i.text j.text h t }

lex_lt-seek_key :
    (s : Subject) (p : Predicate) (as_of : ℕ) (k : Bytes)
    → lex_lt k (version_prefix s p) ≡ true
    → lex_lt k (seek_key s p as_of) ≡ true
unfolding seek_key valid_from_bound
lex_lt-seek_key s p as_of k h = rw append_assoc (lex_lt-extend k (version_prefix s p) _ h)

-- For identifiers that their constructors accept and `u64` instants, the scan of an as-of query
-- meets the key of a claim exactly when the claim has the subject and the predicate of the query and
-- starts at or before the instant: no neighbour leaks in, and no version is passed over.
pub seek_range :
    (s s' : Subject) (p p' : Predicate) (as_of from tx : ℕ)
    → IsIdent s
    → IsIdent s'
    → IsIdent p
    → IsIdent p'
    → as_of ≤ u64_max
    → from ≤ u64_max
    → tx ≤ u64_max
    → in_range (seek_key s p as_of) (version_prefix s p) (claim_key s' p' from tx)
      ≡ (bytes_eq s.text s'.text && bytes_eq p.text p'.text && leb from as_of)
seek_range s s' p p' as_of from tx hs hs' hp hp' ht hf hx =
    let k = claim_key s' p' from tx in
    let range = prefix_range hs hs' hp hp' from tx in
    elim (Bool-cases (bytes_eq s.text s'.text && bytes_eq p.text p'.text)) [
      | inl same ↦
          let es : s ≡ s' = ident_eq s s' (ground arith) in
          let ep : p ≡ p' = ident_eq p p' (ground arith) in
          let at : not (lex_lt k (seek_key s p as_of)) ≡ leb from as_of =
            subst₂
              (λ q r. not (lex_lt (claim_key q r from tx) (seek_key s p as_of)) ≡ leb from as_of) es
              ep (seek_same s p as_of from tx ht hf) in
          ground (arith, same, range, at)
      | inr other ↦ ground (arith, other, range, lex_lt-seek_key s p as_of k)
    ]
