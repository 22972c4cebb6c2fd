-- ===== src/Core/Key/Order.antt =====
-- key.rs: the order of claim keys is newest first on both timelines.
use mathlib.Core.List.{append_assoc}
use vyrm.Prelude.{
  ℕ, ◌≤◌, ◌≡◌, sym, ap, ◌∙◌, ◌&&◌, ◌||◌, [], ◌∷◌, ◌++◌, ltb, ◌==◌, lex_lt, lex_lt-append,
  lex_lt-field, bytes_eq, arith,
}
use vyrm.Core.Error.{Bytes}
use vyrm.Core.Ident.{sep, Subject, Predicate}
use vyrm.Core.Key.{u64_max, inv_width, invert, decimal, version_prefix, valid_from_bound, claim_key}
use vyrm.Core.Key.Decimal.{length-decimal, lex_lt-decimal, bytes_eq-decimal}

-- The two timestamp fields, as they stand behind the version prefix.
abbrev pub stamps : ℕ → ℕ → Bytes
stamps valid_from tx_time =
    decimal inv_width (invert valid_from) ++ sep ∷ decimal inv_width (invert tx_time)

pub claim_key-stamps :
    (s : Subject) (p : Predicate) (valid_from tx_time : ℕ)
    → claim_key s p valid_from tx_time ≡ version_prefix s p ++ stamps valid_from tx_time
unfolding claim_key valid_from_bound
claim_key-stamps s p valid_from tx_time = simp append_assoc

-- Two `u64` fields written inverted are in the opposite order of the numbers.
inverted_order :
    (a b : ℕ)
    → a ≤ u64_max
    → b ≤ u64_max
    → (lex_lt (decimal inv_width (invert a)) (decimal inv_width (invert b)) ≡ ltb b a)
      × (bytes_eq (decimal inv_width (invert a)) (decimal inv_width (invert b)) ≡ (b == a))
inverted_order a b ha hb = (
  lex_lt-decimal 20 (invert a) (invert b) (omega arith) (omega arith) ∙ ground arith,
  bytes_eq-decimal 20 (invert a) (invert b) (omega arith) (omega arith) ∙ ground arith,
)

-- Behind an inverted field, what follows decides only between equal timestamps.
pub lex_lt-inverted :
    (a b : ℕ) (xs ys : Bytes)
    → a ≤ u64_max
    → b ≤ u64_max
    → lex_lt (decimal inv_width (invert a) ++ xs) (decimal inv_width (invert b) ++ ys)
      ≡ (ltb b a || (b == a && lex_lt xs ys))
lex_lt-inverted a b xs ys ha hb =
    let (lt, eq) = inverted_order a b ha hb in
    lex_lt-field _ _ xs ys (length-decimal 20 (invert a) ∙ sym (length-decimal 20 (invert b)))
    ∙ rw (lt, eq)

-- Of two claims of one subject and predicate, with `u64` timestamps, the key of the first sorts
-- before that of the second exactly when its valid time is later, or is the same and its
-- transaction time is later.
pub lex_lt-claim_key :
    (s : Subject) (p : Predicate) (from tx from' tx' : ℕ)
    → from ≤ u64_max
    → tx ≤ u64_max
    → from' ≤ u64_max
    → tx' ≤ u64_max
    → lex_lt (claim_key s p from tx) (claim_key s p from' tx')
      ≡ (ltb from' from || (from' == from && ltb tx' tx))
lex_lt-claim_key s p from tx from' tx' hf ht hf' ht' = simp claim_key-stamps (
    lex_lt-append (version_prefix s p) (stamps from tx) (stamps from' tx')
    ∙ lex_lt-inverted from from' (sep ∷ decimal inv_width (invert tx))
        (sep ∷ decimal inv_width (invert tx')) hf hf'
    ∙ ap (λ b. ltb from' from || (from' == from && b))
        (lex_lt-append (sep ∷ []) (decimal inv_width (invert tx)) (decimal inv_width (invert tx'))
          ∙ (inverted_order tx tx' ht ht').0))
