-- ===== src/Core/Key/RoundTrip.antt =====
-- key.rs: what each key encodes is what its decoder returns.
use mathlib.Core.List.{append_assoc}
use vyrm.Prelude.{
  ℕ, zero, suc, ◌-◌, ◌≤◌, ◌≡◌, refl, [], ◌∷◌, ◌++◌, some, length, length-append, drop, get_elem?,
  take-append, drop-append, arith, ok, ◌>>=◌, le→ltb,
}
use vyrm.Core.Error.{Bytes}
use vyrm.Core.Ident.{sep, Subject, Predicate, Reader, IsIdent, new_of_IsIdent}
use vyrm.Core.Key.{
  u64_max, inv_width, invert, decimal, tail_width, version_prefix, claim_key, access_key,
  sequence_key, splitn, parse_access_key, parse_claim_key, strip_claim_ns, sequence_of,
  timestamps_of, stamps_of_tail, parse_inverted,
}
use vyrm.Core.Key.Decimal.{length-decimal, parse_u64-decimal}
use vyrm.Core.Key.Order.{stamps, claim_key-stamps}
use vyrm.Core.Key.Fields.{
  split_once-field, contains-decimal, is_utf8-decimal, parse_inverted-decimal,
}

-- The key of every `u64` sequence number is decoded to that number.
pub sequence_of-sequence_key : (n : ℕ) → n ≤ u64_max → sequence_of (sequence_key n) ≡ ok n
unfolding sequence_of sequence_key
sequence_of-sequence_key n h =
    ground (arith, length-decimal 20 n, is_utf8-decimal 20 n, parse_u64-decimal n h)

-- From a claim key, for identifiers that their constructors accept, the decoder returns the subject
-- and the predicate.
pub parse_claim_key-claim_key :
    (s : Subject) (p : Predicate) (from tx : ℕ)
    → IsIdent s
    → IsIdent p
    → parse_claim_key (claim_key s p from tx) ≡ ok (s, p)
unfolding parse_claim_key strip_claim_ns version_prefix splitn
parse_claim_key-claim_key s p from tx hs hp =
    simp (claim_key-stamps, append_assoc)
      (ground (
        arith,
        split_once-field s.text (p.text ++ sep ∷ stamps from tx) hs.no_sep,
        split_once-field p.text (stamps from tx) hp.no_sep,
        hs.utf8,
        hp.utf8,
        new_of_IsIdent "subject" s hs,
        new_of_IsIdent "predicate" p hp,
      ))

length-stamps : (from tx : ℕ) → length (stamps from tx) ≡ tail_width
length-stamps from tx = omega (
  arith,
  length-append (decimal 20 (invert from)) (sep ∷ decimal 20 (invert tx)),
  length-decimal 20 (invert from),
  length-decimal 20 (invert tx),
)

drop-tail : (v t : Bytes) → length t ≡ tail_width → drop (length (v ++ t) - tail_width) (v ++ t) ≡ t
drop-tail v t h =
    let e : length (v ++ t) - tail_width ≡ length v = omega (arith, length-append v t) in
    rw e (drop-append (length v) v t refl)

get_elem?-field :
    (n : ℕ) (d : Bytes) (b : ℕ) (y : Bytes) → length d ≡ n → get_elem? (d ++ b ∷ y) n ≡ some b
get_elem?-field zero [] b y h = refl
get_elem?-field (suc n) (c ∷ d) b y h = get_elem?-field n d b y (omega arith)
get_elem?-field zero (c ∷ d) b y h = absurd (omega arith)
get_elem?-field (suc n) [] b y h = absurd (omega arith)

drop-field : (n : ℕ) (d : Bytes) (b : ℕ) (y : Bytes) → length d ≡ n → drop (suc n) (d ++ b ∷ y) ≡ y
drop-field zero [] b y h = refl
drop-field (suc n) (c ∷ d) b y h = drop-field n d b y (omega arith)
drop-field zero (c ∷ d) b y h = absurd (omega arith)
drop-field (suc n) [] b y h = absurd (omega arith)

stamps_of_tail-fields :
    (d e : Bytes)
    → length d ≡ inv_width
    → stamps_of_tail (d ++ sep ∷ e)
      ≡ (do from ← parse_inverted d; tx ← parse_inverted e; ok (from, tx))
unfolding stamps_of_tail
stamps_of_tail-fields d e h =
    rw (get_elem?-field inv_width d sep e h, stamps_of_tail)
      (rw (take-append inv_width d (sep ∷ e) h, drop-field inv_width d sep e h))

-- From a claim key with `u64` timestamps the decoder returns both of them.
pub timestamps_of-claim_key :
    (s : Subject) (p : Predicate) (from tx : ℕ)
    → from ≤ u64_max
    → tx ≤ u64_max
    → timestamps_of (claim_key s p from tx) ≡ ok (from, tx)
unfolding timestamps_of
timestamps_of-claim_key s p from tx hf ht =
    let v = version_prefix s p in
    let t = stamps from tx in
    let long : tail_width ≤ length (v ++ t) =
      omega (arith, length-append v t, length-stamps from tx) in
    rw claim_key-stamps (
      rw (le→ltb (length (v ++ t)) tail_width long, drop-tail v t (length-stamps from tx))
        (rw (
          stamps_of_tail-fields _ (decimal inv_width (invert tx)) (length-decimal 20 (invert from)),
          parse_inverted-decimal from hf,
          parse_inverted-decimal tx ht,
        )))

-- From an access key with a `u64` instant the decoder returns the instant, the reader, the subject
-- and the predicate, for identifiers that their constructors accept.
pub parse_access_key-access_key :
    (at : ℕ) (r : Reader) (s : Subject) (p : Predicate)
    → at ≤ u64_max
    → IsIdent r
    → IsIdent s
    → IsIdent p
    → parse_access_key (access_key at r s p) ≡ ok (at, r, s, p)
unfolding parse_access_key access_key splitn
parse_access_key-access_key at r s p ha hr hs hp = ground (
  arith,
  split_once-field (decimal 20 at) (r.text ++ sep ∷ (s.text ++ sep ∷ p.text))
      (contains-decimal 20 at),
  split_once-field r.text (s.text ++ sep ∷ p.text) hr.no_sep,
  split_once-field s.text p.text hs.no_sep,
  is_utf8-decimal 20 at,
  parse_u64-decimal at ha,
  hr.utf8,
  hs.utf8,
  hp.utf8,
  new_of_IsIdent "reader" r hr,
  new_of_IsIdent "subject" s hs,
  new_of_IsIdent "predicate" p hp,
)
