-- ===== src/Core/Key.antt =====
-- crates/vyrm-core/src/key.rs: the encoding of claims, access records and sequence entries as keys
-- of an ordered store. Keys are byte strings; a timestamp is a `u64`, a number below `2 ^ 64`.
mod Decimal
pub mod Order
pub mod Prefix
pub mod Fields
pub mod RoundTrip
pub mod Seek
unfoldable pub use Decimal.{u64_max, decimal, parse_u64}
use vyrm.Prelude.{
  ℕ, zero, suc, ◌+◌, ◌-◌, ◌*◌, Bool, true, false, ◌&&◌, ◌||◌, List, [], ◌∷◌, ◌++◌, Result, ok, err,
  ltb, leb, ◌==◌, if◌then◌else◌, Option, none, some, map, reverse, length, take, drop, get_elem?,
  ◌>>=◌, ◌>>◌, ok_or, fail_if, not,
}
use vyrm.Core.Error.{Bytes, Error, Outcome, malformed_key}
use vyrm.Core.Ident.{sep, Ident, Subject, Predicate, Reader, is_utf8}
use vyrm.Core.Ident

-- Namespace byte prefix for claim keys: `c/`.
abbrev pub claim_ns : Bytes
claim_ns = b'c' ∷ b'/' ∷ []

-- Width of the zero-padded timestamps.
abbrev pub inv_width : ℕ
inv_width = 20

abbrev pub invert : ℕ → ℕ
invert valid_from = u64_max - valid_from

unfoldable pub version_prefix : Subject → Predicate → Bytes
version_prefix s p = claim_ns ++ (s.text ++ sep ∷ (p.text ++ sep ∷ []))

unfoldable pub subject_prefix : Subject → Bytes
subject_prefix s = claim_ns ++ (s.text ++ sep ∷ [])

unfoldable pub valid_from_bound : Subject → Predicate → ℕ → Bytes
valid_from_bound s p valid_from =
    (version_prefix s p ++ decimal inv_width (invert valid_from)) ++ sep ∷ []

unfoldable pub claim_key : Subject → Predicate → ℕ → ℕ → Bytes
claim_key s p valid_from tx_time =
    valid_from_bound s p valid_from ++ decimal inv_width (invert tx_time)

unfoldable pub seek_key : Subject → Predicate → ℕ → Bytes
seek_key s p as_of = valid_from_bound s p as_of

-- The loop of `prefix_end`, over the bytes from the last to the first.
unfoldable pub prefix_end_loop : Bytes → Option Bytes
prefix_end_loop [] = none
prefix_end_loop (last ∷ rest) =
    if ltb last 0xFF then some (reverse ((last + 1) ∷ rest)) else prefix_end_loop rest

unfoldable pub prefix_end : Bytes → Option Bytes
prefix_end p = prefix_end_loop (reverse p)

unfoldable pub access_key : ℕ → Reader → Subject → Predicate → Bytes
access_key at r s p = decimal inv_width at ++ sep ∷ (r.text ++ sep ∷ (s.text ++ sep ∷ p.text))

unfoldable pub access_bound : ℕ → Bytes
access_bound at = decimal inv_width at

-- What stands before the first separator and behind it.
unfoldable pub split_once : Bytes → Option (Bytes × Bytes)
split_once [] = none
split_once (b ∷ bs) =
    if b == sep
    then some ([], bs)
    else elim (split_once bs) [ none ↦ none | some (x, y) ↦ some (b ∷ x, y) ]

-- `slice.splitn(n, |b| *b == SEP)`: at most `n` parts, the last one whole.
unfoldable pub splitn : ℕ → Bytes → List Bytes
splitn zero bs = []
splitn (suc zero) bs = bs ∷ []
splitn (suc (suc n)) bs = elim (split_once bs) [
  | none ↦ bs ∷ []
  | some (x, y) ↦ x ∷ splitn (suc n) y
]

-- `from_utf8(raw)`, with the reason that a failure is given.
abbrev pub utf8_or : Bytes → Error → Outcome Bytes
utf8_or raw e = if is_utf8 raw then ok raw else err e

-- The closure `field` of `parse_access_key`, on the part that the iterator yields.
abbrev pub access_field : Option Bytes → Error → Outcome Bytes
access_field part missing = do
  raw ← ok_or part missing
  utf8_or raw (malformed_key "access key field is not UTF-8")

unfoldable pub parse_access_key : Bytes → Outcome (ℕ × Reader × Subject × Predicate)
parse_access_key key = do
  let parts = splitn 4 key
  raw ← ok_or (get_elem? parts 0) (malformed_key "access key is empty")
  at_text ← utf8_or raw (malformed_key "access timestamp is not UTF-8")
  at ← ok_or (parse_u64 at_text) (malformed_key "access timestamp is not numeric")
  r ← access_field (get_elem? parts 1) (malformed_key "access key is missing the reader")
  reader ← Ident.new "reader" r
  s ← access_field (get_elem? parts 2) (malformed_key "access key is missing the subject")
  subject ← Ident.new "subject" s
  p ← access_field (get_elem? parts 3) (malformed_key "access key is missing the predicate")
  predicate ← Ident.new "predicate" p
  ok (at, reader, subject, predicate)

-- `key.strip_prefix(CLAIM_NS)`
unfoldable pub strip_claim_ns : Bytes → Option Bytes
strip_claim_ns (c ∷ slash ∷ body) = if c == b'c' && slash == b'/' then some body else none
strip_claim_ns _ = none

unfoldable pub parse_claim_key : Bytes → Outcome (Subject × Predicate)
parse_claim_key key = do
  body ← ok_or (strip_claim_ns key) (malformed_key "claim key lacks its namespace")
  let parts = splitn 3 body
  s ← ok_or (get_elem? parts 0) (malformed_key "claim key is missing the subject")
  p ← ok_or (get_elem? parts 1) (malformed_key "claim key is missing the predicate")
  s_text ← utf8_or s (malformed_key "subject is not UTF-8")
  p_text ← utf8_or p (malformed_key "predicate is not UTF-8")
  subject ← Ident.new "subject" s_text
  predicate ← Ident.new "predicate" p_text
  ok (subject, predicate)

unfoldable pub sequence_key : ℕ → Bytes
sequence_key sequence = decimal inv_width sequence

unfoldable pub sequence_of : Bytes → Outcome ℕ
sequence_of key =
    if length key == inv_width
    then (do
      text ← utf8_or key (malformed_key "sequence key is not UTF-8")
      ok_or (parse_u64 text) (malformed_key "sequence key is not numeric"))
    else err (malformed_key "sequence key has the wrong width")

unfoldable pub parse_inverted : Bytes → Outcome ℕ
parse_inverted raw = do
  text ← utf8_or raw (malformed_key "inverted timestamp is not UTF-8")
  inverted ← ok_or (parse_u64 text) (malformed_key "inverted timestamp is not numeric")
  ok (invert inverted)

abbrev pub tail_width : ℕ
tail_width = inv_width * 2 + 1

-- `timestamps_of`, on the last `tail_width` bytes.
unfoldable pub stamps_of_tail : Bytes → Outcome (ℕ × ℕ)
stamps_of_tail tail = elim (get_elem? tail inv_width) [
  | none ↦ err (malformed_key "timestamp fields are not separated")
  | some b ↦
      if b == sep
      then (do
        valid_from ← parse_inverted (take inv_width tail)
        tx_time ← parse_inverted (drop (inv_width + 1) tail)
        ok (valid_from, tx_time))
      else err (malformed_key "timestamp fields are not separated")
]

unfoldable pub timestamps_of : Bytes → Outcome (ℕ × ℕ)
timestamps_of key =
    if ltb (length key) tail_width
    then err (malformed_key "shorter than the timestamp fields")
    else stamps_of_tail (drop (length key - tail_width) key)
