-- ===== src/Core/Reference.antt =====
-- crates/vyrm-core/src/reference.rs: the in-memory claim store that every adapter is held to. The
-- `BTreeMap` is its rows in key order; `insert` and `range` are the standard library's, written out.
pub mod Rows
pub mod Queries
pub mod AsOf
use vyrm.Prelude.{
  ℕ, Bool, true, false, not, ◌&&◌, List, [], ◌∷◌, Option, none, some, Result, ok, err, ◌>>=◌, ◌>>◌,
  lex_lt, bytes_eq, if◌then◌else◌, length,
}
use vyrm.Core.Error.{Bytes, Outcome}
use vyrm.Core.Ident.{Subject, Predicate}
use vyrm.Core.Claim.{Claim, validate}
use vyrm.Core.Key.{claim_key, seek_key, version_prefix, subject_prefix, prefix_end}
use vyrm.Core.Key.Prefix.{below}
use vyrm.Core.Temporal.{resolve_as_of}

abbrev pub Rows : Type 0
Rows = List (Bytes × Claim)

-- `BTreeMap::insert`: in key order, replacing the value of a key that is there.
unfoldable pub put_row : Bytes → Claim → Rows → Rows
put_row k c [] = (k, c) ∷ []
put_row k c ((j, d) ∷ rows) =
    if lex_lt k j
    then (k, c) ∷ (j, d) ∷ rows
    else if lex_lt j k
    then (j, d) ∷ put_row k c rows
    else (j, c) ∷ rows

-- The values of `BTreeMap::range(from..end)`, or of `range(from..)` where there is no end.
unfoldable pub range : Bytes → Option Bytes → Rows → List Claim
range from end [] = []
range from end ((k, c) ∷ rows) =
    if not (lex_lt k from) && below k end then c ∷ range from end rows else range from end rows

pub record MemoryClaims : Type 0 where
  pub rows : Rows

abbrev pub empty : MemoryClaims
empty = record { rows = [] }

abbrev pub key_of : Claim → Bytes
key_of c = claim_key c.subject c.predicate c.valid_from c.tx_time

unfoldable pub insert : MemoryClaims → Claim → Outcome MemoryClaims
insert m c = do validate c; ok (record { rows = put_row (key_of c) c m.rows })

unfoldable pub len : MemoryClaims → ℕ
len m = length m.rows

unfoldable pub iter : Rows → List Claim
iter [] = []
iter ((k, c) ∷ rows) = c ∷ iter rows

unfoldable pub scan : MemoryClaims → Subject → Predicate → Bytes → List Claim
scan m s p from = range from (prefix_end (version_prefix s p)) m.rows

unfoldable pub versions_at_or_before : MemoryClaims → Subject → Predicate → ℕ → List Claim
versions_at_or_before m s p as_of = scan m s p (seek_key s p as_of)

unfoldable pub all_versions : MemoryClaims → Subject → Predicate → List Claim
all_versions m s p = scan m s p (version_prefix s p)

unfoldable pub subject_versions : MemoryClaims → Subject → List Claim
subject_versions m s = range (subject_prefix s) (prefix_end (subject_prefix s)) m.rows

-- `ClaimReader::as_of` over this store (`current` is the same call).
unfoldable pub as_of : MemoryClaims → Subject → Predicate → ℕ → Option Claim
as_of m s p at = resolve_as_of (versions_at_or_before m s p at) at
