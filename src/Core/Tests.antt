-- ===== src/Core/Tests.antt =====
-- Runs of the theorems about the kernel at concrete claims and keys.
use vyrm.Prelude.{
  ℕ, ◌≤◌, ◌<◌, ◌≡◌, ◌≢◌, ◌↔◌, refl, true, false, not, ◌&&◌, ◌||◌, List, [], ◌∷◌, none, some, ok,
  lex_lt, bytes_eq, if◌then◌else◌, leb, ltb, ◌==◌, In, arith, ◌⊎◌,
}
use mathlib.Core.List.{flatten}
use vyrm.Core.Ident
use vyrm.Core.Recall
use vyrm.Core.Recall.{
  RecallQuery, RecallSet, recall, subjects_loop, groups_loop, offer, run, behind_run,
  estimate_claim_tokens,
}
use vyrm.Core.Recall.Budget.{total_tokens, recall-token_estimate}
use vyrm.Core.Digest
use vyrm.Core.Error.{Bytes, Outcome}
use vyrm.Core.Ident.{Ident, Subject, Predicate, is_utf8, contains, IsIdent, new-IsIdent}
use vyrm.Core.Claim.{Claim, local, unpromoted, valid_at, validate, retire, supersede}
use vyrm.Core.Claim.Window.{retire-valid_at}
use vyrm.Core.Claim.Identity.{IsMachine, canonical_bytes_inj}
use vyrm.Core.Claim.Supersession.{
  CanSupersede, retirement, succession, supersede_iff, resolve-supersede,
}
use vyrm.Core.Key.{claim_key, seek_key, version_prefix, prefix_end, parse_claim_key, timestamps_of}
use vyrm.Core.Key.Order.{lex_lt-claim_key}
use vyrm.Core.Key.Prefix.{starts_with, below, prefix_end_range}
use vyrm.Core.Key.RoundTrip.{parse_claim_key-claim_key, timestamps_of-claim_key}
use vyrm.Core.Key.Seek.{in_range, seek_range}
use vyrm.Core.Temporal.{resolve_as_of, resolve_loop, skip_version}
use vyrm.Core.Temporal.Resolution.{InForce, Corrected}
use vyrm.Core.Reference.{
  MemoryClaims, put_row, insert, iter, key_of, versions_at_or_before, all_versions,
  subject_versions, as_of,
}
use vyrm.Core.Reference.Rows.{IsTyped, IsStore, insert-IsStore}
use vyrm.Core.Reference.Queries.{select, about, on, started, versions-select}
use vyrm.Core.Reference.AsOf.{as_of-InForce}
use vyrm.Core.Digest.{Sha256, sha256, finalize}
use vyrm.Core.Digest.Blocks.{reference}
use vyrm.Core.Digest.Stream.{update_all, finalize-update_all}

abbrev subject_a : Subject
subject_a = record { text = 97 ∷ [] }

abbrev predicate_b : Predicate
predicate_b = record { text = 98 ∷ [] }

subject_a-IsIdent : IsIdent subject_a
unfolding is_utf8 contains
subject_a-IsIdent = record { utf8 = refl; nonempty = refl; no_sep = refl }

predicate_b-IsIdent : IsIdent predicate_b
unfolding is_utf8 contains
predicate_b-IsIdent = record { utf8 = refl; nonempty = refl; no_sep = refl }

abbrev claim_at : ℕ → ℕ → Claim
claim_at from tx = record {
  subject = subject_a;
  predicate = predicate_b;
  object = 99 ∷ [];
  valid_from = from;
  valid_to = none;
  tx_time = tx;
  producer = record { actor = 100 ∷ []; on_behalf_of = none; session = none };
  confidence = none;
  supersedes = none;
  signature = none;
  tier = local;
  promotion_state = unpromoted;
}

abbrev older : Claim
older = claim_at 10 1

abbrev newer : Claim
newer = claim_at 20 2

older-IsTyped : IsTyped older
older-IsTyped = record {
  subject = subject_a-IsIdent;
  predicate = predicate_b-IsIdent;
  from = omega arith;
  tx = omega arith;
}

newer-IsTyped : IsTyped newer
newer-IsTyped = record {
  subject = subject_a-IsIdent;
  predicate = predicate_b-IsIdent;
  from = omega arith;
  tx = omega arith;
}

abbrev one : MemoryClaims
one = record { rows = (key_of older, older) ∷ [] }

abbrev after_insert : MemoryClaims
after_insert = record { rows = put_row (key_of newer) newer one.rows }

one-IsStore : IsStore one
unfolding validate
one-IsStore = record { ordered = (tt, tt); sound = ((refl, older-IsTyped, refl), tt) }

insert-newer : insert one newer ≡ ok after_insert
unfolding insert validate
insert-newer = refl

insert-IsStore_example :
    IsStore after_insert
    × In newer (iter after_insert.rows)
    × ((e : Claim) → In e (iter one.rows) → key_of e ≢ key_of newer → In e (iter after_insert.rows))
insert-IsStore_example =
    insert-IsStore one after_insert newer one-IsStore newer-IsTyped insert-newer

versions-select_example :
    (versions_at_or_before one subject_a predicate_b 15
      ≡ select (started subject_a predicate_b 15) (iter one.rows))
    × (all_versions one subject_a predicate_b ≡ select (on subject_a predicate_b) (iter one.rows))
    × (subject_versions one subject_a ≡ select (about subject_a) (iter one.rows))
versions-select_example =
    versions-select one subject_a predicate_b 15 one-IsStore subject_a-IsIdent predicate_b-IsIdent
      (omega arith)

abbrev candidates_15 : List Claim
candidates_15 = select (started subject_a predicate_b 15) (iter one.rows)

as_of-InForce_example :
    ((c : Claim) → as_of one subject_a predicate_b 15 ≡ some c → InForce candidates_15 15 c)
    × (as_of one subject_a predicate_b 15 ≡ none
        → (d : Claim) → In d candidates_15
        → valid_at d 15 ≡ true
        → Corrected candidates_15 d)
as_of-InForce_example =
    as_of-InForce one subject_a predicate_b 15 one-IsStore subject_a-IsIdent predicate_b-IsIdent
      (omega arith)

lex_lt-claim_key_example :
    lex_lt (claim_key subject_a predicate_b 20 2) (claim_key subject_a predicate_b 10 1)
    ≡ (ltb 10 20 || (10 == 20 && ltb 1 2))
lex_lt-claim_key_example =
    lex_lt-claim_key subject_a predicate_b 20 2 10 1 (omega arith) (omega arith) (omega arith)
      (omega arith)

prefix_end_range_example :
    (not (lex_lt (97 ∷ 255 ∷ 1 ∷ []) (97 ∷ 255 ∷ []))
      && below (97 ∷ 255 ∷ 1 ∷ []) (prefix_end (97 ∷ 255 ∷ [])))
    ≡ starts_with (97 ∷ 255 ∷ []) (97 ∷ 255 ∷ 1 ∷ [])
prefix_end_range_example =
    prefix_end_range (97 ∷ 255 ∷ []) (97 ∷ 255 ∷ 1 ∷ []) (omega arith, (omega arith, tt))
      (omega arith, (omega arith, (omega arith, tt)))

parse_claim_key-claim_key_example :
    parse_claim_key (claim_key subject_a predicate_b 10 1) ≡ ok (subject_a, predicate_b)
parse_claim_key-claim_key_example =
    parse_claim_key-claim_key subject_a predicate_b 10 1 subject_a-IsIdent predicate_b-IsIdent

timestamps_of-claim_key_example : timestamps_of (claim_key subject_a predicate_b 10 1) ≡ ok (10, 1)
timestamps_of-claim_key_example =
    timestamps_of-claim_key subject_a predicate_b 10 1 (omega arith) (omega arith)

seek_range_example :
    in_range
      (seek_key subject_a predicate_b 15)
      (version_prefix subject_a predicate_b)
      (claim_key subject_a predicate_b 10 1)
    ≡ (bytes_eq (97 ∷ []) (97 ∷ []) && bytes_eq (98 ∷ []) (98 ∷ []) && leb 10 15)
seek_range_example =
    seek_range subject_a subject_a predicate_b predicate_b 15 10 1 subject_a-IsIdent
      subject_a-IsIdent predicate_b-IsIdent predicate_b-IsIdent (omega arith) (omega arith)
      (omega arith)

new_a : Ident.new "subject" (97 ∷ []) ≡ ok subject_a
unfolding Ident.new contains
new_a = refl

new-IsIdent_example : IsIdent subject_a × (subject_a.text ≡ 97 ∷ [])
new-IsIdent_example = new-IsIdent "subject" (97 ∷ []) subject_a subject_a-IsIdent.utf8 new_a

abbrev retired : Claim
retired = record older { valid_to = some 20 }

retire-older : retire older 20 ≡ ok retired
unfolding retire
retire-older = refl

retire-valid_at_example :
    (10 < 20) × (validate retired ≡ ok tt) × ((t : ℕ) → valid_at retired t ≡ (leb 10 t && ltb t 20))
retire-valid_at_example = retire-valid_at older 20 retired retire-older

older-IsMachine : IsMachine older
older-IsMachine = record {
  subject = omega arith;
  predicate = omega arith;
  object = omega arith;
  valid_from = omega arith;
  valid_to = tt;
  tx_time = omega arith;
  actor = omega arith;
  on_behalf_of = tt;
  session = tt;
  confidence = tt;
  supersedes = tt;
  signature = tt;
}

canonical_bytes_inj_example : older ≡ older
canonical_bytes_inj_example = canonical_bytes_inj older older older-IsMachine older-IsMachine refl

supersede-older : supersede older newer ≡ ok (retirement older newer, succession older newer)
unfolding supersede validate bytes_eq
supersede-older = refl

supersede_iff_example :
    (supersede older newer ≡ ok (retirement older newer, succession older newer)) ↔ (
      CanSupersede older newer
      × (retirement older newer ≡ retirement older newer)
      × (succession older newer ≡ succession older newer))
supersede_iff_example = supersede_iff older newer (retirement older newer) (succession older newer)

resolve-supersede_example :
    resolve_as_of (succession older newer ∷ retirement older newer ∷ older ∷ []) 15 ≡ (
      if valid_at (succession older newer) 15
      then some (succession older newer)
      else if leb 10 15 && ltb 15 20
      then some (retirement older newer)
      else none)
resolve-supersede_example =
    resolve-supersede older newer (retirement older newer) (succession older newer) 15
      supersede-older

abbrev chunks : List Bytes
chunks = (1 ∷ 2 ∷ []) ∷ [] ∷ (3 ∷ []) ∷ []

finalize-update_all_example :
    (t : Sha256) × (update_all Digest.new chunks ≡ some t)
    × (finalize t ≡ reference (flatten chunks))
unfolding flatten
finalize-update_all_example = finalize-update_all chunks (omega arith)

abbrev query : RecallQuery
query = record { subjects = subject_a ∷ subject_a ∷ []; predicates = none; as_of = 25 }

abbrev source : Subject → Outcome (List Claim)
source s = ok (newer ∷ older ∷ [])

abbrev recalled : RecallSet
recalled = record {
  claims = newer ∷ [];
  digest = Recall.digest (newer ∷ []);
  token_estimate = 1;
  truncated = false;
}

recall-newer : recall source query 4 ≡ ok recalled
unfolding recall subjects_loop groups_loop offer run behind_run Recall.contains
    estimate_claim_tokens bytes_eq resolve_as_of resolve_loop skip_version valid_at
recall-newer = refl

recall-token_estimate_example :
    (1 ≡ total_tokens (newer ∷ []))
    × ((1 ≤ 1) ⊎ (1 ≤ 4))
    × (Recall.digest (newer ∷ []) ≡ Recall.digest (newer ∷ []))
recall-token_estimate_example = recall-token_estimate source query 4 recalled recall-newer
