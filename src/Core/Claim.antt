-- ===== src/Core/Claim.antt =====
-- crates/vyrm-core/src/claim.rs: the claim, one bi-temporal assertion with provenance. Instants are
-- `u64` milliseconds; the confidence, an `f32`, stands as its 32 bits, which is how it is hashed.
pub mod Window
pub mod Identity
pub mod Supersession
use vyrm.Prelude.{
  ℕ, ◌≡◌, Bool, true, false, List, [], ◌∷◌, ◌++◌, Option, none, some, Result, ok, err, ◌>>=◌, ◌>>◌,
  ltb, leb, ◌==◌, if◌then◌else◌, bytes_eq, ◌||◌, not, ◌&&◌, codes,
}
use vyrm.Core.Error.{
  Bytes, Error, Outcome, invalid_validity_window, supersession_pair_mismatch,
  invalid_supersession_order,
}
use vyrm.Core.Ident.{Subject, Predicate}
use vyrm.Core.Digest.{sha256_hex}
use vyrm.Core.Encoding.{u64_bytes, text, optional_text, optional_word}

pub data Tier : Type 0 where
  local primary tenant : Tier

pub data PromotionState : Type 0 where
  unpromoted pending promoted denied : PromotionState

pub record Producer : Type 0 where
  pub actor : Bytes
  pub on_behalf_of : Option Bytes
  pub session : Option Bytes

pub record Claim : Type 0 where
  pub subject : Subject
  pub predicate : Predicate
  pub object : Bytes
  pub valid_from : ℕ
  pub valid_to : Option ℕ
  pub tx_time : ℕ
  pub producer : Producer
  pub confidence : Option ℕ
  pub supersedes : Option Bytes
  pub signature : Option Bytes
  pub tier : Tier
  pub promotion_state : PromotionState

-- `Claim::new`
unfoldable pub new : Subject → Predicate → Bytes → ℕ → ℕ → Producer → Claim
new subject predicate object valid_from tx_time producer = record {
  subject = subject;
  predicate = predicate;
  object = object;
  valid_from = valid_from;
  valid_to = none;
  tx_time = tx_time;
  producer = producer;
  confidence = none;
  supersedes = none;
  signature = none;
  tier = local;
  promotion_state = unpromoted;
}

-- `retire`, which leaves the claim alone on an error.
unfoldable pub retire : Claim → ℕ → Outcome Claim
retire c at =
    if leb at c.valid_from
    then err (invalid_validity_window c.valid_from at)
    else ok (record c { valid_to = some at })

abbrev before_end : Option ℕ → ℕ → Bool
before_end none as_of = true
before_end (some to) as_of = ltb as_of to

unfoldable pub valid_at : Claim → ℕ → Bool
valid_at c as_of = if ltb as_of c.valid_from then false else before_end c.valid_to as_of

abbrev check_end : ℕ → Option ℕ → Outcome (Unit {0})
check_end from none = ok tt
check_end from (some to) = if leb to from then err (invalid_validity_window from to) else ok tt

unfoldable pub validate : Claim → Outcome (Unit {0})
validate c = check_end c.valid_from c.valid_to

abbrev pub tier_code : Tier → ℕ
tier_code local = 0
tier_code primary = 1
tier_code tenant = 2

abbrev pub promotion_code : PromotionState → ℕ
promotion_code unpromoted = 0
promotion_code pending = 1
promotion_code promoted = 2
promotion_code denied = 3

abbrev claim_tag : Bytes
claim_tag = codes "vyrm-claim-v1" ++ 0 ∷ []

unfoldable pub canonical_bytes : Claim → Bytes
canonical_bytes c =
    claim_tag
    ++ (text c.subject.text
        ++ (text c.predicate.text
            ++ (text c.object
                ++ (u64_bytes c.valid_from
                    ++ (optional_word 8 c.valid_to
                        ++ (u64_bytes c.tx_time
                            ++ (text c.producer.actor
                                ++ (optional_text c.producer.on_behalf_of
                                    ++ (optional_text c.producer.session
                                        ++ (optional_word 4 c.confidence
                                            ++ (optional_text c.supersedes
                                                ++ (optional_text c.signature
                                                    ++ (tier_code c.tier
                                                        ∷ promotion_code c.promotion_state
                                                        ∷ [])))))))))))))

unfoldable pub digest : Claim → Bytes
digest c = sha256_hex (canonical_bytes c)

abbrev pub same_ident : Subject → Subject → Bool
same_ident i j = bytes_eq i.text j.text

-- The retirement correction and the successor, for the caller to append as one.
unfoldable pub supersede : Claim → Claim → Outcome (Claim × Claim)
supersede previous successor =
    if not (same_ident previous.subject successor.subject)
      || not (same_ident previous.predicate successor.predicate)
    then err supersession_pair_mismatch
    else if leb successor.valid_from previous.valid_from || leb successor.tx_time previous.tx_time
    then err invalid_supersession_order
    else let previous_id = digest previous in
      let retirement = record previous {
        valid_to = some successor.valid_from;
        tx_time = successor.tx_time;
        supersedes = some previous_id;
      } in
      let successor' = record successor { supersedes = some previous_id } in
      (do validate retirement; validate successor'; ok (retirement, successor'))
