-- ===== src/Core/Claim/Identity.antt =====
-- claim.rs: the canonical bytes determine the claim, so that two claims with one digest are one, or
-- SHA-256 collides.
use vyrm.Prelude.{◌^◌, ◌<◌, ◌≡◌, ap, arith, drop, get_or}
use vyrm.Core.Claim.{Claim, Tier, PromotionState, tier_code, promotion_code, canonical_bytes}
use vyrm.Core.Encoding.{
  IsText, IsOptionalText, IsOptionalWord, word-IsPrefixCode, text-IsPrefixCode,
  optional_text-IsPrefixCode, optional_word-IsPrefixCode,
}

-- The ranges of the machine types: texts fit in memory, instants are `u64`, a confidence is 32 bits.
pub record IsMachine (c : Claim) : Type 0 where
  pub subject : IsText c.subject.text
  pub predicate : IsText c.predicate.text
  pub object : IsText c.object
  pub valid_from : c.valid_from < 256 ^ 8
  pub valid_to : IsOptionalWord 8 c.valid_to
  pub tx_time : c.tx_time < 256 ^ 8
  pub actor : IsText c.producer.actor
  pub on_behalf_of : IsOptionalText c.producer.on_behalf_of
  pub session : IsOptionalText c.producer.session
  pub confidence : IsOptionalWord 4 c.confidence
  pub supersedes : IsOptionalText c.supersedes
  pub signature : IsOptionalText c.signature

tier_code_inj : (s t : Tier) → tier_code s ≡ tier_code t → s ≡ t
tier_code_inj s t h = ground arith

promotion_code_inj : (s t : PromotionState) → promotion_code s ≡ promotion_code t → s ≡ t
promotion_code_inj s t h = ground arith

-- Two claims whose fields are in the ranges of their types have the same canonical bytes only if
-- they are equal in every field.
pub canonical_bytes_inj :
    (c d : Claim) → IsMachine c → IsMachine d → canonical_bytes c ≡ canonical_bytes d → c ≡ d
unfolding canonical_bytes
canonical_bytes_inj c d m n e =
    let t = text-IsPrefixCode in
    let o = optional_text-IsPrefixCode in
    let w = word-IsPrefixCode 8 in
    let (subject, e1) = t.split _ _ _ _ m.subject n.subject (ap (drop 14) e) in
    let (predicate, e2) = t.split _ _ _ _ m.predicate n.predicate e1 in
    let (object, e3) = t.split _ _ _ _ m.object n.object e2 in
    let (from, e4) = w.split _ _ _ _ m.valid_from n.valid_from e3 in
    let (to, e5) = (optional_word-IsPrefixCode 8).split _ _ _ _ m.valid_to n.valid_to e4 in
    let (tx, e6) = w.split _ _ _ _ m.tx_time n.tx_time e5 in
    let (actor, e7) = t.split _ _ _ _ m.actor n.actor e6 in
    let (behalf, e8) = o.split _ _ _ _ m.on_behalf_of n.on_behalf_of e7 in
    let (session, e9) = o.split _ _ _ _ m.session n.session e8 in
    let (confidence, e10) =
      (optional_word-IsPrefixCode 4).split _ _ _ _ m.confidence n.confidence e9 in
    let (supersedes, e11) = o.split _ _ _ _ m.supersedes n.supersedes e10 in
    let (signature, e12) = o.split _ _ _ _ m.signature n.signature e11 in
    let tier : c.tier ≡ d.tier = tier_code_inj c.tier d.tier (ap (λ bytes. get_or bytes 0 0) e12) in
    let promotion : c.promotion_state ≡ d.promotion_state =
      promotion_code_inj _ _ (ap (λ bytes. get_or bytes 1 0) e12) in
    λ i. record {
      subject = record { text = subject i };
      predicate = record { text = predicate i };
      object = object i;
      valid_from = from i;
      valid_to = to i;
      tx_time = tx i;
      producer = record { actor = actor i; on_behalf_of = behalf i; session = session i };
      confidence = confidence i;
      supersedes = supersedes i;
      signature = signature i;
      tier = tier i;
      promotion_state = promotion i;
    }
