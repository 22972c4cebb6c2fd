-- ===== src/Core/Digest/Update.antt =====
-- digest.rs: `update` keeps a state that stands for the text so far, whatever the chunk.
use vyrm.Core.Digest.Blocks.{
  digest_blocks, digest_blocks-append, length-copy_at, take-copy_at, copy_at_full,
}
use mathlib.Core.List.{append_assoc, append-nil}
use mathlib.Core.Path.{subst}
use native.Mathlib.Nat.{zero-add}
use vyrm.Prelude.{
  ℕ, ◌+◌, ◌-◌, ◌*◌, ◌≤◌, ◌<◌, min, ◌≡◌, refl, sym, ap, ap₂, ◌∙◌, [], ◌∷◌, ◌++◌, ◌==◌, length,
  length-append, take, drop, take_all, take-append-drop, length-take, arith, Bool-cases, ==_iff,
  inl, inr, ◌≢◌,
}
use vyrm.Core.Error.{Bytes}
use vyrm.Core.Digest.{
  Sha256, compress, initial, new, copy_at, absorb, update_blocks, update_buffered, absorb_input,
}
use vyrm.Core.Digest.Blocks.{
  digest_blocks, digest_blocks-append, length-copy_at, take-copy_at, copy_at_full,
}
use vyrm.Core.Digest.Absorb.{absorb-Absorbed}

-- What the state of the digest says of the text so far.
pub record Represents (s : Sha256) (text : Bytes) : Type 0 where
  pub blocks : ℕ
  pub full : Bytes
  pub rest : Bytes
  pub cut : text ≡ full ++ rest
  pub whole : length full ≡ blocks * 64
  pub hashed : s.state ≡ digest_blocks blocks initial full
  pub room : length s.buffer ≡ 64
  pub held : take s.buffered s.buffer ≡ rest
  pub partial : s.buffered < 64
  pub counted : s.length_ ≡ length text

-- With an empty buffer `update_blocks` goes on from the blocks hashed so far.
update_blocks-Represents :
    (s : Sha256) (n : ℕ) (full input : Bytes)
    → length full ≡ n * 64
    → s.state ≡ digest_blocks n initial full
    → length s.buffer ≡ 64
    → s.length_ ≡ length (full ++ input)
    → Represents (update_blocks s input) (full ++ input)
unfolding update_blocks
update_blocks-Represents s n full input whole hashed room counted =
    let r = absorb (length input) s.state input in
    let a = absorb-Absorbed (length input) s.state input (omega arith) in
    record {
      blocks = n + a.blocks;
      full = full ++ a.full;
      rest = r.1;
      cut = ap (λ t. full ++ t) a.cut ∙ sym (append_assoc full a.full r.1);
      whole = omega (arith, length-append full a.full, a.whole);
      hashed =
          rw (digest_blocks-append n a.blocks initial full a.full whole) (rw (← hashed) a.hashed);
      room = length-copy_at s.buffer 0 r.1 (omega (arith, a.short)) ∙ room;
      held = rw zero-add at (take-copy_at s.buffer 0 r.1 (omega arith));
      partial = a.short;
      counted = counted;
    }

-- One more block behind whole ones.
digest_blocks-block :
    (n : ℕ) (full block : Bytes)
    → length full ≡ n * 64
    → length block ≡ 64
    → digest_blocks (n + 1) initial (full ++ block) ≡ compress (digest_blocks n initial full) block
unfolding digest_blocks
digest_blocks-block n full block whole one =
    digest_blocks-append n 1 initial full block whole
    ∙ ap (compress (digest_blocks n initial full)) (take_all 64 block (omega arith))

module _ (s : Sha256) (text input : Bytes) (r : Represents s text) where
  open r use {blocks, full, rest, cut, whole, hashed, room, held, partial, counted}

  pub length-rest : length rest ≡ s.buffered
  length-rest =
      let e : length (take s.buffered s.buffer) ≡ length rest = ap length held in
      omega (arith, length-take s.buffered s.buffer, e)

  -- A chunk that completes the block in the buffer.
  update_full :
      (n : ℕ) (t : Sha256)
      → s.buffered + n ≡ 64
      → n ≤ length input
      → t.state ≡ compress s.state (copy_at s.buffer s.buffered (take n input))
      → length t.buffer ≡ 64
      → t.length_ ≡ s.length_ + length input
      → Represents (update_blocks t (drop n input)) (text ++ input)
  update_full n t fits enough state_t room_t counted_t =
      let i = take n input in
      let len : length i ≡ n = omega (arith, length-take n input) in
      let one : length (rest ++ i) ≡ 64 = omega (arith, length-append rest i, length-rest, len) in
      let block : copy_at s.buffer s.buffered i ≡ rest ++ i =
        copy_at_full s.buffer s.buffered i (omega (arith, len)) ∙ ap (λ t. t ++ i) held in
      let same : (full ++ (rest ++ i)) ++ drop n input ≡ text ++ input =
        append_assoc full (rest ++ i) (drop n input)
        ∙ ap (λ t. full ++ t)
            (append_assoc rest i (drop n input) ∙ ap (λ t. rest ++ t) (take-append-drop n input))
        ∙ sym (append_assoc full rest input)
        ∙ ap (λ t. t ++ input) (sym cut) in
      subst (Represents (update_blocks t (drop n input))) same (
        update_blocks-Represents t (blocks + 1) (full ++ (rest ++ i)) (drop n input)
          (omega (arith, length-append full (rest ++ i), one, whole))
          (state_t
            ∙ ap₂ compress hashed block
            ∙ sym (digest_blocks-block blocks full (rest ++ i) whole one))
          room_t (counted_t ∙ rw same (omega (arith, length-append text input, counted))))

  -- A chunk that the buffer has room for.
  update_partial :
      (n : ℕ) (t : Sha256)
      → s.buffered + n < 64
      → n ≡ length input
      → t.state ≡ s.state
      → t.buffer ≡ copy_at s.buffer s.buffered (take n input)
      → t.buffered ≡ s.buffered + n
      → t.length_ ≡ s.length_ + length input
      → Represents t (text ++ input)
  update_partial n t fits all_ state_t buffer_t buffered_t counted_t =
      let i : take n input ≡ input = take_all n input (omega arith) in
      let len : s.buffered + length (take n input) ≡ s.buffered + n = rw i (omega arith) in
      record {
        blocks = blocks;
        full = full;
        rest = rest ++ input;
        cut = ap (λ t. t ++ input) cut ∙ append_assoc full rest input;
        whole = whole;
        hashed = state_t ∙ hashed;
        room =
            ap length buffer_t
            ∙ length-copy_at s.buffer s.buffered (take n input) (omega (arith, len))
            ∙ room;
        held =
            ap₂ take (buffered_t ∙ sym len) buffer_t
            ∙ take-copy_at s.buffer s.buffered (take n input) (omega arith)
            ∙ ap₂ ◌++◌ held i;
        partial = omega arith;
        counted = omega (arith, length-append text input, counted);
      }

  update_buffered-Represents :
      Represents
        (update_buffered (record s { length_ = s.length_ + length input }) input)
        (text ++ input)
  unfolding update_buffered
  update_buffered-Represents =
      let n = min (64 - s.buffered) (length input) in
      elim (Bool-cases (s.buffered + n == 64)) [
        | inl done ↦ rw done (
            update_full n _ (ground arith) (omega arith) refl
              (length-copy_at s.buffer s.buffered (take n input)
                  (omega (arith, length-take n input))
                ∙ room)
              refl)
        | inr more ↦
            let differ : s.buffered + n ≢ 64 = ground arith in
            rw more (update_partial n _ (omega arith) (omega arith) refl refl refl refl)
      ]

nil_of_length : (xs : Bytes) → length xs ≡ 0 → xs ≡ []
nil_of_length [] h = refl
nil_of_length (x ∷ xs) h = absurd (omega arith)

-- With nothing in the buffer the text so far is whole blocks.
pub absorb_input-Represents :
    (s : Sha256) (text input : Bytes)
    → Represents s text
    → Represents (absorb_input s input) (text ++ input)
unfolding absorb_input
absorb_input-Represents s text input r = elim (Bool-cases (s.buffered == 0)) [
  | inl empty ↦
      let nil : r.rest ≡ [] =
        nil_of_length r.rest (length-rest s text input r ∙ (==_iff s.buffered 0).0 empty) in
      let e : r.full ≡ text =
        sym (append-nil r.full) ∙ ap (λ t. r.full ++ t) (sym nil) ∙ sym r.cut in
      let same : r.full ++ input ≡ text ++ input = ap (λ t. t ++ input) e in
      rw empty (
        subst (Represents (update_blocks (record s { length_ = s.length_ + length input }) input))
          same
          (update_blocks-Represents (record s { length_ = s.length_ + length input }) r.blocks
            r.full input r.whole r.hashed r.room
            (rw same (omega (arith, length-append text input, r.counted)))))
  | inr some_ ↦ rw some_ (update_buffered-Represents s text input r)
]

pub new-Represents : Represents new []
unfolding new digest_blocks
new-Represents = record {
  blocks = 0;
  full = [];
  rest = [];
  cut = refl;
  whole = refl;
  hashed = refl;
  room = refl;
  held = refl;
  partial = omega arith;
  counted = refl;
}
