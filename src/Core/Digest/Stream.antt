-- ===== src/Core/Digest/Stream.antt =====
-- digest.rs: the incremental digest of any sequence of chunks is the digest of their concatenation,
-- padded and cut into blocks as FIPS 180-4 says. `compress` stays shut: the theorems hold whatever
-- it computes.
use mathlib.Core.List.{flatten}
use vyrm.Core.Digest.Blocks.{reference}
use vyrm.Core.Digest.Update.{Represents, new-Represents, absorb_input-Represents}
use vyrm.Core.Digest.Finalize.{finalize-reference}
use mathlib.Core.List.{append_assoc, append-nil}
use mathlib.Core.Path.{subst}
use vyrm.Prelude.{
  ◌+◌, ◌-◌, ◌^◌, ◌≤◌, ◌≡◌, refl, sym, List, [], ◌∷◌, ◌++◌, Option, none, some, length,
  length-append, arith, le→leb,
}
use vyrm.Core.Error.{Bytes}
use vyrm.Core.Digest.{Sha256, new, update, absorb_input, finalize}
use vyrm.Core.Digest.Blocks.{reference}
use vyrm.Core.Digest.Update.{Represents, new-Represents, absorb_input-Represents}
use vyrm.Core.Digest.Finalize.{finalize-reference}

-- A caller that hands over chunk after chunk; `none` if one of the calls panics.
unfoldable pub update_all : Sha256 → List Bytes → Option Sha256
update_all s [] = some s
update_all s (chunk ∷ chunks) = elim (update s chunk) [ none ↦ none | some t ↦ update_all t chunks ]

update_of_fits :
    (s : Sha256) (input : Bytes)
    → s.length_ + length input ≤ 2 ^ 64 - 1
    → update s input ≡ some (absorb_input s input)
unfolding update
update_of_fits s input h = rw (le→leb _ _ h)

update_all-Represents :
    (s : Sha256) (text : Bytes) (chunks : List Bytes)
    → Represents s text
    → length text + length (flatten chunks) ≤ 2 ^ 64 - 1
    → (t : Sha256) × (update_all s chunks ≡ some t) × Represents t (text ++ flatten chunks)
unfolding update_all flatten
update_all-Represents s text [] r h = (s, refl, subst (Represents s) (sym (append-nil text)) r)
update_all-Represents s text (chunk ∷ chunks) r h =
    let more = length-append chunk (flatten chunks) in
    let (t, run, stands) =
      update_all-Represents (absorb_input s chunk) (text ++ chunk) chunks
        (absorb_input-Represents s text chunk r) (omega (arith, length-append text chunk, more)) in
    (
      t,
      rw (update_of_fits s chunk (omega (arith, r.counted, more)), update_all) run,
      subst (Represents t) (append_assoc text chunk (flatten chunks)) stands,
    )

-- Chunks of any lengths, empty ones too, whose total length is a `u64`: no call of `update` panics,
-- and `finalize` returns the reference digest of their concatenation.
pub finalize-update_all :
    (chunks : List Bytes)
    → length (flatten chunks) ≤ 2 ^ 64 - 1
    → (t : Sha256) × (update_all new chunks ≡ some t) × (finalize t ≡ reference (flatten chunks))
finalize-update_all chunks h =
    let (t, run, stands) = update_all-Represents new [] chunks new-Represents (omega arith) in
    (t, run, finalize-reference t (flatten chunks) stands)
