-- ===== src/Core/Digest/Tests.antt =====
-- digest.rs: the published test vectors, run.
use mathlib.Core.List.{flatten, zip}
use vyrm.Prelude.{◌≡◌, refl, [], ◌∷◌, from_be, digits, value_from}
use vyrm.Core.Error.{Bytes}
use vyrm.Core.Digest.{
  sha256, absorb_input, new, finalize, update_blocks, absorb, compress, copy_at, fill_zero, output,
}

abbrev abc : Bytes
abc = b'a' ∷ b'b' ∷ b'c' ∷ []

sha256-abc :
    from_be (sha256 abc) ≡ 0xba7816bf8f01cfea414140de5dae2223b00361a396177a9cb410ff61f20015ad
unfolding sha256 absorb_input new finalize update_blocks absorb compress copy_at fill_zero output
    digits value_from flatten zip
sha256-abc = refl
