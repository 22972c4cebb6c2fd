-- ===== src/Core/Encoding.antt =====
-- The canonical byte encodings that the kernel hashes: the local functions `text`, `optional_text`
-- and `strings` of crates/vyrm-core/src/claim.rs and reasoning.rs. Each is a prefix code: what it
-- wrote can be read off the front of any continuation in one way only.
use vyrm.Prelude.{
  ℕ, ◌^◌, ◌<◌, ◌≡◌, refl, sym, ap, ◌∙◌, [], ◌∷◌, ◌++◌, Option, none, some, length, take, drop,
  take-append, drop-append, to_be, from_be, length-digits, value_from-digits, arith,
}
use mathlib.Core.List.{append_assoc}
use vyrm.Core.Error.{Bytes}

abbrev pub u64_bytes : ℕ → Bytes
u64_bytes n = to_be 8 n

unfoldable pub text : Bytes → Bytes
text value = u64_bytes (length value) ++ value

unfoldable pub optional_text : Option Bytes → Bytes
optional_text none = 0 ∷ []
optional_text (some value) = 1 ∷ text value

-- A field that is written at its width behind a presence flag.
unfoldable pub optional_word : ℕ → Option ℕ → Bytes
optional_word width none = 0 ∷ []
optional_word width (some value) = 1 ∷ to_be width value

-- No encoding of a value continues that of another.
pub record IsPrefixCode {ℓ κ} {A : Type ℓ} (valid : A → Type κ) (encode : A → Bytes)
    : Type (ℓ ⊔ κ) where
  pub split :
      (a b : A) (x y : Bytes)
      → valid a
      → valid b
      → encode a ++ x ≡ encode b ++ y
      → (a ≡ b) × (x ≡ y)

word-IsPrefixCode_aux :
    (w n m : ℕ) (x y : Bytes)
    → n < 256 ^ w
    → m < 256 ^ w
    → to_be w n ++ x ≡ to_be w m ++ y
    → (n ≡ m) × (x ≡ y)
word-IsPrefixCode_aux w n m x y hn hm e = (
  sym (value_from-digits 256 w n (omega arith) hn)
      ∙ ap from_be (
          sym (take-append w (to_be w n) x (length-digits 256 w n))
          ∙ ap (take w) e
          ∙ take-append w (to_be w m) y (length-digits 256 w m))
      ∙ value_from-digits 256 w m (omega arith) hm,
  sym (drop-append w (to_be w n) x (length-digits 256 w n))
      ∙ ap (drop w) e
      ∙ drop-append w (to_be w m) y (length-digits 256 w m),
)

pub word-IsPrefixCode : (w : ℕ) → IsPrefixCode (λ n. n < 256 ^ w) (to_be w)
word-IsPrefixCode w = record { split = word-IsPrefixCode_aux w }

-- A text fits in memory, so its length is a `u64`.
abbrev pub IsText : Bytes → Type 0
IsText value = length value < 2 ^ 64

abbrev pub IsOptionalText : Option Bytes → Type 0
IsOptionalText none = Unit
IsOptionalText (some value) = IsText value

abbrev pub IsOptionalWord : ℕ → Option ℕ → Type 0
IsOptionalWord width none = Unit
IsOptionalWord width (some value) = value < 256 ^ width

same_length : (a b x y : Bytes) → length a ≡ length b → a ++ x ≡ b ++ y → (a ≡ b) × (x ≡ y)
same_length a b x y h e = (
  sym (take-append (length b) a x h) ∙ ap (take (length b)) e ∙ take-append (length b) b y refl,
  sym (drop-append (length b) a x h) ∙ ap (drop (length b)) e ∙ drop-append (length b) b y refl,
)

pub text-IsPrefixCode : IsPrefixCode IsText text
unfolding text
text-IsPrefixCode = record {
  split = λ a b x y ha hb e.
      let len = length a in
      let (n, rest) =
        (word-IsPrefixCode 8).split (length a) (length b) (a ++ x) (b ++ y) (omega arith)
          (omega arith)
          (sym (append_assoc (u64_bytes (length a)) a x)
            ∙ e
            ∙ append_assoc (u64_bytes (length b)) b y) in
      same_length a b x y n rest;
}

pub optional_text-IsPrefixCode : IsPrefixCode IsOptionalText optional_text
unfolding optional_text
optional_text-IsPrefixCode = record { split = go }
  where
    go :
        (a b : Option Bytes) (x y : Bytes)
        → IsOptionalText a
        → IsOptionalText b
        → optional_text a ++ x ≡ optional_text b ++ y
        → (a ≡ b) × (x ≡ y)
    go none none x y ha hb e = (refl, cc)
    go none (some b) x y ha hb e = ground arith
    go (some a) none x y ha hb e = ground arith
    go (some a) (some b) x y ha hb e =
        let (p, q) = text-IsPrefixCode.split a b x y ha hb (ap (drop 1) e) in (ap some p, q)

pub optional_word-IsPrefixCode : (w : ℕ) → IsPrefixCode (IsOptionalWord w) (optional_word w)
unfolding optional_word
optional_word-IsPrefixCode w = record { split = go }
  where
    go :
        (a b : Option ℕ) (x y : Bytes)
        → IsOptionalWord w a
        → IsOptionalWord w b
        → optional_word w a ++ x ≡ optional_word w b ++ y
        → (a ≡ b) × (x ≡ y)
    go none none x y ha hb e = (refl, cc)
    go none (some b) x y ha hb e = ground arith
    go (some a) none x y ha hb e = ground arith
    go (some a) (some b) x y ha hb e =
        let (p, q) = (word-IsPrefixCode w).split a b x y ha hb (ap (drop 1) e) in (ap some p, q)
