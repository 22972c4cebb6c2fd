-- ===== src/Core/Ident.antt =====
-- crates/vyrm-core/src/ident.rs: validated identifiers. `Subject`, `Predicate` and `Reader` are
-- three instances of one macro, which is `Ident` here, with the label as an argument of `new`.
use vyrm.Prelude.{
  ℕ, String, ◌≡◌, Bool, true, false, ◌&&◌, ◌||◌, [], ◌∷◌, ok, err, ltb, leb, ◌==◌, if◌then◌else◌,
  Option, none, some, arith, All, ◌<◌, Option-cases, inl, inr, ◌-◌,
}
use vyrm.Core.Error.{Bytes, Outcome, empty_identifier, separator_in_identifier}

-- Byte that separates key fields. No identifier may contain it.
abbrev pub sep : ℕ
sep = 0x00

pub record Ident : Type 0 where
  pub text : Bytes

abbrev pub Subject : Type 0
Subject = Ident

abbrev pub Predicate : Type 0
Predicate = Ident

abbrev pub Reader : Type 0
Reader = Ident

abbrev pub is_empty : Bytes → Bool
is_empty [] = true
is_empty (b ∷ bs) = false

-- `slice.contains(&byte)`
unfoldable pub contains : Bytes → ℕ → Bool
contains [] c = false
contains (b ∷ bs) c = b == c || contains bs c

unfoldable pub new : String → Bytes → Outcome Ident
new kind value =
    if is_empty value
    then err (empty_identifier kind)
    else if contains value sep
    then err (separator_in_identifier kind value)
    else ok (record { text = value })

-- What a decoder of UTF-8 has seen: the end of a character, or a character that still wants a byte
-- between two bounds and then some more continuation bytes.
pub data Utf8 : Type 0 where
  start : Utf8
  want : ℕ → ℕ → ℕ → Utf8

-- The well-formed byte sequences of the Unicode standard (table 3-7), one byte at a time.
abbrev utf8_lead : ℕ → Option Utf8
utf8_lead b =
    if ltb b 0x80
    then some start
    else if leb 0xC2 b && leb b 0xDF
    then some (want 0x80 0xBF 0)
    else if b == 0xE0
    then some (want 0xA0 0xBF 1)
    else if b == 0xED
    then some (want 0x80 0x9F 1)
    else if leb 0xE1 b && leb b 0xEF
    then some (want 0x80 0xBF 1)
    else if b == 0xF0
    then some (want 0x90 0xBF 2)
    else if leb 0xF1 b && leb b 0xF3
    then some (want 0x80 0xBF 2)
    else if b == 0xF4
    then some (want 0x80 0x8F 2)
    else none

abbrev utf8_tail : ℕ → ℕ → ℕ → ℕ → Option Utf8
utf8_tail lo hi more b =
    if leb lo b && leb b hi
    then some (if more == 0 then start else want 0x80 0xBF (more - 1))
    else none

abbrev utf8_step : Utf8 → ℕ → Option Utf8
utf8_step start b = utf8_lead b
utf8_step (want lo hi more) b = utf8_tail lo hi more b

utf8_run : Utf8 → Bytes → Bool
utf8_run start [] = true
utf8_run (want lo hi more) [] = false
utf8_run s (b ∷ bs) = elim (utf8_step s b) [ none ↦ false | some s' ↦ utf8_run s' bs ]

-- `std::str::from_utf8` and `String::from_utf8` accept exactly the well-formed sequences.
unfoldable pub is_utf8 : Bytes → Bool
unfolding utf8_run
is_utf8 bytes = utf8_run start bytes

-- Well-formed UTF-8 is made of bytes.
abbrev IsBounded : Utf8 → Type 0
IsBounded start = Unit
IsBounded (want lo hi more) = hi < 256

utf8_step-IsBounded :
    (s : Utf8) (b : ℕ) (s' : Utf8)
    → IsBounded s
    → utf8_step s b ≡ some s'
    → (b < 256) × IsBounded s'
utf8_step-IsBounded start b start k h = ground arith
utf8_step-IsBounded start b (want lo hi more) k h = ground arith
utf8_step-IsBounded (want lo' hi' more') b start k h = ground arith
utf8_step-IsBounded (want lo' hi' more') b (want lo hi more) k h = ground arith

utf8_run-All : (s : Utf8) (bs : Bytes) → utf8_run s bs ≡ true → IsBounded s → All (λ b. b < 256) bs
unfolding utf8_run
utf8_run-All s [] h k = tt
utf8_run-All start (b ∷ bs) h k = elim (Option-cases (utf8_lead b)) [
  | inl stuck ↦ absurd (ground arith)
  | inr (s', next) ↦
      let (byte, more) = utf8_step-IsBounded start b s' k next in
      (byte, utf8_run-All s' bs (ground (arith, next, h)) more)
]
utf8_run-All (want lo hi n) (b ∷ bs) h k = elim (Option-cases (utf8_tail lo hi n b)) [
  | inl stuck ↦ absurd (ground arith)
  | inr (s', next) ↦
      let (byte, more) = utf8_step-IsBounded (want lo hi n) b s' k next in
      (byte, utf8_run-All s' bs (ground (arith, next, h)) more)
]

pub is_utf8-All : (bs : Bytes) → is_utf8 bs ≡ true → All (λ b. b < 256) bs
unfolding is_utf8
is_utf8-All bs h = utf8_run-All start bs h tt

-- What `new` lets through: a text (a `String` is well-formed UTF-8) that is not empty and holds no
-- separator, which is the one invariant that the key encoding rests on.
pub record IsIdent (i : Ident) : Type 0 where
  pub utf8 : is_utf8 i.text ≡ true
  pub nonempty : is_empty i.text ≡ false
  pub no_sep : contains i.text sep ≡ false

-- What the constructor accepts of a UTF-8 string is that string, without a separator and not empty.
pub new-IsIdent :
    (kind : String) (value : Bytes) (i : Ident)
    → is_utf8 value ≡ true
    → new kind value ≡ ok i
    → IsIdent i × (i.text ≡ value)
unfolding new
new-IsIdent kind value i u h = ground arith

pub new_of_IsIdent : (kind : String) (i : Ident) → IsIdent i → new kind i.text ≡ ok i
unfolding new
new_of_IsIdent kind i h = ground arith
