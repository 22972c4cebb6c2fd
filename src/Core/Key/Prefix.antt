-- ===== src/Core/Key/Prefix.antt =====
-- key.rs: `prefix_end` is the least bound above every key with the prefix, and above no other.
use mathlib.Core.List.{reverse-cons, append_assoc, append-nil}
use vyrm.Prelude.{
  ◌+◌, ◌<◌, ◌≡◌, refl, sym, ◌∙◌, ap, Bool, true, false, ◌&&◌, not, [], ◌∷◌, ◌++◌, Option, none,
  some, ltb, ◌==◌, if◌then◌else◌, lex_lt, lex_lt-nil, reverse, All, arith, inl, inr, Option-cases,
}
use vyrm.Core.Error.{Bytes}
use vyrm.Core.Key.{prefix_end, prefix_end_loop}

abbrev pub IsBytes : Bytes → Type 0
IsBytes = All (λ b. b < 256)

-- `key.starts_with(prefix)`
unfoldable pub starts_with : Bytes → Bytes → Bool
starts_with [] k = true
starts_with (x ∷ p) [] = false
starts_with (x ∷ p) (y ∷ k) = x == y && starts_with p k

-- The same bound by recursion from the front.
bound : Bytes → Option Bytes
bound [] = none
bound (x ∷ p) = elim (bound p) [
  | some e ↦ some (x ∷ e)
  | none ↦ if ltb x 0xFF then some ((x + 1) ∷ []) else none
]

-- What the loop makes of bytes in front of which others stand.
prepend : Bytes → Option Bytes → Option Bytes → Option Bytes
prepend front none other = other
prepend front (some e) other = some (front ++ e)

prefix_end_loop-reverse :
    (xs ys : Bytes)
    → prefix_end_loop (reverse xs ++ ys) ≡ prepend (reverse ys) (bound xs) (prefix_end_loop ys)
unfolding bound prepend prefix_end_loop
prefix_end_loop-reverse [] ys = refl
prefix_end_loop-reverse (x ∷ xs) ys =
    simp (reverse-cons, append_assoc)
      (prefix_end_loop-reverse xs (x ∷ ys) ∙ elim (Option-cases (bound xs)) [
        | inl full ↦ ground (arith, reverse-cons x ys, reverse-cons (x + 1) ys)
        | inr (e, found) ↦ ground (arith, reverse-cons x ys, append_assoc (reverse ys) (x ∷ []) e)
      ])

prefix_end-bound : (p : Bytes) → prefix_end p ≡ bound p
unfolding prefix_end bound prepend prefix_end_loop
prefix_end-bound p =
    ap prefix_end_loop (sym (append-nil (reverse p)))
    ∙ prefix_end_loop-reverse p []
    ∙ ground (arith, Option-cases (bound p))

-- Where no bound exists every byte of `p` is 255, and no byte string lies above its extensions.
unbounded_range :
    (p k : Bytes) → IsBytes p → IsBytes k → bound p ≡ none → not (lex_lt k p) ≡ starts_with p k
unfolding bound lex_lt starts_with
unbounded_range [] [] hp hk h = refl
unbounded_range [] (y ∷ k) hp hk h = refl
unbounded_range (x ∷ p) [] hp hk h = refl
unbounded_range (x ∷ p) (y ∷ k) hp hk h = ground (arith, hp.0, hk.0, unbounded_range p k hp.1 hk.1)

-- A key is in the range from the bytes `p` to their bound exactly when it begins with `p`.
bound_range :
    (p e k : Bytes)
    → IsBytes p
    → IsBytes k
    → bound p ≡ some e
    → (not (lex_lt k p) && lex_lt k e) ≡ starts_with p k
unfolding bound lex_lt starts_with
bound_range [] e k hp hk h = ground arith
bound_range (x ∷ p) e [] hp hk h = ground arith
bound_range (x ∷ p) e (y ∷ k) hp hk h = elim (Option-cases (bound p)) [
  | inl full ↦
      let q : e ≡ (x + 1) ∷ [] = ground arith in
      let small : x < 255 = ground arith in
      rw q (unfold lex_lt in ground (arith, lex_lt-nil k, unbounded_range p k hp.1 hk.1 full))
  | inr (e', found) ↦
      let q : e ≡ x ∷ e' = ground arith in
      rw q (unfold lex_lt in ground (arith, bound_range p e' k hp.1 hk.1 found))
]

-- Below the end of a range, where it has one.
abbrev pub below : Bytes → Option Bytes → Bool
below k none = true
below k (some e) = lex_lt k e

-- For byte strings: a key is at or above `p` and, if `prefix_end p` gives a bound, below it, exactly
-- when it begins with `p`. So the scan from a prefix to its end meets the keys with that prefix,
-- and no other, also where no bound exists.
pub prefix_end_range :
    (p k : Bytes)
    → IsBytes p
    → IsBytes k
    → (not (lex_lt k p) && below k (prefix_end p)) ≡ starts_with p k
prefix_end_range p k hp hk = rw prefix_end-bound (elim (Option-cases (bound p)) [
  | inl e ↦ rw e (ground (arith, unbounded_range p k hp hk e))
  | inr (e, h) ↦ rw h (bound_range p e k hp hk h)
])
