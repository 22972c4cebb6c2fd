-- ===== src/Core/Reference/Rows.antt =====
-- reference.rs: the invariant of the rows, and that insertion keeps it.
use mathlib.Core.Path.{subst}
use vyrm.Prelude.{
  ◌≤◌, ◌≡◌, refl, sym, ap, ◌∙◌, true, [], ◌∷◌, ok, lex_lt, lex_lt_trans, lex_lt_total, All, arith,
  Bool-cases, inl, inr, In, ◌≢◌,
}
use vyrm.Core.Error.{Bytes}
use vyrm.Core.Ident.{IsIdent}
use vyrm.Core.Claim.{Claim, validate}
use vyrm.Core.Key.{u64_max}
use vyrm.Core.Reference.{Rows, MemoryClaims, put_row, insert, iter, key_of}

-- A claim as the types of the program give it: accepted identifiers and `u64` instants.
pub record IsTyped (c : Claim) : Type 0 where
  pub subject : IsIdent c.subject
  pub predicate : IsIdent c.predicate
  pub from : c.valid_from ≤ u64_max
  pub tx : c.tx_time ≤ u64_max

abbrev pub IsRow : Bytes × Claim → Type 0
IsRow r = (r.0 ≡ key_of r.1) × IsTyped r.1 × (validate r.1 ≡ ok tt)

-- Every row is under the key of its claim, and the keys ascend.
abbrev pub IsOrdered : Rows → Type 0
IsOrdered [] = Unit
IsOrdered (r ∷ rows) = All (λ q. lex_lt r.0 q.0 ≡ true) rows × IsOrdered rows

pub record IsStore (m : MemoryClaims) : Type 0 where
  pub ordered : IsOrdered m.rows
  pub sound : All IsRow m.rows

abbrev Above : Bytes → Rows → Type 0
Above b = All (λ (q : Bytes × Claim). lex_lt b q.0 ≡ true)

Above-trans : (a b : Bytes) (rows : Rows) → lex_lt a b ≡ true → Above b rows → Above a rows
Above-trans a b [] h u = tt
Above-trans a b (r ∷ rows) h u = (lex_lt_trans a b r.0 h u.0, Above-trans a b rows h u.1)

module _ (k : Bytes) (c : Claim) where
  put_row-Above :
      (b : Bytes) (rows : Rows) → lex_lt b k ≡ true → Above b rows → Above b (put_row k c rows)
  unfolding put_row
  put_row-Above b [] h a = (h, tt)
  put_row-Above b ((j, d) ∷ rows) h a = elim (Bool-cases (lex_lt k j)) [
    | inl before ↦ rw before (h, a)
    | inr here ↦ elim (Bool-cases (lex_lt j k)) [
      | inl after ↦ rw (here, after) (a.0, put_row-Above b rows h a.1)
      | inr equal ↦ rw (here, equal) a
    ]
  ]

  put_row-IsOrdered : (rows : Rows) → IsOrdered rows → IsOrdered (put_row k c rows)
  unfolding put_row
  put_row-IsOrdered [] h = (tt, tt)
  put_row-IsOrdered ((j, d) ∷ rows) h = elim (Bool-cases (lex_lt k j)) [
    | inl before ↦ rw before ((before, Above-trans k j rows before h.0), h)
    | inr here ↦ elim (Bool-cases (lex_lt j k)) [
      | inl after ↦ rw (here, after) (put_row-Above j rows after h.0, put_row-IsOrdered rows h.1)
      | inr equal ↦ rw (here, equal) h
    ]
  ]

  put_row-All : (rows : Rows) → IsRow (k, c) → All IsRow rows → All IsRow (put_row k c rows)
  unfolding put_row
  put_row-All [] new a = (new, tt)
  put_row-All ((j, d) ∷ rows) new a = elim (Bool-cases (lex_lt k j)) [
    | inl before ↦ rw before (new, a)
    | inr here ↦ elim (Bool-cases (lex_lt j k)) [
      | inl after ↦ rw (here, after) (a.0, put_row-All rows new a.1)
      | inr equal ↦
          rw (here, equal) ((sym (lex_lt_total k j here equal) ∙ new.0, new.1, new.2), a.1)
    ]
  ]

  In-put_row_self : (rows : Rows) → In c (iter (put_row k c rows))
  unfolding put_row iter
  In-put_row_self [] = inl refl
  In-put_row_self ((j, d) ∷ rows) = elim (Bool-cases (lex_lt k j)) [
    | inl before ↦ rw before (inl refl)
    | inr here ↦ elim (Bool-cases (lex_lt j k)) [
      | inl after ↦ rw (here, after) (inr (In-put_row_self rows))
      | inr equal ↦ rw (here, equal) (inl refl)
    ]
  ]

  -- A row under another key stays.
  In-put_row :
      (rows : Rows) (e : Claim)
      → All IsRow rows
      → In e (iter rows)
      → key_of e ≢ k
      → In e (iter (put_row k c rows))
  unfolding put_row iter
  In-put_row [] e a m h = absurd m
  In-put_row ((j, d) ∷ rows) e a (inl p) h = elim (Bool-cases (lex_lt k j)) [
    | inl before ↦ rw before (inr (inl p))
    | inr here ↦ elim (Bool-cases (lex_lt j k)) [
      | inl after ↦ rw (here, after) (inl p)
      | inr equal ↦ absurd (h (ap key_of p ∙ sym a.0.0 ∙ sym (lex_lt_total k j here equal)))
    ]
  ]
  In-put_row ((j, d) ∷ rows) e a (inr m) h = elim (Bool-cases (lex_lt k j)) [
    | inl before ↦ rw before (inr (inr m))
    | inr here ↦ elim (Bool-cases (lex_lt j k)) [
      | inl after ↦ rw (here, after) (inr (In-put_row rows e a.1 m h))
      | inr equal ↦ rw (here, equal) (inr m)
    ]
  ]

-- An `insert` that succeeds keeps a store in key order with each claim under its own key, and each
-- claim one that `validate` accepts. The claim that it inserts is stored, and so is every claim that
-- was there under another key.
pub insert-IsStore :
    (m m' : MemoryClaims) (c : Claim)
    → IsStore m
    → IsTyped c
    → insert m c ≡ ok m'
    → IsStore m'
      × In c (iter m'.rows)
      × ((e : Claim) → In e (iter m.rows) → key_of e ≢ key_of c → In e (iter m'.rows))
unfolding insert
insert-IsStore m m' c s t h =
    let v : validate c ≡ ok tt = ground arith in
    let e : record { rows = put_row (key_of c) c m.rows } ≡ m' = ground arith in
    subst
      (λ (n : MemoryClaims).
        IsStore n
        × In c (iter n.rows)
        × ((e : Claim) → In e (iter m.rows) → key_of e ≢ key_of c → In e (iter n.rows)))
      e
      (
        record {
          ordered = put_row-IsOrdered (key_of c) c m.rows s.ordered;
          sound = put_row-All (key_of c) c m.rows (refl, t, v) s.sound;
        },
        In-put_row_self (key_of c) c m.rows,
        λ d there other. In-put_row (key_of c) c m.rows d s.sound there other,
      )
