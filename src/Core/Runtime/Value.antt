-- ===== src/Core/Runtime/Value.antt =====
-- crates/vyrm-core/src/runtime.rs, `RuntimeValue`: the values of properties.
use vyrm.Prelude.{ℕ, Bool, true, false, ◌&&◌, ◌==◌, bytes_eq, ℤ, pos, negsuc, Map}
use vyrm.Core.Error.{Bytes}

mutual
  pub data RuntimeValue : Type 0 where
    null : RuntimeValue
    boolean : Bool → RuntimeValue
    integer : ℤ → RuntimeValue
    unsigned : ℕ → RuntimeValue
    decimal : Bytes → RuntimeValue
    string : Bytes → RuntimeValue
    digest : Bytes → RuntimeValue
    list : RuntimeValues → RuntimeValue
    map : RuntimeEntries → RuntimeValue

  pub data RuntimeValues : Type 0 where
    nil : RuntimeValues
    cons : RuntimeValue → RuntimeValues → RuntimeValues

  pub data RuntimeEntries : Type 0 where
    end : RuntimeEntries
    entry : Bytes → RuntimeValue → RuntimeEntries → RuntimeEntries

abbrev pub RuntimeProperties : Type 0
RuntimeProperties = Map Bytes RuntimeValue

abbrev pub same_bool : Bool → Bool → Bool
same_bool true true = true
same_bool false false = true
same_bool _ _ = false

abbrev pub same_int : ℤ → ℤ → Bool
same_int (pos a) (pos b) = a == b
same_int (negsuc a) (negsuc b) = a == b
same_int _ _ = false

-- The derived `PartialEq`.
unfoldable mutual
  pub value_eq : RuntimeValue → RuntimeValue → Bool
  value_eq null null = true
  value_eq (boolean a) (boolean b) = same_bool a b
  value_eq (integer a) (integer b) = same_int a b
  value_eq (unsigned a) (unsigned b) = a == b
  value_eq (decimal a) (decimal b) = bytes_eq a b
  value_eq (string a) (string b) = bytes_eq a b
  value_eq (digest a) (digest b) = bytes_eq a b
  value_eq (list a) (list b) = values_eq a b
  value_eq (map a) (map b) = entries_eq a b
  value_eq _ _ = false

  pub values_eq : RuntimeValues → RuntimeValues → Bool
  values_eq nil nil = true
  values_eq (cons x a) (cons y b) = value_eq x y && values_eq a b
  values_eq _ _ = false

  pub entries_eq : RuntimeEntries → RuntimeEntries → Bool
  entries_eq end end = true
  entries_eq (entry k x a) (entry j y b) = bytes_eq k j && value_eq x y && entries_eq a b
  entries_eq _ _ = false
