-- ===== src/Value.antt =====
-- Values of JSON and YAML documents, as the Python programs hold them: None, bool, int, str, list
-- and dict. Any other scalar (a float, a date) is its text with its truth value.
pub mod Dict
pub mod Dump
use jenkins_to_actions_migra.Prelude.{
  ℕ, zero, suc, Bool, true, false, not, Text, equal, Option, none, some, if◌then◌else◌, ◌==◌, List,
  [], ◌∷◌,
}

-- `integer true n` is -n. A list and a dict hold values, so their contents are two more types.
mutual
  pub data Value : Type 0 where
    null : Value
    boolean : Bool → Value
    integer : Bool → ℕ → Value
    other : Bool → Text → Value
    string : Text → Value
    list : Items → Value
    dict : Fields → Value

  pub data Items : Type 0 where
    nil : Items
    cons : Value → Items → Items

  pub data Fields : Type 0 where
    end : Fields
    field : Text → Value → Fields → Fields

abbrev pub items_of : List Value → Items
items_of [] = nil
items_of (v ∷ vs) = cons v (items_of vs)

abbrev pub fields_of : List (Text × Value) → Fields
fields_of [] = end
fields_of ((k, v) ∷ fs) = field k v (fields_of fs)

abbrev pub number : ℕ → Value
number n = integer false n
