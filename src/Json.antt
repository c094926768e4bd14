-- ===== src/Json.antt =====
-- `serde_json::Value` as the source takes it apart, and the readings of it that the source uses.
-- `N` stands for `serde_json::Number`, which the source never takes apart. An object is the list
-- of its fields. The encoder and the parser are parameters of the modules that call them.
use spinfoam.Prelude.{Bool, Option, none, some, ite}
use spinfoam.Text.{Text, text_discrete}

mutual
  pub data Value (N : Type 0) : Type 0 where
    null : Value N
    boolean : Bool → Value N
    number : N → Value N
    string : Text → Value N
    array : Items N → Value N
    object : Fields N → Value N

  pub data Items (N : Type 0) : Type 0 where
    nil : Items N
    cons : Value N → Items N → Items N

  pub data Fields (N : Type 0) : Type 0 where
    end : Fields N
    field : Text → Value N → Fields N → Fields N

module _ {N : Type 0} where
  abbrev pub get_field : Text → Fields N → Option (Value N)
  get_field k end = none
  get_field k (field j v fs) = ite (text_discrete j k) (some v) (get_field k fs)

  -- `Value::get` with a string: a field of an object, nothing of any other value.
  abbrev pub get : Value N → Text → Option (Value N)
  get (object fs) k = get_field k fs
  get null k = none
  get (boolean b) k = none
  get (number n) k = none
  get (string s) k = none
  get (array xs) k = none

  abbrev pub as_str : Value N → Option Text
  as_str (string s) = some s
  as_str null = none
  as_str (boolean b) = none
  as_str (number n) = none
  as_str (array xs) = none
  as_str (object fs) = none

  -- `value.get(key).and_then(Value::as_str)`, which is also `value[key].as_str()`: a missing field
  -- reads as `Null`, which is no string.
  abbrev pub get_str : Value N → Text → Option Text
  get_str v k = elim (get v k) [ none ↦ none | some w ↦ as_str w ]
