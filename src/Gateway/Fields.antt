-- ===== src/Gateway/Fields.antt =====
-- How encoding/json decodes the fields of a body for the structs of the handlers, and the validator's
-- rules. The text of an error is the library's, for a field and what it breaks.
use mini_databricks.Base.{
  ℕ, ◌^◌, ◌-◌, ℤ, pos, negsuc, Bool, true, false, Option, none, some, List, [], ◌∷◌, ltb,
  if◌then◌else◌,
}
use mini_databricks.Base.Text.{Text, codes, same_text}
use mini_databricks.Errors.{GoError, Result, ok, err}
use mini_databricks.World.{Env}
use mini_databricks.Gateway.Http.{JsonValue, text, number, null_value, JsonField}

infixl 5 ◌>>=◌
unfoldable pub ◌>>=◌ : {A B : Type 0} → Result A → (A → Result B) → Result B
◌>>=◌ (ok a) f = f a
◌>>=◌ (err e) f = err e

unfoldable pub field_named : Text → List JsonField → Option JsonField
field_named key [] = none
field_named key (f ∷ fs) =
    let later = field_named key fs in if same_text f.name key then some f else later

-- Decoding: a field that is missing or null keeps the zero value of its type.
module _ (fault : Text → Text → GoError) (fields : List JsonField) where
  abbrev text_of : Text → Option JsonValue → Result Text
  text_of key none = ok []
  text_of key (some (text t)) = ok t
  text_of key (some null_value) = ok []
  text_of key (some _) = err (fault key (codes "type"))

  abbrev value_of : Option JsonField → Option JsonValue
  value_of none = none
  value_of (some f) = some f.value

  unfoldable pub text_field : Text → Result Text
  unfolding field_named
  text_field key = text_of key (value_of (field_named key fields))

  -- `int32` and `int64`
  abbrev fits : ℕ → ℤ → Bool
  fits bits (pos n) = ltb n (2 ^ (bits - 1))
  fits bits (negsuc n) = ltb n (2 ^ (bits - 1))

  abbrev int_of : ℕ → Text → Option JsonValue → Result ℤ
  int_of bits key none = ok (pos 0)
  int_of bits key (some (number n)) = if fits bits n then ok n else err (fault key (codes "type"))
  int_of bits key (some null_value) = ok (pos 0)
  int_of bits key (some _) = err (fault key (codes "type"))

  unfoldable pub int_field : ℕ → Text → Result ℤ
  unfolding field_named
  int_field bits key = int_of bits key (value_of (field_named key fields))

  -- `*string`
  abbrev pointer_of : Text → Option JsonValue → Result (Option Text)
  pointer_of key none = ok none
  pointer_of key (some (text t)) = ok (some t)
  pointer_of key (some null_value) = ok none
  pointer_of key (some _) = err (fault key (codes "type"))

  unfoldable pub pointer_field : Text → Result (Option Text)
  unfolding field_named
  pointer_field key = pointer_of key (value_of (field_named key fields))

-- `json.RawMessage`
abbrev raw_of : Option JsonField → Text
raw_of none = []
raw_of (some f) = f.raw

unfoldable pub raw_field : List JsonField → Text → Text
unfolding field_named
raw_field fields key = raw_of (field_named key fields)

-- A `binding` tag, by the validator.
abbrev rule_as : Text → Text → (Text → Text → GoError) → Bool → Result (Unit {0})
rule_as key tag fault true = ok tt
rule_as key tag fault false = err (fault key tag)

unfoldable pub rule : Env → Text → Text → Text → Result (Unit {0})
rule env key tag t = rule_as key tag env.field_error (env.satisfies tag t)

unfoldable pub number_rule : Env → Text → Text → ℤ → Result (Unit {0})
number_rule env key tag n = rule_as key tag env.field_error (env.number_satisfies tag n)

unfoldable pub required : Env → Text → Text → Result (Unit {0})
unfolding rule
required env key t = rule env key (codes "required") t
