-- ===== src/Base/Json.antt =====
-- The values of a JSON document, as `json.loads` and the JSONB columns hold them.
use Prim.Native.Nat.{ℕ}
use Prim.Native.String.{String}
use mathlib.Core.Bool.{Bool}
use mathlib.Core.List.{List, [], ◌∷◌}
use akasha_ingestion.Base.Dict.{Dict}

-- A count is a number; any other number stands as its literal, and no module computes with it.
mutual
  pub data Value : Type 0 where
    null : Value
    bool : Bool → Value
    number : ℕ → Value
    literal : String → Value
    text : String → Value
    array : Items → Value
    object : Fields → Value

  pub data Items : Type 0 where
    nil : Items
    cons : Value → Items → Items

  pub data Fields : Type 0 where
    end : Fields
    field : String → Value → Fields → Fields

-- A JSON array of strings, and a JSON object from a dict.
abbrev pub text_items : List String → Items
text_items [] = nil
text_items (t ∷ ts) = cons (text t) (text_items ts)

abbrev pub texts : List String → Value
texts ts = array (text_items ts)

abbrev pub fields_of : Dict String Value → Fields
fields_of [] = end
fields_of ((name, value) ∷ d) = field name value (fields_of d)
