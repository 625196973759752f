-- ===== src/Model/Json.antt =====
-- The values of `serde_json`, which the engine keeps as profile preferences. A number is kept as
-- its text.
use media_app.Prelude.{String, Bool}

mutual
  pub data Value : Type 0 where
    null : Value
    boolean : Bool → Value
    number : String → Value
    text : String → Value
    array : Values → Value
    object : Fields → Value

  pub data Values : Type 0 where
    nil : Values
    cons : Value → Values → Values

  pub data Fields : Type 0 where
    end : Fields
    field : String → Value → Fields → Fields
