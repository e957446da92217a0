-- ===== src/Json.antt =====
-- JSON values, as in the JSON columns and in AWS requests and answers. A Python dict keeps its
-- keys' insertion order, and so do `Fields`.
use cloud_billing_console.Prelude.{ℕ, Bool, String, Option, none, some, if◌then◌else◌, str_eq}

mutual
  pub data Json : Type 0 where
    null : Json
    bool : Bool → Json
    num : ℕ → Json
    str : String → Json
    arr : Items → Json
    dict : Fields → Json

  pub data Items : Type 0 where
    nil : Items
    cons : Json → Items → Items

  pub data Fields : Type 0 where
    empty : Fields
    field : String → Json → Fields → Fields

-- d.get(k)
unfoldable pub get : Fields → String → Option Json
get empty k = none
get (field j v r) k = if str_eq j k then some v else get r k

-- d[k] = v
unfoldable pub put : Fields → String → Json → Fields
put empty k v = field k v empty
put (field j w r) k v = if str_eq j k then field j v r else field j w (put r k v)
