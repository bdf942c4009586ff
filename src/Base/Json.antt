-- ===== src/Base/Json.antt =====
-- The JSON objects that the services store: the values of `metadata` columns. A number is kept as
-- the text of its literal.
use genesis_reserve_smarter.Base.Tests.{if◌then◌else◌}
use Prim.Native.String.{String}
use mathlib.Core.Option.{Option, none, some}
use package.text.Mathlib.Text.{◌==◌}

mutual
  pub data Json : Type 0 where
    null : Json
    text literal : String → Json
    obj : Fields → Json

  pub data Fields : Type 0 where
    end : Fields
    field : String → Json → Fields → Fields

-- `metadata->>'key'`: the field as text; SQL NULL where the object has no such key.
unfoldable pub get_text : String → Fields → Option String
get_text key end = none
get_text key (field k (text s) rest) = if k == key then some s else get_text key rest
get_text key (field k (literal s) rest) = if k == key then some s else get_text key rest
get_text key (field k null rest) = if k == key then none else get_text key rest
get_text key (field k (obj _) rest) = if k == key then none else get_text key rest
