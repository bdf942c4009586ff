-- ===== src/Web/Js.antt =====
-- The values that JSON texts have in JavaScript, and what the handlers do with a value of any shape.
-- A number stands as the text that `String(n)` gives.
use genesis_reserve_smarter.Base.{
  String, Option, none, some, Bool, true, false, not, str_eq, if◌then◌else◌,
}
use genesis_reserve_smarter.Base.Like.{cat}

mutual
  pub data Js : Type 0 where
    null : Js
    bool : Bool → Js
    number text : String → Js
    obj : Props → Js
    arr : Items → Js

  pub data Props : Type 0 where
    end : Props
    prop : String → Js → Props → Props

  pub data Items : Type 0 where
    nil : Items
    item : Js → Items → Items

-- The property of an object; `none` is `undefined`.
unfoldable pub prop_of : String → Props → Option Js
prop_of key end = none
prop_of key (prop k v rest) = if str_eq k key then some v else prop_of key rest

-- `value?.key`
unfoldable pub at : Option Js → String → Option Js
unfolding prop_of
at (some (obj props)) key = prop_of key props
at _ key = none

-- Whether `if (value)` is taken.
unfoldable pub truthy : Option Js → Bool
truthy none = false
truthy (some null) = false
truthy (some (bool b)) = b
truthy (some (number s)) = not (str_eq s "0")
truthy (some (text s)) = not (str_eq s "")
truthy (some (obj _)) = true
truthy (some (arr _)) = true

unfoldable mutual
  -- `String(value)`
  pub text_of : Js → String
  text_of null = "null"
  text_of (bool true) = "true"
  text_of (bool false) = "false"
  text_of (number s) = s
  text_of (text s) = s
  text_of (obj _) = "[object Object]"
  text_of (arr items) = joined items

  pub joined : Items → String
  joined nil = ""
  joined (item v nil) = item_text v
  joined (item v (item u rest)) = cat (item_text v) (cat "," (joined (item u rest)))

  -- In an array `null` is printed as nothing.
  pub item_text : Js → String
  item_text null = ""
  item_text (bool true) = "true"
  item_text (bool false) = "false"
  item_text (number s) = s
  item_text (text s) = s
  item_text (obj _) = "[object Object]"
  item_text (arr items) = joined items

unfoldable pub string : Option Js → String
unfolding text_of
string none = "undefined"
string (some v) = text_of v

-- `value ? String(value) : undefined`, also with `null`
unfoldable pub string_if : Option Js → Option String
unfolding truthy string
string_if v = if truthy v then some (string v) else none

-- `value === s`
unfoldable pub is_text : Option Js → String → Bool
is_text (some (text t)) s = str_eq t s
is_text _ s = false

-- `typeof value === 'string' ? value : null`
unfoldable pub text_only : Option Js → Option String
text_only (some (text t)) = some t
text_only _ = none

-- `{ ...props, key: value }`
unfoldable pub with_prop : String → Js → Props → Props
with_prop key value end = prop key value end
with_prop key value (prop k v rest) =
    if str_eq k key then prop k value rest else prop k v (with_prop key value rest)

-- `{ ...props, ...more }`
unfoldable pub spread : Props → Props → Props
unfolding with_prop
spread props end = props
spread props (prop k v rest) = spread (with_prop k v props) rest

-- `{ ...props, key: undefined }`, read back or printed.
unfoldable pub without_prop : String → Props → Props
without_prop key end = end
without_prop key (prop k v rest) =
    if str_eq k key then without_prop key rest else prop k v (without_prop key rest)

-- `a === b` for values of two different parses: two objects are never the same.
unfoldable pub same : Js → Js → Bool
same null null = true
same (bool true) (bool true) = true
same (bool false) (bool false) = true
same (number s) (number t) = str_eq s t
same (text s) (text t) = str_eq s t
same _ _ = false

-- `a ?? b`
unfoldable pub coalesce : Option Js → Option Js → Option Js
coalesce none b = b
coalesce (some null) b = b
coalesce (some v) b = some v
