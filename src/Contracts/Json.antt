-- ===== src/Contracts/Json.antt =====
-- contracts/common.py: JSON values and objects, and Python's `dict.get` and `bool` on them.
use civitas.Prelude.{
  ℕ, ◌==◌, Bool, true, false, not, ◌&&◌, is_some, Option, none, some, String, str_eq, if◌then◌else◌,
}

mutual
  pub data JsonValue : Type 0 where
    null : JsonValue
    bool : Bool → JsonValue
    num : ℕ → JsonValue
    str : String → JsonValue
    arr : JsonArray → JsonValue
    obj : JsonObject → JsonValue

  pub data JsonArray : Type 0 where
    nil : JsonArray
    cons : JsonValue → JsonArray → JsonArray

  pub data JsonObject : Type 0 where
    end : JsonObject
    field : String → JsonValue → JsonObject → JsonObject

-- `o.get(key)`
abbrev pub get : JsonObject → String → Option JsonValue
get end key = none
get (field k v o) key = if str_eq k key then some v else get o key

-- `bool(v)`
unfoldable pub truthy : JsonValue → Bool
truthy JsonValue.null = false
truthy (bool b) = b
truthy (num n) = not (n == 0)
truthy (str s) = not (str_eq s "")
truthy (arr nil) = false
truthy (arr (cons v a)) = true
truthy (obj end) = false
truthy (obj (field k v o)) = true

-- Whether each key of the second object is one of the first.
has_keys : JsonObject → JsonObject → Bool
has_keys o end = true
has_keys o (field k v rest) = is_some (get o k) && has_keys o rest

-- `a == b`; the order of an object's fields does not count.
unfoldable mutual
  unfolding has_keys

  pub same_value : JsonValue → JsonValue → Bool
  same_value JsonValue.null JsonValue.null = true
  same_value (bool a) (bool b) = if a then b else not b
  same_value (bool a) (num b) = if a then b == 1 else b == 0
  same_value (num a) (bool b) = if b then a == 1 else a == 0
  same_value (num a) (num b) = a == b
  same_value (str a) (str b) = str_eq a b
  same_value (arr a) (arr b) = same_items a b
  same_value (obj a) (obj b) = within_object a b && has_keys a b
  same_value a b = false

  pub same_items : JsonArray → JsonArray → Bool
  same_items nil nil = true
  same_items (cons v a) (cons w b) = same_value v w && same_items a b
  same_items a b = false

  -- The second object has each field of the first.
  pub within_object : JsonObject → JsonObject → Bool
  within_object end o = true
  within_object (field k v rest) o =
      elim (get o k) [ none ↦ false | some w ↦ same_value v w ] && within_object rest o

unfoldable pub same_object : JsonObject → JsonObject → Bool
unfolding same_value has_keys
same_object a b = within_object a b && has_keys a b
