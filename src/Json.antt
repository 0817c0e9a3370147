-- ===== src/Json.antt =====
-- Decoded JSON values, as `json.loads` returns them (Python's dict, list, str, int, float, bool
-- and None), with the dict operations that the source uses. A dict is its list of items in
-- insertion order.
use arjim.Base.{
  ℕ, suc, ◌+◌, String, Option, none, some, Bool, true, false, List, [], ◌∷◌, if◌then◌else◌, ◌==◌,
  ◌!=◌, not, ◌&&◌, ◌||◌, codes, nat_eq, string_eq,
}

mutual
  pub data Json : Type 0 where
    null : Json
    bool : Bool → Json
    int : ℕ → Json
    -- `negative n` is the integer -(n + 1); `float` keeps its literal
    negative : ℕ → Json
    float : String → Json
    str : String → Json
    arr : Items → Json
    obj : Fields → Json

  pub data Items : Type 0 where
    nil : Items
    cons : Json → Items → Items

  pub data Fields : Type 0 where
    end : Fields
    field : String → Json → Fields → Fields

-- The number of nodes.
unfoldable mutual
  pub size : Json → ℕ
  size null = 1
  size (bool b) = 1
  size (int n) = 1
  size (negative n) = 1
  size (float s) = 1
  size (str s) = 1
  size (arr items) = suc (size_items items)
  size (obj fields) = suc (size_fields fields)

  pub size_items : Items → ℕ
  size_items nil = 0
  size_items (cons d rest) = size d + size_items rest

  pub size_fields : Fields → ℕ
  size_fields end = 0
  size_fields (field name d rest) = size d + size_fields rest

-- `fields.get(key)`, where `none` means that the key is missing.
unfoldable pub get_field : String → Fields → Option Json
get_field key end = none
get_field key (field k v fs) = if k == key then some v else get_field key fs

-- `document.get(key)` on a dict; no other value has the key.
unfoldable pub get : String → Json → Option Json
unfolding get_field
get key (obj fs) = get_field key fs
get key _ = none

-- `isinstance(document, dict)`
abbrev pub is_dict : Json → Bool
is_dict (obj fs) = true
is_dict _ = false

abbrev pub of_items : Items → List Json
of_items nil = []
of_items (cons x xs) = x ∷ of_items xs

-- The mantissa of a float's literal is zero.
zero_mantissa : List ℕ → Bool
zero_mantissa [] = true
zero_mantissa (c ∷ cs) =
    let rest = zero_mantissa cs in
    c == b'e' || c == b'E' || ((c == b'0' || c == b'.' || c == b'-') && rest)

-- `bool(value)`
unfoldable pub truthy : Json → Bool
unfolding zero_mantissa
truthy null = false
truthy (bool b) = b
truthy (int n) = n != 0
truthy (negative n) = true
truthy (float s) = not (zero_mantissa (codes s))
truthy (str s) = s != ""
truthy (arr nil) = false
truthy (arr (cons x xs)) = true
truthy (obj end) = false
truthy (obj (field name x fs)) = true

-- `document.get(a) or document.get(b) or … or default`, of a dict
unfoldable pub get_or : List String → Json → Json → Json
get_or [] default document = default
get_or (key ∷ keys) default document =
    let rest = get_or keys default document in
    elim (get key document) [ none ↦ rest | some v ↦ if truthy v then v else rest ]

abbrev pub to_items : List Json → Items
to_items [] = nil
to_items (x ∷ xs) = cons x (to_items xs)
