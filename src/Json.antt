-- ===== src/Json.antt =====
-- JSON documents as `encoding/json` reads and writes them, and messages with named fields.
use Prim.Native.Char.{code}
use orbit_api_gateway.Base.{
  ℕ, ◌-◌, String, Bool, true, false, ◌&&◌, Option, none, some, List, [], ◌∷◌, ◌==◌, leb, eqb,
  if◌then◌else◌,
}
use orbit_api_gateway.Base.Int.{ℤ}

mutual
  pub data Json : Type 0 where
    null : Json
    bool : Bool → Json
    num : ℤ → Json
    str : String → Json
    arr : Elems → Json
    obj : Members → Json

  pub data Elems : Type 0 where
    nil : Elems
    cons : Json → Elems → Elems

  pub data Members : Type 0 where
    end : Members
    member : String → Json → Members → Members

abbrev pub elems : Elems → List Json
elems nil = []
elems (cons v vs) = v ∷ elems vs

abbrev pub of_elems : List Json → Elems
of_elems [] = nil
of_elems (v ∷ vs) = cons v (of_elems vs)

abbrev pub members : Members → List (String × Json)
members end = []
members (member k v ms) = (k, v) ∷ members ms

abbrev pub of_members : List (String × Json) → Members
of_members [] = end
of_members ((k, v) ∷ ms) = member k v (of_members ms)

-- An object with the given members.
abbrev pub object : List (String × Json) → Json
object ms = obj (of_members ms)

abbrev pub texts : List (String × String) → List (String × Json)
texts [] = []
texts ((k, v) ∷ ms) = (k, str v) ∷ texts ms

find_member : String → Members → Json
find_member name end = null
find_member name (member k v rest) = if k == name then v else find_member name rest

-- A field of a message by its name; a field that is not set is `null`.
unfoldable pub field : String → Json → Json
unfolding find_member
field name (obj ms) = find_member name ms
field name _ = null

-- The getters of generated messages, which answer the zero value for a field that is not set.
unfoldable pub get_string : String → Json → String
unfolding field
get_string name m = elim (field name m) [ str s ↦ s | _ ↦ "" ]

unfoldable pub get_bool : String → Json → Bool
unfolding field
get_bool name m = elim (field name m) [ bool b ↦ b | _ ↦ false ]

unfoldable pub get_list : String → Json → List Json
unfolding field
get_list name m = elim (field name m) [ arr vs ↦ elems vs | _ ↦ [] ]

-- How `encoding/json` folds a rune before it compares a key with a field's ASCII name.
unfoldable pub fold_rune : ℕ → ℕ
fold_rune n =
    if leb b'a' n && leb n b'z'
    then n - 32
    else if eqb n 0x17f
    then b'S'
    else if eqb n 0x212a
    then b'K'
    else n

unfoldable pub same_key : String → String → Bool
unfolding fold_rune
same_key String.[] String.[] = true
same_key (String.◌∷◌ a s) (String.◌∷◌ b t) =
    eqb (fold_rune (code a)) (fold_rune (code b)) && same_key s t
same_key _ _ = false

-- A value into a field that holds `found`: `null` leaves the field as it is; `read` fails on a
-- value of another kind.
unfoldable pub merge {ℓ} : {A : Type ℓ} → (Json → Option A) → A → Json → Option A
merge read found null = some found
merge read found v = read v

-- One field of the struct that an object is decoded into: members are read in order, and a later
-- one overrides.
unfoldable pub decode_member {ℓ} :
    {A : Type ℓ} → (Json → Option A) → String → A → List (String × Json) → Option A
unfolding same_key merge
decode_member read name found [] = some found
decode_member read name found ((k, v) ∷ ms) =
    elim (if same_key k name then merge read found v else some found) [
      | none ↦ none
      | some f ↦ decode_member read name f ms
    ]

-- One field of the struct that a document is decoded into, with its zero value; a document `null`
-- leaves the struct as it is.
unfoldable pub decode_field {ℓ} : {A : Type ℓ} → (Json → Option A) → A → String → Json → Option A
unfolding decode_member
decode_field read zero_value name null = some zero_value
decode_field read zero_value name (obj ms) = decode_member read name zero_value (members ms)
decode_field read zero_value name _ = none

abbrev pub read_string : Json → Option String
read_string (str s) = some s
read_string _ = none

abbrev pub read_bool : Json → Option Bool
read_bool (bool b) = some b
read_bool _ = none

-- A `string` field.
unfoldable pub string_field : String → Json → Option String
unfolding decode_field
string_field name doc = decode_field read_string "" name doc

-- A `bool` field.
unfoldable pub bool_field : String → Json → Option Bool
unfolding decode_field
bool_field name doc = decode_field read_bool false name doc

-- Decoding of a `map[string]string`; a `null` value is the empty text.
unfoldable pub read_text_map : Members → Option (List (String × String))
read_text_map end = some []
read_text_map (member k v ms) = elim (merge read_string "" v) [
  | none ↦ none
  | some s ↦ elim (read_text_map ms) [ none ↦ none | some rest ↦ some ((k, s) ∷ rest) ]
]

abbrev pub read_map : Json → Option (List (String × String))
read_map (obj ms) = read_text_map ms
read_map _ = none

-- A `map[string]string` field; a repeated key of the document is not merged.
unfoldable pub map_field : String → Json → Option (List (String × String))
unfolding decode_field read_text_map
map_field name doc = decode_field read_map [] name doc
