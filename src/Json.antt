-- ===== src/Json.antt =====
-- Values that `json.loads` returns, Python's operations on them that the program uses, and
-- `_json_payload` (backend/src/sovereign_rag/agents/graph.py, the same text in compliance.py).
use sovereign_rag.Base.{
  ℕ, Option, none, some, List, [], ◌∷◌, Bool, true, false, ◌==◌, if◌then◌else◌,
}
use sovereign_rag.Text.{Text, codes, same_text}
use sovereign_rag.Effects.{value_error, other_error, Outcome, ok, raised}

mutual
  pub data Json : Type 0 where
    null : Json
    boolean : Bool → Json
    integer : ℕ → Json
    -- a negative integer or a float, by its literal
    number : Text → Json
    string : Text → Json
    array : Items → Json
    object : Fields → Json

  pub data Items : Type 0 where
    nil : Items
    cons : Json → Items → Items

  pub data Fields : Type 0 where
    end : Fields
    field : Text → Json → Fields → Fields

unfoldable pub items : Items → List Json
items nil = []
items (cons v rest) = v ∷ items rest

unfoldable pub keys : Fields → List Json
keys end = []
keys (field k v rest) = string k ∷ keys rest

chars : Text → List Json
chars [] = []
chars (c ∷ s) = string (c ∷ []) ∷ chars s

-- `for item in raw`: a list's items, a dict's keys, a string's characters
unfoldable pub iterate : Json → Outcome (List Json)
unfolding items keys chars
iterate (array xs) = ok (items xs)
iterate (object fs) = ok (keys fs)
iterate (string s) = ok (chars s)
iterate v = raised (other_error (codes "TypeError"))

-- `d.get(key)`; a key of `json.loads` is not repeated
unfoldable pub get : Text → Fields → Option Json
get key end = none
get key (field k v rest) = if same_text k key then some v else get key rest

-- What the program takes from the `json` module and from the `repr` of numbers and containers.
pub record JsonModule : Type 0 where
  -- json.loads; `none` is a JSONDecodeError
  pub loads : Text → Option Json
  -- str() of a number, a list or a dict
  pub repr : Json → Text

-- `str(v)`
unfoldable pub str_of : JsonModule → Json → Text
str_of m null = codes "None"
str_of m (boolean true) = codes "True"
str_of m (boolean false) = codes "False"
str_of m (string s) = s
str_of m v = m.repr v

-- The longest prefix that ends in `c`: what `.*` and a closing bracket match, greedily.
unfoldable pub up_to_last : ℕ → Text → Option Text
up_to_last c [] = none
up_to_last c (x ∷ s) = elim (up_to_last c s) [
  | some p ↦ some (x ∷ p)
  | none ↦ if x == c then some (x ∷ []) else none
]

open_with : ℕ → Option Text → Option Text → Option Text
open_with c (some p) otherwise = some (c ∷ p)
open_with c none otherwise = otherwise

-- `re.search(r"\[.*\]|\{.*\}", text, re.S)`, and the text that it matched
unfoldable pub json_span : Text → Option Text
unfolding up_to_last open_with
json_span [] = none
json_span (x ∷ s) =
    let later = json_span s in
    if x == b'['
    then open_with x (up_to_last b']' s) later
    else if x == b'{'
    then open_with x (up_to_last b'}' s) later
    else later

unfoldable pub load_span : JsonModule → Option Text → Outcome Json
load_span m none = raised value_error
load_span m (some s) = elim (m.loads s) [ none ↦ raised value_error | some v ↦ ok v ]

unfoldable pub json_payload : JsonModule → Text → Outcome Json
unfolding json_span load_span
json_payload m text = load_span m (json_span text)
