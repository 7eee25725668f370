-- ===== src/Json.antt =====
-- Values of a parsed JSON document, with what JavaScript's own operations make of them. A number is
-- kept as the text that `String` gives for it: the sources only turn numbers into text and test them.
use rubber_duck.Prelude.{
  Bool, true, false, not, Option, none, some, List, [], ◌∷◌, if◌then◌else◌, Text, codes, same, join,
}

mutual
  pub data Json : Type 0 where
    null : Json
    bool : Bool → Json
    num : Text → Json
    str : Text → Json
    arr : Items → Json
    obj : Fields → Json

  pub data Items : Type 0 where
    nil : Items
    cons : Json → Items → Items

  pub data Fields : Type 0 where
    end : Fields
    field : Text → Json → Fields → Fields

-- The value of a key; where a document repeats it, the last one.
unfoldable pub get_field : Text → Fields → Option Json
unfolding same
get_field k end = none
get_field k (field j v fs) = elim (get_field k fs) [
  | some w ↦ some w
  | none ↦ if same j k then some v else none
]

-- `Boolean(v)`
unfoldable pub truthy : Json → Bool
unfolding same
truthy null = false
truthy (bool b) = b
truthy (num t) = not (same t (codes "0"))
truthy (str []) = false
truthy (str (c ∷ s)) = true
truthy (arr _) = true
truthy (obj _) = true

infixl 5 ◌>>=◌
abbrev ◌>>=◌ {ℓ κ} : {A : Type ℓ} {B : Type κ} → Option A → (A → Option B) → Option B
none >>= f = none
some a >>= f = f a

abbrev object_text : Option Json → Option Text
object_text none = some (codes "[object Object]")
object_text (some v) = none

-- `String(v)`. An array joins its elements by commas, and an element that is null gives no text. An
-- object whose own `toString` hides the inherited one cannot be converted, and the call throws.
unfoldable mutual
  unfolding join get_field

  pub to_text : Json → Option Text
  to_text null = some (codes "null")
  to_text (bool true) = some (codes "true")
  to_text (bool false) = some (codes "false")
  to_text (num t) = some t
  to_text (str s) = some s
  to_text (arr xs) = do some (join (codes ",") (← element_texts xs))
  to_text (obj fs) = object_text (get_field (codes "toString") fs)

  pub element_texts : Items → Option (List Text)
  element_texts nil = some []
  element_texts (cons null xs) = do some ([] ∷ (← element_texts xs))
  element_texts (cons v xs) = do some ((← to_text v) ∷ (← element_texts xs))
