-- ===== src/Exporter/Answers.antt =====
-- The answers of NzbDAV to one scrape, and what `_scrape` reads from them. A slot's status and
-- category are texts or null.
use media_stack.Common.{
  Bool, List, Option, Text, [], codes, false, if◌then◌else◌, none, put, some, true, ℕ, ◌∷◌,
}
use media_stack.Exporter.{Config}

-- What an object has under a key, where the code tests its type.
pub data Part {ℓ} (A : Type ℓ) : Type ℓ where
  missing malformed : Part A
  given : A → Part A

-- A slot, with what `_as_float` makes of its `mbleft`.
pub record Slot (F : Type 0) : Type 0 where
  pub status : Option Text
  pub cat : Option Text
  pub mbleft : F

-- Of a name, `none` is a missing key and `some none` is null.
pub record Item : Type 0 where
  pub config_name : Option (Option Text)
  pub config_key : Option Text
  pub config_value : Option Text

pub record ConfigAnswer : Type 0 where
  pub status_is_false : Bool
  pub config_items : Part (List (Option Item))

-- An entry of an array that is not an object is `none`.
abbrev pub Section : Type 0 → Type 0
Section F = Part (Part (List (Option (Slot F))))

-- The answers to the requests of one scrape; `none` where the request raises or what it returns is
-- not an object.
pub record Answers (F : Type 0) : Type 0 where
  pub queue : Option (Section F)
  pub history : Option (Section F)
  pub config : Option ConfigAnswer
  pub healthz : Option ℕ

unfoldable pub objects {ℓ} : {A : Type ℓ} → List (Option A) → List A
objects [] = []
objects (none ∷ xs) = objects xs
objects (some x ∷ xs) = x ∷ objects xs

-- `_slots`, where `none` is a ValueError.
unfoldable pub slots_of : {F : Type 0} → Section F → Option (List (Slot F))
unfolding objects
slots_of missing = some []
slots_of malformed = none
slots_of (given missing) = some []
slots_of (given malformed) = none
slots_of (given (given xs)) = some (objects xs)

unfoldable pub read_slots : {F : Type 0} → Option (Section F) → Option (List (Slot F))
unfolding slots_of
read_slots none = none
read_slots (some answer) = slots_of answer

-- `x or "unknown"`
unfoldable pub or_unknown : Option Text → Text
or_unknown none = codes "unknown"
or_unknown (some []) = codes "unknown"
or_unknown (some (c ∷ t)) = c ∷ t

-- `item.get("configName", item.get("configKey"))`
unfoldable pub item_name : Item → Option Text
item_name i = elim i.config_name [ none ↦ i.config_key | some name ↦ name ]

-- The dictionary of the items that have a name.
unfoldable pub add_item : Option Text → Option Text → Config → Config
unfolding put
add_item none value config = config
add_item (some []) value config = config
add_item (some (c ∷ t)) value config = put (c ∷ t) value config

unfoldable pub config_of : List Item → Config → Config
unfolding add_item item_name
config_of [] config = config
config_of (i ∷ items) config = config_of items (add_item (item_name i) i.config_value config)

unfoldable pub items_of : Part (List (Option Item)) → Option Config
unfolding config_of objects
items_of missing = some []
items_of malformed = none
items_of (given xs) = some (config_of (objects xs) [])

-- The configuration of an answer; `none` where the code raises.
unfoldable pub read_config : Option ConfigAnswer → Option Config
unfolding items_of
read_config none = none
read_config (some a) = if a.status_is_false then none else items_of a.config_items

abbrev pub joined {ℓ} : {A : Type ℓ} → Option (Option A) → Option A
joined none = none
joined (some o) = o

abbrev pub is_given {ℓ} : {A : Type ℓ} → Option A → Bool
is_given none = false
is_given (some a) = true
