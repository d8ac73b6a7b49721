-- ===== src/Reflection/Store.antt =====
-- `ReflectionStore` of python/services/reflection_store.py. The file holds a text, of a type that
-- is a parameter, or is missing; `json.dump` and `json.load` are parameters, and so is whether
-- writing the file and putting it in place succeed. A read that fails is like a text that is no
-- JSON.
use mc_bot_egent_practice.Prelude.{Bool, true, false, Option, none, some, List, [], ◌∷◌}
use mc_bot_egent_practice.Python.{Value, Items, Fields, list, dict, nil, cons, end, field, get_or}

pub record Json (Contents : Type 0) : Type 0 where
  pub dump : Value → Option Contents
  pub load : Contents → Option Value

-- [item for item in entries if isinstance(item, dict)]
unfoldable pub dicts : Items → List Fields
dicts nil = []
dicts (cons (dict fs) items) = fs ∷ dicts items
dicts (cons _ items) = dicts items

abbrev pub listed : Value → List Fields
listed (list items) = dicts items
listed _ = []

unfoldable pub entries_of : Option Value → List Fields
entries_of (some (list items)) = dicts items
entries_of (some (dict payload)) = listed (get_or (list nil) "entries" payload)
entries_of _ = []

unfoldable pub load_entries : {C : Type 0} → Json C → Option C → List Fields
unfolding entries_of
load_entries json none = []
load_entries json (some contents) = entries_of (json.load contents)

abbrev pub dict_items : List Fields → Items
dict_items [] = nil
dict_items (fs ∷ rest) = cons (dict fs) (dict_items rest)

abbrev pub document : List Fields → Value
document entries = dict (field "entries" (list (dict_items entries)) end)

-- The file afterwards; where dumping or writing fails, it stays as it was.
unfoldable pub save_entries : {C : Type 0} → Json C → Bool → List Fields → Option C → Option C
save_entries json false entries file = file
save_entries json true entries file = elim (json.dump (document entries)) [
  | none ↦ file
  | some contents ↦ some contents
]
