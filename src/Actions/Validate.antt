-- ===== src/Actions/Validate.antt =====
-- python/actions/validators.py and the `_normalize` helpers of python/actions/base.py. An
-- `ActionValidationError` is `none`.
use mc_bot_egent_practice.Prelude.{
  String, Bool, true, false, Option, none, some, List, [], ◌∷◌, str_eq, if◌then◌else◌, ◌>>=◌,
}
use mc_bot_egent_practice.Python.{
  Value, Items, Fields, null, boolean, integer, text, list, dict, nil, cons, end, field, truth, get,
  strip,
}

-- isinstance(value, int): a bool is an int
unfoldable pub require_int : Value → Option Value
require_int (integer n) = some (integer n)
require_int (boolean b) = some (boolean b)
require_int _ = none

-- A missing axis reads as None, which is no int either.
unfoldable pub require_position : Fields → Option Fields
unfolding require_int
require_position position = do
  x ← require_int (get "x" position)
  y ← require_int (get "y" position)
  z ← require_int (get "z" position)
  some (field "x" x (field "y" y (field "z" z end)))

unfoldable pub require_each : List Fields → Option Items
unfolding require_position
require_each [] = some nil
require_each (p ∷ ps) = do
  position ← require_position p
  rest ← require_each ps
  some (cons (dict position) rest)

unfoldable pub require_positions : List Fields → Option Items
unfolding require_each
require_positions [] = none
require_positions (p ∷ ps) = require_each (p ∷ ps)

unfoldable pub require_non_empty_text : String → Option String
require_non_empty_text value =
    let stripped = strip value in if str_eq stripped "" then none else some stripped

-- The type of a command and its arguments.
abbrev pub Command : Type 0
Command = String × Fields

unfoldable pub command_args : Value → Option Fields
command_args value = if truth value then (elim value [ dict fs ↦ some fs | _ ↦ none ]) else some end

unfoldable pub command_type : Value → Option String
unfolding require_non_empty_text
command_type (text t) = require_non_empty_text t
command_type _ = none

unfoldable pub normalize_command_payload : Value → Option Command
unfolding command_type command_args
normalize_command_payload (dict payload) = do
  command ← command_type (get "type" payload)
  args ← command_args (get "args" payload)
  some (command, args)
normalize_command_payload _ = none

unfoldable pub all_dicts : Items → Bool
all_dicts nil = true
all_dicts (cons (dict fs) xs) = all_dicts xs
all_dicts (cons _ xs) = false

unfoldable pub normalize_vpt_actions : Value → Option Items
unfolding all_dicts
normalize_vpt_actions null = some nil
normalize_vpt_actions (list items) = if all_dicts items then some items else none
normalize_vpt_actions _ = none
