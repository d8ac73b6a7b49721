-- ===== src/Planning/Directive.antt =====
-- The plan of planner/models.py as far as its execution reads it, and
-- python/orchestrator/directive_utils.py. Pydantic's validation of a directive is a parameter.
use mc_bot_egent_practice.Prelude.{
  ℕ, suc, ◌-◌, String, Bool, Option, none, some, List, [], ◌∷◌, ◌++◌, str_eq, if◌then◌else◌,
}
use mc_bot_egent_practice.Prelude.Int.{pos}
use mc_bot_egent_practice.Python.{
  Value, Fields, integer, text, list, dict, cons, end, field, get, append, show_ℕ,
}
use mc_bot_egent_practice.Building.{ints}
use mc_bot_egent_practice.Planning.Effects.{Coords, scope_begun, scope_ended, Act}

pub data ExecutorName : Type 0 where
  mineflayer minedojo chat hybrid : ExecutorName

-- `ActionDirective`
pub record Directive : Type 0 where
  pub directive_id : String
  pub step : String
  pub label : String
  pub category : String
  pub executor : ExecutorName
  pub args : Fields

-- An element of `PlanOut.directives`.
pub data Candidate : Type 0 where
  directive : Directive → Candidate
  other : Value → Candidate

-- `PlanOut`. A step of the ReAct trace is its thought; `coordinates` are those of its arguments.
pub record PlanOut : Type 0 where
  pub plan : List String
  pub resp : String
  pub intent : String
  pub coordinates : Value
  pub blocking : Bool
  pub react_trace : List String
  pub clarification_needed : String
  pub backlog : List Fields
  pub next_action : String
  pub goal_summary : String
  pub directives : List Candidate

-- xs[n], or none past the end
abbrev pub at {ℓ} : {A : Type ℓ} → ℕ → List A → Option A
at n [] = none
at ℕ.zero (x ∷ xs) = some x
at (suc n) (x ∷ xs) = at n xs

abbrev pub with_step : String → Directive → Directive
with_step fallback_step d = if str_eq d.step "" then record d { step = fallback_step } else d

unfoldable pub resolve_directive :
    (Fields → Option Directive) → String → Option Candidate → Option Directive
resolve_directive validate fallback_step (some (directive d)) = some d
resolve_directive validate fallback_step (some (other (dict payload))) = elim (validate payload) [
  | none ↦ none
  | some d ↦ some (with_step fallback_step d)
]
resolve_directive validate fallback_step _ = none

-- The step's number counts from 1.
unfoldable pub resolve_directive_for_step :
    (Fields → Option Directive) → List Candidate → ℕ → String → Option Directive
unfolding resolve_directive
resolve_directive_for_step validate directives index fallback_step =
    resolve_directive validate fallback_step (at (index - 1) directives)

-- a or b
abbrev pub or_text : String → String → String
or_text a b = if str_eq a "" then b else a

abbrev pub executor_text : ExecutorName → String
executor_text mineflayer = "mineflayer"
executor_text minedojo = "minedojo"
executor_text chat = "chat"
executor_text hybrid = "hybrid"

unfoldable pub directive_meta : Directive → PlanOut → ℕ → ℕ → Fields
directive_meta d plan_out index total_steps =
    field "directiveId" (text (or_text d.directive_id (append "step-" (show_ℕ index)))) (
      field "directiveLabel" (text (or_text d.label d.step)) (
        field "directiveCategory" (text (or_text d.category plan_out.intent)) (
          field "directiveExecutor" (text (executor_text d.executor)) (
            field "planIntent" (text plan_out.intent) (
              field "goalSummary" (text plan_out.goal_summary) (
                field "stepIndex" (integer (pos index))
                  (field "totalSteps" (integer (pos total_steps)) end)))))))

unfoldable pub build_directive_meta : Option Directive → PlanOut → ℕ → ℕ → Option Fields
unfolding directive_meta
build_directive_meta none plan_out index total_steps = none
build_directive_meta (some d) plan_out index total_steps =
    some (directive_meta d plan_out index total_steps)

unfoldable pub coerce_coordinate_tuple : Value → Option Coords
coerce_coordinate_tuple (dict payload) = ints (get "x" payload) (get "y" payload) (get "z" payload)
coerce_coordinate_tuple _ = none

-- The first candidate that has coordinates.
unfoldable pub first_coordinates : List Value → Option Coords
unfolding coerce_coordinate_tuple
first_coordinates [] = none
first_coordinates (v ∷ vs) = elim (coerce_coordinate_tuple v) [
  | some coords ↦ some coords
  | none ↦ first_coordinates vs
]

abbrev pub path_head : Value → List Value
path_head (list (cons point points)) = point ∷ []
path_head _ = []

-- `args[key]` where the key is there; a None that is there has no coordinates either.
abbrev pub candidates_of : Fields → List Value
candidates_of args = get "coordinates" args ∷ get "position" args ∷ path_head (get "path" args)

unfoldable pub extract_directive_coordinates : Option Directive → Option Coords
unfolding first_coordinates
extract_directive_coordinates none = none
extract_directive_coordinates (some d) = first_coordinates (candidates_of d.args)

-- `with directive_scope(actions, meta):` around a body; the end comes also when the body raises.
unfoldable pub directive_scope {ℓ} : {A : Type ℓ} → Option Fields → Act A → Act A
directive_scope none body = body
directive_scope (some end) body = body
directive_scope (some (field k v fs)) body =
    (scope_begun (field k v fs) ∷ body.0 ++ scope_ended ∷ [], body.1)
