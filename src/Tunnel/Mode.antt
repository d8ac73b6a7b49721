-- ===== src/Tunnel/Mode.antt =====
-- `TunnelMode.run` of python/modes/tunnel.py. What the bridge and the bot answer is a parameter:
-- one `Reply` for each turn of the loop, since a turn makes each call once at most.
use mc_bot_egent_practice.Prelude.{
  ℕ, zero, suc, ◌+◌, String, Bool, true, false, not, ◌&&◌, ◌||◌, Option, none, some, List, [], ◌∷◌,
  ◌++◌, ltb, leb, ◌==◌, min, str_eq, if◌then◌else◌, ◌>>=◌,
}
use mc_bot_egent_practice.Prelude.Int.{pos, ◌+ℤ◌, ◌*ℤ◌}
use mc_bot_egent_practice.Python.{Value, Fields, dict, text, truth, get}
use mc_bot_egent_practice.Tunnel.Geometry.{
  Position, Direction, TunnelSection, generate_window, right_vector,
}
use mc_bot_egent_practice.Tunnel.Mask.{build_mining_mask}

-- The environment variables of the module.
pub record Settings : Type 0 where
  pub torch_interval : ℕ
  pub liquids_stop : Bool
  pub window_length : ℕ

-- What a call of the bridge gives: a value, or a `BridgeError` with its status and payload.
pub data Response {ℓ} (A : Type ℓ) : Type ℓ where
  ok : A → Response A
  bridge_error : ℕ → Value → Response A

pub record Reply : Type 0 where
  pub evaluations : Response (List Fields)
  pub cp_results : Response (List Fields)
  pub advanced : Response Fields
  -- whether `mine_blocks` and `place_torch` return
  pub mined : Bool
  pub torch_placed : Bool

-- What the mode asks of the bot and of the bridge, with the step of the loop.
pub data Action : Type 0 where
  mine : ℕ → List Position → Action
  place_torch : ℕ → Position → Action
  advance : ℕ → Action
  stop : Action

pub data Outcome : Type 0 where
  returned raised : Outcome

unfoldable pub is_text : String → Value → Bool
is_text s (text t) = str_eq t s
is_text s _ = false

unfoldable pub is_liquid_stop : ℕ → Value → Bool
unfolding is_text
is_liquid_stop status (dict payload) =
    status == 409 && (is_text "liquid_detected" (get "error" payload) || truth (get "stop" payload))
is_liquid_stop status _ = false

-- Whether `_detect_hard_stop` names a reason.
unfoldable pub detect_hard_stop : Settings → List Fields → List Fields → Bool
detect_hard_stop settings (evaluation ∷ evaluations) (cp ∷ cps) =
    truth (get "near_functional" evaluation)
    || (settings.liquids_stop && truth (get "is_liquid" evaluation))
    || truth (get "is_player_placed" cp)
    || detect_hard_stop settings evaluations cps
detect_hard_stop settings _ _ = false

-- `info.get("is_air", False)`
abbrev pub is_air : Fields → Bool
is_air info = truth (get "is_air" info)

-- The list comprehension over `zip(window_positions, mask, evaluations)`.
unfoldable pub to_mine : List Position → List Bool → List Fields → List Position
to_mine (p ∷ ps) (allowed ∷ mask) (info ∷ evaluations) =
    let rest = to_mine ps mask evaluations in
    if allowed && not (is_air info) then p ∷ rest else rest
to_mine _ _ _ = []

unfoldable pub torch_position : Position → Direction → ℕ → Option Position
unfolding right_vector
torch_position anchor d step = do
  right ← right_vector d
  some (record {
    x = anchor.x +ℤ d.x *ℤ pos step +ℤ right.x;
    y = anchor.y +ℤ pos 1;
    z = anchor.z +ℤ d.z *ℤ pos step +ℤ right.z;
  })

-- The part of a turn before `step += 1`: what it asks for, and the blocks or the reason to end.
pub data Survey : Type 0 where
  leave : Outcome → Survey
  dig : List Position → Survey

abbrev pub survey_error : ℕ → Value → Survey
survey_error status payload = if is_liquid_stop status payload then leave returned else leave raised

unfoldable pub survey_cp :
    Settings → Option (List Position) → List Fields → Response (List Fields) → Survey
survey_cp settings none evaluations cps = leave raised
survey_cp settings (some window) evaluations (bridge_error status payload) = leave raised
survey_cp settings (some window) evaluations (ok cps) = elim (build_mining_mask evaluations cps) [
  | none ↦ leave raised
  | some mask ↦
      if detect_hard_stop settings evaluations cps
      then leave returned
      else dig (to_mine window mask evaluations)
]

unfoldable pub survey_window : Settings → Option (List Position) → Reply → Survey
survey_window settings none reply = leave raised
survey_window settings (some window) reply = elim reply.evaluations [
  | bridge_error status payload ↦ survey_error status payload
  | ok evaluations ↦ survey_cp settings (some window) evaluations reply.cp_results
]

-- The mining of a turn: what is asked, and whether the turn goes on.
unfoldable pub mine_part : ℕ → List Position → Reply → List Action × Bool
mine_part step [] reply = ([], true)
mine_part step (p ∷ ps) reply = (mine step (p ∷ ps) ∷ [], reply.mined)

-- The answer to `advance`: the loop goes on, or ends.
unfoldable pub advance_part : Response Fields → Option Outcome
advance_part (bridge_error status payload) =
    if is_liquid_stop status payload then some returned else some raised
advance_part (ok answer) = if truth (get "finished" answer) then some returned else none

abbrev pub stopped : Bool → Outcome → Outcome
stopped true outcome = outcome
stopped false outcome = raised

module _ (settings : Settings) (anchor : Position) (d : Direction) (section : TunnelSection) where
  unfoldable pub survey : ℕ → ℕ → Reply → Survey
  survey left step reply =
      survey_window settings
        (generate_window anchor d section step (min settings.window_length left)) reply

  -- TUNNEL_TORCH_INTERVAL > 0 and torch_counter >= TUNNEL_TORCH_INTERVAL, after the count
  abbrev pub torch_due : ℕ → Bool
  torch_due counter = ltb 0 settings.torch_interval && leb settings.torch_interval (counter + 1)

  -- The torch of a turn, likewise.
  unfoldable pub torch_part : ℕ → ℕ → Reply → List Action × Bool
  torch_part step counter reply =
      if torch_due counter
      then elim (torch_position anchor d step) [
        | none ↦ ([], false)
        | some at ↦ (place_torch step at ∷ [], reply.torch_placed)
      ]
      else ([], true)

  -- A turn after its survey, before what the rest of the loop does.
  unfoldable pub turn : ℕ → ℕ → Reply → Survey → Outcome × List Action → Outcome × List Action
  turn step counter reply (leave outcome) later = (outcome, [])
  turn step counter reply (dig blocks) later =
      let mining = mine_part step blocks reply in
      let torches = torch_part step counter reply in
      if not mining.1
      then (raised, mining.0)
      else if not torches.1
      then (raised, mining.0 ++ torches.0)
      else elim (advance_part reply.advanced) [
        | some outcome ↦ (outcome, mining.0 ++ torches.0 ++ advance step ∷ [])
        | none ↦ (later.0, mining.0 ++ torches.0 ++ advance step ∷ later.1)
      ]

  abbrev pub next_counter : ℕ → ℕ
  next_counter counter = if torch_due counter then 0 else counter + 1

  -- The loop with `length - step` turns left.
  unfoldable pub loop : ℕ → ℕ → ℕ → (ℕ → Reply) → Outcome × List Action
  loop zero step counter replies = (returned, [])
  loop (suc left) step counter replies =
      turn step counter (replies step) (survey (suc left) step (replies step))
        (loop left (suc step) (next_counter counter) replies)

  -- `run`: whether `start_mine` and, at the end, `stop` return are the first arguments. A start
  -- that fails is raised before the `try`; `stop` is asked in the `finally`.
  unfoldable pub run : Bool → Bool → ℕ → (ℕ → Reply) → Outcome × List Action
  run false stops length replies = (raised, [])
  run true stops length replies =
      let (outcome, actions) = loop length 0 0 replies in
      (stopped stops outcome, actions ++ stop ∷ [])
