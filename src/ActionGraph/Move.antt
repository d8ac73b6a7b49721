-- ===== src/ActionGraph/Move.antt =====
-- The node `handle_move`: python/runtime/move_handler.py. The greeting after a move to a player is
-- left out: a step of that category has returned before.
use mc_bot_egent_practice.Prelude.{
  String, Bool, true, false, not, ◌&&◌, Option, none, some, List, [], ◌∷◌, str_eq, is_some,
  if◌then◌else◌,
}
use mc_bot_egent_practice.Prelude.Traced.{pure, ask, done, ◌>>=◌}
use mc_bot_egent_practice.Python.{
  Value, Fields, integer, text, dict, end, field, truth, get, strip, append,
}
use mc_bot_egent_practice.Building.{Coords, ints}
use mc_bot_egent_practice.Planning.{MovementResult, movement_result, or_coords, or_text, is_number}
use mc_bot_egent_practice.ActionGraph.State.{
  ActionState, kept, queued, said, followed, moved, barrier_reported, Act, Answers, Rules,
  NodeResult, succeeded, refused,
}

abbrev pub unconfirmed_message : String
unconfirmed_message = "合流結果を確認できません。Botの接続・動作状況を確認してから、もう一度呼びかけてください。"

-- `_RENDEZVOUS_USER_MESSAGES`
abbrev pub rendezvous_messages : List (String × String)
rendezvous_messages =
    ("rendezvous_invalid_args", "合流指示の対象を確認できません。対象プレイヤー名を確認して、もう一度呼びかけてください。")
    ∷ ("rendezvous_worker_timeout_mismatch", "合流処理の実行時間設定が短いため、安全に開始できません。設定を確認してから、もう一度呼びかけてください。")
    ∷ ("rendezvous_busy", "別の合流処理が進行中のため、今回は合流を開始できません。処理が終わってから、もう一度呼びかけてください。")
    ∷ ("rendezvous_bot_unavailable", "Botが接続されていないため、合流を開始できません。接続を確認して、もう一度呼びかけてください。")
    ∷ ("rendezvous_target_invalid", "対象プレイヤーを確認できないため、合流を開始できません。プレイヤー名を確認してください。")
    ∷ ("rendezvous_target_unavailable", "対象プレイヤーを確認できないため、合流を開始できません。対象が同じワールドにいるか確認してください。")
    ∷ ("rendezvous_target_offline", "対象プレイヤーが現在オンラインでないため、合流できません。対象が参加してから、もう一度呼びかけてください。")
    ∷ (
      "rendezvous_position_service_unavailable",
      "対象プレイヤーの位置情報を取得できないため、安全な移動を開始できません。しばらく待ってから、もう一度呼びかけてください。",
    )
    ∷ ("rendezvous_dimension_unknown", "対象プレイヤーのワールドを確認できないため、安全のため移動を停止しました。")
    ∷ ("rendezvous_dimension_mismatch", "対象プレイヤーと同じワールドにいないため、合流できません。")
    ∷ (
      "rendezvous_observation_unavailable",
      "周辺の安全情報を取得できないため、安全を確認できず移動を停止しました。しばらく待ってから、もう一度呼びかけてください。",
    )
    ∷ ("rendezvous_hazard_blocked", "安全な経路を確保できないため、移動を停止しました。対象の近くで再度呼びかけてください。")
    ∷ ("rendezvous_no_path", "対象まで安全な経路を見つけられませんでした。対象の近くで再度呼びかけてください。")
    ∷ ("rendezvous_timeout", "合流処理が時間内に完了しませんでした。対象の近くで再度呼びかけてください。")
    ∷ ("rendezvous_target_moved", "対象が移動したため、合流を完了できませんでした。対象の近くで再度呼びかけてください。")
    ∷ ("rendezvous_arrival_unconfirmed", "合流先への到着を確認できませんでした。対象の近くで再度呼びかけてください。")
    ∷ ("rendezvous_distance_limit", "対象までの距離が安全な上限を超えているため、合流を完了できませんでした。対象の近くで再度呼びかけてください。")
    ∷ ("rendezvous_path_failed", "対象まで安全に移動できませんでした。周囲を確認して、もう一度呼びかけてください。")
    ∷ (
      "rendezvous_line_of_sight_unsupported",
      "対象の視線確認を利用できないため、今回は移動を開始しません。Bot設定を確認してから、もう一度呼びかけてください。",
    )
    ∷ ("recv_timeout", unconfirmed_message)
    ∷ ("recv_error", unconfirmed_message)
    ∷ ("recv_os_error", unconfirmed_message)
    ∷ ("connect_timeout", unconfirmed_message)
    ∷ ("connect_refused", unconfirmed_message)
    ∷ ("connect_error", unconfirmed_message)
    ∷ ("connect_os_error", unconfirmed_message)
    ∷ ("send_timeout", unconfirmed_message)
    ∷ ("send_error", unconfirmed_message)
    ∷ ("send_os_error", unconfirmed_message)
    ∷ []

abbrev pub default_failure_message : String
default_failure_message = "対象プレイヤーへの合流に失敗しました。対象が同じワールドにいるか確認して、もう一度呼びかけてください。"

unfoldable pub message_for : String → List (String × String) → Option String
message_for code [] = none
message_for code ((key, message) ∷ rest) =
    if str_eq key code then some message else message_for code rest

abbrev pub message_of_value : Value → Option String
unfolding message_for
message_of_value (text code) = message_for (strip code) rendezvous_messages
message_of_value _ = none

abbrev pub first_message : List Value → String
first_message [] = default_failure_message
first_message (v ∷ vs) = elim (message_of_value v) [
  | some message ↦ message
  | none ↦ first_message vs
]

unfoldable pub safe_rendezvous_failure : Value → String
safe_rendezvous_failure (dict response) =
    first_message (get "errorCode" response ∷ get "code" response ∷ get "error" response ∷ [])
safe_rendezvous_failure _ = default_failure_message

abbrev pub is_ok : Value → Bool
is_ok (dict response) = truth (get "ok" response)
is_ok _ = false

abbrev pub text_or_empty : Value → String
text_or_empty (text t) = t
text_or_empty _ = ""

abbrev pub player_text : Option String → String
player_text none = ""
player_text (some player) = player

-- The player that is followed: that of the state, or the last requester.
unfoldable pub requester : Answers → ActionState → String
requester answers s =
    or_text (strip (player_text s.target_player))
      (strip (text_or_empty (get "last_requester" answers.memory)))

abbrev pub current_position : Value → Option Coords
current_position (dict position) =
    if is_number (get "x" position) && is_number (get "y" position) && is_number (get "z" position)
    then ints (get "x" position) (get "y" position) (get "z" position)
    else none
current_position _ = none

abbrev pub unknown_player_message : String
unknown_player_message = "チャット送信者を特定できず、追従先を決定できませんでした。もう一度呼びかけてください。"

abbrev pub blocked_message : String
blocked_message = "別のプレイヤーへの伝言または来訪を望まない発話として解釈されたため、合流を開始しません。直接呼びかける場合は「ここに来て」と送ってください。"

-- The message that is worked on is none that asks for another player or for no visit.
abbrev pub is_excluded : Rules → Value → Bool
is_excluded rules (text message) = rules.is_source_excluded message
is_excluded rules _ = false

unfoldable pub followed_up : Answers → ActionState → String → Value → Act NodeResult
unfolding safe_rendezvous_failure
followed_up answers s player resp =
    if is_ok resp
    then (do
      _ ← ask (said (append player " さんに合流しました。")) (done answers.said)
      pure (
          succeeded (
            or_coords (current_position (get "position" s.recent_perception))
              s.last_target_coords)))
    else (do
      _ ← ask (said (safe_rendezvous_failure resp)) (done answers.said)
      pure (refused s.last_target_coords (text (safe_rendezvous_failure resp))))

unfoldable pub meet : Rules → Answers → ActionState → String → Act NodeResult
unfolding followed_up
meet rules answers s player =
    if str_eq player ""
    then (do
      _ ← ask (said unknown_player_message) (done answers.said)
      pure (refused s.last_target_coords (text "追従対象のプレイヤー名が不明です。")))
    else if is_excluded rules (get "_active_chat_message" answers.memory)
    then (do
      _ ← ask (said blocked_message) (done answers.said)
      pure (refused s.last_target_coords (text blocked_message)))
    else (do
      resp ← ask (followed player) answers.follow_response
      followed_up answers s player resp)

abbrev pub coords_value : Coords → Value
coords_value (x, y, z) =
    dict (field "x" (integer x) (field "y" (integer y) (field "z" (integer z) end)))

-- if condition: do the effect
abbrev pub only_if : Bool → Act (Unit {0}) → Act (Unit {0})
only_if true m = m
only_if false m = pure tt

-- `MovementService.move_to_coordinates`
unfoldable pub travel : Answers → Coords → Act MovementResult
unfolding movement_result
travel answers target = do
  resp ← ask (moved target) answers.move_response
  _ ←
      only_if (truth (get "ok" resp))
        (ask (kept "last_destination" (coords_value target)) (done true))
  pure (movement_result resp)

abbrev pub hunger_item : ActionState → Fields
hunger_item s = field "category" (text "status") (
    field "step" (text s.step) (
      field "label" (text "空腹度が低いため、食料補給を検討してください") (
        field "weather" (get "weather" s.recent_perception)
          (field "food_level" (get "food_level" s.recent_perception) end))))

abbrev pub role_item : ActionState → Fields
role_item s = field "category" (text "role") (
    field "step" (text s.step) (
      field "label" (text (append "役割切替: " (or_text s.active_role "不明"))) (
        field "module" (text "role") (
          field "role" (text s.active_role)
            (field "reason" (text (player_text s.role_transition_reason)) end)))))

-- The detail of a move that failed, or a default; `or` reads a detail that is there and not empty.
abbrev pub move_failure : Option Value → Value
move_failure none = text "Mineflayer 側で移動が拒否されました"
move_failure (some detail) = if truth detail then detail else text "Mineflayer 側で移動が拒否されました"

unfoldable pub arrived : Rules → ActionState → Coords → MovementResult → Act NodeResult
arrived rules s target result =
    if not result.ok
    then pure (refused s.last_target_coords (move_failure result.error_detail))
    else (do
      _ ←
          only_if (rules.is_low_food (get "food_level" s.recent_perception))
            (ask (queued (hunger_item s)) (done true))
      _ ← only_if s.role_transitioned (ask (queued (role_item s)) (done true))
      pure (succeeded (some target)))

unfoldable pub move_to : Rules → Answers → ActionState → Bool → Option Coords → Act NodeResult
unfolding travel arrived
move_to rules answers s used_default none = do
  _ ←
      ask (barrier_reported s.step "指示文から移動先の座標を特定できず、実行を継続できませんでした。文章に XYZ 形式の座標を含めてください。")
        (done answers.barrier_told)
  pure (refused s.last_target_coords (text "移動先の座標が不明です。"))
move_to rules answers s used_default (some target) = do
  result ← travel answers target
  _ ← only_if used_default (
      ask (barrier_reported s.step "指示文から移動先の座標を特定できず、既定座標へ退避しました。文章に XYZ 形式の座標を含めてください。")
        (done answers.barrier_told))
  arrived rules s target result

-- explicit_coords or the coordinates of the text, or the last target
abbrev pub known_target : Rules → ActionState → Option Coords
known_target rules s =
    or_coords s.explicit_coords (or_coords (rules.extract_coordinates s.step) s.last_target_coords)

unfoldable pub handle_move : Rules → Answers → ActionState → Act NodeResult
unfolding requester meet move_to
handle_move rules answers s =
    if str_eq s.category "move_to_player"
    then meet rules answers s (requester answers s)
    else move_to rules answers s (not (is_some (known_target rules s)))
        (or_coords (known_target rules s) rules.default_move_target)
