-- ===== src/ActionGraph/Rendezvous.antt =====
-- What a step to a player does and says.
use mc_bot_egent_practice.Prelude.{
  ℕ, suc, ◌≡◌, refl, eq_refl, String, Bool, true, false, not, ◌||◌, ◌&&◌, Option, none, some, List,
  [], ◌∷◌, str_eq, Bool-cases, inl, inr,
}
use mc_bot_egent_practice.Prelude.Traced.{pure, ask, done, ◌>>=◌, Returns}
use mc_bot_egent_practice.Python.{
  Value, null, boolean, integer, float, text, list, dict, task, strip, get, append,
}
use mc_bot_egent_practice.ActionGraph.State.{
  ActionState, Effect, said, followed, Act, Answers, Rules, NodeResult,
}
use mc_bot_egent_practice.ActionGraph.Move.{
  rendezvous_messages, default_failure_message, message_for, message_of_value, first_message,
  safe_rendezvous_failure, is_ok, unknown_player_message, blocked_message, is_excluded, followed_up,
  meet, requester, handle_move,
}

unfoldable pub is_one_of : List String → String → Bool
is_one_of [] t = false
is_one_of (u ∷ us) t = str_eq u t || is_one_of us t

abbrev pub messages_of : List (String × String) → List String
messages_of [] = []
messages_of ((key, message) ∷ rest) = message ∷ messages_of rest

-- The texts that do not depend on what the bot answers.
abbrev pub fixed_texts : String → List String
fixed_texts player =
    append player " さんに合流しました。"
    ∷ unknown_player_message
    ∷ blocked_message
    ∷ default_failure_message
    ∷ messages_of rendezvous_messages

-- A player is followed who has a name and whom the message does not exclude; else a fixed text is
-- said.
abbrev pub is_proper : Rules → Answers → String → Effect → Bool
is_proper rules answers player (said t) = is_one_of (fixed_texts player) t
is_proper rules answers player (followed p) =
    str_eq p player
    && not (str_eq player "")
    && not (is_excluded rules (get "_active_chat_message" answers.memory))
is_proper rules answers player _ = false

unfoldable pub are_all : (Effect → Bool) → List Effect → Bool
are_all test [] = true
are_all test (e ∷ es) = test e && are_all test es

abbrev pub sayings : List Effect → ℕ
sayings [] = 0
sayings (said t ∷ es) = suc (sayings es)
sayings (e ∷ es) = sayings es

or-right : (a b : Bool) → b ≡ true → (a || b) ≡ true
or-right true b h = refl
or-right false b h = h

is_one_of-first : (t : String) (ts : List String) → is_one_of (t ∷ ts) t ≡ true
unfolding is_one_of
is_one_of-first t ts = rw (eq_refl t) refl

is_one_of-later :
    (u t : String) (ts : List String) → is_one_of ts t ≡ true → is_one_of (u ∷ ts) t ≡ true
unfolding is_one_of
is_one_of-later u t ts h = or-right (str_eq u t) (is_one_of ts t) h

Returns-later :
    (u : String) (ts : List String) (o : Option String)
    → Returns (λ t. is_one_of ts t ≡ true) o
    → Returns (λ t. is_one_of (u ∷ ts) t ≡ true) o
Returns-later u ts none h = tt
Returns-later u ts (some t) h = is_one_of-later u t ts h

message_for-is_one_of :
    (code : String) (table : List (String × String))
    → Returns (λ t. is_one_of (messages_of table) t ≡ true) (message_for code table)
unfolding message_for
message_for-is_one_of code [] = tt
message_for-is_one_of code ((key, message) ∷ rest) = elim (Bool-cases (str_eq key code)) [
  | inl e ↦ rw e (is_one_of-first message (messages_of rest))
  | inr e ↦ rw e (
      Returns-later message (messages_of rest) (message_for code rest)
        (message_for-is_one_of code rest))
]

-- The texts for a failure.
abbrev failure_texts : List String
failure_texts = default_failure_message ∷ messages_of rendezvous_messages

IsFailureText : String → Type 0
IsFailureText t = is_one_of failure_texts t ≡ true

message_of_value-IsFailureText : (v : Value) → Returns IsFailureText (message_of_value v)
unfolding IsFailureText message_for
message_of_value-IsFailureText (text code) =
    Returns-later default_failure_message (messages_of rendezvous_messages) _
      (message_for-is_one_of (strip code) rendezvous_messages)
message_of_value-IsFailureText null = tt
message_of_value-IsFailureText (boolean b) = tt
message_of_value-IsFailureText (integer n) = tt
message_of_value-IsFailureText (float n z) = tt
message_of_value-IsFailureText (list vs) = tt
message_of_value-IsFailureText (dict fs) = tt
message_of_value-IsFailureText (task t) = tt

either-IsFailureText :
    (o : Option String) (rest : String)
    → Returns IsFailureText o
    → IsFailureText rest
    → IsFailureText (elim o as (λ x. String) [ none ↦ rest | some message ↦ message ])
either-IsFailureText none rest h k = k
either-IsFailureText (some message) rest h k = h

first_message-IsFailureText : (vs : List Value) → IsFailureText (first_message vs)
unfolding IsFailureText
first_message-IsFailureText [] =
    is_one_of-first default_failure_message (messages_of rendezvous_messages)
first_message-IsFailureText (v ∷ vs) =
    either-IsFailureText (message_of_value v) (first_message vs) (message_of_value-IsFailureText v)
      (first_message-IsFailureText vs)

safe_rendezvous_failure-IsFailureText : (v : Value) → IsFailureText (safe_rendezvous_failure v)
unfolding safe_rendezvous_failure
safe_rendezvous_failure-IsFailureText (dict fs) =
    first_message-IsFailureText (get "errorCode" fs ∷ get "code" fs ∷ get "error" fs ∷ [])
safe_rendezvous_failure-IsFailureText null = first_message-IsFailureText []
safe_rendezvous_failure-IsFailureText (boolean b) = first_message-IsFailureText []
safe_rendezvous_failure-IsFailureText (integer n) = first_message-IsFailureText []
safe_rendezvous_failure-IsFailureText (float n z) = first_message-IsFailureText []
safe_rendezvous_failure-IsFailureText (text t) = first_message-IsFailureText []
safe_rendezvous_failure-IsFailureText (list vs) = first_message-IsFailureText []
safe_rendezvous_failure-IsFailureText (task t) = first_message-IsFailureText []

module _ (rules : Rules) (answers : Answers) (s : ActionState) (player : String) where
  abbrev IsProper : Act NodeResult → Type 0
  IsProper m =
      (are_all (is_proper rules answers player) m.0 ≡ true) × Returns (λ r. sayings m.0 ≡ 1) m.1

  said-IsProper :
      (t : String) (returns : Bool) (r : NodeResult)
      → is_one_of (fixed_texts player) t ≡ true
      → IsProper (ask (said t) (done returns) >>= λ u. pure r)
  unfolding are_all
  said-IsProper t true r h = (rw h refl, refl)
  said-IsProper t false r h = (rw h refl, tt)

  is_one_of-fixed : (t : String) → IsFailureText t → is_one_of (fixed_texts player) t ≡ true
  unfolding IsFailureText
  is_one_of-fixed t h =
      is_one_of-later (append player " さんに合流しました。") t _
        (is_one_of-later unknown_player_message t _ (is_one_of-later blocked_message t _ h))

  followed_up-IsProper : (resp : Value) → IsProper (followed_up answers s player resp)
  unfolding followed_up
  followed_up-IsProper resp = elim (Bool-cases (is_ok resp)) [
    | inl e ↦
        rw e (said-IsProper (append player " さんに合流しました。") answers.said _ (is_one_of-first _ _))
    | inr e ↦ rw e (
        said-IsProper (safe_rendezvous_failure resp) answers.said _
          (is_one_of-fixed _ (safe_rendezvous_failure-IsFailureText resp)))
  ]

  follow-IsProper :
      (o : Option Value)
      → is_proper rules answers player (followed player) ≡ true
      → IsProper (ask (followed player) o >>= λ resp. followed_up answers s player resp)
  unfolding are_all
  follow-IsProper none h = (rw h refl, tt)
  follow-IsProper (some resp) h =
      (rw h (followed_up-IsProper resp).0, (followed_up-IsProper resp).1)

  meet-IsProper : IsProper (meet rules answers s player)
  unfolding meet
  meet-IsProper = elim (Bool-cases (str_eq player "")) [
    | inl e ↦ rw e (
        said-IsProper unknown_player_message answers.said _
          (is_one_of-later _ _ _ (is_one_of-first _ _)))
    | inr e ↦ elim (Bool-cases (is_excluded rules (get "_active_chat_message" answers.memory))) [
      | inl x ↦
          rw (e, x)
            (said-IsProper blocked_message answers.said _
              (is_one_of-later _ _ _ (is_one_of-later _ _ _ (is_one_of-first _ _))))
      | inr x ↦ rw (e, x) (follow-IsProper answers.follow_response (rw (eq_refl player, e, x) refl))
    ]
  ]

-- Of a step to a player, whatever the answers: the bot does no more than follow that player, and
-- only one who has a name and whom the chat message does not exclude; it says nothing but a fixed
-- text, so nothing that the bot's answer has; and if the step returns, one text was said.
pub handle_move-IsProper :
    (rules : Rules) (answers : Answers) (s : ActionState)
    → str_eq s.category "move_to_player" ≡ true
    → (are_all (is_proper rules answers (requester answers s)) (handle_move rules answers s).0
        ≡ true)
      × Returns (λ r. sayings (handle_move rules answers s).0 ≡ 1) (handle_move rules answers s).1
unfolding handle_move
handle_move-IsProper rules answers s h = rw h (meet-IsProper rules answers s (requester answers s))
