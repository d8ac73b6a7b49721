-- ===== src/ChatPipeline/Message.antt =====
-- The chat message that is at hand while its plan is carried out.
use mc_bot_egent_practice.Prelude.{
  inr, inl, Bool-cases, Option, ◌≡◌, refl, String, Bool, true, false, not, ◌&&◌, none, some, List,
  [], ◌∷◌, ◌++◌, str_eq, eq_refl, if◌then◌else◌,
}
use mc_bot_egent_practice.Prelude.Traced.{ask, done, ◌>>=◌}
use mc_bot_egent_practice.Python.{Value, text}
use mc_bot_egent_practice.ChatQueue.{ChatTask}
use mc_bot_egent_practice.Planning.{pure, PlanOut}
use mc_bot_egent_practice.ChatPipeline.Task.{
  resolve_mission_id, after_dialogue, is_recovery_triggered, recover, maybe_trigger_autorecovery,
  Effect, kept, said, barrier_reported, evaluations_collected, plan_requested, summary_recorded,
  dialogue_run, plan_executed, Act, Answers, Rules, only_if, last_chat, should_relay, execute_plan,
  relay_and_execute, with_plan, find_plan, go_on, primed, run_chat_task, guarded, acknowledgement,
}

abbrev pub is_message : String → Value → Bool
is_message message (text t) = str_eq t message
is_message message _ = false

-- A plan is carried out only with the message at hand, and no message is at hand in the end.
abbrev pub is_attended : String → Bool → List Effect → Bool
is_attended message at_hand [] = not at_hand
is_attended message at_hand (plan_executed p c ∷ es) = at_hand && is_attended message at_hand es
is_attended message at_hand (kept key v ∷ es) =
    if str_eq key "_active_chat_message"
    then is_attended message (is_message message v) es
    else is_attended message at_hand es
is_attended message at_hand (e ∷ es) = is_attended message at_hand es

attended-append :
    (m : String) (a : Bool) (xs ys : List Effect)
    → is_attended m a xs ≡ true
    → is_attended m false ys ≡ true
    → is_attended m a (xs ++ ys) ≡ true
attended-append m false [] ys h k = k
attended-append m true [] ys h k = cc
attended-append m true (plan_executed p c ∷ xs) ys h k = attended-append m true xs ys h k
attended-append m false (plan_executed p c ∷ xs) ys h k = cc
attended-append m a (kept key v ∷ xs) ys h k =
    kept-append (str_eq key "_active_chat_message") (is_message m v) a xs
      (λ b g. attended-append m b xs ys g k) h
  where
    kept-append :
        (e b a : Bool) (xs : List Effect)
        → ((b : Bool) → is_attended m b xs ≡ true → is_attended m b (xs ++ ys) ≡ true)
        → (if e then is_attended m b xs else is_attended m a xs) ≡ true
        → (if e then is_attended m b (xs ++ ys) else is_attended m a (xs ++ ys)) ≡ true
    kept-append true b a xs f h = f b h
    kept-append false b a xs f h = f a h
attended-append m a (said t ∷ xs) ys h k = attended-append m a xs ys h k
attended-append m a (barrier_reported t r ∷ xs) ys h k = attended-append m a xs ys h k
attended-append m a (evaluations_collected ∷ xs) ys h k = attended-append m a xs ys h k
attended-append m a (plan_requested t ∷ xs) ys h k = attended-append m a xs ys h k
attended-append m a (summary_recorded p ∷ xs) ys h k = attended-append m a xs ys h k
attended-append m a (dialogue_run g ∷ xs) ys h k = attended-append m a xs ys h k

module _ (m : String) where
  IsAttended : List Effect → Type 0
  IsAttended es = is_attended m false es ≡ true

  bind-IsAttended :
      {A B : Type 0} (x : Act A) (f : A → Act B)
      → IsAttended x.0
      → ((a : A) → IsAttended (f a).0)
      → IsAttended (x >>= f).0
  unfolding IsAttended
  bind-IsAttended (es, none) f h k = h
  bind-IsAttended (es, some a) f h k = attended-append m false es (f a).0 h (k a)

  only_if-IsAttended : (b : Bool) (x : Act (Unit {0})) → IsAttended x.0 → IsAttended (only_if b x).0
  unfolding IsAttended
  only_if-IsAttended true x h = h
  only_if-IsAttended false x h = refl

  if-IsAttended :
      {A : Type 0} (b : Bool) (x y : Act A)
      → IsAttended x.0
      → IsAttended y.0
      → IsAttended (if b then x else y).0
  if-IsAttended true x y h k = h
  if-IsAttended false x y h k = k

module _ (rules : Rules) (answers : Answers) (t : ChatTask) where
  execute_plan-IsAttended : (p : PlanOut) → IsAttended t.message (execute_plan rules answers t p).0
  unfolding execute_plan IsAttended
  execute_plan-IsAttended p = rw (eq_refl t.message) refl

  relay-IsAttended : (p : PlanOut) → IsAttended t.message (relay_and_execute rules answers t p).0
  unfolding relay_and_execute IsAttended
  relay-IsAttended p =
      bind-IsAttended t.message
        (only_if (should_relay rules t p) (ask (said p.resp) (done answers.said))) _
        (only_if-IsAttended t.message (should_relay rules t p) _ refl)
        (λ u.
          bind-IsAttended t.message (execute_plan rules answers t p)
            (λ v. ask (last_chat t) (done true)) (execute_plan-IsAttended p) (λ v. refl))

  recover-IsAttended : (o : Option String) → IsAttended t.message (recover answers o).0
  unfolding recover after_dialogue IsAttended
  recover-IsAttended none = refl
  recover-IsAttended (some mission) = elim (Bool-cases answers.dialogue_ran) [
    | inl ran ↦ elim (Bool-cases answers.recovery_said) [
      | inl told ↦ simp (ran, told) refl
      | inr untold ↦ simp (ran, untold) refl
    ]
    | inr failed ↦ simp failed refl
  ]

  recovery-IsAttended :
      (p : PlanOut) → IsAttended t.message (maybe_trigger_autorecovery rules answers p).0
  unfolding maybe_trigger_autorecovery IsAttended
  recovery-IsAttended p =
      if-IsAttended t.message (is_recovery_triggered p) _ (pure false)
        (recover-IsAttended (resolve_mission_id rules p)) refl

  with_plan-IsAttended : (p : PlanOut) → IsAttended t.message (with_plan rules answers t p).0
  unfolding with_plan IsAttended
  with_plan-IsAttended p =
      bind-IsAttended t.message (maybe_trigger_autorecovery rules answers p)
        (λ recovered.
          if recovered then ask (last_chat t) (done true) else relay_and_execute rules answers t p)
        (recovery-IsAttended p)
        (λ recovered.
          if-IsAttended t.message recovered (ask (last_chat t) (done true)) _ refl
            (relay-IsAttended p))

  go_on-IsAttended : IsAttended t.message (go_on rules answers t).0
  unfolding go_on find_plan IsAttended
  go_on-IsAttended =
      bind-IsAttended t.message
        (only_if (rules.is_move_to_player_command t.message)
          (ask (said acknowledgement) (done answers.said)))
        _ (only_if-IsAttended t.message (rules.is_move_to_player_command t.message) _ refl)
        (λ u.
          bind-IsAttended t.message (ask evaluations_collected (done answers.evaluated)) _ refl
            (λ v.
              bind-IsAttended t.message (find_plan rules answers t)
                (λ p. with_plan rules answers t (guarded rules t p))
                (if-IsAttended t.message (rules.is_move_to_player_command t.message) _
                  (ask (plan_requested t.message) answers.planned) refl refl)
                (λ p. with_plan-IsAttended (guarded rules t p))))

  primed-IsAttended :
      (failures : List String) → IsAttended t.message (primed rules answers t failures).0
  unfolding primed IsAttended
  primed-IsAttended [] = go_on-IsAttended
  primed-IsAttended (failure ∷ failures) =
      if-IsAttended t.message (rules.is_move_to_player_command t.message) _ _
        (bind-IsAttended t.message (ask _ (done answers.said)) (λ u. ask (last_chat t) (done true))
          refl (λ u. refl))
        (bind-IsAttended t.message (ask _ (done answers.barrier_told)) (λ u. go_on rules answers t)
          refl (λ u. go_on-IsAttended))

-- Of the work on a chat, whatever the answers, and also where an exception ends it: a plan is
-- carried out only while the chat's own message is at hand in the memory, and in the end no message
-- is.
pub run_chat_task-is_attended :
    (rules : Rules) (answers : Answers) (t : ChatTask)
    → is_attended t.message false (run_chat_task rules answers t).0 ≡ true
unfolding run_chat_task IsAttended
run_chat_task-is_attended rules answers t =
    bind-IsAttended t.message ([], answers.failures) (primed rules answers t) refl
      (primed-IsAttended rules answers t)
