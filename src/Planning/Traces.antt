-- ===== src/Planning/Traces.antt =====
-- What holds of the effects of every handler, whatever the answers: a predicate that is closed
-- under `++`, and that the working effects have, alone and in a directive's scope.
use mc_bot_egent_practice.Prelude.{
  ℕ, ◌≡◌, refl, String, Bool, true, false, Option, none, some, List, [], ◌∷◌, ◌++◌, if◌then◌else◌,
}
use mc_bot_egent_practice.Python.{Value, Fields, end, field}
use mc_bot_egent_practice.Planning.Effects.{
  Coords, Effect, scope_begun, scope_ended, said, moved, barrier_reported, minedojo_asked,
  hybrid_executed, detection_performed, action_performed, observed, Act, ask, done, continue_with,
  ◌>>=◌,
}
use mc_bot_egent_practice.Planning.Directive.{Directive, directive_scope}
use mc_bot_egent_practice.Planning.Steps.{
  HybridEnding, executed, validation_failed, execution_raised, Parsed, payload, value_error,
  Answers, Rules,
}
use mc_bot_egent_practice.Planning.Handlers.{
  DirectiveResult, observe, settle, when, minedojo_answered, handle_minedojo_directive,
  handle_chat_directive, hybrid_handled, hybrid_ended, execute_hybrid, hybrid_parsed,
  handle_hybrid_directive, detection_reported, detect,
}
use mc_bot_egent_practice.Planning.Executor.{move_there, handle_status_check, moved_on}

-- The effects of the handlers themselves, outside scopes.
abbrev pub is_work : Effect → Bool
is_work (said t) = true
is_work (moved c) = true
is_work (barrier_reported s r) = true
is_work (minedojo_asked n) = true
is_work (hybrid_executed fs) = true
is_work (detection_performed c) = true
is_work (action_performed c s l e) = true
is_work (observed t) = true
is_work _ = false

pub record IsTraceRule (P : List Effect → Type 0) : Type 0 where
  pub nothing : P []
  pub both : (xs ys : List Effect) → P xs → P ys → P (xs ++ ys)
  pub work : (e : Effect) → is_work e ≡ true → P (e ∷ [])
  pub scoped :
      (meta : Fields) (e : Effect) → is_work e ≡ true → P (scope_begun meta ∷ e ∷ scope_ended ∷ [])

module _ {P : List Effect → Type 0} (rule : IsTraceRule P) where
  pub continue-P :
      {A B : Type 0} (es : List Effect) (o : Option A) (f : A → Act B)
      → P es
      → ((a : A) → P (f a).0)
      → P (continue_with es o f).0
  continue-P es none f h k = h
  continue-P es (some a) f h k = rule.both es (f a).0 h (k a)

  pub bind-P :
      {A B : Type 0} (m : Act A) (f : A → Act B) → P m.0 → ((a : A) → P (f a).0) → P (m >>= f).0
  bind-P m f h k = continue-P m.0 m.1 f h k

  directive_scope-P :
      {A : Type 0} (meta : Option Fields) (e : Effect) (o : Option A)
      → is_work e ≡ true
      → P (directive_scope meta (ask e o)).0
  unfolding directive_scope
  directive_scope-P none e o w = rule.work e w
  directive_scope-P (some end) e o w = rule.work e w
  directive_scope-P (some (field k v fs)) e o w = rule.scoped (field k v fs) e w

  pub when-P : {A : Type 0} (b : Bool) (m : Act (Option A)) → P m.0 → P (when b m).0
  when-P true m h = h
  when-P false m h = rule.nothing

  pub observe-P : (b : Bool) (t : String) → P (observe b t).0
  observe-P true t = rule.work (observed t) refl
  observe-P false t = rule.nothing

  pub settle-P : (b : Bool) (r : DirectiveResult) → P (settle b r).0
  settle-P b r = bind-P (observe b r.observation) _ (observe-P b r.observation) (λ u. rule.nothing)

  -- An effect, and what its answer leads to.
  pub ask-P :
      {A B : Type 0} (e : Effect) (o : Option A) (f : A → Act B)
      → is_work e ≡ true
      → ((a : A) → P (f a).0)
      → P (ask e o >>= f).0
  ask-P e o f w k = bind-P (ask e o) f (rule.work e w) k

  pub scope-P :
      {A B : Type 0} (meta : Option Fields) (e : Effect) (o : Option A) (f : A → Act B)
      → is_work e ≡ true
      → ((a : A) → P (f a).0)
      → P (directive_scope meta (ask e o) >>= f).0
  scope-P meta e o f w k =
      bind-P (directive_scope meta (ask e o)) f (directive_scope-P meta e o w) k

  minedojo_answered-P : (b h : Bool) → P (minedojo_answered b h).0
  unfolding minedojo_answered
  minedojo_answered-P b true = settle-P b _
  minedojo_answered-P b false = rule.nothing

  pub minedojo-P :
      (answers : Answers) (d : Option Directive) (index : ℕ) (b : Bool)
      → P (handle_minedojo_directive answers d index b).0
  unfolding handle_minedojo_directive
  minedojo-P answers none index b = rule.nothing
  minedojo-P answers (some d) index b =
      when-P _ _
        (ask-P (minedojo_asked index) answers.minedojo _ refl (λ h. minedojo_answered-P b h))

  pub chat-P :
      (rules : Rules) (answers : Answers) (d : Option Directive) (normalized : String)
      (meta : Option Fields) (b : Bool)
      → P (handle_chat_directive rules answers d normalized meta b).0
  unfolding handle_chat_directive
  chat-P rules answers none normalized meta b = rule.nothing
  chat-P rules answers (some d) normalized meta b =
      when-P _ _ (scope-P meta _ (done answers.chat_said) _ refl (λ u. settle-P b _))

  hybrid_handled-P : (answers : Answers) (b h : Bool) → P (hybrid_handled answers b h).0
  unfolding hybrid_handled
  hybrid_handled-P answers b true = rule.nothing
  hybrid_handled-P answers b false = rule.nothing

  hybrid_ended-P :
      (answers : Answers) (d : Directive) (ending : HybridEnding)
      → P (hybrid_ended answers d ending).0
  unfolding hybrid_ended
  hybrid_ended-P answers d executed = rule.nothing
  hybrid_ended-P answers d (validation_failed exc) =
      ask-P _ (done answers.hybrid_told) _ refl (λ u. rule.nothing)
  hybrid_ended-P answers d execution_raised =
      ask-P _ (done answers.hybrid_told) _ refl (λ u. rule.nothing)

  execute_hybrid-P :
      (answers : Answers) (d : Directive) (meta : Option Fields) (fs : Fields)
      → P (execute_hybrid answers d meta fs).0
  unfolding execute_hybrid
  execute_hybrid-P answers d meta fs =
      scope-P meta (hybrid_executed fs) answers.hybrid_done _ refl (hybrid_ended-P answers d)

  hybrid_parsed-P :
      (answers : Answers) (d : Directive) (meta : Option Fields) (b : Bool) (p : Parsed)
      → P (hybrid_parsed answers d meta b p).0
  unfolding hybrid_parsed
  hybrid_parsed-P answers d meta b (value_error exc) =
      ask-P _ (done answers.hybrid_told) _ refl (λ u. rule.nothing)
  hybrid_parsed-P answers d meta b (payload fs) =
      bind-P (execute_hybrid answers d meta fs) _ (execute_hybrid-P answers d meta fs)
        (λ h. hybrid_handled-P answers b h)

  pub hybrid-P :
      (answers : Answers) (d : Option Directive) (meta : Option Fields) (b : Bool)
      → P (handle_hybrid_directive answers d meta b).0
  unfolding handle_hybrid_directive
  hybrid-P answers none meta b = rule.nothing
  hybrid-P answers (some d) meta b =
      when-P _ _ (hybrid_parsed-P answers d meta b answers.hybrid_parsed)

  detection_reported-P :
      (rules : Rules) (b : Bool) (r : Option Fields) → P (detection_reported rules b r).0
  unfolding detection_reported
  detection_reported-P rules b none = settle-P b _
  detection_reported-P rules b (some end) = settle-P b _
  detection_reported-P rules b (some (field k v fs)) = settle-P b _

  pub detect-P :
      (rules : Rules) (answers : Answers) (meta : Option Fields) (b : Bool) (c : Option String)
      → P (detect rules answers meta b c).0
  unfolding detect
  detect-P rules answers meta b none = rule.nothing
  detect-P rules answers meta b (some c) =
      scope-P meta (detection_performed c) answers.detection _ refl
        (λ r. detection_reported-P rules b r)

  pub move_there-P :
      (answers : Answers) (d : Option Directive) (meta : Option Fields) (normalized : String)
      (c : Option Coords) (b : Bool) (backlog : List Fields)
      → P (move_there answers d meta normalized c b backlog).0
  unfolding move_there
  move_there-P answers d meta normalized none b backlog = rule.nothing
  move_there-P answers d meta normalized (some c) b backlog =
      scope-P meta _ answers.action _ refl
        (λ a. bind-P (settle b _) _ (settle-P b _) (λ r. rule.nothing))

  pub status_check-P : (normalized : String) (b : Bool) → P (handle_status_check normalized b).0
  unfolding handle_status_check
  status_check-P normalized b = when-P _ _ (settle-P b _)

  pub moved_on-P :
      (rules : Rules) (answers : Answers) (step : String) (ok : Bool) (detail : Option Value)
      → P (moved_on rules answers step ok detail).0
  unfolding moved_on
  moved_on-P rules answers step true detail = rule.nothing
  moved_on-P rules answers step false none = rule.nothing
  moved_on-P rules answers step false (some detail) =
      ask-P _ (done answers.move_told) _ refl (λ u. rule.nothing)

  pub if-P : {A : Type 0} (b : Bool) (m n : Act A) → P m.0 → P n.0 → P (if b then m else n).0
  if-P true m n h k = h
  if-P false m n h k = k
