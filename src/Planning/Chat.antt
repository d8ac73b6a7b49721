-- ===== src/Planning/Chat.antt =====
-- What is said in the chat for a chat directive of a plan.
use mc_bot_egent_practice.Prelude.{
  ◌≡◌, refl, String, Bool, true, false, Option, none, some, List, [], ◌∷◌, str_eq,
}
use mc_bot_egent_practice.Python.{Fields, null, get, end, field}
use mc_bot_egent_practice.Planning.Effects.{Effect, said, Act, ask, done, ◌>>=◌}
use mc_bot_egent_practice.Planning.Directive.{Directive, chat, directive_scope}
use mc_bot_egent_practice.Planning.Steps.{Answers, Rules}
use mc_bot_egent_practice.Planning.Handlers.{
  DirectiveResult, settle, handle_minedojo_directive, handle_chat_directive,
}
use mc_bot_egent_practice.Planning.Executor.{
  StepInput, or_else, from_minedojo, from_chat, handle_step,
}

-- The texts that are said.
abbrev pub spoken : List Effect → List String
spoken [] = []
spoken (said t ∷ es) = t ∷ spoken es
spoken (e ∷ es) = spoken es

spoken-or_else :
    (meta : Option Fields) (t : String) (returns has_react : Bool) (r : DirectiveResult)
    (backlog : List Fields) (rest : Act (DirectiveResult × List Fields))
    → spoken
        (or_else backlog
          (directive_scope meta (ask (said t) (done returns)) >>= λ u. settle has_react r)
          rest).0
      ≡ t ∷ []
unfolding directive_scope
spoken-or_else none t false b r backlog rest = refl
spoken-or_else none t true false r backlog rest = refl
spoken-or_else none t true true r backlog rest = refl
spoken-or_else (some end) t false b r backlog rest = refl
spoken-or_else (some end) t true false r backlog rest = refl
spoken-or_else (some end) t true true r backlog rest = refl
spoken-or_else (some (field k v fs)) t false b r backlog rest = refl
spoken-or_else (some (field k v fs)) t true false r backlog rest = refl
spoken-or_else (some (field k v fs)) t true true r backlog rest = refl

-- For a step that is not empty and whose directive goes to the chat and has no message among its
-- arguments, whatever the directive's label and the step's text are, the one thing that is said is
-- "None", whether or not a ReAct step stands beside it and whether or not the saying raises.
pub chat_without_message :
    (rules : Rules) (answers : Answers) (i : StepInput) (d : Directive) (backlog : List Fields)
    → str_eq i.normalized "" ≡ false
    → get "message" d.args ≡ null
    → spoken
        (handle_step rules answers
          (record i { directive = some (record d { executor = chat }) })
          backlog).0
      ≡ "None" ∷ []
unfolding handle_step from_minedojo handle_minedojo_directive from_chat handle_chat_directive
chat_without_message rules answers i d backlog named empty =
    rw (named, empty) (spoken-or_else i.meta "None" answers.chat_said i.has_react _ backlog _)
