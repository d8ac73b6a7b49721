-- ===== src/Planning/Recovery.antt =====
-- python/orchestrator/recovery_coordinator.py and python/runtime/reflection_prompt.py. The planner,
-- what the memory holds and the role perception are parameters, by the depth of the plan that has
-- failed. The signature of the task and the snapshot of the context are left out.
use mc_bot_egent_practice.Prelude.{
  ℕ, ◌+◌, ◌-◌, String, Bool, true, Option, List, [], ◌∷◌, ◌++◌, leb, str_eq, length, drop,
  if◌then◌else◌,
}
use mc_bot_egent_practice.Python.{Value, Fields, truth, get, strip, append}
use mc_bot_egent_practice.Planning.Effects.{
  Effect, said, barrier_reported, reports_handled, backlog_handled, reflection_finalized,
  reflection_begun, prompt_kept, hints_kept, replan_requested, Act, pure, ask, done, ◌>>=◌,
}
use mc_bot_egent_practice.Planning.Directive.{PlanOut}
use mc_bot_egent_practice.Planning.Steps.{Rules}
use mc_bot_egent_practice.Planning.Handlers.{str_value}

pub record RecoveryAnswers : Type 0 where
  pub barrier_told : Bool
  pub bridge_reports : List Fields
  -- augment_failure_reason_with_events
  pub augment : String → List Fields → String
  -- the improvement and the result of each of the previous reflections
  pub previous_reflections : List (String × String)
  pub new_plan : Option PlanOut
  pub resp_said : Bool

-- separator.join(lines)
abbrev pub join : String → List String → String
join separator [] = ""
join separator (line ∷ []) = line
join separator (line ∷ next ∷ lines) =
    append line (append separator (join separator (next ∷ lines)))

-- The first of the values that is true, as a text, or the default.
abbrev pub first_text : Rules → String → List Value → String
first_text rules default [] = default
first_text rules default (v ∷ vs) =
    if truth v then str_value rules v else first_text rules default vs

abbrev pub bullet : String → List String
bullet t = if str_eq t "" then [] else append "- " t ∷ []

abbrev pub report_lines : Rules → List Fields → List String
report_lines rules [] = []
report_lines rules (report ∷ reports) =
    bullet (strip (first_text rules "" (get "summary" report ∷ get "category" report ∷ [])))
    ++ report_lines rules reports

abbrev pub backlog_lines : Rules → List Fields → List String
backlog_lines rules [] = []
backlog_lines rules (item ∷ items) =
    bullet (
      first_text rules "未分類のアクション"
        (get "label" item ∷ get "step" item ∷ get "category" item ∷ get "summary" item ∷ []))
    ++ backlog_lines rules items

abbrev pub reflection_lines : List (String × String) → List String
reflection_lines [] = []
reflection_lines ((improvement, result) ∷ entries) =
    append "- " (
      append (strip (if str_eq improvement "" then "改善案なし" else improvement))
        (append " / 再試行結果: " (strip (if str_eq result "" then "結果未記録" else result))))
    ∷ reflection_lines entries

abbrev pub headed {ℓ} : {A : Type ℓ} → String → List A → List String → List String
headed title [] lines = []
headed title (x ∷ xs) lines = title ∷ lines

unfoldable pub build_reflection_prompt :
    Rules → String → String → List Fields → List Fields → List (String × String) → String
build_reflection_prompt rules failed_step failure_reason reports backlog previous = join "\n" (
    "以下の障壁を踏まえた再計画を提案してください。"
    ∷ append "失敗したステップ: " failed_step
    ∷ append "失敗理由: " failure_reason
    ∷ (headed "関連ステータス報告:" reports (report_lines rules reports)
        ++ (headed "未消化のアクション候補:" backlog (backlog_lines rules backlog)
            ++ (headed "過去の反省点・改善案:" previous (reflection_lines previous)
                ++ "同じ失敗を繰り返さないよう、具体的な改善ポイントを含む計画ステップを提示してください。" ∷ []))))

-- bridge_reports[-5:]
abbrev pub last_five : List Fields → List Fields
last_five reports = drop (length reports - 5) reports

abbrev pub augmented_reason : RecoveryAnswers → String → List Fields → String
augmented_reason answers reason [] = reason
augmented_reason answers reason (report ∷ reports) = answers.augment reason (report ∷ reports)

abbrev pub replan_instruction : String → String → String → List String → String
replan_instruction prompt failed_step failure_reason remaining =
    let remaining_text = join "、" remaining in
    append prompt (
      append "\n\n手順「" (
        append failed_step (
          append "」の実行に失敗しました（" (
            append failure_reason (
              append "）。現在の状況を踏まえて作業を継続するための別案を提示してください。"
                (if str_eq remaining_text "" then "" else append " 未完了ステップ候補: " remaining_text))))))

-- A list that is not empty is handed over.
abbrev pub hand_over : (List Fields → Bool → Effect) → List Fields → Bool → Bool → Act (Unit {0})
hand_over effect [] responded returns = pure tt
hand_over effect (x ∷ xs) responded returns = ask (effect (x ∷ xs) responded) (done returns)

-- `if new_plan.resp.strip(): await self.actions.say(new_plan.resp)`
abbrev pub say_resp : Bool → String → Act (Unit {0})
say_resp returns resp = if str_eq (strip resp) "" then pure tt else ask (said resp) (done returns)

module _ (rules : Rules) (answers : RecoveryAnswers) (max_replan_depth replan_depth : ℕ)
    (plan_runner : PlanOut → Act (Unit {0})) where
  unfoldable pub request_replan : String → Act (Unit {0})
  request_replan instruction = if leb max_replan_depth replan_depth then pure tt else (do
    new_plan ← ask (replan_requested (replan_depth + 1) instruction) answers.new_plan
    _ ← say_resp answers.resp_said new_plan.resp
    plan_runner new_plan)

  -- What the task router is told, and the replan.
  unfoldable pub share_and_replan : List Fields → List Fields → String → Act (Unit {0})
  unfolding request_replan
  share_and_replan reports backlog instruction = do
    _ ← hand_over reports_handled reports true true
    _ ← hand_over backlog_handled backlog true true
    request_replan instruction

  -- The memory's last reflection prompt is that of the reflection begun here.
  unfoldable pub handle_failure :
      String → String → List Fields → List Fields → List String → Act (Unit {0})
  unfolding share_and_replan build_reflection_prompt
  handle_failure failed_step failure_reason detection_reports action_backlog remaining_steps =
      let merged = detection_reports ++ last_five answers.bridge_reports in
      let reason = augmented_reason answers failure_reason answers.bridge_reports in
      let prompt =
        build_reflection_prompt rules failed_step reason merged action_backlog
          answers.previous_reflections in
      (do
        _ ← ask (barrier_reported failed_step failure_reason) (done answers.barrier_told)
        _ ←
            ask
              (reflection_finalized "failed" (
                append "step='"
                  (append failed_step (append "' reason='" (append failure_reason "'")))))
              (done true)
        _ ← ask (reflection_begun failed_step reason) (done true)
        _ ← ask (prompt_kept prompt) (done true)
        _ ← ask (hints_kept (append "step:" failed_step) reason) (done true)
        share_and_replan merged action_backlog
            (replan_instruction prompt failed_step reason remaining_steps))
