-- ===== src/Actions/Fallback.antt =====
-- How `execute_hybrid_action` of python/actions/hybrid.py chooses between its two ways.
use mc_bot_egent_practice.Prelude.{◌⊎◌, if◌then◌else◌, ℕ, ◌+◌, ◌≡◌, true, Option, none, some}
use mc_bot_egent_practice.Python.{Fields, truth, get}
use mc_bot_egent_practice.Actions.Dispatch.{Answer, answered, threw, Dispatcher}
use mc_bot_egent_practice.Actions.Validate.{Command}
use mc_bot_egent_practice.Actions.Scope.{reply}
use mc_bot_egent_practice.Actions.Hybrid.{
  HybridOutcome, by_vpt, hybrid_invalid, Reason, reported, exception, command_outcome,
}

-- What an answer to the VPT command says: it worked, or the reason why not.
abbrev pub verdict : Answer → Option Reason
verdict threw = some exception
verdict (answered r) = if truth (get "ok" r) then none else some (reported (get "error" r))

-- The VPT command worked.
abbrev pub ByVpt : (ℕ → Answer) → Dispatcher → Dispatcher × HybridOutcome → Type 0
ByVpt answers d r =
    (resp : Fields) × ((answers d.next_id ≡ answered resp)
      × (truth (get "ok" resp) ≡ true)
      × (r.0.next_id ≡ d.next_id + 1)
      × (r.1 ≡ by_vpt resp))

-- The fallback, if there is one, was dispatched, and its reply is the outcome.
abbrev pub ByFallback :
    (ℕ → Answer) → Reason → Option Command → Dispatcher → Dispatcher × HybridOutcome → Type 0
ByFallback answers why none d r = (r.0.next_id ≡ d.next_id) × (r.1 ≡ hybrid_invalid)
ByFallback answers why (some command) d r =
    (r.0.next_id ≡ d.next_id + 1) × (r.1 ≡ command_outcome answers why (reply answers command.0 d))

-- The result of `after_vpt` on an answer `a`, with the dispatcher after it.
abbrev pub Judged :
    (ℕ → Answer) → Option Command → Answer → Dispatcher → Dispatcher × HybridOutcome → Type 0
Judged answers fallback a d r =
    ((resp : Fields) × ((a ≡ answered resp)
        × (truth (get "ok" resp) ≡ true)
        × (r ≡ (d, by_vpt resp))))
    ⊎ ((why : Reason) × ((verdict a ≡ some why) × ByFallback answers why fallback d r))
