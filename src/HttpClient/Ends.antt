-- ===== src/HttpClient/Ends.antt =====
-- How a request ends.
use mc_bot_egent_practice.Prelude.{
  ℕ, zero, suc, ◌+◌, ◌*◌, ◌≤◌, ◌≡◌, String, Bool, true, false, Option, some, ltb, if◌then◌else◌,
}
use mc_bot_egent_practice.Python.{Value}
use mc_bot_egent_practice.HttpClient.Request.{
  HttpAnswer, Ending, gave_up, Pass, settled, failing, pass,
}

-- The pauses of `j` retries: the first one, doubled each time.
abbrev pub pauses : ℕ → ℕ → ℕ
pauses backoff zero = 0
pauses backoff (suc j) = backoff + pauses (backoff * 2) j

abbrev pub conclusion : Pass → Ending
conclusion (settled ending) = ending
conclusion failing = gave_up

-- A pass that the loop goes on after.
abbrev pub goes_on : ℕ → ℕ → Pass → Bool
goes_on max_attempts attempt (settled ending) = false
goes_on max_attempts attempt failing = if ltb max_attempts (attempt + 1) then false else true

module _ (str : Value → String) (max_attempts : ℕ) (answers : ℕ → HttpAnswer) where
  -- The `j` passes from `k` on fail.
  abbrev pub AllFail : ℕ → ℕ → Type 0
  AllFail k zero = Unit
  AllFail k (suc j) = (pass str (answers k) ≡ failing) × AllFail (k + 1) j

  -- Of at most n retries from pass `k` on, `j` are made; the pass `p` after them is the last one
  -- and gives the ending.
  abbrev pub Ends : ℕ → ℕ → ℕ → Option Ending × ℕ → Type 0
  Ends n k backoff r =
      (j : ℕ) × ((p : ℕ) × ((p ≡ k + j)
          × (j ≤ n)
          × AllFail k j
          × (goes_on max_attempts p (pass str (answers p)) ≡ false)
          × (r.0 ≡ some (conclusion (pass str (answers p))))
          × (r.1 ≡ pauses backoff j)))
