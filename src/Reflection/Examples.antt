-- ===== src/Reflection/Examples.antt =====
-- One reflection: tests of the definitions and an instance of the theorem.
use mc_bot_egent_practice.Prelude.{if◌then◌else◌, ℕ, ◌≡◌, refl, none, some, List, [], ◌∷◌}
use mc_bot_egent_practice.Prelude.Int.{pos}
use mc_bot_egent_practice.Python.{field, end, integer, Value, strip}
use mc_bot_egent_practice.Reflection.{is_plain, has_plain_fields, World, Json, new_memory, label_of}
use mc_bot_egent_practice.Reflection.Restore.{IsFaithful}
use mc_bot_egent_practice.Reflection.Session.{
  Call, begun, finalized, perform_all, restart-perform_all,
}

-- A codec that refuses what JSON cannot say, and keeps any other value.
abbrev careful : Json Value
careful = record { dump = λ v. if is_plain v then some v else none; load = λ v. some v }

careful-IsFaithful : IsFaithful careful
careful-IsFaithful v plain = (v, (rw plain refl, refl))

abbrev worlds : ℕ → World
worlds n = record { fresh_id = "r-9"; now = "2026-01-02"; str = λ v. "?" }

abbrev calls : List Call
calls =
    begun "r-1" "2026-01-01" "dig" "dig here" "no pickaxe" "craft one"
      (some (field "depth" (integer (pos 2)) end))
    ∷ finalized "2026-01-02" " done " (some "with stone")
    ∷ []

label_of-done : label_of " done " (some "with stone") ≡ "done: with stone"
unfolding label_of strip
label_of-done = refl

restart-perform_all_example :
    (new_memory careful worlds
      (perform_all careful calls (new_memory careful worlds none)).file).reflection_logs
    ≡ (perform_all careful calls (new_memory careful worlds none)).reflection_logs
unfolding label_of strip has_plain_fields is_plain
restart-perform_all_example =
    restart-perform_all careful worlds worlds calls careful-IsFaithful
      ((refl, refl, refl), ((refl, refl), tt))
