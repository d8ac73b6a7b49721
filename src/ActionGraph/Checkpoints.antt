-- ===== src/ActionGraph/Checkpoints.antt =====
-- The building checkpoint from one step to the next.
use mc_bot_egent_practice.Prelude.{List, [], ◌∷◌}
use mc_bot_egent_practice.Python.{Fields, put}
use mc_bot_egent_practice.ActionGraph.State.{Effect, kept}

-- The memory after some effects.
unfoldable pub memory_after : Fields → List Effect → Fields
memory_after memory [] = memory
memory_after memory (kept key value ∷ es) = memory_after (put key value memory) es
memory_after memory (e ∷ es) = memory_after memory es
