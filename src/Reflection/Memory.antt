-- ===== src/Reflection/Memory.antt =====
-- `Memory` of python/memory.py: its reflections. The entry that a session returns is a copy here; a
-- caller that changes the object it is given would change the log too.
use Prim.Native.String.{◌++◌ as append}
use mc_bot_egent_practice.Prelude.{
  ℕ, ◌+◌, String, Bool, Option, none, some, List, [], ◌∷◌, map, str_eq, Dict, lookup, insert,
  if◌then◌else◌,
}
use mc_bot_egent_practice.Python.{Fields, end, strip}
use mc_bot_egent_practice.Reflection.Entry.{ReflectionLogEntry, World, to_dict, from_dict}
use mc_bot_egent_practice.Reflection.Store.{Json, load_entries, save_entries}

pub record Memory (Contents : Type 0) : Type 0 where
  pub reflection_logs : Dict ReflectionLogEntry
  pub active_reflection_id : Option String
  -- the file of the store
  pub file : Option Contents

-- The loop of `_load_reflections`; the n-th entry is read at its own time.
unfoldable pub restore_from :
    (ℕ → World) → ℕ → List Fields → Dict ReflectionLogEntry → Dict ReflectionLogEntry
restore_from worlds n [] logs = logs
restore_from worlds n (payload ∷ rest) logs =
    let entry = from_dict (worlds n) payload in
    restore_from worlds (n + 1) rest (insert entry.id entry logs)

-- The label of an outcome.
unfoldable pub label_of : String → Option String → String
label_of outcome detail =
    let label = if str_eq outcome "" then "unknown" else strip outcome in
    elim detail [
      | none ↦ label
      | some d ↦ if str_eq d "" then label else append label (append ": " d)
    ]

module _ {C : Type 0} (json : Json C) where
  -- `Memory(...)` with `_load_reflections`
  unfoldable pub new_memory : (ℕ → World) → Option C → Memory C
  unfolding restore_from
  new_memory worlds file = record {
    reflection_logs = restore_from worlds 0 (load_entries json file) [];
    active_reflection_id = none;
    file = file;
  }

  -- `_persist_reflections`; a failure is only logged
  unfoldable pub persist_reflections : Bool → Memory C → Memory C
  persist_reflections writes m = record m {
    file = save_entries json writes (map (λ row. to_dict row.1) m.reflection_logs) m.file;
  }

  unfoldable pub begin_reflection :
      Bool
      → String
      → String
      → String
      → String
      → String
      → String
      → Option Fields
      → Memory C
      → Memory C × ReflectionLogEntry
  unfolding persist_reflections
  begin_reflection writes id now task_signature failed_step failure_reason improvement metadata m =
      let entry : ReflectionLogEntry = record {
        id = id;
        task_signature = task_signature;
        failed_step = failed_step;
        failure_reason = failure_reason;
        improvement = improvement;
        retry_result = "pending";
        created_at = now;
        updated_at = now;
        metadata = elim metadata [ none ↦ end | some fs ↦ fs ];
      } in
      (
        persist_reflections writes (record m {
          reflection_logs = insert id entry m.reflection_logs;
          active_reflection_id = some id;
        }),
        entry,
      )

  -- The entry under way has been found.
  unfoldable pub finalize_entry :
      Bool → String → String → ReflectionLogEntry → Memory C → Memory C × Option ReflectionLogEntry
  unfolding persist_reflections
  finalize_entry writes now label entry m =
      let entry' : ReflectionLogEntry = record entry { retry_result = label; updated_at = now } in
      (
        persist_reflections writes (record m {
          reflection_logs = insert entry.id entry' m.reflection_logs;
          active_reflection_id = if str_eq label "pending" then m.active_reflection_id else none;
        }),
        some entry',
      )

  -- The fourth argument is the id under way.
  unfoldable pub finalize_active :
      Bool → String → String → Option String → Memory C → Memory C × Option ReflectionLogEntry
  unfolding finalize_entry
  finalize_active writes now label none m = (m, none)
  finalize_active writes now label (some id) m =
      if str_eq id "" then (m, none) else elim (lookup id m.reflection_logs) [
        | none ↦ (record m { active_reflection_id = none }, none)
        | some entry ↦ finalize_entry writes now label entry m
      ]

  unfoldable pub finalize_pending_reflection :
      Bool → String → String → Option String → Memory C → Memory C × Option ReflectionLogEntry
  unfolding label_of finalize_active
  finalize_pending_reflection writes now outcome detail m =
      finalize_active writes now (label_of outcome detail) m.active_reflection_id m
