-- ===== src/Reflection/Session.antt =====
-- Reflections over the life of a process, and its restart.
use mc_bot_egent_practice.Prelude.{
  ℕ, ◌≡◌, refl, String, true, false, Option, none, some, List, [], ◌∷◌, arith, str_eq, Dict, lookup,
  IsUnique, Bool-cases, Option-cases, inl, inr, if◌then◌else◌,
}
use mc_bot_egent_practice.Python.{end, Fields}
use mc_bot_egent_practice.Reflection.Entry.{has_plain_fields, ReflectionLogEntry, World, IsComplete}
use mc_bot_egent_practice.Reflection.Store.{Json, load_entries}
use mc_bot_egent_practice.Reflection.Memory.{
  Memory, new_memory, restore_from, persist_reflections, begin_reflection, label_of, finalize_entry,
  finalize_active, finalize_pending_reflection,
}
use mc_bot_egent_practice.Reflection.Restore.{
  IsKept, IsSound, IsFaithful, IsUnique-insert, IsKept-insert, restore-persist,
}

-- The calls that change the reflections, with the texts from outside.
pub data Call : Type 0 where
  begun : String → String → String → String → String → String → Option Fields → Call
  finalized : String → String → Option String → Call

-- Ids, times and labels are not empty, and JSON can say the metadata.
abbrev pub IsValid : Call → Type 0
IsValid (begun id now signature step reason improvement metadata) =
    (str_eq id "" ≡ false)
    × (str_eq now "" ≡ false)
    × (has_plain_fields (elim metadata [ none ↦ end | some fs ↦ fs ]) ≡ true)
IsValid (finalized now outcome detail) =
    (str_eq now "" ≡ false) × (str_eq (label_of outcome detail) "" ≡ false)

abbrev pub AllValid : List Call → Type 0
AllValid [] = Unit
AllValid (c ∷ cs) = IsValid c × AllValid cs

module _ {C : Type 0} (json : Json C) where
  -- A call whose write succeeds.
  unfoldable pub perform : Call → Memory C → Memory C
  perform (begun id now signature step reason improvement metadata) m =
      (begin_reflection json true id now signature step reason improvement metadata m).0
  perform (finalized now outcome detail) m =
      (finalize_pending_reflection json true now outcome detail m).0

  unfoldable pub perform_all : List Call → Memory C → Memory C
  unfolding perform
  perform_all [] m = m
  perform_all (c ∷ cs) m = perform_all cs (perform c m)

  -- The memory is sound, and a restart from its file restores it.
  abbrev pub IsSynced : (ℕ → World) → Memory C → Type 0
  IsSynced worlds m =
      IsSound m × ((new_memory json worlds m.file).reflection_logs ≡ m.reflection_logs)

  IsKept-lookup :
      (k : String) (e : ReflectionLogEntry) (logs : Dict ReflectionLogEntry)
      → lookup k logs ≡ some e
      → IsKept logs
      → IsComplete e
  unfolding lookup
  IsKept-lookup k e [] h kept = cc
  IsKept-lookup k e ((j, w) ∷ logs) h (here, complete, kept) = elim (Bool-cases (str_eq j k)) [
    | inl same ↦ let it : w ≡ e = ground (arith, same, h) in rw (← it) complete
    | inr other ↦ IsKept-lookup k e logs (ground (arith, other, h)) kept
  ]

  persist-IsSynced :
      (worlds : ℕ → World) (logs : Dict ReflectionLogEntry) (active : Option String) (m : Memory C)
      → IsFaithful json
      → IsKept logs
      → IsUnique logs
      → IsSynced worlds (
          persist_reflections json true
            (record m { reflection_logs = logs; active_reflection_id = active }))
  unfolding persist_reflections
  persist-IsSynced worlds logs active m faithful kept unique = (
    (kept, unique),
    restore-persist json worlds (record m { reflection_logs = logs; active_reflection_id = active })
        faithful (kept, unique),
  )

  finalize_entry-IsSynced :
      (worlds : ℕ → World) (now label : String) (e : ReflectionLogEntry) (m : Memory C)
      → IsFaithful json
      → str_eq now "" ≡ false
      → str_eq label "" ≡ false
      → IsComplete e
      → IsSound m
      → IsSynced worlds (finalize_entry json true now label e m).0
  unfolding finalize_entry
  finalize_entry-IsSynced worlds now label e m faithful n l (i, r, c, u, plain) (kept, unique) =
      persist-IsSynced worlds _ (if str_eq label "pending" then m.active_reflection_id else none) m
        faithful (IsKept-insert e.id _ m.reflection_logs refl (i, l, c, n, plain) kept)
        (IsUnique-insert e.id _ m.reflection_logs unique)

  finalize_active-IsSynced :
      (worlds : ℕ → World) (now label : String) (active : Option String) (m : Memory C)
      → IsFaithful json
      → str_eq now "" ≡ false
      → str_eq label "" ≡ false
      → IsSynced worlds m
      → IsSynced worlds (finalize_active json true now label active m).0
  unfolding finalize_active
  finalize_active-IsSynced worlds now label none m faithful n l synced = synced
  finalize_active-IsSynced worlds now label (some id) m faithful n l synced =
      elim (Bool-cases (str_eq id "")) [
        | inl empty ↦ rw empty synced
        | inr known ↦ elim (Option-cases (lookup id m.reflection_logs)) [
          | inl lost ↦ rw (known, lost) synced
          | inr (e, there) ↦
              rw (known, there)
                (finalize_entry-IsSynced worlds now label e m faithful n l
                  (IsKept-lookup id e m.reflection_logs there synced.0.0) synced.0)
        ]
      ]

  perform-IsSynced :
      (worlds : ℕ → World) (c : Call) (m : Memory C)
      → IsFaithful json
      → IsValid c
      → IsSynced worlds m
      → IsSynced worlds (perform c m)
  unfolding perform begin_reflection finalize_pending_reflection
  perform-IsSynced worlds (begun id now signature step reason improvement metadata) m faithful
        (i, n, plain) ((kept, unique), same) =
      persist-IsSynced worlds _ (some id) m faithful
        (IsKept-insert id _ m.reflection_logs refl (i, refl, n, n, plain) kept)
        (IsUnique-insert id _ m.reflection_logs unique)
  perform-IsSynced worlds (finalized now outcome detail) m faithful (n, l) synced =
      finalize_active-IsSynced worlds now (label_of outcome detail) m.active_reflection_id m
        faithful n l synced

  perform_all-IsSynced :
      (worlds : ℕ → World) (cs : List Call) (m : Memory C)
      → IsFaithful json
      → AllValid cs
      → IsSynced worlds m
      → IsSynced worlds (perform_all cs m)
  unfolding perform_all
  perform_all-IsSynced worlds [] m faithful v synced = synced
  perform_all-IsSynced worlds (c ∷ cs) m faithful (v, vs) synced =
      perform_all-IsSynced worlds cs (perform c m) faithful vs
        (perform-IsSynced worlds c m faithful v synced)

  -- With a JSON codec that writes and reads back every value in which no object of the program
  -- stands and no dict has a key twice, and as long as writing succeeds, a restart after any calls
  -- of `begin_reflection` and `finalize_pending_reflection` restores every reflection as it was, in
  -- order, if the first start found no file, no id, time or label was empty, and the metadata are
  -- such values.
  pub restart-perform_all :
      (worlds worlds' : ℕ → World) (cs : List Call)
      → IsFaithful json
      → AllValid cs
      → (new_memory json worlds
          (perform_all cs (new_memory json worlds' none)).file).reflection_logs
        ≡ (perform_all cs (new_memory json worlds' none)).reflection_logs
  unfolding new_memory load_entries restore_from
  restart-perform_all worlds worlds' cs faithful valid =
      (perform_all-IsSynced worlds cs (new_memory json worlds' none) faithful valid
        ((tt, tt), refl)).1
