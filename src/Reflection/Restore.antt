-- ===== src/Reflection/Restore.antt =====
-- What a restart restores.
use mc_bot_egent_practice.Prelude.{
  is_some, sym, lookup-insert, Bool-cases, inl, inr, ◌∙◌, ℕ, ◌+◌, ◌≡◌, refl, String, true, Option,
  none, some, List, [], ◌∷◌, ◌++◌, map, arith, eq_iff, ap, append-nil, append_assoc, str_eq, Dict,
  lookup, insert, IsUnique,
}
use mc_bot_egent_practice.Python.{Value, Fields, get_or}
use mc_bot_egent_practice.Reflection.Entry.{
  has_plain_fields, to_dict-plain, is_plain, are_plain, ReflectionLogEntry, World, IsComplete,
  to_dict, from_dict, from_dict-to_dict,
}
use mc_bot_egent_practice.Reflection.Store.{
  Json, dicts, entries_of, load_entries, dict_items, document, save_entries,
}
use mc_bot_egent_practice.Reflection.Memory.{Memory, restore_from, new_memory, persist_reflections}

-- Every entry stands under its id and is complete.
abbrev pub IsKept : Dict ReflectionLogEntry → Type 0
IsKept [] = Unit
IsKept ((k, e) ∷ logs) = (e.id ≡ k) × IsComplete e × IsKept logs

insert-new :
    {V : Type 0} (k : String) (v : V) (d : Dict V)
    → lookup k d ≡ none
    → insert k v d ≡ d ++ (k, v) ∷ []
unfolding insert lookup
insert-new k v [] h = refl
insert-new k v ((j, w) ∷ d) h = ground (arith, insert-new k v d)

dicts-dict_items : (entries : List Fields) → dicts (dict_items entries) ≡ entries
unfolding dicts
dicts-dict_items [] = refl
dicts-dict_items (fs ∷ rest) = ap (λ es. fs ∷ es) (dicts-dict_items rest)

found :
    {V : Type 0} (k : String) (v : V) (xs ys : Dict V)
    → is_some (lookup k (xs ++ (k, v) ∷ ys)) ≡ true
unfolding lookup
found k v [] ys = ground (arith, eq_iff k k)
found k v ((j, w) ∷ xs) ys = ground (arith, found k v xs ys)

-- A key in the middle does not stand before it.
lookup-before :
    {V : Type 0} (k : String) (v : V) (xs ys : Dict V)
    → IsUnique (xs ++ (k, v) ∷ ys)
    → lookup k xs ≡ none
unfolding lookup
lookup-before k v [] ys u = refl
lookup-before k v ((j, w) ∷ xs) ys (fresh, u) =
    ground (arith, eq_iff j k, found k v xs ys, fresh, lookup-before k v xs ys u)

pub IsUnique-insert :
    {V : Type 0} (k : String) (v : V) (d : Dict V) → IsUnique d → IsUnique (insert k v d)
unfolding insert lookup
IsUnique-insert k v [] u = (refl, tt)
IsUnique-insert k v ((j, w) ∷ d) (fresh, u) = elim (Bool-cases (str_eq j k)) [
  | inl same ↦ rw same (fresh, u)
  | inr other ↦ rw other (
    ground (arith, lookup-insert k j v d, eq_iff k j, eq_iff j k, other, fresh),
    IsUnique-insert k v d u,
  )
]

pub IsKept-insert :
    (k : String) (e : ReflectionLogEntry) (logs : Dict ReflectionLogEntry)
    → e.id ≡ k
    → IsComplete e
    → IsKept logs
    → IsKept (insert k e logs)
unfolding insert
IsKept-insert k e [] h c kept = (h, c, tt)
IsKept-insert k e ((j, w) ∷ logs) h c (here, complete, kept) = elim (Bool-cases (str_eq j k)) [
  | inl same ↦ rw same (ground (arith, eq_iff j k, same, h), c, kept)
  | inr other ↦ rw other (here, complete, IsKept-insert k e logs h c kept)
]

insert-restored :
    (w : World) (k : String) (e : ReflectionLogEntry) (logs : Dict ReflectionLogEntry)
    → e.id ≡ k
    → IsComplete e
    → lookup k logs ≡ none
    → insert (from_dict w (to_dict e)).id (from_dict w (to_dict e)) logs ≡ logs ++ (k, e) ∷ []
insert-restored w k e logs here complete fresh =
    rw (from_dict-to_dict w e complete) (ap (λ j. insert j e logs) here ∙ insert-new k e logs fresh)

restore_from-append :
    (worlds : ℕ → World) (n : ℕ) (more logs : Dict ReflectionLogEntry)
    → IsKept more
    → IsUnique (logs ++ more)
    → restore_from worlds n (map (λ row. to_dict row.1) more) logs ≡ logs ++ more
unfolding restore_from
restore_from-append worlds n [] logs k a = sym (append-nil logs)
restore_from-append worlds n ((k, e) ∷ more) logs (here, complete, kept) unique =
    let rest = map (λ row. to_dict row.1) more in
    ap (restore_from worlds (n + 1) rest)
      (insert-restored (worlds n) k e logs here complete (lookup-before k e logs more unique))
    ∙ restore_from-append worlds (n + 1) more (logs ++ (k, e) ∷ []) kept
        (rw (append_assoc logs ((k, e) ∷ []) more) unique)
    ∙ append_assoc logs ((k, e) ∷ []) more

-- The documented round trip of Python's `json`: what it can say, it writes and reads back as it
-- was.
abbrev pub IsFaithful : {C : Type 0} → Json C → Type 0
IsFaithful {C} json =
    (v : Value)
    → is_plain v ≡ true
    → (contents : C) × ((json.dump v ≡ some contents) × (json.load contents ≡ some v))

rows-plain :
    (logs : Dict ReflectionLogEntry)
    → IsKept logs
    → are_plain (dict_items (map (λ row. to_dict row.1) logs)) ≡ true
unfolding are_plain is_plain
rows-plain [] kept = refl
rows-plain ((k, e) ∷ logs) (here, complete, kept) =
    rw (to_dict-plain e complete, rows-plain logs kept) refl

document-plain :
    (logs : Dict ReflectionLogEntry)
    → IsKept logs
    → is_plain (document (map (λ row. to_dict row.1) logs)) ≡ true
unfolding is_plain has_plain_fields
document-plain logs kept = rw (rows-plain logs kept) refl

load_entries-save_entries :
    {C : Type 0} (json : Json C) (entries : List Fields) (file : Option C)
    → IsFaithful json
    → is_plain (document entries) ≡ true
    → load_entries json (save_entries json true entries file) ≡ entries
unfolding load_entries save_entries entries_of get_or
load_entries-save_entries json entries file faithful plain =
    let (contents, both) = faithful (document entries) plain in
    rw (both.0, save_entries) (rw both.1 (dicts-dict_items entries))

-- A memory whose entries are complete, stand under their ids and not twice.
abbrev pub IsSound : {C : Type 0} → Memory C → Type 0
IsSound m = IsKept m.reflection_logs × IsUnique m.reflection_logs

pub restore-persist :
    {C : Type 0} (json : Json C) (worlds : ℕ → World) (m : Memory C)
    → IsFaithful json
    → IsSound m
    → (new_memory json worlds (persist_reflections json true m).file).reflection_logs
      ≡ m.reflection_logs
unfolding new_memory persist_reflections
restore-persist json worlds m faithful (kept, unique) =
    rw
      (load_entries-save_entries json (map (λ row. to_dict row.1) m.reflection_logs) m.file faithful
        (document-plain m.reflection_logs kept))
      (restore_from-append worlds 0 m.reflection_logs [] kept unique)
