-- ===== src/Building/Materials.antt =====
-- `plan_material_procurement` and `_synchronize_reserved_materials`.
use mc_bot_egent_practice.Prelude.{
  ℕ, ◌+◌, ◌-◌, String, Option, none, some, [], ◌∷◌, min, ltb, if◌then◌else◌, ◌>>=◌, Dict, lookup,
  insert,
}
use mc_bot_egent_practice.Prelude.Int.{ℤ, pos, pos_part}
use mc_bot_egent_practice.Python.{Value, int}

-- max(int(inventory.get(name, 0)), 0); a conversion that fails leaves the function
unfoldable pub stock : Dict Value → String → Option ℕ
stock inventory name = elim (lookup name inventory) [
  | none ↦ some 0
  | some v ↦ do n ← int v; some (pos_part n)
]

-- max(int(reserved.get(name, 0)), 0); a checkpoint holds integers
unfoldable pub held : Dict ℤ → String → ℕ
held reserved name = elim (lookup name reserved) [ none ↦ 0 | some n ↦ pos_part n ]

-- required_int - min(required_int, available + already_reserved)
unfoldable pub shortage : ℕ → ℕ → ℕ → ℕ
shortage required available reserved = required - min required (available + reserved)

unfoldable pub plan_entry : Dict Value → Dict ℤ → String → ℤ → Dict ℕ → Option (Dict ℕ)
unfolding stock held shortage
plan_entry inventory reserved name required plan = do
  available ← stock inventory name
  let missing = shortage (pos_part required) available (held reserved name)
  some (if ltb 0 missing then insert name missing plan else plan)

-- A requirement that is no number is passed over.
unfoldable pub plan_from : Dict Value → Dict ℤ → Dict ℕ → Dict Value → Option (Dict ℕ)
unfolding plan_entry
plan_from inventory reserved plan [] = some plan
plan_from inventory reserved plan ((name, v) ∷ rest) = elim (int v) [
  | none ↦ plan_from inventory reserved plan rest
  | some required ↦ do
    plan' ← plan_entry inventory reserved name required plan
    plan_from inventory reserved plan' rest
]

unfoldable pub plan_material_procurement : Dict Value → Dict Value → Dict ℤ → Option (Dict ℕ)
unfolding plan_from
plan_material_procurement requirements inventory reserved =
    plan_from inventory reserved [] requirements

unfoldable pub synchronize_from : Dict Value → Dict ℤ → Dict ℤ → Dict Value → Option (Dict ℤ)
unfolding stock held
synchronize_from inventory reserved synchronized [] = some synchronized
synchronize_from inventory reserved synchronized ((name, v) ∷ rest) = elim (int v) [
  | none ↦ synchronize_from inventory reserved synchronized rest
  | some required ↦ do
    available ← stock inventory name
    let kept = min (pos_part required) (held reserved name + available)
    synchronize_from inventory reserved (insert name (pos kept) synchronized) rest
]

unfoldable pub synchronize_reserved_materials : Dict Value → Dict Value → Dict ℤ → Option (Dict ℤ)
unfolding synchronize_from
synchronize_reserved_materials requirements inventory reserved =
    synchronize_from inventory reserved [] requirements
