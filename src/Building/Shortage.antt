-- ===== src/Building/Shortage.antt =====
-- What `plan_material_procurement` computes, name by name,
-- where every stock is a number and no requirement stands twice.
use mc_bot_egent_practice.Prelude.{
  ℕ, ◌+◌, ◌-◌, ◌≡◌, ◌↔◌, refl, ap, ◌∙◌, String, true, Option, none, some, [], ◌∷◌, arith, ltb,
  if◌then◌else◌, Dict, IsUnique, lookup, insert, lookup-insert, eq-nil_of_lookup, eq_iff, is_some,
}
use mc_bot_egent_practice.Prelude.Int.{ℤ, pos_part}
use mc_bot_egent_practice.Python.{Value, int}
use mc_bot_egent_practice.Building.Materials.{
  stock, held, shortage, plan_from, plan_material_procurement,
}

-- Every value converts to an integer.
abbrev pub IsNumeric : Dict Value → Type 0
IsNumeric [] = Unit
IsNumeric ((k, v) ∷ d) = (is_some (int v) ≡ true) × IsNumeric d

abbrev number_or_zero : Option ℤ → ℕ
number_or_zero none = 0
number_or_zero (some n) = pos_part n

-- The stock of a name, 0 where it is missing.
unfoldable pub available : Dict Value → String → ℕ
available inventory name = elim (lookup name inventory) [
  | none ↦ 0
  | some v ↦ number_or_zero (int v)
]

pub stock_lem :
    (inventory : Dict Value) (name : String)
    → IsNumeric inventory
    → stock inventory name ≡ some (available inventory name)
unfolding stock available lookup
stock_lem [] name h = refl
stock_lem ((k, v) ∷ d) name h = ground (arith, stock_lem d name h.1)

-- What is missing of a name whose requirement is the given one.
unfoldable pub missing : Dict Value → Dict ℤ → String → Option Value → ℕ
missing inventory reserved name none = 0
missing inventory reserved name (some v) = elim (int v) [
  | none ↦ 0
  | some n ↦ pos_part n - (available inventory name + held reserved name)
]

missing-none :
    (inventory : Dict Value) (reserved : Dict ℤ) (name : String)
    → missing inventory reserved name none ≡ 0
unfolding missing
missing-none inventory reserved name = refl

-- One entry of the plan, after a dict that may hold the name already.
abbrev pub put_missing : String → ℕ → Dict ℕ → Dict ℕ
put_missing name n plan = if ltb 0 n then insert name n plan else plan

planned : Dict Value → Dict ℤ → Dict ℕ → Dict Value → Dict ℕ
planned inventory reserved plan [] = plan
planned inventory reserved plan ((name, v) ∷ rest) =
    planned inventory reserved (put_missing name (missing inventory reserved name (some v)) plan)
      rest

plan_from-planned :
    (inventory : Dict Value) (reserved : Dict ℤ) (plan : Dict ℕ) (requirements : Dict Value)
    → IsNumeric inventory
    → plan_from inventory reserved plan requirements
      ≡ some (planned inventory reserved plan requirements)
unfolding plan_from planned shortage missing
plan_from-planned inventory reserved plan [] h = refl
plan_from-planned inventory reserved plan ((name, v) ∷ rest) h =
    let m = missing inventory reserved name (some v) in
    ground (
      arith,
      stock_lem inventory name h,
      plan_from-planned inventory reserved plan rest h,
      plan_from-planned inventory reserved (put_missing name m plan) rest h,
    )

abbrev pub planned_at : ℕ → Option ℕ → Option ℕ
planned_at n before = if ltb 0 n then some n else before

lookup-planned :
    (inventory : Dict Value) (reserved : Dict ℤ) (plan : Dict ℕ) (requirements : Dict Value)
    (name : String)
    → IsUnique requirements
    → lookup name (planned inventory reserved plan requirements)
      ≡ planned_at (missing inventory reserved name (lookup name requirements)) (lookup name plan)
unfolding planned lookup
lookup-planned inventory reserved plan [] name u = rw missing-none
lookup-planned inventory reserved plan ((k, v) ∷ rest) name u =
    let m = missing inventory reserved k (some v) in
    ground (
      arith,
      lookup-planned inventory reserved (put_missing k m plan) rest name u.1,
      lookup-insert k name m plan,
      eq_iff k name,
      missing-none inventory reserved name,
    )

-- With numeric stocks and no requirement twice, the plan exists, and it orders of each name exactly
-- what the requirement exceeds the stock and the reservation by, and nothing where it does not.
pub plan_material_procurement_lem :
    (requirements inventory : Dict Value) (reserved : Dict ℤ)
    → IsNumeric inventory
    → IsUnique requirements
    → (plan : Dict ℕ) × (plan_material_procurement requirements inventory reserved ≡ some plan)
      × ((name : String)
          → lookup name plan
            ≡ planned_at (missing inventory reserved name (lookup name requirements)) none)
unfolding plan_material_procurement lookup
plan_material_procurement_lem requirements inventory reserved h u = (
  planned inventory reserved [] requirements,
  plan_from-planned inventory reserved [] requirements h,
  λ name. lookup-planned inventory reserved [] requirements name u,
)

-- No name is short exactly when the plan is empty.
pub no_plan_iff :
    (requirements inventory : Dict Value) (reserved : Dict ℤ)
    → IsNumeric inventory
    → IsUnique requirements
    → (plan_material_procurement requirements inventory reserved ≡ some [])
      ↔ ((name : String) → missing inventory reserved name (lookup name requirements) ≡ 0)
unfolding lookup
no_plan_iff requirements inventory reserved h u =
    let (plan, computed, at) = plan_material_procurement_lem requirements inventory reserved h u in
    (
      λ e name. ground (arith, at name, computed),
      λ none_short.
          computed
          ∙ ap some (eq-nil_of_lookup plan (λ name. ground (arith, at name, none_short name))),
    )
