-- ===== src/Building/Reservation.antt =====
-- What `_synchronize_reserved_materials` keeps, and what it means for the next plan.
use mc_bot_egent_practice.Prelude.{
  ℕ, ◌+◌, ◌-◌, ◌≤◌, ◌≡◌, refl, String, Option, none, some, [], ◌∷◌, min, arith, str_eq,
  if◌then◌else◌, Dict, IsUnique, lookup, insert, lookup-insert, eq_iff,
}
use mc_bot_egent_practice.Prelude.Int.{ℤ, pos, pos_part}
use mc_bot_egent_practice.Python.{Value, int}
use mc_bot_egent_practice.Building.Materials.{
  held, synchronize_from, plan_material_procurement, synchronize_reserved_materials,
}
use mc_bot_egent_practice.Building.Shortage.{IsNumeric, available, missing, stock_lem, no_plan_iff}

abbrev reserve : Dict Value → Dict ℤ → String → Option ℤ → Dict ℤ → Dict ℤ
reserve inventory reserved name none d = d
reserve inventory reserved name (some n) d =
    insert name (pos (min (pos_part n) (held reserved name + available inventory name))) d

pub synchronized : Dict Value → Dict ℤ → Dict ℤ → Dict Value → Dict ℤ
synchronized inventory reserved d [] = d
synchronized inventory reserved d ((name, v) ∷ rest) =
    synchronized inventory reserved (reserve inventory reserved name (int v) d) rest

synchronize_from-synchronized :
    (inventory : Dict Value) (reserved : Dict ℤ) (d : Dict ℤ) (requirements : Dict Value)
    → IsNumeric inventory
    → synchronize_from inventory reserved d requirements
      ≡ some (synchronized inventory reserved d requirements)
unfolding synchronize_from synchronized
synchronize_from-synchronized inventory reserved d [] h = refl
synchronize_from-synchronized inventory reserved d ((name, v) ∷ rest) h = ground (
  arith,
  stock_lem inventory name h,
  synchronize_from-synchronized inventory reserved (reserve inventory reserved name (int v) d) rest
      h,
)

-- The reservation of a name after the synchronization, in terms of the one before.
abbrev kept_at : Dict Value → Dict ℤ → String → Option Value → ℕ → ℕ
kept_at inventory reserved name none before = before
kept_at inventory reserved name (some v) before = elim (int v) [
  | none ↦ before
  | some n ↦ min (pos_part n) (held reserved name + available inventory name)
]

held-insert :
    (k name : String) (n : ℕ) (d : Dict ℤ)
    → held (insert k (pos n) d) name ≡ (if str_eq k name then n else held d name)
unfolding held
held-insert k name n d = ground (arith, lookup-insert k name (pos n) d)

held-synchronized :
    (inventory : Dict Value) (reserved : Dict ℤ) (d : Dict ℤ) (requirements : Dict Value)
    (name : String)
    → IsUnique requirements
    → held (synchronized inventory reserved d requirements) name
      ≡ kept_at inventory reserved name (lookup name requirements) (held d name)
unfolding synchronized lookup
held-synchronized inventory reserved d [] name u = refl
held-synchronized inventory reserved d ((k, v) ∷ rest) name u = ground (
  arith,
  held-synchronized inventory reserved (reserve inventory reserved k (int v) d) rest name u.1,
  held-insert k name (kept_at inventory reserved k (some v) 0) d,
  eq_iff k name,
)

-- What is missing after a synchronization with one stock, at another stock.
missing_after :
    (inventory later : Dict Value) (reserved : Dict ℤ) (requirements : Dict Value) (name : String)
    → IsUnique requirements
    → missing later
        (synchronized inventory reserved [] requirements)
        name
        (lookup name requirements)
      ≡ missing inventory reserved name (lookup name requirements) - available later name
unfolding missing
missing_after inventory later reserved requirements name u =
    ground (arith, held-synchronized inventory reserved [] requirements name u)

pub synchronize_reserved_materials_lem :
    (requirements inventory : Dict Value) (reserved : Dict ℤ)
    → IsNumeric inventory
    → synchronize_reserved_materials requirements inventory reserved
      ≡ some (synchronized inventory reserved [] requirements)
unfolding synchronize_reserved_materials
synchronize_reserved_materials_lem requirements inventory reserved h =
    synchronize_from-synchronized inventory reserved [] requirements h

-- With numeric stocks and no requirement twice: where no name is short, the reservation made then
-- leaves no name short at any later stock.
pub reservation_holds :
    (requirements inventory later : Dict Value) (reserved : Dict ℤ)
    → IsNumeric inventory
    → IsNumeric later
    → IsUnique requirements
    → plan_material_procurement requirements inventory reserved ≡ some []
    → (kept : Dict ℤ) × (synchronize_reserved_materials requirements inventory reserved ≡ some kept)
      × (plan_material_procurement requirements later kept ≡ some [])
reservation_holds requirements inventory later reserved h l u e =
    let kept = synchronized inventory reserved [] requirements in
    (
      kept,
      synchronize_reserved_materials_lem requirements inventory reserved h,
      (no_plan_iff requirements later kept l u).1 (λ name. omega (
        arith,
        missing_after inventory later reserved requirements name u,
        (no_plan_iff requirements inventory reserved h u).0 e name,
      )),
    )

-- With a numeric stock and no requirement twice, a stock counts again at the next call, beside the
-- reservation made from it: where every name is short by at most its stock, the second call at the
-- same stock orders nothing.
pub same_stock_counts_twice :
    (requirements inventory : Dict Value) (reserved : Dict ℤ)
    → IsNumeric inventory
    → IsUnique requirements
    → ((name : String)
        → missing inventory reserved name (lookup name requirements) ≤ available inventory name)
    → (kept : Dict ℤ) × (synchronize_reserved_materials requirements inventory reserved ≡ some kept)
      × (plan_material_procurement requirements inventory kept ≡ some [])
same_stock_counts_twice requirements inventory reserved h u short =
    let kept = synchronized inventory reserved [] requirements in
    (
      kept,
      synchronize_reserved_materials_lem requirements inventory reserved h,
      (no_plan_iff requirements inventory kept h u).1 (λ name.
          omega
            (arith, missing_after inventory inventory reserved requirements name u, short name)),
    )
