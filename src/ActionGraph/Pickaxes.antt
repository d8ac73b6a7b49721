-- ===== src/ActionGraph/Pickaxes.antt =====
-- The pickaxe that a mining step asks for.
use mc_bot_egent_practice.Prelude.{
  leb, lookup_or, true, not, ◌&&◌, Bool, ◌∙◌, lookup, if◌then◌else◌, sym, ◌||◌, ℕ, max, ◌<◌, ltb,
  ◌≡◌, refl, ap, arith, String, Option, none, some, List, [], ◌∷◌, ◌++◌, ◌⊎◌, inl, inr,
}
use mc_bot_egent_practice.Python.{text, Value, Fields, dict, get}
use mc_bot_egent_practice.ActionGraph.State.{Rules}
use mc_bot_egent_practice.ActionGraph.Equip.{dicts_in}
use mc_bot_egent_practice.ActionGraph.Mining.{
  pickaxe_tiers, tier_of_value, ore_requirements, usable, or_one, required_tier, usable_tier,
  best_of, select_pickaxe,
}
use mc_bot_egent_practice.ActionGraph.Search.{or_zero, highest_tier, best_of-Found, chosen}

-- The tier of a pickaxe by its name, and 0 of an item without a name or with one that is not
-- listed.
abbrev pub named_tier : Value → ℕ
named_tier (text name) = lookup_or 0 name pickaxe_tiers
named_tier _ = 0

-- A pickaxe of this tier digs all of the ores; an ore that is not listed asks for tier 1.
abbrev pub digs_all : ℕ → List String → Bool
digs_all tier [] = true
digs_all tier (ore ∷ ores) = leb (lookup_or 1 ore ore_requirements) tier && digs_all tier ores

-- The tier of an item that digs all of the ores and is durable, and 0 of any other.
abbrev pub suitability : Rules → List String → Fields → ℕ
suitability rules ores item =
    let tier = named_tier (get "name" item) in
    if digs_all tier ores && rules.is_durable item then tier else 0

-- The best of the items, or 0.
abbrev pub best_tier : Rules → List String → List Fields → ℕ
best_tier rules ores [] = 0
best_tier rules ores (item ∷ items) = max (suitability rules ores item) (best_tier rules ores items)

or_one-lookup_or : (o : Option ℕ) → or_one o ≡ elim o [ none ↦ 1 | some tier ↦ tier ]
or_one-lookup_or none = refl
or_one-lookup_or (some tier) = refl

ltb-max :
    (tier m n : ℕ) (b : Bool) → ltb tier (max m n) || not b ≡ ltb tier m || not (leb n tier && b)
ltb-max tier m n b = ground arith

ltb-required_tier :
    (tier required : ℕ) (ores : List String)
    → ltb tier (required_tier required ores) ≡ ltb tier required || not (digs_all tier ores)
unfolding required_tier
ltb-required_tier tier required [] = ground arith
ltb-required_tier tier required (ore ∷ ores) =
    let need = or_one (lookup ore ore_requirements) in
    ltb-required_tier tier (max required need) ores
    ∙ ltb-max tier required need (digs_all tier ores)
    ∙ rw (or_one-lookup_or (lookup ore ore_requirements)) refl

or_zero-usable :
    (rules : Rules) (required : ℕ) (ores : List String) (item : Fields) (tier : ℕ)
    → ltb tier required ≡ ltb tier 1 || not (digs_all tier ores)
    → or_zero (usable rules required item (some tier))
      ≡ (if digs_all tier ores && rules.is_durable item then tier else 0)
or_zero-usable rules required ores item tier h = ground (arith, h)

no_tier : (b : Bool) → ◌≡◌ {A = ℕ} 0 (if b then 0 else 0)
no_tier b = ground arith

or_zero-listed :
    (rules : Rules) (ores : List String) (item : Fields) (o : Option ℕ)
    → or_zero (usable rules (required_tier 1 ores) item o)
      ≡ (if digs_all (or_zero o) ores && rules.is_durable item then or_zero o else 0)
or_zero-listed rules ores item none = no_tier _
or_zero-listed rules ores item (some tier) =
    or_zero-usable rules (required_tier 1 ores) ores item tier (ltb-required_tier tier 1 ores)

or_zero-eq : (o : Option ℕ) → or_zero o ≡ elim o [ none ↦ 0 | some tier ↦ tier ]
or_zero-eq none = refl
or_zero-eq (some tier) = refl

or_zero-named_tier : (name : Value) → or_zero (tier_of_value name) ≡ named_tier name
or_zero-named_tier (text name) = or_zero-eq (lookup name pickaxe_tiers)
or_zero-named_tier v = refl

or_zero-usable_tier :
    (rules : Rules) (ores : List String) (item : Fields)
    → or_zero (usable_tier rules (required_tier 1 ores) item) ≡ suitability rules ores item
unfolding usable_tier
or_zero-usable_tier rules ores item =
    or_zero-listed rules ores item (tier_of_value (get "name" item))
    ∙ rw (or_zero-named_tier (get "name" item)) refl

highest_tier-best_tier :
    (rules : Rules) (ores : List String) (items : List Fields)
    → highest_tier rules (required_tier 1 ores) items ≡ best_tier rules ores items
highest_tier-best_tier rules ores [] = refl
highest_tier-best_tier rules ores (item ∷ items) =
    rw (or_zero-usable_tier rules ores item, highest_tier-best_tier rules ores items) refl

-- Of the choice of a pickaxe for some ores, an item of the inventory being suitable if its tier
-- digs all of the ores and it is durable: either none is chosen, and no item is suitable; or a
-- suitable one of the inventory is chosen, and it has the highest tier of those.
pub select_pickaxe_lem :
    (rules : Rules) (ores : List String) (inventory_detail : Fields)
    → ((select_pickaxe rules ores (dict inventory_detail) ≡ none)
        × (best_tier rules ores (dicts_in (get "pickaxes" inventory_detail)) ≡ 0))
      ⊎ ((item : Fields) × (select_pickaxe rules ores (dict inventory_detail) ≡ some item)
          × (0 < suitability rules ores item)
          × (suitability rules ores item
              ≡ best_tier rules ores (dicts_in (get "pickaxes" inventory_detail)))
          × ((before : List Fields) × (after : List Fields) × (dicts_in
                  (get "pickaxes" inventory_detail)
                ≡ before ++ item ∷ after)))
unfolding select_pickaxe
select_pickaxe_lem rules ores inventory_detail =
    let items = dicts_in (get "pickaxes" inventory_detail) in
    let top = highest_tier-best_tier rules ores items in
    let found =
      chosen rules (required_tier 1 ores) items
        (best_of rules (required_tier 1 ores) items (none, 0))
        (best_of-Found rules (required_tier 1 ores) items none 0) in
    elim found [
      | inl (nothing, none_fits) ↦ inl (nothing, sym top ∙ none_fits)
      | inr (item, chosen_item, above, (tier, split)) ↦
          let fits = sym (or_zero-usable_tier rules ores item) ∙ ap or_zero tier in
          inr (item, chosen_item, omega (arith, fits, above), fits ∙ top, split)
    ]
