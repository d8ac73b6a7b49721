-- ===== src/Tunnel/Examples.antt =====
-- A tunnel two steps long: tests of the definitions and instances of the theorems.
use mc_bot_egent_practice.Prelude.{
  ℕ, ◌+◌, ◌*◌, ◌≡◌, refl, true, false, none, some, List, [], ◌∷◌, ◌++◌, inl, arith, length,
}
use mc_bot_egent_practice.Prelude.Int.{pos, negsuc, ◌+ℤ◌, ◌*ℤ◌}
use mc_bot_egent_practice.Python.{
  Value, Fields, integer, text, boolean, dict, field, end, int, get, truth,
}
use mc_bot_egent_practice.Tunnel.{
  get_or_true, Position, vector, TunnelSection, Settings, ok, Reply, mine, place_torch, advance,
  stop, returned, generate_window, slices, lateral_vector, torch_position, run, loop, turn, survey,
  survey_window, survey_cp, to_mine, mine_part, torch_part, advance_part, build_mining_mask,
  mask_from, cp_map, key_of, is_safe, player_placed, names_natural, is_natural, detect_hard_stop,
}
use mc_bot_egent_practice.Tunnel.Trace.{All}
use mc_bot_egent_practice.Tunnel.Distinct.{NoDup, generate_window-NoDup}
use mc_bot_egent_practice.Tunnel.Safety.{Justified, run-Justified}
use mc_bot_egent_practice.Tunnel.Torches.{Spaced, run-Spaced}
use mc_bot_egent_practice.Tunnel.Windows.{IsCardinal, generate_window_lem, generate_window-none}

abbrev east : Position
east = vector (pos 1) (pos 0) (pos 0)

abbrev anchor : Position
anchor = vector (pos 10) (pos 64) (negsuc 4)

abbrev narrow : TunnelSection
narrow = record { width = 1; height = 1 }

abbrev settings : Settings
settings = record { torch_interval = 2; liquids_stop = true; window_length = 1 }

abbrev at : ℕ → Value
at x = dict (
    field "x" (integer (pos x)) (field "y" (integer (pos 64)) (field "z" (integer (negsuc 4)) end)))

abbrev stone_at : ℕ → Fields
stone_at x =
    field "pos" (at x)
      (field "block_id" (text "minecraft:stone") (field "in_job_region" (boolean true) end))

abbrev natural_at : ℕ → Fields
natural_at x = field "pos" (at x) (field "is_player_placed" (boolean false) end)

abbrev replies : ℕ → Reply
replies step = record {
  evaluations = ok (stone_at (10 + step) ∷ []);
  cp_results = ok (natural_at (10 + step) ∷ []);
  advanced = ok end;
  mined = true;
  torch_placed = true;
}

two_steps : run settings anchor east narrow true true 2 replies ≡ (
  returned,
  mine 0 (anchor ∷ [])
      ∷ advance 0
      ∷ mine 1 (vector (pos 11) (pos 64) (negsuc 4) ∷ [])
      ∷ place_torch 1 (vector (pos 11) (pos 65) (negsuc 5))
      ∷ advance 1
      ∷ stop
      ∷ [],
)
unfolding get_or_true run loop turn survey survey_window survey_cp generate_window slices
    lateral_vector torch_part torch_position mine_part advance_part build_mining_mask mask_from
    cp_map key_of is_safe player_placed names_natural is_natural detect_hard_stop to_mine get int
    truth ◌+ℤ◌ ◌*ℤ◌
two_steps = refl

run-Justified_example :
    All
      (Justified settings anchor east narrow replies 2)
      (run settings anchor east narrow true true 2 replies).1
run-Justified_example = run-Justified settings anchor east narrow replies 2 true true

run-Spaced_example :
    All
      (Spaced settings anchor east narrow replies)
      (run settings anchor east narrow true true 2 replies).1
run-Spaced_example = run-Spaced settings anchor east narrow replies true true 2 (omega arith)

east-IsCardinal : IsCardinal east
east-IsCardinal = (refl, inl (inl refl, refl))

generate_window_lem_example :
    (w w' : List Position) × (generate_window anchor east narrow 0 2 ≡ some w)
    × (generate_window anchor east narrow (0 + 2) 3 ≡ some w')
    × (generate_window anchor east narrow 0 (2 + 3) ≡ some (w ++ w'))
    × (length w ≡ 2 * (1 * 1))
generate_window_lem_example = generate_window_lem anchor east narrow 0 2 3 east-IsCardinal

generate_window-none_example :
    generate_window anchor (vector (pos 0) (pos 1) (pos 0)) narrow 0 2 ≡ none
generate_window-none_example =
    generate_window-none anchor (vector (pos 0) (pos 1) (pos 0)) narrow 0 2 (λ c. ground arith)

generate_window-NoDup_example :
    (w : List Position) × (generate_window anchor east narrow 1 3 ≡ some w) × NoDup w
generate_window-NoDup_example = generate_window-NoDup anchor east narrow 1 3 east-IsCardinal
