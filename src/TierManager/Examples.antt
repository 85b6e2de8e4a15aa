-- ===== src/TierManager/Examples.antt =====
-- The VRAM tier of src/store/src/tier_manager.rs with one byte less than half of it in use.
use virthub.Common.{◌+◌, ◌≤◌, ◌<◌, ◌≡◌, true, false, List, [], ◌∷◌, arith}
use virthub.TierManager.{StorageTierManager, vram, dram, max_capacity_bytes, new, get_usage}
use virthub.TierManager.Races.{
  Call, tries, frees, run, run_bounded, returned, interleave, contending, in_sequence,
  allocate_race,
}

abbrev calls : List Call
calls = tries vram 5000000000 ∷ tries vram 5000000000 ∷ frees dram 1 ∷ []

run_bounded_example : get_usage (run new calls) vram ≤ max_capacity_bytes vram
run_bounded_example = run_bounded calls vram

abbrev used : StorageTierManager
used = record { dram_used_bytes = 0; ssd_used_bytes = 0; vram_used_bytes = 4294967295 }

first_fits : get_usage used vram + 4294967297 ≤ max_capacity_bytes vram
unfolding get_usage max_capacity_bytes
first_fits = omega arith

second_fits : get_usage used vram + 4000000000 ≤ max_capacity_bytes vram
unfolding get_usage max_capacity_bytes
second_fits = omega arith

too_much : max_capacity_bytes vram < get_usage used vram + 4294967297 + 4000000000
unfolding get_usage max_capacity_bytes
too_much = omega arith

allocate_race_example :
    let ab = in_sequence used vram 4294967297 4000000000 in
    let ba = in_sequence used vram 4000000000 4294967297 in
    let t =
      interleave (contending used vram 4294967297 4000000000) (true ∷ false ∷ true ∷ false ∷ []) in
    (ab.1 ≡ true)
    × (ab.2 ≡ false)
    × (get_usage ab.0 vram ≤ max_capacity_bytes vram)
    × (ba.1 ≡ true)
    × (ba.2 ≡ false)
    × (get_usage ba.0 vram ≤ max_capacity_bytes vram)
    × (t.first ≡ returned true)
    × (t.second ≡ returned true)
    × (max_capacity_bytes vram < get_usage t.manager vram)
allocate_race_example =
    allocate_race used vram 4294967297 4000000000 first_fits second_fits too_much
