-- ===== src/Precision/Lut.antt =====
-- src/precision/src/lut.rs: the per-layer sensitivity table.
use virthub.Common.{
  ◌⊎◌, ℕ, zero, suc, ◌+◌, ◌*◌, ◌/◌, ◌<◌, ◌≤◌, ◌≡◌, ◌↔◌, refl, true, ◌&&◌, ◌||◌, some, List, [], ◌∷◌,
  if◌then◌else◌, ltb, leb, length, get_elem?, arith,
}
use virthub.Common.Word.{u64_mod, sub64, mul64}
use virthub.Precision.Policy.{LayerSensitivityProfile}

-- The closure of `build_layer_profiles`, on usize.
unfoldable pub layer_profile : ℕ → ℕ → LayerSensitivityProfile
layer_profile total_layers l = record {
  base_bonus = if ltb l 4 || leb (sub64 total_layers 4) l then 1 else 0;
  is_critical = ltb l 2 || leb (sub64 total_layers 2) l;
  can_prune = leb (total_layers / 4) l && leb l (mul64 3 total_layers / 4);
}

-- The range `l..total_layers`, `n` layers long, mapped.
profiles_from : ℕ → ℕ → ℕ → List LayerSensitivityProfile
profiles_from total_layers l zero = []
profiles_from total_layers l (suc n) =
    layer_profile total_layers l ∷ profiles_from total_layers (l + 1) n

unfoldable pub build_layer_profiles : ℕ → List LayerSensitivityProfile
unfolding profiles_from
build_layer_profiles total_layers = profiles_from total_layers 0 total_layers

get_elem?-profiles_from :
    (t l n i : ℕ) → i < n → get_elem? (profiles_from t l n) i ≡ some (layer_profile t (l + i))
unfolding profiles_from
get_elem?-profiles_from t l zero i h = absurd (omega arith)
get_elem?-profiles_from t l (suc n) zero h = ground (arith)
get_elem?-profiles_from t l (suc n) (suc i) h =
    ground (arith, get_elem?-profiles_from t (l + 1) n i)

-- Every layer of the model has its entry, and it is the one computed for that layer.
pub get_elem?-build_layer_profiles :
    (total_layers l : ℕ)
    → l < total_layers
    → get_elem? (build_layer_profiles total_layers) l ≡ some (layer_profile total_layers l)
unfolding build_layer_profiles
get_elem?-build_layer_profiles t l h = ground (arith, get_elem?-profiles_from t 0 t l)

length-profiles_from : (t l n : ℕ) → length (profiles_from t l n) ≡ n
unfolding profiles_from
length-profiles_from t l zero = refl
length-profiles_from t l (suc n) = omega (arith, length-profiles_from t (l + 1) n)

pub length-build_layer_profiles : (t : ℕ) → length (build_layer_profiles t) ≡ t
unfolding build_layer_profiles
length-build_layer_profiles t = length-profiles_from t 0 t

-- For a layer of a model whose tripled layer count fits u64, the wrap-around of `total_layers - 2`
-- and `total_layers - 4` on small models is never felt: the flags are the boundary conditions on
-- unbounded numbers. A layer is critical when it is one of the first two or last two, has the bonus
-- when it is one of the first four or last four, and may be pruned when it lies in the middle half.
pub layer_profile_iff :
    (t l : ℕ)
    → l < t
    → 3 * t < u64_mod
    → (((layer_profile t l).is_critical ≡ true) ↔ ((l < 2) ⊎ (t ≤ l + 2)))
      × (((layer_profile t l).base_bonus ≡ 1) ↔ ((l < 4) ⊎ (t ≤ l + 4)))
      × (((layer_profile t l).can_prune ≡ true) ↔ ((t / 4 ≤ l) × (l ≤ 3 * t / 4)))
      × ((layer_profile t l).base_bonus ≤ 1)
unfolding layer_profile
layer_profile_iff t l h small = ground arith
