-- ===== src/Morton/Tests.antt =====
-- Runs, and the theorems at inputs that meet their hypotheses.
use dewfall.Prelude.{
  some, none, ◌+◌, ◌-◌, ◌*◌, ◌%◌, ◌^◌, ◌≤◌, ◌<◌, ◌≡◌, refl, not, ltb, leb, ◌==◌, arith,
}
use dewfall.Morton.{
  Kind, Morton, m64, m192, value, modulus, Fits, morton_eq, morton_lt, morton_le, morton_gt,
  morton_ge, morton_init_min, morton_init_max, morton_is_null, morton_is_set, morton_negate,
  morton_add_one, morton_add, morton_msb, bit_scan_reverse, bit_scan, morton_lod_from_bit_index,
  morton_magnitude_from_bit_index, morton_magnitude_from_lod, morton_magnitude_to_lod,
  morton_tree_level_to_lod,
}
use dewfall.Morton.Order.{morton_compares, morton_extremes}
use dewfall.Morton.Arithmetic.{lost, morton_negate-add_one, morton_add_lem, morton_msb_bounds}
use dewfall.Morton.Levels.{morton_levels}
use dewfall.Morton.Masks.{morton_mask_create, morton_mask_create_lem, morton_get_child_mask}

abbrev low : Morton Kind.k192
low = m192 (2 ^ 64 - 1) 7 2

abbrev ones : Morton Kind.k192
ones = m192 1 (2 ^ 64 - 1) 0

-- The carry out of the middle word is lost: the high word stays 2.
add_runs : morton_add low ones ≡ m192 0 7 2
unfolding morton_add
add_runs = refl

msb_runs : morton_msb low ≡ 129
unfolding morton_msb bit_scan_reverse bit_scan
msb_runs = refl

morton_compares_example :
    (morton_eq low ones ≡ (value low == value ones))
    × (morton_lt low ones ≡ ltb (value low) (value ones))
    × (morton_le low ones ≡ leb (value low) (value ones))
    × (morton_gt low ones ≡ ltb (value ones) (value low))
    × (morton_ge low ones ≡ leb (value ones) (value low))
morton_compares_example = morton_compares low ones (omega arith) (omega arith)

morton_extremes_example :
    (value (morton_init_min ones) ≤ value low)
    × (value low ≤ value (morton_init_max ones))
    × (value (morton_init_max ones) + 1 ≡ modulus Kind.k192)
    × (morton_is_null low ≡ (value low == 0))
    × (morton_is_set low ≡ not (value low == 0))
morton_extremes_example = morton_extremes low ones (omega arith)

morton_negate-add_one_example :
    (value (morton_negate low) + value low + 1 ≡ modulus Kind.k192)
    × Fits (morton_add_one low)
    × (value (morton_add_one low) ≡ (value low + 1) % modulus Kind.k192)
morton_negate-add_one_example = morton_negate-add_one low (omega arith)

morton_add_lem_example :
    Fits (morton_add low ones)
    × ((value (morton_add low ones) + lost low ones) % modulus Kind.k192
        ≡ (value low + value ones) % modulus Kind.k192)
morton_add_lem_example = morton_add_lem low ones (omega arith) (omega arith)

morton_msb_bounds_example :
    (2 ^ morton_msb low ≤ value low) × (value low < 2 ^ (morton_msb low + 1))
morton_msb_bounds_example = morton_msb_bounds low (omega arith) (omega arith)

morton_levels_example :
    (morton_tree_level_to_lod (morton_magnitude_from_lod 23) (4 - 23 % 5) ≡ 23)
    × (morton_magnitude_from_lod (morton_tree_level_to_lod 7 2) ≡ 7)
    × (morton_tree_level_to_lod 7 2 + 2 ≡ morton_magnitude_to_lod 7)
    × (morton_lod_from_bit_index (23 * 3 + 1) ≡ 23)
    × (morton_magnitude_from_bit_index (23 * 3 + 1) ≡ morton_magnitude_from_lod 23)
morton_levels_example =
    morton_levels 23 7 2 1 (omega arith) (omega arith) (omega arith) (omega arith)

morton_mask_create_lem_example : value (morton_mask_create Kind.k192 45) + 1 ≡ 2 ^ (45 * 3 + 3)
morton_mask_create_lem_example = morton_mask_create_lem Kind.k192 45 (omega arith)

-- A child mask of two bits of one word and one of the next.
child_mask_runs : morton_get_child_mask 21 (m192 (2 ^ 63) 2 0) ≡ some 5
unfolding morton_get_child_mask
child_mask_runs = refl

-- The last level of a 64-bit code reads a second word, which it does not have.
child_mask_outside : morton_get_child_mask 21 (m64 0) ≡ none
unfolding morton_get_child_mask
child_mask_outside = refl
