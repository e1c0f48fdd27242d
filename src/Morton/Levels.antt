-- ===== src/Morton/Levels.antt =====
-- Levels of detail, magnitudes and levels in a tree.
use dewfall.Prelude.{ℕ, ◌+◌, ◌-◌, ◌*◌, ◌%◌, ◌^◌, ◌<◌, ◌≡◌, arith}
use dewfall.Morton.{
  morton_lod_from_bit_index, morton_magnitude_from_bit_index, morton_magnitude_from_lod,
  morton_magnitude_to_lod, morton_tree_level_to_lod,
}

-- Every level of detail below 2 ^ 16 - 4 is one level, of the five, of the tree of its magnitude,
-- and of that alone; each of its three bits has its level of detail and its magnitude.
pub morton_levels :
    (lod magnitude level bit : ℕ)
    → lod < 2 ^ 16 - 4
    → 5 * magnitude + 4 < 2 ^ 16
    → level < 5
    → bit < 3
    → (morton_tree_level_to_lod (morton_magnitude_from_lod lod) (4 - lod % 5) ≡ lod)
      × (morton_magnitude_from_lod (morton_tree_level_to_lod magnitude level) ≡ magnitude)
      × (morton_tree_level_to_lod magnitude level + level ≡ morton_magnitude_to_lod magnitude)
      × (morton_lod_from_bit_index (lod * 3 + bit) ≡ lod)
      × (morton_magnitude_from_bit_index (lod * 3 + bit) ≡ morton_magnitude_from_lod lod)
unfolding morton_lod_from_bit_index morton_magnitude_from_bit_index morton_magnitude_from_lod
    morton_magnitude_to_lod morton_tree_level_to_lod
morton_levels lod magnitude level bit h k l b = omega arith
