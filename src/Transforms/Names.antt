-- ===== src/Transforms/Names.antt =====
-- bogvm/transforms.py: the names of the transforms, and the exceptions that they raise.
use bogbin.Common.{List, [], ◌∷◌, Bool, true, false}

-- TRANSFORM_ORDER, in its order.
pub data Transform : Type 0 where
  identity xor_previous delta_previous nibble_split mtf bwt bwt_mtf : Transform

abbrev pub transform_order : List Transform
transform_order = identity ∷ xor_previous ∷ delta_previous ∷ nibble_split ∷ mtf ∷ bwt ∷ bwt_mtf ∷ []

-- BWT_TRANSFORMS, as a membership test.
abbrev pub is_bwt_transform : Transform → Bool
is_bwt_transform bwt = true
is_bwt_transform bwt_mtf = true
is_bwt_transform _ = false

-- The exceptions: the ValueErrors of the functions, `list.index` of a missing value, an index out
-- of range, and `next` of an empty iterator.
pub data TransformError : Type 0 where
  unsupported_transform empty_index primary_range : TransformError
  not_in_list index_error stop_iteration : TransformError
