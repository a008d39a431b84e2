-- ===== src/Core/Shape.antt =====
-- Shapes: include/minillm/core/shape.h and src/core/shape.cpp. A shape is its list of dimensions;
-- -1 stands for a dynamic dimension. `none` is the exception of the constructor.
pub mod Numel
use llmengine.Base.{
  Bool, List, Option, [], false, get_elem?, if◌then◌else◌, is_neg, length, ltb, negsuc, none, pos,
  pos_part, some, true, ℕ, ℤ, ◌&&◌, ◌*◌, ◌-◌, ◌/◌, ◌==◌, ◌^◌, ◌∷◌,
}
use llmengine.Core.Status.{invalid_argument, Result, ok, err}

-- The largest `size_t`.
abbrev pub size_max : ℕ
size_max = 2 ^ 64 - 1

-- What the constructor lets pass: -1 and the positive numbers.
abbrev pub dim_ok : ℤ → Bool
dim_ok (pos n) = ltb 0 n
dim_ok (negsuc n) = n == 0

abbrev pub all_ok : List ℤ → Bool
all_ok [] = true
all_ok (d ∷ ds) = dim_ok d && all_ok ds

-- `Shape(std::vector<int64_t> dims)`
unfoldable pub make_shape : List ℤ → Option (List ℤ)
make_shape dims = if all_ok dims then some dims else none

abbrev pub rank : List ℤ → ℕ
rank dims = length dims

-- `dim(i)`. `none` is the exception of `at` out of range.
abbrev pub dim : List ℤ → ℕ → Option ℤ
dim dims i = get_elem? dims i

abbrev pub has_dynamic_dim : List ℤ → Bool
has_dynamic_dim [] = false
has_dynamic_dim (d ∷ ds) = if is_neg d then true else has_dynamic_dim ds

-- The loop of `numel`, over dimensions that are not negative.
unfoldable pub numel_loop : ℕ → List ℤ → Result ℕ
numel_loop n [] = ok n
numel_loop n (d ∷ ds) =
    let rest = numel_loop (n * pos_part d) ds in
    if ltb 0 (pos_part d) && ltb (size_max / pos_part d) n then err invalid_argument else rest

unfoldable pub numel : List ℤ → Result ℕ
unfolding numel_loop
numel dims = if has_dynamic_dim dims then err invalid_argument else numel_loop 1 dims
