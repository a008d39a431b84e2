-- ===== src/Graph/ShapeInfer.antt =====
-- Shape inference: include/minillm/graph/shape_infer.h and src/graph/shape_infer.cpp. `none` is the
-- exception of the constructor of `Shape` or of `dim`. The arithmetic on `int64_t` is without overflow.
pub mod Valid
pub mod Reshape
use llmengine.Base.{
  Bool, List, Option, [], false, get_or, if◌then◌else◌, is_neg, leb, ltb, negsuc, none, nonpositive,
  not, pos, pos_part, set, some, sub_ℕ, suc, take, ℕ, ℤ, ◌%◌, ◌&&◌, ◌*◌, ◌++◌, ◌-◌, ◌/◌, ◌==◌, ◌||◌,
  ◌∷◌,
}
use llmengine.Core.Status.{ErrorCode, out_of_range, shape_mismatch, Result, ok, err}
use llmengine.Core.Shape.{make_shape, rank, dim, has_dynamic_dim, numel}

abbrev pub Shape : Type 0
Shape = List ℤ

-- A result, unless the constructor throws.
abbrev pub Inferred : Type 0
Inferred = Option (Result Shape)

abbrev pub fail : ErrorCode → Inferred
fail e = some (err e)

-- A use of `s.dim(i)`, which may throw.
abbrev pub with_dim : Shape → ℕ → (ℤ → Inferred) → Inferred
with_dim s i f = elim (dim s i) [ none ↦ none | some d ↦ f d ]

-- `return Shape(dims)`
abbrev pub construct : List ℤ → Inferred
construct dims = elim (make_shape dims) [ none ↦ none | some s ↦ some (ok s) ]

-- `a >= 0 && b >= 0 && a != b`
abbrev pub dims_clash : ℤ → ℤ → Bool
dims_clash (pos a) (pos b) = not (a == b)
dims_clash (pos a) (negsuc b) = false
dims_clash (negsuc a) b = false

unfoldable pub infer_matmul_shape : Shape → Shape → Inferred
unfolding make_shape
infer_matmul_shape a b =
    if not (rank a == 2 && rank b == 2)
    then fail shape_mismatch
    else with_dim a 1 λ k. with_dim b 0 λ k'.
      if dims_clash k k'
      then fail shape_mismatch
      else with_dim a 0 λ m. with_dim b 1 λ n. construct (m ∷ n ∷ [])

unfoldable pub infer_linear_shape : Shape → Shape → Inferred
unfolding make_shape
infer_linear_shape x weight =
    if not (rank weight == 2)
    then fail shape_mismatch
    else if ltb (rank x) 1
    then fail shape_mismatch
    else with_dim x (rank x - 1) λ k. with_dim weight 1 λ k'.
      if dims_clash k k'
      then fail shape_mismatch
      else with_dim weight 0 λ n. construct (take (rank x - 1) x ++ n ∷ [])

-- The loop of the two element-wise checks, over shapes of one rank.
abbrev pub any_clash : Shape → Shape → Bool
any_clash [] b = false
any_clash (x ∷ a) [] = false
any_clash (x ∷ a) (y ∷ b) = dims_clash x y || any_clash a b

unfoldable pub infer_elementwise_shape : Shape → Shape → Inferred
infer_elementwise_shape a b =
    if not (rank a == rank b)
    then fail shape_mismatch
    else if any_clash a b
    then fail shape_mismatch
    else some (ok a)

unfoldable pub infer_add_shape : Shape → Shape → Inferred
infer_add_shape a b =
    if not (rank a == rank b)
    then fail shape_mismatch
    else if any_clash a b
    then fail shape_mismatch
    else some (ok a)

unfoldable pub infer_same_shape_unary : Shape → Inferred
infer_same_shape_unary x = some (ok x)

unfoldable pub infer_embedding_shape : Shape → Shape → Inferred
unfolding make_shape
infer_embedding_shape input_ids weight =
    if ltb (rank input_ids) 1 || not (rank weight == 2)
    then fail shape_mismatch
    else with_dim weight 1 λ n. construct (input_ids ++ n ∷ [])

-- What the loop of `infer_reshape_shape` finds: the axis to infer, and the product of the others.
pub record Target : Type 0 where
  pub infer_axis : Option ℕ
  pub known_product : ℕ

abbrev pub is_dynamic : ℤ → Bool
is_dynamic (pos n) = false
is_dynamic (negsuc n) = n == 0

unfoldable pub scan_target : ℕ → Target → Shape → Result Target
scan_target i t [] = ok t
scan_target i t (d ∷ ds) =
    let dynamic = scan_target (suc i) (record t { infer_axis = some i }) ds in
    let static =
      scan_target (suc i) (record t { known_product = t.known_product * pos_part d }) ds in
    if is_dynamic d
    then elim t.infer_axis [ none ↦ dynamic | some j ↦ err shape_mismatch ]
    else if nonpositive d
    then err shape_mismatch
    else static

-- The part of `infer_reshape_shape` behind `input.numel()`.
unfoldable pub reshape_static : ℕ → Target → Shape → Inferred
unfolding numel make_shape
reshape_static input_numel t target = elim t.infer_axis [
  | some axis ↦
      if t.known_product == 0 || not (input_numel % t.known_product == 0)
      then fail shape_mismatch
      else construct (set target axis (pos (input_numel / t.known_product)))
  | none ↦ elim (numel target) [
    | err e ↦ fail e
    | ok target_numel ↦
        if input_numel == target_numel then some (ok target) else fail shape_mismatch
  ]
]

unfoldable pub infer_reshape_shape : Shape → Shape → Inferred
unfolding scan_target reshape_static numel
infer_reshape_shape input target =
    elim (scan_target 0 (record { infer_axis = none; known_product = 1 }) target) [
      | err e ↦ fail e
      | ok t ↦
          if has_dynamic_dim input
          then some (ok target)
          else elim (numel input) [ err e ↦ fail e | ok n ↦ reshape_static n t target ]
    ]

-- `if (axis < 0) axis += rank`
abbrev pub wrap_axis : ℤ → ℕ → ℤ
wrap_axis (pos n) r = pos n
wrap_axis (negsuc n) r = sub_ℕ r (suc n)

abbrev pub axis_out : ℤ → ℕ → Bool
axis_out a r = is_neg a || leb r (pos_part a)

abbrev pub swap : ℕ → ℕ → Shape → Shape
swap i j s = set (set s i (get_or s j (pos 0))) j (get_or s i (pos 0))

unfoldable pub infer_transpose_shape : Shape → ℤ → ℤ → Inferred
unfolding make_shape
infer_transpose_shape input axis0 axis1 =
    let r = rank input in
    let a = wrap_axis axis0 r in
    let b = wrap_axis axis1 r in
    if leb r 0
    then fail shape_mismatch
    else if axis_out a r || axis_out b r
    then fail out_of_range
    else construct (swap (pos_part a) (pos_part b) input)
