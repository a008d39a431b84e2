-- ===== src/Core/Shape/Numel.antt =====
-- `numel` of src/core/shape.cpp is the product of the dimensions, or reports that it overflows.
use native.Mathlib.Nat.{le-div_iff_mul-le, mul-le-mul, le_refl, mul_assoc}
use llmengine.Base.{
  Bool-cases, List, [], arith, false, if◌then◌else◌, inl, inr, leb, le→leb-false, le→ltb-false, ltb,
  ltb-false→le, lt→ltb, negsuc, pos, pos_part, refl, sym, true, ℕ, ℤ, ◌*◌, ◌/◌, ◌<◌, ◌↔◌, ◌∙◌, ◌∷◌,
  ◌≡◌, ◌≤◌,
}
use llmengine.Core.Status.{invalid_argument, ok, err}
use llmengine.Core.Shape.{size_max, has_dynamic_dim, numel_loop, numel}

abbrev pub product : List ℤ → ℕ
product [] = 1
product (d ∷ ds) = pos_part d * product ds

-- Every dimension is positive.
abbrev pub AllPositive : List ℤ → Type 0
AllPositive [] = Unit {0}
AllPositive (d ∷ ds) = (0 < pos_part d) × AllPositive ds

pub product_pos : (ds : List ℤ) → AllPositive ds → 0 < product ds
product_pos [] h = omega arith
product_pos (d ∷ ds) h = grind (arith, product_pos ds h.1)

overflow_iff : (n d : ℕ) → 0 < d → (ltb (size_max / d) n ≡ false) ↔ (n * d ≤ size_max)
overflow_iff n d h = (
  λ e. (le-div_iff_mul-le h).0 (ltb-false→le _ _ e),
  λ le. le→ltb-false _ _ ((le-div_iff_mul-le h).1 le),
)

mul_grows : (n d p : ℕ) → 0 < p → n * d ≤ n * (d * p)
mul_grows n d p h = let wide : d ≤ d * p = grind arith in mul-le-mul (le_refl n) wide

lt_of_not_le : (a b : ℕ) → (a ≤ b → ⊥) → b < a
lt_of_not_le a b h = omega arith

ne_tf : true ≡ false → ⊥
ne_tf e = cc

lt_le_trans : {a b c : ℕ} → a < b → b ≤ c → a < c
lt_le_trans h k = omega arith

pub numel_loop_lem :
    (n : ℕ) (ds : List ℤ)
    → AllPositive ds
    → n ≤ size_max
    → numel_loop n ds
      ≡ (if leb (n * product ds) size_max then ok (n * product ds) else err invalid_argument)
unfolding numel_loop
numel_loop_lem n [] h le = ground arith
numel_loop_lem n (d ∷ ds) h le =
    let k = pos_part d in
    let check = overflow_iff n k h.0 in
    rw (lt→ltb _ _ h.0) (elim (Bool-cases (ltb (size_max / k) n)) [
      | inl e ↦
          let over : size_max < n * k = lt_of_not_le _ _ (λ le'. ne_tf (sym e ∙ check.1 le')) in
          rw (
            e,
            le→leb-false (n * (k * product ds)) size_max
                (lt_le_trans over (mul_grows n k (product ds) (product_pos ds h.1))),
          )
      | inr e ↦ rw (e, ← mul_assoc n k (product ds)) (numel_loop_lem (n * k) ds h.1 (check.0 e))
    ])

positive→static : (ds : List ℤ) → AllPositive ds → has_dynamic_dim ds ≡ false
positive→static [] h = refl
positive→static (pos n ∷ ds) h = positive→static ds h.1
positive→static (negsuc n ∷ ds) h = absurd (omega (arith, h.0))

-- For a shape with no dynamic dimension `numel` is the product of the dimensions if that fits a
-- `size_t`, and an error exactly when it does not.
pub numel-product :
    (ds : List ℤ)
    → AllPositive ds
    → numel ds ≡ (if leb (product ds) size_max then ok (product ds) else err invalid_argument)
unfolding numel
numel-product ds h = rw (positive→static ds h) (numel_loop_lem 1 ds h (omega arith) ∙ ground arith)
