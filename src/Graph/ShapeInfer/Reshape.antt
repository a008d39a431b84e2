-- ===== src/Graph/ShapeInfer/Reshape.antt =====
-- The reshape of src/graph/shape_infer.cpp on shapes that exist.
use native.Mathlib.Nat.{div-add-mod}
use llmengine.Base.{
  Bool-cases, Option-cases, [], arith, false, inl, inr, ltb, negsuc, none, not, pos, set, ℕ, ◌%◌,
  ◌&&◌, ◌*◌, ◌/◌, ◌<◌, ◌==◌, ◌||◌, ◌∷◌, ◌≡◌,
}
use llmengine.Core.Status.{Result, ok, Result-cases}
use llmengine.Core.Shape.{size_max, has_dynamic_dim, numel_loop, numel}
use llmengine.Graph.ShapeInfer.{Shape, Target, scan_target, reshape_static, infer_reshape_shape}
use llmengine.Graph.ShapeInfer.Valid.{IsShape, GivesShape, all_ok-set, construct_ok}

some_ok_inj : {m n : ℕ} → ◌≡◌ {A = Result ℕ} (ok m) (ok n) → m ≡ n
some_ok_inj h = cc

numel_loop-positive :
    (a : ℕ) (s : Shape) (n : ℕ)
    → 0 < a
    → IsShape s
    → has_dynamic_dim s ≡ false
    → numel_loop a s ≡ ok n
    → 0 < n
unfolding numel_loop
numel_loop-positive a [] n h v fixed = λ e. omega (arith, h, some_ok_inj e)
numel_loop-positive a (negsuc d ∷ s) n h v fixed = absurd (ground (arith, fixed))
numel_loop-positive a (pos d ∷ s) n h v fixed =
    elim (Bool-cases (ltb 0 d && ltb (size_max / d) a)) [
      | inl big ↦ rw big (λ e. absurd (cc))
      | inr fine ↦
          let lt : 0 < d = ground (arith, v) in
          let grown : 0 < a * d = grind (arith, h, lt) in
          rw fine (λ e.
            numel_loop-positive (a * d) s n grown (ground (arith, v)) (ground (arith, fixed)) e)
    ]

quotient_positive : (n k : ℕ) → 0 < n → 0 < k → n % k ≡ 0 → 0 < n / k
quotient_positive n k h p e = grind (arith, div-add-mod n k)

static_gives :
    (n : ℕ) (t : Target) (target : Shape)
    → 0 < n
    → IsShape target
    → GivesShape (reshape_static n t target)
unfolding reshape_static
static_gives n t target h v = elim (Option-cases t.infer_axis) [
  | inr (axis, e) ↦
      rw (e, reshape_static)
        (elim (Bool-cases (t.known_product == 0 || not (n % t.known_product == 0))) [
          | inl bad ↦ rw bad tt
          | inr good ↦
              let q : 0 < n / t.known_product =
                quotient_positive n t.known_product h (ground (arith, good))
                  (ground (arith, good)) in
              rw good (
                construct_ok (set target axis (pos (n / t.known_product)))
                  (all_ok-set target axis (pos (n / t.known_product)) v (ground (arith, q))))
        ])
  | inl e ↦
      rw (e, reshape_static)
        (elim (Result-cases (numel target)) [
          | inr (x, f) ↦ rw (f, reshape_static) tt
          | inl (m, f) ↦
              rw (f, reshape_static)
                (elim (Bool-cases (n == m)) [ inl g ↦ rw g v | inr g ↦ rw g tt ])
        ])
]

pub reshape_gives :
    (input target : Shape)
    → IsShape input
    → IsShape target
    → GivesShape (infer_reshape_shape input target)
unfolding infer_reshape_shape
reshape_gives input target hi ht =
    elim (Result-cases (scan_target 0 (record { infer_axis = none; known_product = 1 }) target)) [
      | inr (x, e) ↦ rw (e, infer_reshape_shape) tt
      | inl (t, e) ↦
          rw (e, infer_reshape_shape)
            (elim (Bool-cases (has_dynamic_dim input)) [
              | inl d ↦ rw d ht
              | inr fixed ↦ rw fixed (elim (Result-cases (numel_loop 1 input)) [
                | inr (x, f) ↦ rw (f, infer_reshape_shape) tt
                | inl (n, f) ↦
                    rw (f, infer_reshape_shape)
                      (static_gives n t target
                        (numel_loop-positive 1 input n (omega arith) hi fixed f) ht)
              ])
            ])
    ]
