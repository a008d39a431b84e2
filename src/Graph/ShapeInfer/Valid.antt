-- ===== src/Graph/ShapeInfer/Valid.antt =====
-- Shape inference of src/graph/shape_infer.cpp on shapes that exist.
use llmengine.Base.{
  Bool-cases, [], arith, false, get_or, inl, inr, leb, ltb, none, not, pos, pos_part, refl, set,
  some, suc, take, true, zero, ℕ, ℤ, ◌&&◌, ◌++◌, ◌-◌, ◌<◌, ◌==◌, ◌||◌, ◌∷◌, ◌≡◌,
}
use llmengine.Core.Status.{ok, err}
use llmengine.Core.Shape.{dim_ok, all_ok, make_shape, rank}
use llmengine.Graph.ShapeInfer.{
  Shape, Inferred, with_dim, construct, dims_clash, infer_matmul_shape, infer_linear_shape,
  any_clash, infer_elementwise_shape, infer_add_shape, infer_embedding_shape, wrap_axis, axis_out,
  swap, infer_transpose_shape,
}

-- The dimensions are those that the constructor lets pass.
abbrev pub IsShape : Shape → Type 0
IsShape s = all_ok s ≡ true

-- Inference returns, and a shape that it returns is one.
abbrev pub GivesShape : Inferred → Type 0
GivesShape none = ⊥
GivesShape (some (err e)) = Unit
GivesShape (some (ok s)) = IsShape s

all_ok-append : (s t : Shape) → all_ok (s ++ t) ≡ (all_ok s && all_ok t)
all_ok-append [] t = refl
all_ok-append (d ∷ s) t = ground (arith, all_ok-append s t)

all_ok-take : (n : ℕ) (s : Shape) → IsShape s → IsShape (take n s)
all_ok-take zero s h = refl
all_ok-take (suc n) [] h = refl
all_ok-take (suc n) (d ∷ s) h = ground (arith, all_ok-take n s)

dim_ok-get_or : (s : Shape) (i : ℕ) → IsShape s → i < rank s → dim_ok (get_or s i (pos 0)) ≡ true
dim_ok-get_or [] i h lt = absurd (omega arith)
dim_ok-get_or (d ∷ s) zero h lt = ground arith
dim_ok-get_or (d ∷ s) (suc i) h lt = dim_ok-get_or s i (ground arith) (omega arith)

pub all_ok-set : (s : Shape) (i : ℕ) (d : ℤ) → IsShape s → dim_ok d ≡ true → IsShape (set s i d)
all_ok-set [] i d h k = refl
all_ok-set (x ∷ s) zero d h k = ground arith
all_ok-set (x ∷ s) (suc i) d h k = ground (arith, all_ok-set s i d)

pub construct_ok : (s : Shape) → IsShape s → GivesShape (construct s)
unfolding make_shape
construct_ok s h = elim (Bool-cases (all_ok s)) [
  | inl e ↦ rw (e, GivesShape) h
  | inr e ↦ absurd (ground arith)
]

-- An index below the rank: `dim` returns.
with_dim-gives :
    (s : Shape) (i : ℕ) (f : ℤ → Inferred)
    → IsShape s
    → i < rank s
    → ((d : ℤ) → dim_ok d ≡ true → GivesShape (f d))
    → GivesShape (with_dim s i f)
with_dim-gives [] i f h lt k = absurd (omega (arith, lt))
with_dim-gives (d ∷ s) zero f h lt k = k d (ground arith)
with_dim-gives (d ∷ s) (suc i) f h lt k = with_dim-gives s i f (ground arith) (omega (arith, lt)) k

pub matmul_gives : (a b : Shape) → IsShape a → IsShape b → GivesShape (infer_matmul_shape a b)
unfolding infer_matmul_shape
matmul_gives a b ha hb = elim (Bool-cases (not (rank a == 2 && rank b == 2))) [
  | inl e ↦ rw e tt
  | inr e ↦
      let ranks : (rank a ≡ 2) × (rank b ≡ 2) = ground (arith, e) in
      rw e (
        with_dim-gives a 1 _ ha (omega (arith, ranks.0)) λ k _.
          with_dim-gives b 0 _ hb (omega (arith, ranks.1)) λ k' _.
            elim (Bool-cases (dims_clash k k')) [
              | inl f ↦ rw f tt
              | inr f ↦ rw f (
                  with_dim-gives a 0 _ ha (omega (arith, ranks.0)) λ m hm.
                    with_dim-gives b 1 _ hb (omega (arith, ranks.1))
                      λ n hn. construct_ok (m ∷ n ∷ []) (ground (arith, hm, hn)))
            ])
]

pub linear_gives : (x w : Shape) → IsShape x → IsShape w → GivesShape (infer_linear_shape x w)
unfolding infer_linear_shape
linear_gives x w hx hw = elim (Bool-cases (not (rank w == 2))) [
  | inl e ↦ rw e tt
  | inr e ↦ rw e (elim (Bool-cases (ltb (rank x) 1)) [
    | inl f ↦ rw f tt
    | inr f ↦
        let two : rank w ≡ 2 = ground (arith, e) in
        let some_dim : 0 < rank x = ground (arith, f) in
        rw f (
          with_dim-gives x (rank x - 1) _ hx (omega (arith, some_dim)) λ k _.
            with_dim-gives w 1 _ hw (omega (arith, two)) λ k' _.
              elim (Bool-cases (dims_clash k k')) [
                | inl g ↦ rw g tt
                | inr g ↦ rw g (
                    with_dim-gives w 0 _ hw (omega (arith, two)) λ n hn.
                      construct_ok (take (rank x - 1) x ++ n ∷ []) (
                        ground (
                          arith,
                          all_ok-append (take (rank x - 1) x) (n ∷ []),
                          all_ok-take (rank x - 1) x hx,
                          hn,
                        )))
              ])
  ])
]

pub elementwise_gives : (a b : Shape) → IsShape a → GivesShape (infer_elementwise_shape a b)
unfolding infer_elementwise_shape
elementwise_gives a b h = elim (Bool-cases (not (rank a == rank b))) [
  | inl e ↦ rw e tt
  | inr e ↦ rw e (elim (Bool-cases (any_clash a b)) [ inl f ↦ rw f tt | inr f ↦ rw f h ])
]

pub add_gives : (a b : Shape) → IsShape a → GivesShape (infer_add_shape a b)
unfolding infer_add_shape
add_gives a b h = elim (Bool-cases (not (rank a == rank b))) [
  | inl e ↦ rw e tt
  | inr e ↦ rw e (elim (Bool-cases (any_clash a b)) [ inl f ↦ rw f tt | inr f ↦ rw f h ])
]

pub embedding_gives : (x w : Shape) → IsShape x → IsShape w → GivesShape (infer_embedding_shape x w)
unfolding infer_embedding_shape
embedding_gives x w hx hw = elim (Bool-cases (ltb (rank x) 1 || not (rank w == 2))) [
  | inl e ↦ rw e tt
  | inr e ↦
      let two : rank w ≡ 2 = ground (arith, e) in
      rw e (
        with_dim-gives w 1 _ hw (omega (arith, two))
          λ n hn. construct_ok (x ++ n ∷ []) (ground (arith, all_ok-append x (n ∷ []), hn)))
]

-- On shapes, the inference of a product, a linear layer and an embedding does not throw, neither in
-- `dim` nor in the constructor, and a shape that it returns has dimensions that the constructor lets
-- pass.
pub infer-IsShape :
    (a b : Shape)
    → IsShape a
    → IsShape b
    → GivesShape (infer_matmul_shape a b)
      × GivesShape (infer_linear_shape a b)
      × GivesShape (infer_embedding_shape a b)
infer-IsShape a b ha hb =
    (matmul_gives a b ha hb, linear_gives a b ha hb, embedding_gives a b ha hb)

swap_ok : (i j : ℕ) (s : Shape) → IsShape s → i < rank s → j < rank s → IsShape (swap i j s)
swap_ok i j s h hi hj =
    all_ok-set (set s i (get_or s j (pos 0))) j (get_or s i (pos 0))
      (all_ok-set s i (get_or s j (pos 0)) h (dim_ok-get_or s j h hj)) (dim_ok-get_or s i h hi)

-- The transposition of a shape returns, whatever the axes, and a shape that it returns has dimensions
-- that the constructor lets pass.
pub infer_transpose_shape-IsShape :
    (s : Shape) (axis0 axis1 : ℤ) → IsShape s → GivesShape (infer_transpose_shape s axis0 axis1)
unfolding infer_transpose_shape
infer_transpose_shape-IsShape s axis0 axis1 h =
    let r = rank s in
    let a = wrap_axis axis0 r in
    let b = wrap_axis axis1 r in
    elim (Bool-cases (leb r 0)) [
      | inl e ↦ rw e tt
      | inr e ↦ rw e (elim (Bool-cases (axis_out a r || axis_out b r)) [
        | inl f ↦ rw f tt
        | inr f ↦
            let inside : (pos_part a < r) × (pos_part b < r) = axes_in a b r f in
            rw f (
              construct_ok (swap (pos_part a) (pos_part b) s)
                (swap_ok (pos_part a) (pos_part b) s h inside.0 inside.1))
      ])
    ]
  where
    axes_in :
        (a b : ℤ) (r : ℕ)
        → (axis_out a r || axis_out b r) ≡ false
        → (pos_part a < r) × (pos_part b < r)
    axes_in a b r f = ground arith
