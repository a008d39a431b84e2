-- ===== src/Memory/Ranges.antt =====
-- The ranges that `MemoryPlanner::plan` of src/runtime/memory_planner.cpp makes, before the
-- assignment: none has a buffer, and each ends where it starts or later.
use llmengine.Base.{
  Bool-cases, List, Option, [], ap, arith, dec_lt, if◌then◌else◌, inl, inr, ltb, none, refl, some,
  subst, suc, true, zero, ℕ, ◌*◌, ◌++◌, ◌+◌, ◌/◌, ◌∙◌, ◌∷◌, ◌≡◌, ◌≤◌,
}
use llmengine.Core.Status.{out_of_range, Result, ok, err, Result-cases}
use llmengine.Core.DType.{dtype_size}
use llmengine.Core.Shape.{size_max, has_dynamic_dim, numel_loop}
use llmengine.Graph.Data.{Value}
use llmengine.Memory.{size_mod, align_up, Options, LiveRange, Plan, align_up_lem}
use llmengine.Memory.Live.{Lives, kind_ok, supported, range_of, sized, range_loop}
use llmengine.Memory.Reuse.{no_range, range_at}

abbrev pub Fresh : LiveRange → Type 0
Fresh r = (r.buffer_id ≡ none) × (r.first_node ≤ r.last_node)

range_of-Fresh : (l : Lives) (graph_end : ℕ) (v : Value) → Fresh (range_of l graph_end v)
unfolding range_of
range_of-Fresh l graph_end v = (refl, ground arith)

-- The size of a range changes neither its buffer nor its nodes.
abbrev pub SameNodes : LiveRange → LiveRange → Type 0
SameNodes r s =
    (r.buffer_id ≡ s.buffer_id) × (r.first_node ≡ s.first_node) × (r.last_node ≡ s.last_node)

pub sized-SameNodes :
    (o : Options) (v : Value) (r r' : LiveRange) → sized o v r ≡ ok (some r') → SameNodes r' r
unfolding sized
sized-SameNodes o v r r' = elim (Bool-cases (kind_ok o v.kind)) [
  | inr e ↦ rw e (λ h. absurd (cc))
  | inl e ↦ rw e (elim (Bool-cases (supported v.device.type)) [
    | inr e2 ↦ rw e2 (λ h. absurd (cc))
    | inl e2 ↦ rw e2 (elim (Bool-cases (has_dynamic_dim v.shape)) [
      | inl e3 ↦ rw e3 (λ h. absurd (cc))
      | inr e3 ↦ rw e3 (go (numel_loop 1 v.shape) (dtype_size v.dtype))
    ])
  ])
]
  where
    inside : Result (Option LiveRange) → LiveRange
    inside x = elim x [ err y ↦ r | ok z ↦ elim z [ none ↦ r | some a ↦ a ] ]

    go :
        (n s : Result ℕ)
        → elim n [
          | err e ↦ ok none
          | ok k ↦ elim s [
            | err e ↦ ok none
            | ok w ↦
                if ltb (size_max / w) k
                then err out_of_range
                else ok (
                    some (record r {
                      bytes = k * w;
                      aligned_bytes = align_up (k * w) o.alignment;
                      eligible = true;
                    }))
          ]
        ]
          ≡ ok (some r')
        → SameNodes r' r
    go (err e) s = λ h. absurd (cc)
    go (ok k) (err e) = λ h. absurd (cc)
    go (ok k) (ok w) = elim (Bool-cases (ltb (size_max / w) k)) [
      | inl e ↦ rw e (λ h. absurd (cc))
      | inr e ↦ rw e (λ h. subst (λ x. SameNodes x r) (ap inside h) (refl, refl, refl))
    ]

sized-Fresh :
    (o : Options) (v : Value) (r r' : LiveRange) → Fresh r → sized o v r ≡ ok (some r') → Fresh r'
sized-Fresh o v r r' f e =
    let s = sized-SameNodes o v r r' e in (s.0 ∙ f.0, omega (arith, s.1, s.2, f.1))

abbrev pub plan_of : Plan → Result Plan → Plan
plan_of p (err e) = p
plan_of p (ok q) = q

-- What holds of every range, whether it is skipped or sized, holds of every range of the plan.
module _ (P : LiveRange → Type 0) (empty : P no_range) where
  append_each :
      (rs : List LiveRange) (r : LiveRange)
      → ((i : ℕ) → P (range_at rs i))
      → P r
      → (i : ℕ) → P (range_at (rs ++ r ∷ []) i)
  append_each [] r h f zero = f
  append_each [] r h f (suc i) = empty
  append_each (x ∷ rs) r h f zero = h 0
  append_each (x ∷ rs) r h f (suc i) = append_each rs r (λ j. h (suc j)) f i

  pub range_loop-each :
      (o : Options) (l : Lives) (graph_end : ℕ) (vs : List Value) (p q : Plan)
      → ((v : Value) → P (range_of l graph_end v))
      → ((v : Value) (r : LiveRange) → sized o v (range_of l graph_end v) ≡ ok (some r) → P r)
      → ((i : ℕ) → P (range_at p.ranges i))
      → range_loop o l graph_end vs p ≡ ok q
      → (i : ℕ) → P (range_at q.ranges i)
  unfolding range_loop
  range_loop-each o l graph_end [] p q skipped taken h =
      λ e i. subst (λ (x : Plan). P (range_at x.ranges i)) (ap (plan_of p) e) (h i)
  range_loop-each o l graph_end (v ∷ vs) p q skipped taken h =
      let r = range_of l graph_end v in
      elim (Result-cases (sized o v r)) [
        | inr (x, e) ↦ rw (e, range_loop) (λ g. absurd (cc))
        | inl (none, e) ↦
            rw (e, range_loop)
              (range_loop-each o l graph_end vs _ q skipped taken
                (append_each p.ranges r h (skipped v)))
        | inl (some r', e) ↦
            rw (e, range_loop)
              (range_loop-each o l graph_end vs _ q skipped taken
                (append_each p.ranges r' h (taken v r' e)))
      ]

pub range_loop-Fresh :
    (o : Options) (l : Lives) (graph_end : ℕ) (vs : List Value) (p q : Plan)
    → ((i : ℕ) → Fresh (range_at p.ranges i))
    → range_loop o l graph_end vs p ≡ ok q
    → (i : ℕ) → Fresh (range_at q.ranges i)
range_loop-Fresh o l graph_end vs p q =
    range_loop-each Fresh (refl, omega arith) o l graph_end vs p q (range_of-Fresh l graph_end)
      (λ v r. sized-Fresh o v (range_of l graph_end v) r (range_of-Fresh l graph_end v))

-- The size of a range is at most its rounded size, unless the rounding wraps around.
abbrev pub Rounded : ℕ → LiveRange → Type 0
Rounded al r = r.bytes + al ≤ size_mod → r.bytes ≤ r.aligned_bytes

unaligned : (n al : ℕ) → al ≡ 0 → n ≤ align_up n al
unfolding align_up
unaligned n al e = ground (arith, e)

align_up-le : (n al : ℕ) → n + al ≤ size_mod → n ≤ align_up n al
align_up-le n al h = elim (dec_lt 0 al) [
  | yes lt ↦ (align_up_lem n al lt h).1
  | no zero_al ↦ unaligned n al (omega (arith, zero_al))
]

sized-Rounded :
    (o : Options) (v : Value) (r r' : LiveRange)
    → sized o v r ≡ ok (some r')
    → Rounded o.alignment r'
unfolding sized
sized-Rounded o v r r' = elim (Bool-cases (kind_ok o v.kind)) [
  | inr e ↦ rw e (λ h. absurd (cc))
  | inl e ↦ rw e (elim (Bool-cases (supported v.device.type)) [
    | inr e2 ↦ rw e2 (λ h. absurd (cc))
    | inl e2 ↦ rw e2 (elim (Bool-cases (has_dynamic_dim v.shape)) [
      | inl e3 ↦ rw e3 (λ h. absurd (cc))
      | inr e3 ↦ rw e3 (go (numel_loop 1 v.shape) (dtype_size v.dtype))
    ])
  ])
]
  where
    inside : Result (Option LiveRange) → LiveRange
    inside x = elim x [ err y ↦ r | ok z ↦ elim z [ none ↦ r | some a ↦ a ] ]

    go :
        (n s : Result ℕ)
        → elim n [
          | err e ↦ ok none
          | ok k ↦ elim s [
            | err e ↦ ok none
            | ok w ↦
                if ltb (size_max / w) k
                then err out_of_range
                else ok (
                    some (record r {
                      bytes = k * w;
                      aligned_bytes = align_up (k * w) o.alignment;
                      eligible = true;
                    }))
          ]
        ]
          ≡ ok (some r')
        → Rounded o.alignment r'
    go (err e) s = λ h. absurd (cc)
    go (ok k) (err e) = λ h. absurd (cc)
    go (ok k) (ok w) = elim (Bool-cases (ltb (size_max / w) k)) [
      | inl e ↦ rw e (λ h. absurd (cc))
      | inr e ↦
          rw e (λ h.
            subst (λ x. Rounded o.alignment x) (ap inside h) (align_up-le (k * w) o.alignment))
    ]

range_of-Rounded : (l : Lives) (graph_end al : ℕ) (v : Value) → Rounded al (range_of l graph_end v)
unfolding range_of
range_of-Rounded l graph_end al v = λ h. omega arith

pub range_loop-Rounded :
    (o : Options) (l : Lives) (graph_end : ℕ) (vs : List Value) (p q : Plan)
    → ((i : ℕ) → Rounded o.alignment (range_at p.ranges i))
    → range_loop o l graph_end vs p ≡ ok q
    → (i : ℕ) → Rounded o.alignment (range_at q.ranges i)
range_loop-Rounded o l graph_end vs p q =
    range_loop-each (Rounded o.alignment) (λ h. omega arith) o l graph_end vs p q
      (range_of-Rounded l graph_end o.alignment)
      (λ v r. sized-Rounded o v (range_of l graph_end v) r)
