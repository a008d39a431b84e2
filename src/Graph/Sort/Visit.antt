-- ===== src/Graph/Sort/Visit.antt =====
-- The `while` loop of `Graph::topological_sort` in src/graph/graph.cpp: what it keeps, and that the
-- fuel is enough.
use mathlib.Core.List.{append-nil, append_assoc}
use llmengine.Base.{
  Bool-cases, List, [], arith, count, count-append, get_or, get_or-set_ne, get_or-set_self,
  if◌then◌else◌, inl, inr, leb, length, length-append, length-set, ltb, refl, set, subst, suc, sym,
  zero, ℕ, ℕ_discrete, ◌&&◌, ◌++◌, ◌+◌, ◌-◌, ◌<◌, ◌==◌, ◌∙◌, ◌∷◌, ◌≡◌, ◌≢◌, ◌≤◌,
}
use llmengine.Graph.Sort.{relax, visit}

-- The edges into `i` that come from no node of `done`: those of the lists from node `k` on.
abbrev pub waiting : ℕ → ℕ → List (List ℕ) → List ℕ → ℕ
waiting i k [] done = 0
waiting i k (a ∷ rows) done =
    (if count k done == 0 then count i a else 0) + waiting i (suc k) rows done

abbrev pub zeros : List ℕ → ℕ
zeros [] = 0
zeros (d ∷ ds) = (if d == 0 then 1 else 0) + zeros ds

pub zeros-le : (ds : List ℕ) → zeros ds ≤ length ds
zeros-le [] = omega arith
zeros-le (d ∷ ds) = ground (arith, zeros-le ds)

pub zeros_all : (ds : List ℕ) (i : ℕ) → zeros ds ≡ length ds → get_or ds i 0 ≡ 0
zeros_all [] i h = refl
zeros_all (d ∷ ds) zero h = ground (arith, zeros-le ds)
zeros_all (d ∷ ds) (suc i) h = zeros_all ds i (ground (arith, zeros-le ds))

-- A degree of one becomes zero.
zeros-set :
    (ds : List ℕ) (x n : ℕ)
    → get_or ds x 0 ≡ suc n
    → zeros (set ds x n) ≡ (if n == 0 then 1 else 0) + zeros ds
zeros-set [] x n h = absurd (omega (arith, h))
zeros-set (d ∷ ds) zero n h = ground (arith, h)
zeros-set (d ∷ ds) (suc x) n h = omega (arith, zeros-set ds x n h)

in_range : (ds : List ℕ) (x n : ℕ) → get_or ds x 0 ≡ suc n → x < length ds
in_range [] x n h = absurd (omega (arith, h))
in_range (d ∷ ds) zero n h = omega arith
in_range (d ∷ ds) (suc x) n h = omega (arith, in_range ds x n h)

-- A node of the order waits no longer for the nodes before `cur`.
waiting-append :
    (i k : ℕ) (rows : List (List ℕ)) (done : List ℕ) (cur : ℕ)
    → count cur done ≡ 0
    → waiting i k rows done
      ≡ waiting i k rows (done ++ cur ∷ [])
        + (if leb k cur then count i (get_or rows (cur - k) []) else 0)
waiting-append i k [] done cur h = ground arith
waiting-append i k (a ∷ rows) done cur h =
    let here = count-append k done (cur ∷ []) in
    let rest = waiting-append i (suc k) rows done cur h in
    elim (Bool-cases (k == cur)) [
      | inl e ↦
          let same : k ≡ cur = ground (arith, e) in
          let gap : cur - k ≡ 0 = omega (arith, same) in
          rw gap (ground (arith, same, here, rest, h))
      | inr e ↦ elim (Bool-cases (leb k cur)) [
        | inl f ↦
            let gap : cur - k ≡ suc (cur - suc k) = ground (arith, e, f) in
            rw gap (ground (arith, e, f, here, rest))
        | inr f ↦ ground (arith, e, f, here, rest)
      ]
    ]

-- Each node of the list waits for no node but those before it; `pre` comes before the list.
abbrev pub Ordered : List (List ℕ) → List ℕ → List ℕ → Type 0
Ordered adj pre [] = Unit {0}
Ordered adj pre (i ∷ rest) = (waiting i 0 adj pre ≡ 0) × Ordered adj (pre ++ i ∷ []) rest

Ordered-snoc :
    (adj : List (List ℕ)) (pre xs : List ℕ) (i : ℕ)
    → Ordered adj pre xs
    → waiting i 0 adj (pre ++ xs) ≡ 0
    → Ordered adj pre (xs ++ i ∷ [])
Ordered-snoc adj pre [] i o w = (subst (λ l. waiting i 0 adj l ≡ 0) (append-nil pre) w, tt)
Ordered-snoc adj pre (x ∷ xs) i o w = (
  o.0,
  Ordered-snoc adj (pre ++ x ∷ []) xs i o.1
      (subst (λ l. waiting i 0 adj l ≡ 0) (sym (append_assoc pre (x ∷ []) xs)) w),
)

-- The state of the `while` loop, `rest` being the edges of the last node still to be looked at.
pub record Loop (adj : List (List ℕ)) (q deg done rest : List ℕ) : Type 0 where
  pub degrees : (i : ℕ) → get_or deg i 0 ≡ waiting i 0 adj done + count i rest
  pub once :
      (i : ℕ)
      → count i q + count i done ≡ (if ltb i (length deg) && get_or deg i 0 == 0 then 1 else 0)
  pub sizes : length q + length done ≡ zeros deg
  pub ordered : Ordered adj [] done

relax_one :
    (adj : List (List ℕ)) (q deg done rest : List ℕ) (x m : ℕ)
    → get_or deg x 0 ≡ suc m
    → Loop adj q deg done (x ∷ rest)
    → Loop adj (if m == 0 then q ++ x ∷ [] else q) (set deg x m) done rest
relax_one adj q deg done rest x m h l = record {
  degrees = λ i. elim (ℕ_discrete x i) [
    | yes e ↦ rw⁻¹ e (rw this (ground (arith, h, l.degrees x)))
    | no n ↦ rw (that i n) (ground (arith, n, l.degrees i))
  ];
  once = λ i. elim (ℕ_discrete x i) [
    | yes e ↦ rw⁻¹ e (
        rw (this, length-set deg x m)
          (ground (arith, h, l.once x, in_range deg x m h, count-append x q (x ∷ []))))
    | no n ↦
        rw (that i n, length-set deg x m) (ground (arith, n, l.once i, count-append i q (x ∷ [])))
  ];
  sizes = ground (arith, l.sizes, zeros-set deg x m h, length-append q (x ∷ []));
  ordered = l.ordered;
}
  where
    this : get_or (set deg x m) x 0 ≡ m
    this = get_or-set_self deg x m 0 (in_range deg x m h)

    that : (i : ℕ) → x ≢ i → get_or (set deg x m) i 0 ≡ get_or deg i 0
    that i n = get_or-set_ne deg x i m 0 n

relax-Loop :
    (adj : List (List ℕ)) (xs q deg done : List ℕ)
    → Loop adj q deg done xs
    → Loop adj (relax xs q deg).0 (relax xs q deg).1 done []
      × (length (relax xs q deg).1 ≡ length deg)
unfolding relax
relax-Loop adj [] q deg done l = (l, refl)
relax-Loop adj (x ∷ xs) q deg done l =
    let m = get_or deg x 0 - 1 in
    let d : get_or deg x 0 ≡ suc m = ground (arith, l.degrees x) in
    let next = relax_one adj q deg done xs x m d l in
    let same : (get_or deg x 0 == 1) ≡ (m == 0) = ground (arith, d) in
    let rest = relax-Loop adj xs (if m == 0 then q ++ x ∷ [] else q) (set deg x m) done next in
    rw (relax, same) (rest.0, rest.1 ∙ length-set deg x m)

-- The next node leaves the queue.
take_next :
    (adj : List (List ℕ)) (cur : ℕ) (q deg done : List ℕ)
    → Loop adj (cur ∷ q) deg done []
    → Loop adj q deg (done ++ cur ∷ []) (get_or adj cur [])
take_next adj cur q deg done l = record {
  degrees = λ i. ground (arith, l.degrees i, waiting-append i 0 adj done cur new, start);
  once = λ i. ground (arith, l.once i, count-append i done (cur ∷ []));
  sizes = omega (arith, l.sizes, length-append done (cur ∷ []));
  ordered = Ordered-snoc adj [] done cur l.ordered ready_now;
}
  where
    new : count cur done ≡ 0
    new = ground (arith, l.once cur)

    start : cur - 0 ≡ cur
    start = omega arith

    ready_now : waiting cur 0 adj done ≡ 0
    ready_now = ground (arith, l.once cur, l.degrees cur)

-- With a round for every node that is not yet in the order, the loop ends with an empty queue.
pub visit-Loop :
    (fuel : ℕ) (adj : List (List ℕ)) (q deg done : List ℕ)
    → fuel + length done ≡ length deg
    → Loop adj q deg done []
    → ((visit fuel adj q deg done).0 ≡ [])
      × (deg' : List ℕ) × (length deg' ≡ length deg)
      × Loop adj [] deg' (visit fuel adj q deg done).1 []
unfolding visit
visit-Loop zero adj [] deg done h l = (refl, deg, refl, l)
visit-Loop zero adj (x ∷ q) deg done h l = absurd (omega (arith, h, l.sizes, zeros-le deg))
visit-Loop (suc fuel) adj [] deg done h l = (refl, deg, refl, l)
visit-Loop (suc fuel) adj (cur ∷ q) deg done h l =
    let step =
      relax-Loop adj (get_or adj cur []) q deg (done ++ cur ∷ [])
        (take_next adj cur q deg done l) in
    let rest =
      visit-Loop fuel adj (relax (get_or adj cur []) q deg).0 (relax (get_or adj cur []) q deg).1
        (done ++ cur ∷ []) (omega (arith, h, step.1, length-append done (cur ∷ []))) step.0 in
    (rest.0, rest.1, rest.2 ∙ step.1, rest.3)
