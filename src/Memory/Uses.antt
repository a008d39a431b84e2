-- ===== src/Memory/Uses.antt =====
-- The live ranges of `MemoryPlanner::plan` in src/runtime/memory_planner.cpp cover every use of a
-- value: the loop over the order.
use llmengine.Base.{
  Bool, Bool-cases, List, [], arith, count, false, get_or, get_or-set_ne, get_or-set_self, inl, inr,
  length, length-set, ltb, max, refl, set, subst, true, ℕ, ℕ_discrete, ◌<◌, ◌==◌, ◌∙◌, ◌∷◌, ◌≡◌,
  ◌≢◌, ◌≤◌,
}
use llmengine.Memory.Live.{Lives, read_at, written_at, each}

-- The three vectors have an entry for each value.
pub record Sized (n : ℕ) (l : Lives) : Type 0 where
  pub firsts : length l.first ≡ n
  pub lasts : length l.last ≡ n
  pub producers : length l.has_producer ≡ n

abbrev pub first_at : Lives → ℕ → ℕ
first_at l v = get_or l.first v 0

abbrev pub last_at : Lives → ℕ → ℕ
last_at l v = get_or l.last v 0

abbrev pub produced : Lives → ℕ → Bool
produced l v = get_or l.has_producer v false

-- A vector entry after a write that raises it to `m` at least.
raised :
    (xs : List ℕ) (x v m : ℕ)
    → x < length xs
    → let r = get_or (set xs x (max (get_or xs x 0) m)) v 0 in (get_or xs v 0 ≤ r) × (x ≡ v → m ≤ r)
raised xs x v m h = elim (ℕ_discrete x v) [
  | yes e ↦
      rw⁻¹ e (rw (get_or-set_self xs x (max (get_or xs x 0) m) 0 h) (omega arith, λ q. omega arith))
  | no n ↦ rw (get_or-set_ne xs x v (max (get_or xs x 0) m) 0 n) (omega arith, λ q. absurd (n q))
]

-- What the loop over the inputs or the outputs of node `i` does.
pub record Touched (n i : ℕ) (vs : List ℕ) (l r : Lives) : Type 0 where
  pub sized : Sized n r
  pub grows : (v : ℕ) → last_at l v ≤ last_at r v
  pub used : (v : ℕ) → v < n → 0 < count v vs → i ≤ last_at r v

pub record Read (n i : ℕ) (vs : List ℕ) (l r : Lives) : Type 0 where
  pub touched : Touched n i vs l r
  pub first : r.first ≡ l.first
  pub has_producer : r.has_producer ≡ l.has_producer

pub reads-Read :
    (n i : ℕ) (vs : List ℕ) (l : Lives) → Sized n l → Read n i vs l (each (read_at i) vs l)
reads-Read n i [] l s = record {
  touched = record {
    sized = s;
    grows = λ v. omega arith;
    used = λ v h u. absurd (omega (arith, u));
  };
  first = refl;
  has_producer = refl;
}
reads-Read n i (x ∷ xs) l s = elim (Bool-cases (ltb x (length l.last))) [
  | inr f ↦
      let t = reads-Read n i xs l s in
      rw f (record {
        touched = record {
          sized = t.touched.sized;
          grows = t.touched.grows;
          used = λ v h u. t.touched.used v h (ground (arith, f, u, h, s.lasts));
        };
        first = t.first;
        has_producer = t.has_producer;
      })
  | inl f ↦
      let raise = λ (v : ℕ). raised l.last x v i (ground (arith, f)) in
      let t =
        reads-Read n i xs (record l { last = set l.last x (max (get_or l.last x 0) i) })
          (record {
            firsts = s.firsts;
            lasts = length-set l.last x _ ∙ s.lasts;
            producers = s.producers;
          }) in
      rw f (record {
        touched = record {
          sized = t.touched.sized;
          grows = λ v. omega (arith, t.touched.grows v, (raise v).0);
          used = λ v h u. elim (ℕ_discrete x v) [
            | yes e ↦ omega (arith, t.touched.grows v, (raise v).1 e)
            | no n' ↦ t.touched.used v h (ground (arith, u, n'))
          ];
        };
        first = t.first;
        has_producer = t.has_producer;
      })
]

-- The values that node `i` writes have it as their first node.
pub record Written (n i : ℕ) (vs : List ℕ) (l r : Lives) : Type 0 where
  pub touched : Touched n i vs l r
  pub start : (v : ℕ) → v < n → 0 < count v vs → (first_at r v ≡ i) × (produced r v ≡ true)
  pub others :
      (v : ℕ) → count v vs ≡ 0 → (first_at r v ≡ first_at l v) × (produced r v ≡ produced l v)

pub writes-Written :
    (n i : ℕ) (vs : List ℕ) (l : Lives) → Sized n l → Written n i vs l (each (written_at i) vs l)
writes-Written n i [] l s = record {
  touched = record {
    sized = s;
    grows = λ v. omega arith;
    used = λ v h u. absurd (omega (arith, u));
  };
  start = λ v h u. absurd (omega (arith, u));
  others = λ v u. (refl, refl);
}
writes-Written n i (x ∷ xs) l s = elim (Bool-cases (ltb x (length l.last))) [
  | inr f ↦
      let w = writes-Written n i xs l s in
      let inside = λ (v : ℕ) (h : v < n) (u : 0 < count v (x ∷ xs)).
        let r : 0 < count v xs = ground (arith, f, u, h, s.lasts) in r in
      rw f (record {
        touched = record {
          sized = w.touched.sized;
          grows = w.touched.grows;
          used = λ v h u. w.touched.used v h (inside v h u);
        };
        start = λ v h u. w.start v h (inside v h u);
        others = λ v u. w.others v (ground (arith, u));
      })
  | inl f ↦ rw f (
      go (ground (arith, f)) (
        writes-Written n i xs l' (record {
          firsts = length-set l.first x i ∙ s.firsts;
          lasts = length-set l.last x _ ∙ s.lasts;
          producers = length-set l.has_producer x true ∙ s.producers;
        })))
]
  where
    l' : Lives
    l' = record l {
      first = set l.first x i;
      last = set l.last x (max (get_or l.last x 0) i);
      has_producer = set l.has_producer x true;
    }

    raise : x < length l.last → (v : ℕ) → (last_at l v ≤ last_at l' v) × (x ≡ v → i ≤ last_at l' v)
    raise h v = raised l.last x v i h

    here : x < length l.last → (first_at l' x ≡ i) × (produced l' x ≡ true)
    here h = (
      get_or-set_self l.first x i 0 (omega (arith, h, s.lasts, s.firsts)),
      get_or-set_self l.has_producer x true false (omega (arith, h, s.lasts, s.producers)),
    )

    there : (v : ℕ) → x ≢ v → (first_at l' v ≡ first_at l v) × (produced l' v ≡ produced l v)
    there v q = (get_or-set_ne l.first x v i 0 q, get_or-set_ne l.has_producer x v true false q)

    go :
        x < length l.last
        → Written n i xs l' (each (written_at i) xs l')
        → Written n i (x ∷ xs) l (each (written_at i) xs l')
    go h w = record {
      touched = record {
        sized = w.touched.sized;
        grows = λ v. omega (arith, w.touched.grows v, (raise h v).0);
        used = λ v g u. elim (ℕ_discrete x v) [
          | yes e ↦ omega (arith, w.touched.grows v, (raise h v).1 e)
          | no q ↦ w.touched.used v g (ground (arith, u, q))
        ];
      };
      start = λ v g u. elim (Bool-cases (count v xs == 0)) [
        | inr some_left ↦ w.start v g (ground (arith, some_left))
        | inl none_left ↦
            let gone : count v xs ≡ 0 = ground (arith, none_left) in
            let e : x ≡ v = ground (arith, u, gone) in
            let o = w.others v gone in
            let t = subst (λ y. (first_at l' y ≡ i) × (produced l' y ≡ true)) e (here h) in
            (o.0 ∙ t.0, o.1 ∙ t.1)
      ];
      others = λ v u.
          let gone : count v xs ≡ 0 = ground (arith, u) in
          let q : x ≢ v = ground (arith, u) in
          let o = w.others v gone in let t = there v q in (o.0 ∙ t.0, o.1 ∙ t.1);
    }
