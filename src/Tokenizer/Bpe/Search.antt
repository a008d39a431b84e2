-- ===== src/Tokenizer/Bpe/Search.antt =====
-- The search for the best pair in `bpe` of src/io/bpe_tokenizer.cpp.
use llmengine.Base.{
  Bool-cases, List, Option, arith, false, if◌then◌else◌, inl, inr, ltb, ltb-false→le, ltb_ℤ, ltb→lt,
  none, refl, some, subst, suc, sym, true, zero, ℕ, ℤ, ◌<◌, ◌≡◌,
}
use llmengine.Tokenizer.Bytes.{Bytes}
use llmengine.Tokenizer.Bpe.{
  Ranks, find_rank, Symbol, symbol_at, int32_max, Best, better, search_best,
}

-- Facts about the order of ranks.
lowered : (a m r : ℤ) → ltb_ℤ a m ≡ true → ltb_ℤ r m ≡ false → ltb_ℤ a r ≡ true
lowered a m r lower h = ground (arith, lower, h)

asymmetric : (a r : ℤ) → ltb_ℤ a r ≡ true → ltb_ℤ r a ≡ false
asymmetric a r h = ground (arith, h)

irreflexive : (a : ℤ) → ltb_ℤ a a ≡ false
irreflexive a = ground arith

some-none : (n : ℕ) → some n ≡ none → ⊥
some-none n h = cc

some_inj : (m n : ℕ) → some m ≡ some n → m ≡ n
some_inj m n h = cc

last : (i n : ℕ) → i < suc n → ltb i n ≡ false → i ≡ n
last i n h new = omega (arith, ltb-false→le i n new)

abbrev pub rank_or_max : Option ℤ → ℤ
rank_or_max none = int32_max
rank_or_max (some rank) = rank

-- The rank of two texts, INT32_MAX where there is none.
unfoldable pub pair_rank : Ranks → Bytes → Bytes → ℤ
pair_rank ranks a b = rank_or_max (find_rank ranks a b)

module _ (ranks : Ranks) (symbols : List Symbol) where
  abbrev pub link_rank : ℕ → Option ℕ → ℤ
  link_rank i none = int32_max
  link_rank i (some j) = pair_rank ranks (symbol_at symbols i).text (symbol_at symbols j).text

  -- The rank of a symbol with the one behind it.
  unfoldable pub rank_at : ℕ → ℤ
  rank_at i = link_rank i (symbol_at symbols i).next

  -- What a best symbol `b` among the first `n` is.
  abbrev pub Found : ℕ → ℤ → ℕ → Type 0
  Found n m b =
      (b < n)
      × (rank_at b ≡ m)
      × (ltb_ℤ m int32_max ≡ true)
      × ((i : ℕ) → i < b → ltb_ℤ m (rank_at i) ≡ true)

  -- Of the first `n` symbols, none has a rank below the best, and those before the best are above it.
  pub record BestOf (n : ℕ) (best : Best) : Type 0 where
    pub least : (i : ℕ) → i < n → ltb_ℤ (rank_at i) best.0 ≡ false
    pub bounded : ltb_ℤ int32_max best.0 ≡ false
    pub nothing : best.1 ≡ none → best.0 ≡ int32_max
    pub found : (b : ℕ) → best.1 ≡ some b → Found n best.0 b

  better_lem :
      (i : ℕ) (best : Best)
      → ltb_ℤ int32_max best.0 ≡ false
      → better ranks symbols i best
        ≡ (if ltb_ℤ (rank_at i) best.0 then (rank_at i, some i) else best)
  unfolding better rank_at pair_rank
  better_lem i best h = ground (arith, h)

  BestOf-lower :
      (n : ℕ) (best : Best)
      → BestOf n best
      → ltb_ℤ (rank_at n) best.0 ≡ true
      → BestOf (suc n) (rank_at n, some n)
  BestOf-lower n best b lower = record {
    least = λ i h. elim (Bool-cases (ltb i n)) [
      | inl old ↦
          asymmetric (rank_at n) (rank_at i) (below (rank_at i) (b.least i (ltb→lt i n old)))
      | inr new ↦ rw (last i n h new) (irreflexive (rank_at n))
    ];
    bounded = asymmetric (rank_at n) int32_max (below int32_max b.bounded);
    nothing = λ h. absurd (some-none n h);
    found = λ c e.
        subst (Found (suc n) (rank_at n)) (some_inj n c e)
          (omega arith, refl, below int32_max b.bounded, λ i h. below (rank_at i) (b.least i h));
  }
    where
      below : (r : ℤ) → ltb_ℤ r best.0 ≡ false → ltb_ℤ (rank_at n) r ≡ true
      below r h = lowered (rank_at n) best.0 r lower h

  BestOf-higher :
      (n : ℕ) (best : Best) → BestOf n best → ltb_ℤ (rank_at n) best.0 ≡ false → BestOf (suc n) best
  BestOf-higher n best b higher = record {
    least = λ i h. elim (Bool-cases (ltb i n)) [
      | inl old ↦ b.least i (ltb→lt i n old)
      | inr new ↦ rw (last i n h new) higher
    ];
    bounded = b.bounded;
    nothing = b.nothing;
    found =
        λ c e. let (lt, same, small, before) = b.found c e in (omega arith, same, small, before);
  }

  -- The search finds the best of all.
  pub search_best-BestOf : (n : ℕ) → BestOf n (search_best ranks symbols n)
  unfolding search_best
  search_best-BestOf zero = record {
    least = λ i h. absurd (omega arith);
    bounded = irreflexive int32_max;
    nothing = λ h. refl;
    found = λ b e. absurd (some-none b (sym e));
  }
  search_best-BestOf (suc n) =
      let b = search_best-BestOf n in
      rw (better_lem n (search_best ranks symbols n) b.bounded)
        (elim (Bool-cases (ltb_ℤ (rank_at n) (search_best ranks symbols n).0)) [
          | inl lower ↦ rw lower (BestOf-lower n (search_best ranks symbols n) b lower)
          | inr higher ↦ rw higher (BestOf-higher n (search_best ranks symbols n) b higher)
        ])
