-- ===== src/Tokenizer/Bpe/Loop.antt =====
-- The loop of `bpe` in src/io/bpe_tokenizer.cpp against the greedy merges.
use llmengine.Base.{
  List, Option, Option-cases, Returns, Returns-map, [], ap, arith, false, inl, inr, length, ltb_ℤ,
  none, refl, some, subst, suc, sym, true, zero, ℕ, ℤ, ◌<◌, ◌∙◌, ◌∷◌, ◌≡◌,
}
use llmengine.Tokenizer.Bytes.{Bytes}
use llmengine.Tokenizer.Bpe.{
  Ranks, Symbol, symbol_at, int32_max, Best, search_best, merge, merge_loop,
}
use llmengine.Tokenizer.Bpe.Links.{Linked, length-merge, merge-Linked, prev-merge}
use llmengine.Tokenizer.Bpe.Search.{
  pair_rank, link_rank, rank_at, Found, BestOf, search_best-BestOf,
}
use llmengine.Tokenizer.Bpe.Greedy.{NoneBelow, Reduces, done, again}
use llmengine.Tokenizer.Bpe.Chain.{Chain, rank_at_pair, After, merge-Chain}
use llmengine.Tokenizer.Bpe.Fuel.{gaps, gaps-merge}

module _ (ranks : Ranks) where
  -- No pair of live symbols has a rank below the best.
  Chain-NoneBelow :
      (ss : List Symbol) (m : ℤ) (i : ℕ) (ts : List Bytes)
      → ((x : ℕ) → x < length ss → ltb_ℤ (rank_at ranks ss x) m ≡ false)
      → Chain ss (some i) ts
      → NoneBelow (pair_rank ranks) m ts
  Chain-NoneBelow ss m i [] least ch = tt
  Chain-NoneBelow ss m i (t ∷ []) least ch = tt
  Chain-NoneBelow ss m i (t ∷ u ∷ ts) least (within, same, rest) =
      elim (Option-cases (symbol_at ss i).next) [
        | inl last ↦ absurd (subst (λ c. Chain ss c (u ∷ ts)) last rest)
        | inr (k, forth) ↦
            let ch = subst (λ c. Chain ss c (u ∷ ts)) forth rest in
            (
              subst (λ r. ltb_ℤ r m ≡ false) (rank_at_pair ranks ss i k forth same ch.1)
                  (least i within),
              Chain-NoneBelow ss m k (u ∷ ts) least ch,
            )
      ]

  -- The live symbols at the end are the greedy merges of those at the start.
  abbrev pub Ended : List Symbol → List Bytes → List Symbol → Type 0
  Ended ss ts end =
      (us : List Bytes) × Reduces (pair_rank ranks) int32_max ts us
      × Chain end (some 0) us
      × Linked end
      × ((symbol_at end 0).prev ≡ (symbol_at ss 0).prev)
      × (length end ≡ length ss)

  -- What follows a round in which the live symbols stay or make a greedy step.
  Ended-round :
      (ss : List Symbol) (b j : ℕ) (ts : List Bytes) (best : Best) (rest : Option (List Symbol))
      (e : (symbol_at ss b).next ≡ some j) (linked : Linked ss)
      (b_best : BestOf ranks ss (length ss) best) (found : Found ranks ss (length ss) best.0 b)
      → Chain ss (some 0) ts
      → ((us : List Bytes) → Chain (merge ss b) (some 0) us → Returns (Ended (merge ss b) us) rest)
      → After ss b j e linked ranks best.0 (length ss) found 0 ts
      → Returns (Ended ss ts) rest
  Ended-round ss b j ts best rest e linked b_best found ch later (inl kept) =
      Returns-map (Ended (merge ss b) ts) (Ended ss ts) rest
        (λ end (us, reduced, chain, forward, first, same). (
          us,
          reduced,
          chain,
          forward,
          first ∙ prev-merge ss b j e linked,
          same ∙ length-merge ss b j e,
        ))
        (later ts kept)
  Ended-round ss b j ts best rest e linked b_best found ch later (inr (vs, step, chained, le)) =
      Returns-map (Ended (merge ss b) vs) (Ended ss ts) rest
        (λ end (us, reduced, chain, forward, first, same). (
          us,
          again found.2 (Chain-NoneBelow ss best.0 0 ts b_best.least ch) step reduced,
          chain,
          forward,
          first ∙ prev-merge ss b j e linked,
          same ∙ length-merge ss b j e,
        ))
        (later vs chained)

  -- A symbol with a rank has a link.
  link_of_rank :
      (ss : List Symbol) (b : ℕ)
      → ltb_ℤ (rank_at ranks ss b) int32_max ≡ true
      → (j : ℕ) × ((symbol_at ss b).next ≡ some j)
  unfolding rank_at
  link_of_rank ss b h = elim (Option-cases (symbol_at ss b).next) [
    | inr forth ↦ forth
    | inl last ↦
        absurd
          (irreflexive_max (subst (λ c. ltb_ℤ (link_rank ranks ss b c) int32_max ≡ true) last h))
  ]
    where
      irreflexive_max : ltb_ℤ int32_max int32_max ≡ true → ⊥
      irreflexive_max h = ground (arith, h)

  merge_loop_stop :
      (fuel : ℕ) (ss : List Symbol)
      → (search_best ranks ss (length ss)).1 ≡ none
      → merge_loop ranks (suc fuel) ss ≡ some ss
  unfolding merge_loop
  merge_loop_stop fuel ss h = rw (h, merge_loop)

  merge_loop_round :
      (fuel : ℕ) (ss : List Symbol) (b : ℕ)
      → (search_best ranks ss (length ss)).1 ≡ some b
      → merge_loop ranks (suc fuel) ss ≡ merge_loop ranks fuel (merge ss b)
  unfolding merge_loop
  merge_loop_round fuel ss b h = rw (h, merge_loop)

  -- With enough fuel the loop ends, with the greedy merges.
  pub merge_loop-Ended :
      (fuel : ℕ) (ss : List Symbol) (ts : List Bytes)
      → gaps (length ss) ss < fuel
      → Linked ss
      → Chain ss (some 0) ts
      → Returns (Ended ss ts) (merge_loop ranks fuel ss)
  merge_loop-Ended zero ss ts enough linked ch = absurd (omega arith)
  merge_loop-Ended (suc fuel) ss ts enough linked ch =
      let best = search_best-BestOf ranks ss (length ss) in
      elim (Option-cases (search_best ranks ss (length ss)).1) [
        | inl nothing_left ↦ rw (merge_loop_stop fuel ss nothing_left) (
          ts,
          done (
              subst (λ m. NoneBelow (pair_rank ranks) m ts) (best.nothing nothing_left)
                (Chain-NoneBelow ss (search_best ranks ss (length ss)).0 0 ts best.least ch)),
          ch,
          linked,
          refl,
          refl,
        )
        | inr (b, some_left) ↦
            let found = best.found b some_left in
            let (j, e) =
              link_of_rank ss b (subst (λ m. ltb_ℤ m int32_max ≡ true) (sym found.1) found.2) in
            rw (merge_loop_round fuel ss b some_left) (
              Ended-round ss b j ts (search_best ranks ss (length ss))
                (merge_loop ranks fuel (merge ss b)) e linked best found ch
                (λ us chained.
                  merge_loop-Ended fuel (merge ss b) us
                    (omega (
                      arith,
                      gaps-merge ss b j e linked,
                      length-merge ss b j e,
                      ap (λ n. gaps n (merge ss b)) (length-merge ss b j e),
                    ))
                    (merge-Linked ss b j e linked) chained)
                (merge-Chain ss b j e linked ranks (search_best ranks ss (length ss)).0 (length ss)
                  found 0 ts ch))
      ]
