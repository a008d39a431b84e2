-- ===== src/Tokenizer/Bpe/Chain.antt =====
-- The live symbols in `bpe` of src/io/bpe_tokenizer.cpp: those that the links reach from the first.
use llmengine.Base.{
  ==-false→ne, ==→eq, Bool-cases, List, Option, Option-cases, [], ap, arith, inl, inr, length,
  ltb_ℤ, none, refl, some, subst, sym, true, ℕ, ℤ, ◌++◌, ◌<◌, ◌==◌, ◌∙◌, ◌∷◌, ◌≡◌, ◌≢◌, ◌≤◌, ◌⊎◌,
}
use llmengine.Tokenizer.Bytes.{Bytes}
use llmengine.Tokenizer.Bpe.{Ranks, Symbol, symbol_at, link, merge}
use llmengine.Tokenizer.Bpe.Links.{
  Linked, length-merge, text-merge_ne, next-merge_ne, text-merge_self, next-merge_self,
}
use llmengine.Tokenizer.Bpe.Search.{pair_rank, link_rank, rank_at, Found}
use llmengine.Tokenizer.Bpe.Greedy.{Step, here, there}

-- The links from `c` on lead through symbols with these texts.
abbrev pub Chain : List Symbol → Option ℕ → List Bytes → Type 0
Chain ss none [] = Unit {0}
Chain ss none (t ∷ ts) = ⊥
Chain ss (some i) [] = ⊥
Chain ss (some i) (t ∷ ts) =
    (i < length ss) × ((symbol_at ss i).text ≡ t) × Chain ss (symbol_at ss i).next ts

-- The rank of two linked symbols is that of their texts.
pub rank_at_pair :
    (ranks : Ranks) (ss : List Symbol) (i k : ℕ) {t u : Bytes}
    → (symbol_at ss i).next ≡ some k
    → (symbol_at ss i).text ≡ t
    → (symbol_at ss k).text ≡ u
    → rank_at ranks ss i ≡ pair_rank ranks t u
unfolding rank_at
rank_at_pair ranks ss i k {t} e p q =
    (ap (λ c. link_rank ranks ss i c) e ∙ ap (λ t. pair_rank ranks t (symbol_at ss k).text) p)
    ∙ ap (λ u. pair_rank ranks t u) q

-- A merge of symbol `b` with symbol `j`.
module _ (ss : List Symbol) (b j : ℕ) (e : (symbol_at ss b).next ≡ some j)
    (linked : Linked ss) where
  -- Symbols behind `b` are not touched.
  Chain-merge_later :
      (c : Option ℕ) (ts : List Bytes)
      → ((i : ℕ) → c ≡ some i → b < i)
      → Chain ss c ts
      → Chain (merge ss b) c ts
  Chain-merge_later none [] later ch = tt
  Chain-merge_later none (t ∷ ts) later ch = ch
  Chain-merge_later (some i) [] later ch = ch
  Chain-merge_later (some i) (t ∷ ts) later (within, same, rest) =
      let lt = later i refl in
      let ne : b ≢ i = λ h. absurd (omega (arith, h)) in
      (
        omega (arith, length-merge ss b j e),
        text-merge_ne ss b j e i ne ∙ same,
        subst (λ c. Chain (merge ss b) c ts) (sym (next-merge_ne ss b j e i ne))
            (Chain-merge_later (symbol_at ss i).next ts (λ k h. omega (arith, (linked i k h).0))
              rest),
      )

  module _ (ranks : Ranks) (m : ℤ) (n : ℕ) (found : Found ranks ss n m b) where
    -- What the merge does to the live symbols from `i` on: nothing, or the step.
    abbrev pub After : ℕ → List Bytes → Type 0
    After i ts =
        Chain (merge ss b) (some i) ts
        ⊎ ((us : List Bytes) × Step (pair_rank ranks) m ts us
            × Chain (merge ss b) (some i) us
            × (i ≤ b))

    -- At the symbol itself: its link leads to `rest`.
    Chain-merge_here :
        (t : Bytes) (ts : List Bytes)
        → b < length ss
        → (symbol_at ss b).text ≡ t
        → Chain ss (some j) ts
        → After b (t ∷ ts)
    Chain-merge_here t [] within same ch = absurd ch
    Chain-merge_here t (u ∷ us) within same (inside, next_same, behind) = inr (
      (t ++ u) ∷ us,
      here (sym (rank_at_pair ranks ss b j e same next_same) ∙ found.1),
      (
        omega (arith, length-merge ss b j e),
        text-merge_self ss b j e within
            ∙ (ap (λ r. r ++ (symbol_at ss j).text) same ∙ ap (λ r. t ++ r) next_same),
        subst (λ c. Chain (merge ss b) c us) (sym (next-merge_self ss b j e within))
            (Chain-merge_later (symbol_at ss j).next us
              (λ k h. omega (arith, (linked j k h).0, (linked b j e).0)) behind),
      ),
      omega arith,
    )

    -- A live symbol that stays as it is.
    Chain-cons :
        (i : ℕ) (t : Bytes) (us : List Bytes)
        → b ≢ i
        → i < length ss
        → (symbol_at ss i).text ≡ t
        → Chain (merge ss b) (symbol_at ss i).next us
        → Chain (merge ss b) (some i) (t ∷ us)
    Chain-cons i t us ne within same ch = (
      omega (arith, length-merge ss b j e),
      text-merge_ne ss b j e i ne ∙ same,
      subst (λ c. Chain (merge ss b) c us) (sym (next-merge_ne ss b j e i ne)) ch,
    )

    -- The live symbol `i`, with what the merge does behind it.
    Chain-merge_there :
        (i k : ℕ) (t : Bytes) (ts : List Bytes)
        → (symbol_at ss i).next ≡ some k
        → b ≢ i
        → i < length ss
        → (symbol_at ss i).text ≡ t
        → Chain ss (some k) ts
        → After k ts
        → After i (t ∷ ts)
    Chain-merge_there i k t ts link ne within same ch (inl kept) =
        inl
          (Chain-cons i t ts ne within same (subst (λ c. Chain (merge ss b) c ts) (sym link) kept))
    Chain-merge_there i k t [] link ne within same ch (inr step) = absurd ch
    Chain-merge_there i k t (u ∷ ts) link ne within same ch (inr (us, step, merged, le)) = inr (
      t ∷ us,
      there
          (subst (λ r. ltb_ℤ m r ≡ true) (rank_at_pair ranks ss i k link same ch.1)
            (found.3 i (omega (arith, (linked i k link).0))))
          step,
      Chain-cons i t us ne within same (subst (λ c. Chain (merge ss b) c us) (sym link) merged),
      omega (arith, (linked i k link).0),
    )

    pub merge-Chain : (i : ℕ) (ts : List Bytes) → Chain ss (some i) ts → After i ts
    merge-Chain i [] ch = absurd ch
    merge-Chain i (t ∷ ts) (within, same, rest) = elim (Bool-cases (b == i)) [
      | inl self ↦
          let at : b ≡ i = ==→eq b i self in
          subst (λ n. After n (t ∷ ts)) at
            (Chain-merge_here t ts (omega arith) (ap (λ n. (symbol_at ss n).text) at ∙ same)
              (subst (λ c. Chain ss c ts) (ap (λ n. (symbol_at ss n).next) (sym at) ∙ e) rest))
      | inr other ↦
          let ne = ==-false→ne b i other in
          elim (Option-cases (symbol_at ss i).next) [
            | inl last ↦ inl (
                Chain-cons i t ts ne within same
                  (untouched ts last (subst (λ c. Chain ss c ts) last rest)))
            | inr (k, forth) ↦
                let ch = subst (λ c. Chain ss c ts) forth rest in
                Chain-merge_there i k t ts forth ne within same ch (merge-Chain k ts ch)
          ]
    ]
      where
        untouched :
            (ts : List Bytes)
            → (symbol_at ss i).next ≡ none
            → Chain ss none ts
            → Chain (merge ss b) (symbol_at ss i).next ts
        untouched [] last ch = subst (λ c. Chain (merge ss b) c []) (sym last) tt
        untouched (u ∷ us) last ch = absurd ch
