-- ===== src/Tokenizer/Bpe/Fuel.antt =====
-- The fuel of the merges of `bpe` in src/io/bpe_tokenizer.cpp: how far the links can still move.
use llmengine.Base.{
  List, Option, [], ap, arith, length, negsuc, none, pos, refl, set, some, suc, zero, ℕ, ℤ, ◌*◌,
  ◌+◌, ◌-◌, ◌<◌, ◌∙◌, ◌∷◌, ◌≡◌, ◌≤◌,
}
use llmengine.Tokenizer.Bpe.{Symbol, symbol_at, set_prev, joined, relink, merge_with, merge}
use llmengine.Tokenizer.Bpe.Links.{Linked, opened}

-- How far a link can still move in a list of `n` symbols.
abbrev pub gap_of : ℕ → Option ℕ → ℕ
gap_of n none = 0
gap_of n (some j) = n - j

abbrev pub gaps : ℕ → List Symbol → ℕ
gaps n [] = 0
gaps n (s ∷ ss) = gap_of n s.next + gaps n ss

gaps-set_prev : (n : ℕ) (p : ℤ) (i : ℕ) (ss : List Symbol) → gaps n (set_prev p i ss) ≡ gaps n ss
unfolding set_prev
gaps-set_prev n p i [] = refl
gaps-set_prev n p zero (s ∷ ss) = refl
gaps-set_prev n p (suc i) (s ∷ ss) = ap (λ m. gap_of n s.next + m) (gaps-set_prev n p i ss)

gaps-relink : (n : ℕ) (k : Option ℕ) (b : ℕ) (ss : List Symbol) → gaps n (relink k b ss) ≡ gaps n ss
unfolding relink
gaps-relink n none b ss = refl
gaps-relink n (some k) b ss = gaps-set_prev n (pos b) k ss

gaps-set :
    (n i : ℕ) (v : Symbol) (ss : List Symbol)
    → i < length ss
    → gaps n (set ss i v) + gap_of n (symbol_at ss i).next ≡ gaps n ss + gap_of n v.next
gaps-set n i v [] h = absurd (omega arith)
gaps-set n zero v (s ∷ ss) h = omega arith
gaps-set n (suc i) v (s ∷ ss) h = omega (arith, gaps-set n i v ss (omega arith))

gap_of-le : (n : ℕ) (c : Option ℕ) → gap_of n c ≤ n
gap_of-le n none = omega arith
gap_of-le n (some j) = omega arith

gap_of-lt :
    (n j : ℕ) (c : Option ℕ)
    → j < n
    → ((k : ℕ) → c ≡ some k → (j < k) × (k < n))
    → gap_of n c < n - j
gap_of-lt n j none lt further = omega arith
gap_of-lt n j (some k) lt further = omega (arith, (further k refl).0)

-- The measure falls.
pub gaps-merge :
    (ss : List Symbol) (b j : ℕ)
    → (symbol_at ss b).next ≡ some j
    → Linked ss
    → gaps (length ss) (merge ss b) < gaps (length ss) ss
unfolding merge_with
gaps-merge ss b j e linked =
    let (forward, within) = linked b j e in
    let after : gaps (length ss) (merge ss b) ≡ gaps (length ss) (set ss b (joined ss b j)) =
      (ap (λ l. gaps (length ss) l) (opened ss b j e)
        ∙ gaps-set_prev (length ss) (negsuc 1) j
            (relink (symbol_at ss j).next b (set ss b (joined ss b j))))
      ∙ gaps-relink (length ss) (symbol_at ss j).next b (set ss b (joined ss b j)) in
    let old : gap_of (length ss) (symbol_at ss b).next ≡ length ss - j =
      ap (λ c. gap_of (length ss) c) e in
    omega (
      arith,
      after,
      old,
      gaps-set (length ss) b (joined ss b j) ss (omega arith),
      gap_of-lt (length ss) j (symbol_at ss j).next within (λ k h. linked j k h),
    )

pub gaps-le : (n : ℕ) (ss : List Symbol) → gaps n ss ≤ length ss * n
gaps-le n [] = omega arith
gaps-le n (s ∷ ss) = grind (arith, gaps-le n ss, gap_of-le n s.next)
