-- ===== src/Tokenizer/Bpe/Linking.antt =====
-- The symbols that `bpe` of src/io/bpe_tokenizer.cpp starts with, and their links.
use llmengine.Base.{
  Bool-cases, List, Option, [], ap, arith, drop, drop_next, get_or, get_or-drop_head, if◌then◌else◌,
  inl, inr, length, length-drop, ltb, ltb-false→le, ltb→lt, negsuc, none, refl, some, subst, suc,
  sym, zero, ℕ, ◌+◌, ◌-◌, ◌<◌, ◌∙◌, ◌∷◌, ◌≡◌, ◌≤◌,
}
use llmengine.Tokenizer.Bytes.{Bytes}
use llmengine.Tokenizer.Bpe.{Symbol, symbol_at, link}
use llmengine.Tokenizer.Bpe.Links.{Linked}
use llmengine.Tokenizer.Bpe.Chain.{Chain}

abbrev next_in : ℕ → ℕ → Option ℕ
next_in n i = if ltb (i + 1) n then some (i + 1) else none

pub length-link : (n i : ℕ) (ts : List Bytes) → length (link n i ts) ≡ length ts
unfolding link
length-link n i [] = refl
length-link n i (t ∷ ts) = ap suc (length-link n (i + 1) ts)

pub prev-link :
    (n : ℕ) (t : Bytes) (ts : List Bytes) → (symbol_at (link n 0 (t ∷ ts)) 0).prev ≡ negsuc 0
unfolding link
prev-link n t ts = refl

text-link : (n i k : ℕ) (ts : List Bytes) → (symbol_at (link n i ts) k).text ≡ get_or ts k []
unfolding link
text-link n i k [] = refl
text-link n i zero (t ∷ ts) = refl
text-link n i (suc k) (t ∷ ts) = text-link n (i + 1) k ts

next-link :
    (n i k : ℕ) (ts : List Bytes)
    → k < length ts
    → (symbol_at (link n i ts) k).next ≡ next_in n (i + k)
unfolding link
next-link n i k [] h = absurd (omega arith)
next-link n i zero (t ∷ ts) h = ap (next_in n) (plus_zero i)
  where
    plus_zero : (i : ℕ) → i ≡ i + 0
    plus_zero i = omega arith
next-link n i (suc k) (t ∷ ts) h =
    next-link n (i + 1) k ts (omega arith) ∙ ap (next_in n) (shift i k)
  where
    shift : (i k : ℕ) → i + 1 + k ≡ i + suc k
    shift i k = omega arith

next-link_beyond :
    (n i k : ℕ) (ts : List Bytes) → length ts ≤ k → (symbol_at (link n i ts) k).next ≡ none
unfolding link
next-link_beyond n i k [] h = refl
next-link_beyond n i zero (t ∷ ts) h = absurd (omega arith)
next-link_beyond n i (suc k) (t ∷ ts) h = next-link_beyond n (i + 1) k ts (omega arith)

zero_add : (k : ℕ) → 0 + k ≡ k
zero_add k = omega arith

-- The symbols of a whole list of texts.
module _ (texts : List Bytes) where
  abbrev pub linked_texts : List Symbol
  linked_texts = link (length texts) 0 texts

  next-linked_texts :
      (i : ℕ) → i < length texts → (symbol_at linked_texts i).next ≡ next_in (length texts) i
  next-linked_texts i h =
      next-link (length texts) 0 i texts h ∙ ap (next_in (length texts)) (zero_add i)

  pub link-Linked : Linked linked_texts
  link-Linked i j e = elim (Bool-cases (ltb i (length texts))) [
    | inl inside ↦ forward (sym (next-linked_texts i (ltb→lt i (length texts) inside)) ∙ e)
    | inr outside ↦ absurd (
        no_link (
          sym (next-link_beyond (length texts) 0 i texts (ltb-false→le i (length texts) outside))
          ∙ e))
  ]
    where
      no_link : none ≡ some j → ⊥
      no_link h = cc

      forward : next_in (length texts) i ≡ some j → (i < j) × (j < length linked_texts)
      forward h = ground (arith, h, length-link (length texts) 0 texts)

  next_in_last : (i : ℕ) → length texts ≤ i + 1 → next_in (length texts) i ≡ none
  next_in_last i h = ground (arith, h)

  next_in_more : (i : ℕ) → i + 1 < length texts → next_in (length texts) i ≡ some (i + 1)
  next_in_more i h = ground (arith, h)

  pub link-Chain :
      (i : ℕ) (t : Bytes) (ts : List Bytes)
      → drop i texts ≡ t ∷ ts
      → Chain linked_texts (some i) (t ∷ ts)
  link-Chain i t [] e =
      let left : length texts - i ≡ 1 = sym (length-drop i texts) ∙ ap length e in
      (
        omega (arith, length-link (length texts) 0 texts, left),
        text-link (length texts) 0 i texts ∙ get_or-drop_head texts [] i t [] e,
        subst (λ c. Chain linked_texts c [])
            (sym (next-linked_texts i (omega (arith, left)) ∙ next_in_last i (omega (arith, left))))
            tt,
      )
  link-Chain i t (u ∷ ts) e =
      let left : length texts - i ≡ suc (suc (length ts)) =
        sym (length-drop i texts) ∙ ap length e in
      (
        omega (arith, length-link (length texts) 0 texts, left),
        text-link (length texts) 0 i texts ∙ get_or-drop_head texts (u ∷ ts) i t [] e,
        subst (λ c. Chain linked_texts c (u ∷ ts))
            (sym (next-linked_texts i (omega (arith, left)) ∙ next_in_more i (omega (arith, left))))
            (link-Chain (i + 1) u ts (drop_next texts (u ∷ ts) i t e)),
      )
