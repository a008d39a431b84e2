-- ===== src/Tokenizer/Bpe/Links.antt =====
-- The links of the symbols in `bpe` of src/io/bpe_tokenizer.cpp, and what a merge makes of them.
use llmengine.Base.{
  ==→eq, Bool-cases, List, Option, [], ap, arith, get_or-set_ne, get_or-set_self, inl, inr, length,
  length-set, negsuc, none, pos, refl, set, some, subst, suc, sym, zero, ℕ, ℤ, ◌++◌, ◌<◌, ◌==◌, ◌∙◌,
  ◌∷◌, ◌≡◌, ◌≢◌,
}
use llmengine.Tokenizer.Bpe.{Symbol, symbol_at, set_prev, joined, relink, merge_with, merge}

text-set_prev :
    (p : ℤ) (i x : ℕ) (ss : List Symbol)
    → (symbol_at (set_prev p i ss) x).text ≡ (symbol_at ss x).text
unfolding set_prev
text-set_prev p i x [] = refl
text-set_prev p zero zero (s ∷ ss) = refl
text-set_prev p zero (suc x) (s ∷ ss) = refl
text-set_prev p (suc i) zero (s ∷ ss) = refl
text-set_prev p (suc i) (suc x) (s ∷ ss) = text-set_prev p i x ss

next-set_prev :
    (p : ℤ) (i x : ℕ) (ss : List Symbol)
    → (symbol_at (set_prev p i ss) x).next ≡ (symbol_at ss x).next
unfolding set_prev
next-set_prev p i x [] = refl
next-set_prev p zero zero (s ∷ ss) = refl
next-set_prev p zero (suc x) (s ∷ ss) = refl
next-set_prev p (suc i) zero (s ∷ ss) = refl
next-set_prev p (suc i) (suc x) (s ∷ ss) = next-set_prev p i x ss

length-set_prev : (p : ℤ) (i : ℕ) (ss : List Symbol) → length (set_prev p i ss) ≡ length ss
unfolding set_prev
length-set_prev p i [] = refl
length-set_prev p zero (s ∷ ss) = refl
length-set_prev p (suc i) (s ∷ ss) = ap suc (length-set_prev p i ss)

text-relink :
    (k : Option ℕ) (b x : ℕ) (ss : List Symbol)
    → (symbol_at (relink k b ss) x).text ≡ (symbol_at ss x).text
unfolding relink
text-relink none b x ss = refl
text-relink (some k) b x ss = text-set_prev (pos b) k x ss

next-relink :
    (k : Option ℕ) (b x : ℕ) (ss : List Symbol)
    → (symbol_at (relink k b ss) x).next ≡ (symbol_at ss x).next
unfolding relink
next-relink none b x ss = refl
next-relink (some k) b x ss = next-set_prev (pos b) k x ss

length-relink : (k : Option ℕ) (b : ℕ) (ss : List Symbol) → length (relink k b ss) ≡ length ss
unfolding relink
length-relink none b ss = refl
length-relink (some k) b ss = length-set_prev (pos b) k ss

-- Links go forward, and stay in the list.
abbrev pub Linked : List Symbol → Type 0
Linked ss = (i j : ℕ) → (symbol_at ss i).next ≡ some j → (i < j) × (j < length ss)

prev-set_prev :
    (p : ℤ) (i x : ℕ) (ss : List Symbol)
    → i ≢ x
    → (symbol_at (set_prev p i ss) x).prev ≡ (symbol_at ss x).prev
unfolding set_prev
prev-set_prev p i x [] ne = refl
prev-set_prev p zero zero (s ∷ ss) ne = absurd (ne refl)
prev-set_prev p zero (suc x) (s ∷ ss) ne = refl
prev-set_prev p (suc i) zero (s ∷ ss) ne = refl
prev-set_prev p (suc i) (suc x) (s ∷ ss) ne = prev-set_prev p i x ss (λ h. ne (ap suc h))

prev-relink :
    (k : Option ℕ) (b x : ℕ) (ss : List Symbol)
    → ((i : ℕ) → k ≡ some i → i ≢ x)
    → (symbol_at (relink k b ss) x).prev ≡ (symbol_at ss x).prev
unfolding relink
prev-relink none b x ss ne = refl
prev-relink (some k) b x ss ne = prev-set_prev (pos b) k x ss (ne k refl)

prev-joined :
    (ss : List Symbol) (b j : ℕ)
    → (symbol_at (set ss b (joined ss b j)) 0).prev ≡ (symbol_at ss 0).prev
prev-joined [] b j = refl
prev-joined (s ∷ ss) zero j = refl
prev-joined (s ∷ ss) (suc b) j = refl

-- A merge of symbol `b` with symbol `j`.
module _ (ss : List Symbol) (b j : ℕ) (e : (symbol_at ss b).next ≡ some j) where
  pub opened : merge ss b ≡ merge_with (some j) ss b
  unfolding merge
  opened = ap (λ o. merge_with o ss b) e

  -- Apart from `prev`, only symbol `b` changes.
  merge_text :
      (x : ℕ) → (symbol_at (merge ss b) x).text ≡ (symbol_at (set ss b (joined ss b j)) x).text
  unfolding merge_with
  merge_text x =
      (ap (λ l. (symbol_at l x).text) opened
        ∙ text-set_prev (negsuc 1) j x (relink (symbol_at ss j).next b (set ss b (joined ss b j))))
      ∙ text-relink (symbol_at ss j).next b x (set ss b (joined ss b j))

  merge_next :
      (x : ℕ) → (symbol_at (merge ss b) x).next ≡ (symbol_at (set ss b (joined ss b j)) x).next
  unfolding merge_with
  merge_next x =
      (ap (λ l. (symbol_at l x).next) opened
        ∙ next-set_prev (negsuc 1) j x (relink (symbol_at ss j).next b (set ss b (joined ss b j))))
      ∙ next-relink (symbol_at ss j).next b x (set ss b (joined ss b j))

  pub length-merge : length (merge ss b) ≡ length ss
  unfolding merge_with
  length-merge =
      ((ap (λ l. length l) opened
          ∙ length-set_prev (negsuc 1) j
              (relink (symbol_at ss j).next b (set ss b (joined ss b j))))
        ∙ length-relink (symbol_at ss j).next b (set ss b (joined ss b j)))
      ∙ length-set ss b (joined ss b j)

  pub text-merge_ne : (x : ℕ) → b ≢ x → (symbol_at (merge ss b) x).text ≡ (symbol_at ss x).text
  text-merge_ne x ne = merge_text x ∙ ap (λ s. s.text) (get_or-set_ne ss b x (joined ss b j) _ ne)

  pub next-merge_ne : (x : ℕ) → b ≢ x → (symbol_at (merge ss b) x).next ≡ (symbol_at ss x).next
  next-merge_ne x ne = merge_next x ∙ ap (λ s. s.next) (get_or-set_ne ss b x (joined ss b j) _ ne)

  pub text-merge_self :
      b < length ss
      → (symbol_at (merge ss b) b).text ≡ (symbol_at ss b).text ++ (symbol_at ss j).text
  text-merge_self h = merge_text b ∙ ap (λ s. s.text) (get_or-set_self ss b (joined ss b j) _ h)

  pub next-merge_self : b < length ss → (symbol_at (merge ss b) b).next ≡ (symbol_at ss j).next
  next-merge_self h = merge_next b ∙ ap (λ s. s.next) (get_or-set_self ss b (joined ss b j) _ h)

  -- The links stay forward.
  pub merge-Linked : Linked ss → Linked (merge ss b)
  merge-Linked linked x y h =
      let (forward, within) = linked b j e in
      let same = length-merge in
      elim (Bool-cases (b == x)) [
        | inl self ↦
            let at : b ≡ x = ==→eq b x self in
            let (further, inside) = linked j y (
              sym (next-merge_self (omega arith))
              ∙ subst (λ n. (symbol_at (merge ss b) n).next ≡ some y) (sym at) h) in
            (omega arith, omega arith)
        | inr other ↦
            let (further, inside) =
              linked x y (sym (next-merge_ne x (ground (arith, other))) ∙ h) in
            (further, omega arith)
      ]

  -- No merge changes where the first symbol points back to.
  pub prev-merge : Linked ss → (symbol_at (merge ss b) 0).prev ≡ (symbol_at ss 0).prev
  unfolding merge_with
  prev-merge linked =
      ((ap (λ l. (symbol_at l 0).prev) opened
          ∙ prev-set_prev (negsuc 1) j 0 (relink (symbol_at ss j).next b (set ss b (joined ss b j)))
              (λ h. absurd (omega (arith, h, (linked b j e).0))))
        ∙ prev-relink (symbol_at ss j).next b 0 (set ss b (joined ss b j))
            (λ k h z. absurd (omega (arith, z, (linked j k h).0))))
      ∙ prev-joined ss b j
