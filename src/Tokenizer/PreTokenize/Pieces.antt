-- ===== src/Tokenizer/PreTokenize/Pieces.antt =====
-- Where the pieces of `pre_tokenize` in src/io/bpe_tokenizer.cpp end.
use llmengine.Base.{
  Bool, Bool-cases, Returns, Returns-map, arith, drop, drop-drop, inl, inr, leb, length,
  length-drop, ltb, ltb→lt, lt→ltb, none, some, subst, suc, true, zero, ℕ, ◌+◌, ◌-◌, ◌<◌, ◌==◌,
  ◌||◌, ◌≡◌, ◌≤◌,
}
use llmengine.Tokenizer.Bytes.{Bytes, ◌>>=◌, Returns-if}
use llmengine.Tokenizer.PreTokenize.Whole.{WholeChars, utf8_decode-Decoded}
use llmengine.Tokenizer.PreTokenize.{decode_at, skip_while, skip, skip_digits, next_is}

module _ (text : Bytes) where
  -- Whole characters are left from `p` on.
  abbrev pub Boundary : ℕ → Type 0
  Boundary p = (p ≤ length text) × WholeChars (drop p text)

  abbrev pub Reaches : ℕ → ℕ → Type 0
  Reaches p q = (p ≤ q) × Boundary q

  abbrev pub Passes : ℕ → ℕ → Type 0
  Passes p q = (p < q) × Boundary q

  pub decode_at-Boundary :
      (p : ℕ)
      → Boundary p
      → p < length text
      → (char : ℕ × ℕ) × (decode_at text p ≡ some char)
        × (0 < char.1)
        × Boundary (p + char.1)
        × ((leb 128 char.0 || char.1 == 1) ≡ true)
  unfolding decode_at
  decode_at-Boundary p (within, h) lt =
      let (char, e, (positive, fits, left, ascii)) =
        utf8_decode-Decoded (drop p text) h (omega (arith, length-drop {0} p text)) in
      (
        char,
        e,
        positive,
        (omega (arith, length-drop {0} p text), subst WholeChars (drop-drop p char.1 text) left),
        ascii,
      )

  skip_while-Reaches :
      (test : ℕ → Bool) (fuel p : ℕ)
      → Boundary p
      → length text - p ≤ fuel
      → Returns (Reaches p) (skip_while text test fuel p)
  unfolding skip_while
  skip_while-Reaches test zero p b enough =
      Returns-if (Reaches p) (ltb p (length text)) none (some p)
        (λ h. absurd (omega (arith, b.0, ltb→lt p (length text) h))) (λ h. (omega arith, b))
  skip_while-Reaches test (suc fuel) p b enough = elim (Bool-cases (ltb p (length text))) [
    | inr h ↦ rw h (omega arith, b)
    | inl h ↦
        let (char, e, positive, next, _) = decode_at-Boundary p b (ltb→lt p (length text) h) in
        rw (h, e, ◌>>=◌)
          (Returns-if (Reaches p) (test char.0) _ (some p)
            (λ _.
              Returns-map (Reaches (p + char.1)) (Reaches p)
                (skip_while text test fuel (p + char.1)) (λ q r. (omega (arith, r.0), r.1))
                (skip_while-Reaches test fuel (p + char.1) next (omega arith)))
            (λ _. (omega arith, b)))
  ]

  pub skip-Reaches : (test : ℕ → Bool) (p : ℕ) → Boundary p → Returns (Reaches p) (skip text test p)
  unfolding skip
  skip-Reaches test p b = skip_while-Reaches test (suc (length text)) p b (omega arith)

  -- Where the character passes the test, the pointer moves.
  pub skip-Passes :
      (test : ℕ → Bool) (p : ℕ) (char : ℕ × ℕ)
      → decode_at text p ≡ some char
      → p < length text
      → 0 < char.1
      → Boundary (p + char.1)
      → test char.0 ≡ true
      → Returns (Passes p) (skip text test p)
  unfolding skip skip_while
  skip-Passes test p char e lt positive next passes =
      rw (lt→ltb p (length text) lt, e, ◌>>=◌, passes)
        (Returns-map (Reaches (p + char.1)) (Passes p)
          (skip_while text test (length text) (p + char.1)) (λ q r. (omega (arith, r.0), r.1))
          (skip_while-Reaches test (length text) (p + char.1) next (omega arith)))

  pub skip_digits-Reaches :
      (test : ℕ → Bool) (n p : ℕ) → Boundary p → Returns (Reaches p) (skip_digits text test n p)
  unfolding skip_digits
  skip_digits-Reaches test zero p b = (omega arith, b)
  skip_digits-Reaches test (suc n) p b = elim (Bool-cases (ltb p (length text))) [
    | inr h ↦ rw h (omega arith, b)
    | inl h ↦
        let (char, e, positive, next, _) = decode_at-Boundary p b (ltb→lt p (length text) h) in
        rw (h, e, ◌>>=◌)
          (Returns-if (Reaches p) (test char.0) _ (some p)
            (λ _.
              Returns-map (Reaches (p + char.1)) (Reaches p) (skip_digits text test n (p + char.1))
                (λ q r. (omega (arith, r.0), r.1)) (skip_digits-Reaches test n (p + char.1) next))
            (λ _. (omega arith, b)))
  ]

  pub skip_digits-Passes :
      (test : ℕ → Bool) (n p : ℕ) (char : ℕ × ℕ)
      → decode_at text p ≡ some char
      → p < length text
      → 0 < char.1
      → Boundary (p + char.1)
      → test char.0 ≡ true
      → Returns (Passes p) (skip_digits text test (suc n) p)
  unfolding skip_digits
  skip_digits-Passes test n p char e lt positive next passes =
      rw (lt→ltb p (length text) lt, e, ◌>>=◌, passes)
        (Returns-map (Reaches (p + char.1)) (Passes p) (skip_digits text test n (p + char.1))
          (λ q r. (omega (arith, r.0), r.1)) (skip_digits-Reaches test n (p + char.1) next))

  abbrev pub Anything : Bool → Type 0
  Anything b = Unit {0}

  pub next_is-Returns :
      (test : ℕ → Bool) (p : ℕ) → Boundary p → Returns Anything (next_is text test p)
  unfolding next_is
  next_is-Returns test p b = elim (Bool-cases (ltb p (length text))) [
    | inr h ↦ rw h tt
    | inl h ↦
        let (char, e, _, _, _) = decode_at-Boundary p b (ltb→lt p (length text) h) in
        rw (h, e, ◌>>=◌) tt
  ]
