-- ===== src/Tokenizer/PreTokenize/Ends.antt =====
-- The contractions of `pre_tokenize` in src/io/bpe_tokenizer.cpp: where they end.
use llmengine.Base.{
  AllBelow, Bool-cases, List, List-cases, [], ap, arith, contains, drop, drop-drop, false, get_or,
  get_or-drop_head, inl, inr, leb, length, length-drop, ltb, ltb→lt, subst, sym, true, ℕ, ◌&&◌, ◌+◌,
  ◌<◌, ◌∙◌, ◌∷◌, ◌≡◌,
}
use llmengine.Tokenizer.Bytes.{Bytes}
use llmengine.Tokenizer.PreTokenize.Whole.{WholeChars, and_true, WholeChars-ascii}
use llmengine.Tokenizer.PreTokenize.{third_is, match_contraction}
use llmengine.Tokenizer.PreTokenize.Pieces.{Boundary, Passes}

abbrev short_endings : List ℕ
short_endings = b's' ∷ b't' ∷ b'd' ∷ b'm' ∷ b'S' ∷ b'T' ∷ b'D' ∷ b'M' ∷ []

abbrev l_endings : List ℕ
l_endings = b'l' ∷ b'L' ∷ []

abbrev e_endings : List ℕ
e_endings = b'v' ∷ b'V' ∷ b'r' ∷ b'R' ∷ []

module _ (text : Bytes) where
  pub Boundary-ascii :
      (p : ℕ) → Boundary text p → p < length text → get_or text p 0 < 128 → Boundary text (p + 1)
  Boundary-ascii p (within, h) lt small = elim (List-cases (drop p text)) [
    | inl e ↦ absurd (omega (arith, length-drop {0} p text, ap length e))
    | inr (c, s, e) ↦
        let first : get_or text p 0 ≡ c = get_or-drop_head text s p c 0 e in
        (
          omega arith,
          subst WholeChars (ap (λ t. drop 1 t) (sym e) ∙ drop-drop p 1 text)
              (WholeChars-ascii c s (omega arith) (subst WholeChars e h)),
        )
  ]
    where
      plus_zero : (p : ℕ) → p + 0 ≡ p
      plus_zero p = omega arith

  contains_small : (c : ℕ) (cs : List ℕ) → AllBelow 128 cs → contains c cs ≡ true → c < 128
  contains_small c [] b h = absurd (cc)
  contains_small c (x ∷ cs) b h = ground (arith, contains_small c cs b.1)

  -- A contraction ends at a boundary.
  third_is-Passes :
      (p : ℕ) (cs : List ℕ)
      → AllBelow 128 cs
      → Boundary text (p + 1 + 1)
      → 0 < third_is text p cs
      → Passes text p (p + third_is text p cs)
  unfolding third_is
  third_is-Passes p cs small b found =
      elim (Bool-cases (ltb (p + 2) (length text) && contains (get_or text (p + 2) 0) cs)) [
        | inr no_third ↦ absurd (nothing (rw no_third at found))
        | inl third ↦
            let (lt, letter) =
              and_true (ltb (p + 2) (length text)) (contains (get_or text (p + 2) 0) cs) third in
            let two : p + 1 + 1 ≡ p + 2 = omega arith in
            rw third (
              omega arith,
              subst (Boundary text) (three p) (
                  Boundary-ascii (p + 2) (subst (Boundary text) two b)
                    (ltb→lt (p + 2) (length text) lt) (contains_small _ cs small letter)),
            )
      ]
    where
      nothing : 0 < 0 → ⊥
      nothing h = omega arith

      three : (p : ℕ) → p + 2 + 1 ≡ p + 3
      three p = omega arith

  pub match_contraction-Passes :
      (p : ℕ)
      → Boundary text (p + 1)
      → 0 < match_contraction text p
      → Passes text p (p + match_contraction text p)
  unfolding match_contraction
  match_contraction-Passes p b found = elim (Bool-cases (leb (length text) (p + 1))) [
    | inl over ↦ absurd (nothing (rw over at found))
    | inr inside ↦ elim (Bool-cases (contains next short_endings)) [
      | inl short ↦
          rw (inside, short)
            (
              omega arith,
              subst (Boundary text) (two p) (second short_endings (omega arith) short inside),
            )
      | inr not_short ↦ elim (Bool-cases (contains next l_endings)) [
        | inl l ↦
            rw (inside, not_short, l)
              (third_is-Passes p l_endings (omega arith) (second l_endings (omega arith) l inside)
                (rw (inside, not_short, l) at found))
        | inr not_l ↦ elim (Bool-cases (contains next e_endings)) [
          | inl e ↦
              rw (inside, not_short, not_l, e)
                (third_is-Passes p (b'e' ∷ b'E' ∷ []) (omega arith)
                  (second e_endings (omega arith) e inside)
                  (rw (inside, not_short, not_l, e) at found))
          | inr none_fits ↦ absurd (nothing (rw (inside, not_short, not_l, none_fits) at found))
        ]
      ]
    ]
  ]
    where
      nothing : 0 < 0 → ⊥
      nothing h = omega arith

      next : ℕ
      next = get_or text (p + 1) 0

      two : (p : ℕ) → p + 1 + 1 ≡ p + 2
      two p = omega arith

      second :
          (cs : List ℕ)
          → AllBelow 128 cs
          → contains next cs ≡ true
          → leb (length text) (p + 1) ≡ false
          → Boundary text (p + 1 + 1)
      second cs small letter inside =
          Boundary-ascii (p + 1) b (ground (arith, inside)) (contains_small next cs small letter)
