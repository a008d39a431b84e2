-- ===== src/Tokenizer/PreTokenize/Spelling.antt =====
-- The pieces of `pre_tokenize` in src/io/bpe_tokenizer.cpp against the text.
use llmengine.Base.{
  Bool, Bool-cases, List, Returns, [], ap, arith, drop, drop-drop, drop_beyond, inl, inr, length,
  length-drop, length-take, le→ltb-false, ltb, ltb-false→le, ltb→lt, lt→ltb, refl, some, suc, sym,
  take, take-append-drop, zero, ℕ, ◌++◌, ◌+◌, ◌-◌, ◌<◌, ◌∙◌, ◌∷◌, ◌≡◌, ◌≤◌,
}
use llmengine.Tokenizer.Bytes.{Bytes, ◌>>=◌, slice, Returns-bind, flatten}
use llmengine.Tokenizer.PreTokenize.Whole.{WholeChars}
use llmengine.Tokenizer.PreTokenize.{piece_end, emit, pieces_loop, pre_tokenize}
use llmengine.Tokenizer.PreTokenize.Pieces.{Boundary, Passes}
use llmengine.Tokenizer.PreTokenize.Rounds.{piece_end-Passes}

-- Inside the text, the zero at its end is not seen.
take-append : (n : ℕ) (s : Bytes) (c : ℕ) → n ≤ length s → take n (s ++ c ∷ []) ≡ take n s
take-append zero s c h = refl
take-append (suc n) [] c h = absurd (omega arith)
take-append (suc n) (b ∷ s) c h = ap (λ r. b ∷ r) (take-append n s c (omega arith))

drop-append : (n : ℕ) (s : Bytes) (c : ℕ) → n ≤ length s → drop n (s ++ c ∷ []) ≡ drop n s ++ c ∷ []
drop-append zero s c h = refl
drop-append (suc n) [] c h = absurd (omega arith)
drop-append (suc n) (b ∷ s) c h = drop-append n s c (omega arith)

pub slice-inside :
    (s : Bytes) (p q : ℕ) → p ≤ q → q ≤ length s → slice s p q ≡ some (take (q - p) (drop p s))
unfolding slice
slice-inside s p q h within = rw (
  le→ltb-false (length s + 1) q (omega arith),
  drop-append p s 0 (omega arith),
  take-append (q - p) (drop p s) 0 (omega (arith, length-drop {0} p s)),
)

-- No piece is empty.
abbrev pub NoneEmpty : List Bytes → Type 0
NoneEmpty [] = Unit {0}
NoneEmpty (s ∷ ss) = (0 < length s) × NoneEmpty ss

abbrev pub Spells : Bytes → List Bytes → Type 0
Spells s pieces = (flatten pieces ≡ s) × NoneEmpty pieces

module _ (isalpha isdigit : ℕ → Bool) (text : Bytes) where
  emit-inside :
      (p q : ℕ)
      → p < q
      → q ≤ length text
      → emit isalpha isdigit text p q ≡ some (take (q - p) (drop p text) ∷ [])
  unfolding emit
  emit-inside p q lt within = rw (lt→ltb p q lt, slice-inside text p q (omega arith) within, ◌>>=◌)

  Spells-cons :
      (p q : ℕ) (pieces : List Bytes)
      → p < q
      → q ≤ length text
      → Spells (drop q text) pieces
      → Spells (drop p text) (take (q - p) (drop p text) ∷ pieces)
  Spells-cons p q pieces lt within (spelt, filled) =
      let width : p + (q - p) ≡ q = omega arith in
      let behind : drop (q - p) (drop p text) ≡ drop q text =
        drop-drop p (q - p) text ∙ ap (λ n. drop n text) width in
      let whole : take (q - p) (drop p text) ++ flatten pieces ≡ drop p text =
        ap (λ r. take (q - p) (drop p text) ++ r) (spelt ∙ sym behind)
        ∙ take-append-drop (q - p) (drop p text) in
      (
        whole,
        (omega (arith, length-take {0} (q - p) (drop p text), length-drop {0} p text), filled),
      )

  pieces_loop-Spells :
      (fuel p : ℕ)
      → Boundary text p
      → length text - p ≤ fuel
      → Returns (Spells (drop p text)) (pieces_loop isalpha isdigit text fuel p)
  unfolding pieces_loop
  pieces_loop-Spells zero p b enough =
      rw (le→ltb-false p (length text) (omega arith)) (sym (drop_beyond text p (omega arith)), tt)
  pieces_loop-Spells (suc fuel) p b enough = elim (Bool-cases (ltb p (length text))) [
    | inr e ↦ rw e (sym (drop_beyond text p (ltb-false→le p (length text) e)), tt)
    | inl e ↦
        let lt = ltb→lt p (length text) e in
        rw e (
          Returns-bind (Passes text p) (Spells (drop p text)) (piece_end isalpha isdigit text p) _
            (piece_end-Passes isalpha isdigit text p b lt)
            (λ q r.
              rw (emit-inside p q r.0 r.1.0, ◌>>=◌)
                (Returns-bind (Spells (drop q text)) (Spells (drop p text))
                  (pieces_loop isalpha isdigit text fuel q) _
                  (pieces_loop-Spells fuel q r.1 (omega arith))
                  (λ pieces spelt. Spells-cons p q pieces r.0 r.1.0 spelt))))
  ]

-- On a text of whole characters `pre_tokenize` returns pieces that spell the text, none of them
-- empty.
pub pre_tokenize-Spells :
    (isalpha isdigit : ℕ → Bool) (text : Bytes)
    → WholeChars text
    → Returns (Spells text) (pre_tokenize isalpha isdigit text)
unfolding pre_tokenize
pre_tokenize-Spells isalpha isdigit text h =
    pieces_loop-Spells isalpha isdigit text (length text) 0 (omega arith, h) (omega arith)
