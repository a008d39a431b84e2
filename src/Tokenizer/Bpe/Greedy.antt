-- ===== src/Tokenizer/Bpe/Greedy.antt =====
-- What `bpe` of src/io/bpe_tokenizer.cpp computes: the greedy merges of a list of texts, with no
-- links and no dead symbols.
use mathlib.Core.List.{append_assoc}
use llmengine.Base.{List, [], ap, false, ltb_ℤ, refl, subst, sym, true, ℤ, ◌++◌, ◌∙◌, ◌∷◌, ◌≡◌}
use llmengine.Tokenizer.Bytes.{Bytes, flatten}

-- How the ranks order the pairs of texts; a pair without a rank has the largest.
abbrev pub RankOf : Type 0
RankOf = Bytes → Bytes → ℤ

-- A merge of the first pair of rank `m`; the pairs before it have larger ranks.
pub data Step (rank : RankOf) (m : ℤ) : List Bytes → List Bytes → Type 0 where
  here : {a b : Bytes} {ss : List Bytes} → rank a b ≡ m → Step rank m (a ∷ b ∷ ss) ((a ++ b) ∷ ss)
  there :
      {a b : Bytes} {ss us : List Bytes}
      → ltb_ℤ m (rank a b) ≡ true
      → Step rank m (b ∷ ss) us
      → Step rank m (a ∷ b ∷ ss) (a ∷ us)

-- No pair of neighbours has a rank below `m`.
abbrev pub NoneBelow : RankOf → ℤ → List Bytes → Type 0
NoneBelow rank m [] = Unit {0}
NoneBelow rank m (a ∷ []) = Unit {0}
NoneBelow rank m (a ∷ b ∷ ss) = (ltb_ℤ (rank a b) m ≡ false) × NoneBelow rank m (b ∷ ss)

-- Merge the first pair of the lowest rank, until no pair has a rank below `limit`.
pub data Reduces (rank : RankOf) (limit : ℤ) : List Bytes → List Bytes → Type 0 where
  done : {ss : List Bytes} → NoneBelow rank limit ss → Reduces rank limit ss ss
  again :
      {ss us vs : List Bytes} {m : ℤ}
      → ltb_ℤ m limit ≡ true
      → NoneBelow rank m ss
      → Step rank m ss us
      → Reduces rank limit us vs
      → Reduces rank limit ss vs

-- Merges keep the text.
pub flatten-Step :
    {rank : RankOf} {m : ℤ} {ss us : List Bytes} → Step rank m ss us → flatten us ≡ flatten ss
flatten-Step (here {a} {b} {ss} e) = append_assoc a b (flatten ss)
flatten-Step (there {a} h st) = ap (λ r. a ++ r) (flatten-Step st)

pub flatten-Reduces :
    {rank : RankOf} {limit : ℤ} {ss us : List Bytes}
    → Reduces rank limit ss us
    → flatten us ≡ flatten ss
flatten-Reduces (done h) = refl
flatten-Reduces (again lt h st r) = flatten-Reduces r ∙ flatten-Step st

abbrev pub AllTexts : (Bytes → Type 0) → List Bytes → Type 0
AllTexts Q [] = Unit {0}
AllTexts Q (s ∷ ss) = Q s × AllTexts Q ss

-- What merges keep of two texts, they keep of all.
module _ (rank : RankOf) (limit : ℤ) (Q : Bytes → Type 0)
    (keeps : (a b : Bytes) → Q a → Q b → ltb_ℤ (rank a b) limit ≡ true → Q (a ++ b)) where
  AllTexts-Step :
      {m : ℤ} {ss us : List Bytes}
      → ltb_ℤ m limit ≡ true
      → Step rank m ss us
      → AllTexts Q ss
      → AllTexts Q us
  AllTexts-Step lt (here {a} {b} e) (qa, (qb, rest)) =
      (keeps a b qa qb (subst (λ r. ltb_ℤ r limit ≡ true) (sym e) lt), rest)
  AllTexts-Step lt (there {a} {b} {ss} {us} h st) (qa, rest) =
      (qa, AllTexts-Step {ss = b ∷ ss} {us = us} lt st rest)

  pub AllTexts-Reduces :
      {ss us : List Bytes} → Reduces rank limit ss us → AllTexts Q ss → AllTexts Q us
  AllTexts-Reduces (done h) q = q
  AllTexts-Reduces (again lt h st r) q = AllTexts-Reduces r (AllTexts-Step lt st q)
