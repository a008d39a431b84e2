-- ===== src/Tokenizer/RoundTrip/Added.antt =====
-- The added tokens that `encode` of src/io/bpe_tokenizer.cpp finds in a text.
use llmengine.Base.{
  ==→eq, AllBelow, Bool-cases, List, Option, Option-cases, [], ap, arith, drop, drop-drop, get_or,
  inl, inr, length, none, pos_part, refl, some, subst, suc, sym, true, ℕ, ℤ, ◌++◌, ◌+◌, ◌<◌, ◌==◌,
  ◌∙◌, ◌∷◌, ◌≡◌, ◌≤◌,
}
use llmengine.Tokenizer.Bytes.{Bytes, ◌>>=◌}
use llmengine.Tokenizer.PreTokenize.Whole.{and_true}
use llmengine.Tokenizer.Encode.{
  BpeTokenizer, starts_with, find_in, Match, is_earlier, take_match, match_loop,
}
use llmengine.Tokenizer.Decode.{text_of}
use llmengine.Tokenizer.RoundTrip.Known.{is_plain}

-- An added token: ASCII, with a first byte, and its id decodes to it.
abbrev pub AddedToken : BpeTokenizer → Bytes → ℤ → Type 0
AddedToken tk t id =
    (0 < length t)
    × AllBelow 128 t
    × (is_plain tk id ≡ true)
    × (text_of (get_or tk.vocab (pos_part id) []) ≡ some t)

abbrev pub AllAdded : BpeTokenizer → List (Bytes × ℤ) → Type 0
AllAdded tk [] = Unit {0}
AllAdded tk ((t, id) ∷ ts) = AddedToken tk t id × AllAdded tk ts

-- The text before a match, the matched token, and the text behind.
abbrev pub Splits : BpeTokenizer → Bytes → Match → Type 0
Splits tk s m =
    (t : Bytes) × AddedToken tk t m.id
    × (m.len ≡ length t)
    × (m.offset ≤ length s)
    × (drop m.offset s ≡ t ++ drop (m.offset + m.len) s)

starts_with-append : (t s : Bytes) → starts_with t s ≡ true → s ≡ t ++ drop (length t) s
unfolding starts_with
starts_with-append [] s h = refl
starts_with-append (c ∷ t) [] h = absurd (cc)
starts_with-append (c ∷ t) (d ∷ s) h =
    let (head, tail) = and_true (c == d) (starts_with t s) h in
    ap (λ n. n ∷ s) (sym (==→eq c d head)) ∙ ap (λ r. c ∷ r) (starts_with-append t s tail)

some_inj : (m n : ℕ) → some m ≡ some n → m ≡ n
some_inj m n h = cc

none-some : (n : ℕ) → none ≡ some n → ⊥
none-some n h = cc

-- The text stands where `find_in` says.
Found : Bytes → Bytes → ℕ → Type 0
Found t s n = (n ≤ length s) × (starts_with t (drop n s) ≡ true)

find_in-Found : (t s : Bytes) (n : ℕ) → find_in t s ≡ some n → Found t s n
unfolding find_in Found
find_in-Found t [] n e = elim (Bool-cases (starts_with t [])) [
  | inl starts ↦ subst (Found t []) (some_inj 0 n (rw starts at e)) (omega arith, starts)
  | inr other ↦ absurd (none-some n (rw other at e))
]
find_in-Found t (c ∷ s) n e = elim (Bool-cases (starts_with t (c ∷ s))) [
  | inl starts ↦ subst (Found t (c ∷ s)) (some_inj 0 n (rw starts at e)) (omega arith, starts)
  | inr other ↦ elim (Option-cases (find_in t s)) [
    | inl nowhere ↦ absurd (none-some n (rw (other, nowhere, ◌>>=◌) at e))
    | inr (m, somewhere) ↦
        let (within, starts) = find_in-Found t s m somewhere in
        subst (Found t (c ∷ s)) (some_inj (suc m) n (rw (other, somewhere, ◌>>=◌) at e))
          (omega (arith, within), starts)
  ]
]

abbrev SplitsIf : BpeTokenizer → Bytes → Option Match → Type 0
SplitsIf tk s none = Unit {0}
SplitsIf tk s (some m) = Splits tk s m

module _ (tk : BpeTokenizer) (s : Bytes) where
  Found-Splits :
      (t : Bytes) (id : ℤ) (n : ℕ)
      → AddedToken tk t id
      → Found t s n
      → Splits tk s (record { offset = n; id = id; len = length t })
  unfolding Found
  Found-Splits t id n added (within, starts) = (
    t,
    added,
    refl,
    within,
    starts_with-append t (drop n s) starts ∙ ap (λ r. t ++ r) (drop-drop n (length t) s),
  )

  take_match-Splits :
      (t : Bytes) (id : ℤ) (found : Option ℕ) (best : Option Match)
      → AddedToken tk t id
      → ((n : ℕ) → found ≡ some n → Found t s n)
      → SplitsIf tk s best
      → SplitsIf tk s (take_match t id found best)
  unfolding take_match
  take_match-Splits t id none best added at splits = splits
  take_match-Splits t id (some n) best added at splits = elim (Bool-cases (is_earlier n best)) [
    | inl earlier ↦ rw earlier (Found-Splits t id n added (at n refl))
    | inr later ↦ rw later splits
  ]

  match_loop-Splits :
      (ts : List (Bytes × ℤ)) (best : Option Match)
      → AllAdded tk ts
      → SplitsIf tk s best
      → SplitsIf tk s (match_loop ts s best)
  unfolding match_loop
  match_loop-Splits [] best added splits = splits
  match_loop-Splits ((t, id) ∷ ts) best added splits =
      match_loop-Splits ts (take_match t id (find_in t s) best) added.1
        (take_match-Splits t id (find_in t s) best added.0 (λ n e. find_in-Found t s n e) splits)

  -- A match is an added token that stands in the text.
  pub match_loop_lem :
      (m : Match)
      → AllAdded tk tk.added_tokens
      → match_loop tk.added_tokens s none ≡ some m
      → Splits tk s m
  match_loop_lem m added e =
      subst (SplitsIf tk s) e (match_loop-Splits tk.added_tokens none added tt)
