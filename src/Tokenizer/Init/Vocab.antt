-- ===== src/Tokenizer/Init/Vocab.antt =====
-- What `init` of src/io/bpe_tokenizer.cpp stores for the texts of the vocabulary.
use llmengine.Base.{
  Bool, Bool-cases, List, Option, Option-cases, [], ap, arith, false, get_elem?, inl, inr, length,
  length-append, none, refl, some, subst, suc, sym, true, zero, ℕ, ℤ, ◌++◌, ◌+◌, ◌∙◌, ◌∷◌, ◌≡◌, ◌⊎◌,
}
use llmengine.Tokenizer.Bytes.{Bytes, ◌>>=◌}
use llmengine.Core.Status.{ErrorCode, Result, ok, err, Result-cases}
use llmengine.Io.Metadata.{
  MetadataValue, string, array, MetadataArray, nil, cons, Metadata, same_string, find,
}
use llmengine.Tokenizer.Bpe.{Ids, find_id}
use llmengine.Tokenizer.Encode.{BpeTokenizer}
use llmengine.Tokenizer.Decode.{to_int32}
use llmengine.Tokenizer.RoundTrip.Known.{same_string→eq}
use llmengine.Tokenizer.Init.{
  name_bytes, vocab_loop, Arrange, added_loop, init_from, init_tokens, init,
}

-- The map gives for a text of the vocabulary a number at which it stands, and for another text what
-- the map `old` gives.
pub record Maps (old : Ids) (vocab : List Bytes) (ids : Ids) : Type 0 where
  pub sound :
      (t : Bytes) (id : ℤ)
      → find_id ids t ≡ some id
      → ((i : ℕ) × (get_elem? vocab i ≡ some t) × (id ≡ to_int32 i))
        ⊎ ((find_id old t ≡ some id) × ((i : ℕ) → get_elem? vocab i ≡ some t → ⊥))
  pub complete :
      (t : Bytes) (i : ℕ) → get_elem? vocab i ≡ some t → (id : ℤ) × (find_id ids t ≡ some id)

get_elem?-append_left :
    (xs ys : List Bytes) (i : ℕ) (v : Bytes)
    → get_elem? xs i ≡ some v
    → get_elem? (xs ++ ys) i ≡ some v
get_elem?-append_left [] ys i v e = absurd (cc)
get_elem?-append_left (x ∷ xs) ys zero v e = e
get_elem?-append_left (x ∷ xs) ys (suc i) v e = get_elem?-append_left xs ys i v e

get_elem?-append_last :
    (xs : List Bytes) (x : Bytes) → get_elem? (xs ++ x ∷ []) (length xs) ≡ some x
get_elem?-append_last [] x = refl
get_elem?-append_last (y ∷ xs) x = get_elem?-append_last xs x

get_elem?-append_cases :
    (xs : List Bytes) (x v : Bytes) (i : ℕ)
    → get_elem? (xs ++ x ∷ []) i ≡ some v
    → (get_elem? xs i ≡ some v) ⊎ (x ≡ v)
get_elem?-append_cases [] x v zero e = inr (cc)
get_elem?-append_cases [] x v (suc i) e = absurd (cc)
get_elem?-append_cases (y ∷ xs) x v zero e = inl e
get_elem?-append_cases (y ∷ xs) x v (suc i) e = get_elem?-append_cases xs x v i e

same_string_refl : (s : Bytes) → same_string s s ≡ true
same_string_refl [] = refl
same_string_refl (c ∷ s) = ground (arith, same_string_refl s)

some_inj_id : {a b : ℤ} → some a ≡ some b → a ≡ b
some_inj_id h = cc

-- One more text.
push-Maps :
    (old : Ids) (vocab : List Bytes) (ids : Ids) (s : Bytes)
    → Maps old vocab ids
    → Maps old (vocab ++ s ∷ []) ((s, to_int32 (length vocab)) ∷ ids)
unfolding find_id
push-Maps old vocab ids s m = record {
  sound = λ t id e. elim (Bool-cases (same_string s t)) [
    | inl same ↦ inl (
      length vocab,
      get_elem?-append_last vocab s ∙ ap some (same_string→eq s t same),
      sym (some_inj_id (rw same at e)),
    )
    | inr other ↦ elim (m.sound t id (rw other at e)) [
      | inl (i, stands, number) ↦ inl (i, get_elem?-append_left vocab (s ∷ []) i t stands, number)
      | inr (kept, absent) ↦ inr (
        kept,
        λ i h. elim (get_elem?-append_cases vocab s t i h) [
          | inl there ↦ absent i there
          | inr new ↦ differ t other new
        ],
      )
    ]
  ];
  complete = λ t i e. elim (Bool-cases (same_string s t)) [
    | inl same ↦ (to_int32 (length vocab), rw same refl)
    | inr other ↦ elim (get_elem?-append_cases vocab s t i e) [
      | inl old ↦ let (id, found) = m.complete t i old in (id, rw other found)
      | inr new ↦ absurd (differ t other new)
    ]
  ];
}
  where
    differ : (t : Bytes) → same_string s t ≡ false → s ≡ t → ⊥
    differ t other new =
        contradiction (subst (λ u. same_string s u ≡ true) new (same_string_refl s)) other
      where
        contradiction : {b : Bool} → b ≡ true → b ≡ false → ⊥
        contradiction p q = cc

-- A filled vocabulary and its map.
abbrev Fills : Ids → Result (List Bytes × Ids) → Type 0
Fills old (ok (vocab, ids)) = Maps old vocab ids
Fills old (err e) = Unit {0}

vocab_loop-Fills :
    (old : Ids) (i : ℕ) (tokens : MetadataArray) (vocab : List Bytes) (ids : Ids)
    → i ≡ length vocab
    → Maps old vocab ids
    → Fills old (vocab_loop i tokens vocab ids)
unfolding vocab_loop
vocab_loop-Fills old i nil vocab ids at m = m
vocab_loop-Fills old i (cons (string s) rest) vocab ids at m =
    vocab_loop-Fills old (i + 1) rest (vocab ++ s ∷ []) ((s, to_int32 i) ∷ ids)
      (omega (arith, at, length-append vocab (s ∷ [])))
      (subst (λ n. Maps old (vocab ++ s ∷ []) ((s, to_int32 n) ∷ ids)) (sym at)
        (push-Maps old vocab ids s m))
vocab_loop-Fills old i (cons _ rest) vocab ids at m = tt

some_ok : {tk tk' : BpeTokenizer} → some (ok tk) ≡ some (ok tk') → tk ≡ tk'
some_ok h = cc

module _ (isalpha isdigit : ℕ → Bool) (arrange : Arrange) (meta : Metadata)
    (old : BpeTokenizer) where
  init_from_keeps :
      (filled : List Bytes × Ids) (tk : BpeTokenizer)
      → (init_from isalpha isdigit arrange meta old filled >>= λ made. some (ok made))
        ≡ some (ok tk)
      → (filled.0 ≡ tk.vocab) × (filled.1 ≡ tk.vocab_map)
  unfolding init_from
  init_from_keeps filled tk h =
      elim (Option-cases (added_loop isalpha isdigit arrange 0 filled.0 old.added_tokens_map)) [
        | inl fault ↦ absurd (no_result (rw (fault, ◌>>=◌) at h))
        | inr (added, e) ↦
            let made = some_ok (rw (e, ◌>>=◌) at h) in
            (ap (λ t. t.vocab) made, ap (λ t. t.vocab_map) made)
      ]
    where
      no_result : none ≡ some (ok tk) → ⊥
      no_result p = cc

  init_tokens-Maps :
      (v : Option MetadataValue) (tk : BpeTokenizer)
      → init_tokens isalpha isdigit arrange meta old v ≡ some (ok tk)
      → Maps old.vocab_map tk.vocab tk.vocab_map
  unfolding init_tokens find_id
  init_tokens-Maps none tk h = absurd (cc)
  init_tokens-Maps (some (array tokens)) tk h =
      elim (Result-cases (vocab_loop 0 tokens [] old.vocab_map)) [
        | inr (e, failed) ↦ absurd (no_result e (rw (failed, init_tokens) at h))
        | inl (filled, e) ↦
            let (same_vocab, same_ids) = init_from_keeps filled tk (rw (e, init_tokens) at h) in
            subst (λ v. Maps old.vocab_map v tk.vocab_map) same_vocab
              (subst (λ ids. Maps old.vocab_map filled.0 ids) same_ids
                (subst (Fills old.vocab_map) e
                  (vocab_loop-Fills old.vocab_map 0 tokens [] old.vocab_map refl nothing)))
      ]
    where
      no_result : (e : ErrorCode) → some (err e) ≡ some (ok tk) → ⊥
      no_result e p = cc

      nothing : Maps old.vocab_map [] old.vocab_map
      nothing = record {
        sound = λ t id h. inr (h, none_stands_at t);
        complete = λ t i h. absurd (none_stands_at t i h);
      }
        where
          none_stands_at : (t : Bytes) (i : ℕ) → get_elem? [] i ≡ some t → ⊥
          none_stands_at t i p = cc
  init_tokens-Maps (some _) tk h = absurd (cc)

  -- After a successful `init` the map of the vocabulary gives an id for every text of the vocabulary,
  -- and the id is the number of a place at which it stands, cast to 32 bits; an id that
  -- another text has is one that it had before the call.
  pub init-Maps :
      (tk : BpeTokenizer)
      → init isalpha isdigit arrange meta old ≡ some (ok tk)
      → Maps old.vocab_map tk.vocab tk.vocab_map
  unfolding init
  init-Maps tk h = init_tokens-Maps (find meta (name_bytes "tokenizer.ggml.tokens")) tk h
