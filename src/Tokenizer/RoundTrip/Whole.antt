-- ===== src/Tokenizer/RoundTrip/Whole.antt =====
-- `decode` of src/io/bpe_tokenizer.cpp after `encode`.
use mathlib.Core.List.{append-nil}
use llmengine.Base.{
  AllBelow, AllBelow-split, Bool, List, Option, Option-cases, Returns, [], ap, arith, drop, false,
  inl, inr, is_empty, length, length-drop, lt→ltb, none, refl, some, subst, suc, sym, take,
  take-append-drop, zero, ℕ, ℤ, ◌++◌, ◌+◌, ◌<◌, ◌∙◌, ◌∷◌, ◌≡◌, ◌≤◌,
}
use llmengine.Tokenizer.Bytes.{Bytes, ◌>>=◌, Returns-bind}
use llmengine.Core.Status.{ok}
use llmengine.Tokenizer.ByteMap.RoundTrip.{kept, without_255}
use llmengine.Tokenizer.PreTokenize.Whole.{WholeChars}
use llmengine.Tokenizer.Encode.{
  BpeTokenizer, Match, match_loop, encode_pieces, encode_before, encode_loop, encode,
}
use llmengine.Tokenizer.Decode.{decode_loop, decode}
use llmengine.Tokenizer.RoundTrip.Known.{Decodes, nil-Decodes, append-Decodes, plain-Decodes}
use llmengine.Tokenizer.RoundTrip.Merged.{Closed, without_255-append}
use llmengine.Tokenizer.RoundTrip.Plain.{Recovers, encode_pieces-Recovers}
use llmengine.Tokenizer.RoundTrip.Added.{AddedToken, AllAdded, Splits, match_loop_lem}
use llmengine.Tokenizer.RoundTrip.Splitting.{is_whole-split, WholeChars-behind_ascii}

without_255-ascii : (t : Bytes) → AllBelow 128 t → without_255 t ≡ t
without_255-ascii [] small = refl
without_255-ascii (c ∷ t) small =
    ap (λ s. s ++ without_255 t) (kept_small c small.0)
    ∙ ap (λ s. c ∷ s) (without_255-ascii t small.1)
  where
    kept_small : (c : ℕ) → c < 128 → kept c ≡ c ∷ []
    kept_small c small = ground arith

module _ (isalpha isdigit : ℕ → Bool) (tk : BpeTokenizer) where
  encode_loop_plain :
      (fuel c : ℕ) (s : Bytes)
      → match_loop tk.added_tokens (c ∷ s) none ≡ none
      → encode_loop isalpha isdigit tk (suc fuel) (c ∷ s) ≡ encode_pieces isalpha isdigit tk (c ∷ s)
  unfolding encode_loop
  encode_loop_plain fuel c s e = rw (e, encode_loop)

  -- The ids of the text before a match, of the match and of the text behind it.
  abbrev parts : ℕ → Match → Bytes → Option (List ℤ)
  parts fuel m s = encode_before isalpha isdigit tk m.offset s >>= λ before.
      encode_loop isalpha isdigit tk fuel (drop (m.offset + m.len) s) >>= λ after.
      some (before ++ m.id ∷ after)

  encode_loop_match :
      (fuel c : ℕ) (s : Bytes) (m : Match)
      → match_loop tk.added_tokens (c ∷ s) none ≡ some m
      → encode_loop isalpha isdigit tk (suc fuel) (c ∷ s) ≡ parts fuel m (c ∷ s)
  unfolding encode_loop
  encode_loop_match fuel c s m e = rw (e, encode_loop)

  module _ (closed : Closed tk) (added : AllAdded tk tk.added_tokens) where
    encode_before-Recovers :
        (n : ℕ) (s : Bytes)
        → AllBelow 256 (take n s)
        → WholeChars (take n s)
        → Recovers tk (take n s) (encode_before isalpha isdigit tk n s)
    unfolding encode_before
    encode_before-Recovers zero s small whole = nil-Decodes tk
    encode_before-Recovers (suc n) s small whole =
        rw (lt→ltb 0 (suc n) (omega arith))
          (encode_pieces-Recovers isalpha isdigit tk closed (take (suc n) s) small whole)

    -- A match of the token `t`, with the texts before and behind it.
    parts-Recovers :
        (fuel : ℕ) (m : Match) (t front back s : Bytes)
        → AddedToken tk t m.id
        → s ≡ front ++ (t ++ back)
        → Recovers tk front (encode_before isalpha isdigit tk m.offset s)
        → Recovers tk back (encode_loop isalpha isdigit tk fuel (drop (m.offset + m.len) s))
        → Recovers tk s (parts fuel m s)
    parts-Recovers fuel m t front back s (filled, ascii, plain, known) e before after =
        Returns-bind (λ ids. Decodes tk ids (without_255 front))
          (λ ids. Decodes tk ids (without_255 s)) (encode_before isalpha isdigit tk m.offset s) _
          before
          (λ xs d.
            Returns-bind (λ ids. Decodes tk ids (without_255 back))
              (λ ids. Decodes tk ids (without_255 s))
              (encode_loop isalpha isdigit tk fuel (drop (m.offset + m.len) s)) _ after
              (λ ys f. subst (Decodes tk (xs ++ m.id ∷ ys)) (sym text) (
                append-Decodes tk xs (m.id ∷ ys) (without_255 front) (t ++ without_255 back) d (
                  append-Decodes tk (m.id ∷ []) ys t (without_255 back)
                    (plain-Decodes tk m.id t plain known) f))))
      where
        text : without_255 s ≡ without_255 front ++ (t ++ without_255 back)
        text =
            (ap without_255 e ∙ without_255-append front (t ++ back))
            ∙ ap (λ r. without_255 front ++ r)
                (without_255-append t back
                  ∙ ap (λ r. r ++ without_255 back) (without_255-ascii t ascii))

    -- The text is whole before a match and behind it.
    around :
        (t front back : Bytes)
        → 0 < length t
        → AllBelow 128 t
        → WholeChars (front ++ (t ++ back))
        → WholeChars front × WholeChars back
    around [] front back filled ascii whole = absurd (omega arith)
    around (d ∷ t) front back filled ascii whole =
        let (before, behind) = is_whole-split 0 front d (t ++ back) ascii.0 whole in
        (before, WholeChars-behind_ascii (d ∷ t) back ascii behind)

    match-Recovers :
        (fuel : ℕ) (m : Match) (s : Bytes)
        → AllBelow 256 s
        → WholeChars s
        → length s ≤ suc fuel
        → Splits tk s m
        → ((r : Bytes)
            → AllBelow 256 r
            → WholeChars r
            → length r ≤ fuel
            → Recovers tk r (encode_loop isalpha isdigit tk fuel r))
        → Recovers tk s (parts fuel m s)
    match-Recovers fuel m s small whole enough (t, token, len, within, stands) behind =
        let front = take m.offset s in
        let back = drop (m.offset + m.len) s in
        let text : s ≡ front ++ (t ++ back) =
          sym (take-append-drop m.offset s) ∙ ap (λ r. front ++ r) stands in
        let (before_whole, back_whole) =
          around t front back token.0 token.1 (subst WholeChars text whole) in
        let (before_small, rest_small) =
          AllBelow-split 256 front (t ++ back) (subst (AllBelow 256) text small) in
        parts-Recovers fuel m t front back s token text
          (encode_before-Recovers m.offset s before_small before_whole)
          (behind back (AllBelow-split 256 t back rest_small).1 back_whole
            (omega (arith, length-drop (m.offset + m.len) s, token.0, len, enough)))

    encode_loop-Recovers :
        (fuel : ℕ) (s : Bytes)
        → AllBelow 256 s
        → WholeChars s
        → length s ≤ fuel
        → Recovers tk s (encode_loop isalpha isdigit tk fuel s)
    encode_loop-Recovers fuel [] small whole enough = unfold encode_loop in nil-Decodes tk
    encode_loop-Recovers zero (c ∷ s) small whole enough = absurd (omega arith)
    encode_loop-Recovers (suc fuel) (c ∷ s) small whole enough =
        elim (Option-cases (match_loop tk.added_tokens (c ∷ s) none)) [
          | inl plain ↦
              subst (Recovers tk (c ∷ s)) (sym (encode_loop_plain fuel c s plain))
                (encode_pieces-Recovers isalpha isdigit tk closed (c ∷ s) small whole)
          | inr (m, e) ↦ subst (Recovers tk (c ∷ s)) (sym (encode_loop_match fuel c s m e)) (
              match-Recovers fuel m (c ∷ s) small whole enough (match_loop_lem tk (c ∷ s) m added e)
                (encode_loop-Recovers fuel))
        ]

-- With a vocabulary that is not empty and knows every byte and what every merge gives, and added
-- tokens in ASCII, not empty, to which their ids decode: for every text of bytes and whole characters
-- `encode`, without the ids of begin and end, returns, and `decode` of the ids gives the text without
-- its bytes 255.
pub decode-encode :
    (isalpha isdigit : ℕ → Bool) (tk : BpeTokenizer) (text : Bytes)
    → Closed tk
    → AllAdded tk tk.added_tokens
    → is_empty tk.vocab ≡ false
    → AllBelow 256 text
    → WholeChars text
    → Returns
        (λ ids. decode tk ids ≡ some (ok (without_255 text)))
        (encode isalpha isdigit tk text false false)
unfolding encode decode decode_loop
decode-encode isalpha isdigit tk text closed added filled small whole =
    Returns-bind (λ ids. Decodes tk ids (without_255 text))
      (λ ids. decode tk ids ≡ some (ok (without_255 text)))
      (encode_loop isalpha isdigit tk (length text) text) _
      (encode_loop-Recovers isalpha isdigit tk closed added (length text) text small whole
        (omega arith))
      (λ ids d. rw (append-nil ids, filled) (read_all ids d))
  where
    read_all :
        (ids : List ℤ)
        → Decodes tk ids (without_255 text)
        → decode_loop tk ids ≡ some (ok (without_255 text))
    read_all ids d =
        ap (decode_loop tk) (sym (append-nil ids))
        ∙ (d [] ∙ ap (λ r. some (ok r)) (append-nil (without_255 text)))
