-- ===== src/Tokenizer/RoundTrip/Merged.antt =====
-- What `decode` of src/io/bpe_tokenizer.cpp makes of the ids of one piece, where the vocabulary knows
-- every byte and every merge.
use mathlib.Core.List.{append_assoc, append-nil}
use llmengine.Base.{
  AllBelow, AllBelow-append, Bool-cases, List, Option, Returns, Returns-map, [], ap, inl, inr,
  ltb_ℤ, map, none, refl, some, subst, sym, true, ℕ, ℤ, ◌&&◌, ◌++◌, ◌<◌, ◌∙◌, ◌∷◌, ◌≡◌,
}
use llmengine.Tokenizer.Bytes.{Bytes, flatten}
use llmengine.Io.Metadata.{same_string}
use llmengine.Tokenizer.ByteMap.{char_of, bytes_to_unicode, unicode_to_bytes}
use llmengine.Tokenizer.ByteMap.RoundTrip.{kept, without_255, unicode_to_bytes-bytes_to_unicode}
use llmengine.Tokenizer.PreTokenize.Whole.{and_true}
use llmengine.Tokenizer.Bpe.{Ranks, find_id, find_rank, int32_max, push_id, bpe}
use llmengine.Tokenizer.Bpe.Search.{pair_rank}
use llmengine.Tokenizer.Bpe.Greedy.{Reduces, flatten-Reduces, AllTexts, AllTexts-Reduces}
use llmengine.Tokenizer.Bpe.Words.{ids_of, Encodes, bpe-Encodes}
use llmengine.Tokenizer.Encode.{BpeTokenizer}
use llmengine.Tokenizer.RoundTrip.Known.{
  Decodes, nil-Decodes, append-Decodes, is_known, same_string→eq, known-Decodes, KnownText,
}
use llmengine.Tokenizer.RoundTrip.Characters.{characters-char_of, flatten-char_of}

-- The vocabulary knows what every merge gives.
abbrev pub MergesKnown : BpeTokenizer → Ranks → Type 0
MergesKnown tk [] = Unit {0}
MergesKnown tk (((a, b), rank) ∷ ranks) = (is_known tk (a ++ b) ≡ true) × MergesKnown tk ranks

-- The vocabulary is closed: it knows every byte and what every merge gives.
pub record Closed (tk : BpeTokenizer) : Type 0 where
  pub bytes_known : (b : ℕ) → b < 256 → is_known tk (char_of b) ≡ true
  pub merges_known : MergesKnown tk tk.bpe_ranks

bytes_to_unicode-append :
    (s t : Bytes) → bytes_to_unicode (s ++ t) ≡ bytes_to_unicode s ++ bytes_to_unicode t
unfolding bytes_to_unicode
bytes_to_unicode-append [] t = refl
bytes_to_unicode-append (b ∷ s) t =
    ap (λ r. char_of b ++ r) (bytes_to_unicode-append s t)
    ∙ sym (append_assoc (char_of b) (bytes_to_unicode s) (bytes_to_unicode t))

pub without_255-append : (s t : Bytes) → without_255 (s ++ t) ≡ without_255 s ++ without_255 t
without_255-append [] t = refl
without_255-append (b ∷ s) t =
    ap (λ r. kept b ++ r) (without_255-append s t)
    ∙ sym (append_assoc (kept b) (without_255 s) (without_255 t))

push_id-append : (o : Option ℤ) (ids : List ℤ) → push_id o [] ++ ids ≡ push_id o ids
push_id-append none ids = refl
push_id-append (some id) ids = refl

some_inj_bytes : (s t : Bytes) → some s ≡ some t → s ≡ t
some_inj_bytes s t h = cc

module _ (tk : BpeTokenizer) where
  find_rank-known :
      (ranks : Ranks) (a b : Bytes)
      → MergesKnown tk ranks
      → ltb_ℤ (pair_rank ranks a b) int32_max ≡ true
      → is_known tk (a ++ b) ≡ true
  unfolding pair_rank find_rank
  find_rank-known [] a b known h = absurd (cc)
  find_rank-known (((s, t), rank) ∷ ranks) a b known h =
      elim (Bool-cases (same_string s a && same_string t b)) [
        | inl this ↦
            let (first, second) = and_true (same_string s a) (same_string t b) this in
            subst (λ u. is_known tk u ≡ true)
              (ap (λ u. u ++ t) (same_string→eq s a first)
                ∙ ap (λ u. a ++ u) (same_string→eq t b second))
              known.0
        | inr other ↦ find_rank-known ranks a b known.1 (rw other at h)
      ]

  KnownText-append :
      (a b : Bytes)
      → KnownText tk a
      → KnownText tk b
      → is_known tk (a ++ b) ≡ true
      → KnownText tk (a ++ b)
  KnownText-append a b ((x, (small, e)), _) ((y, (little, f)), _) known =
      let same : a ++ b ≡ bytes_to_unicode (x ++ y) =
        (ap (λ u. u ++ b) e ∙ ap (λ u. bytes_to_unicode x ++ u) f)
        ∙ sym (bytes_to_unicode-append x y) in
      ((x ++ y, (AllBelow-append 256 x y small little, same)), known)

  char_of-KnownText :
      (raw : Bytes) → Closed tk → AllBelow 256 raw → AllTexts (KnownText tk) (map char_of raw)
  unfolding bytes_to_unicode
  char_of-KnownText [] closed small = tt
  char_of-KnownText (b ∷ raw) closed small = (
    ((b ∷ [], ((small.0, tt), sym (append-nil (char_of b)))), closed.bytes_known b small.0),
    char_of-KnownText raw closed small.1,
  )

  -- The ids of known texts decode to the bytes that the texts stand for.
  abbrev Spelled : List Bytes → Type 0
  Spelled us =
      (raw : Bytes) × AllBelow 256 raw
      × (flatten us ≡ bytes_to_unicode raw)
      × Decodes tk (ids_of tk.vocab_map us) (without_255 raw)

  AllTexts-Spelled : (us : List Bytes) → AllTexts (KnownText tk) us → Spelled us
  unfolding is_known bytes_to_unicode
  AllTexts-Spelled [] q = ([], tt, refl, nil-Decodes tk)
  AllTexts-Spelled (u ∷ us) (((x, (small, e)), known), rest) =
      let (raw, little, spelt, decodes) = AllTexts-Spelled us rest in
      (
        x ++ raw,
        AllBelow-append 256 x raw small little,
        (ap (λ t. t ++ flatten us) e ∙ ap (λ t. bytes_to_unicode x ++ t) spelt)
            ∙ sym (bytes_to_unicode-append x raw),
        subst (λ ids. Decodes tk ids (without_255 (x ++ raw)))
            (push_id-append (find_id tk.vocab_map u) (ids_of tk.vocab_map us))
            (subst (Decodes tk (push_id (find_id tk.vocab_map u) [] ++ ids_of tk.vocab_map us))
              (sym (without_255-append x raw))
              (append-Decodes tk (push_id (find_id tk.vocab_map u) []) (ids_of tk.vocab_map us)
                (without_255 x) (without_255 raw)
                (known-Decodes tk u x (find_id tk.vocab_map u) known (small, e)) decodes)),
      )

  -- The ids of a piece decode to the piece.
  pub bpe-Decodes :
      (raw : Bytes)
      → Closed tk
      → AllBelow 256 raw
      → Returns
          (λ ids. Decodes tk ids (without_255 raw))
          (bpe tk.vocab_map tk.bpe_ranks (bytes_to_unicode raw))
  bpe-Decodes raw closed small =
      Returns-map (Encodes tk.vocab_map tk.bpe_ranks (map char_of raw))
        (λ ids. Decodes tk ids (without_255 raw))
        (bpe tk.vocab_map tk.bpe_ranks (bytes_to_unicode raw))
        (λ ids (us, reduced, e).
          subst (λ ids. Decodes tk ids (without_255 raw)) (sym e) (whole us reduced))
        (bpe-Encodes tk.vocab_map tk.bpe_ranks (bytes_to_unicode raw) (map char_of raw)
          (characters-char_of raw small))
    where
      same :
          (x : Bytes)
          → AllBelow 256 x
          → bytes_to_unicode x ≡ bytes_to_unicode raw
          → without_255 x ≡ without_255 raw
      same x little e = some_inj_bytes (without_255 x) (without_255 raw) (
          (sym (unicode_to_bytes-bytes_to_unicode x little) ∙ ap unicode_to_bytes e)
          ∙ unicode_to_bytes-bytes_to_unicode raw small)

      whole :
          (us : List Bytes)
          → Reduces (pair_rank tk.bpe_ranks) int32_max (map char_of raw) us
          → Decodes tk (ids_of tk.vocab_map us) (without_255 raw)
      whole us reduced =
          let (x, little, spelt, decodes) = AllTexts-Spelled us (
            AllTexts-Reduces (pair_rank tk.bpe_ranks) int32_max (KnownText tk)
              (λ a b qa qb lt.
                KnownText-append a b qa qb
                  (find_rank-known tk.bpe_ranks a b closed.merges_known lt))
              reduced (char_of-KnownText raw closed small)) in
          subst (Decodes tk (ids_of tk.vocab_map us))
            (same x little ((sym spelt ∙ flatten-Reduces reduced) ∙ flatten-char_of raw)) decodes
