-- ===== src/Tokenizer/RoundTrip/Known.antt =====
-- Texts that the vocabulary of src/io/bpe_tokenizer.cpp knows, and what `decode` makes of their ids.
use mathlib.Core.List.{append_assoc}
use llmengine.Base.{
  ==→eq, AllBelow, Bool, List, Option, [], ap, false, get_or, none, not, pos_part, refl, some, sym,
  true, ℕ, ℤ, ◌&&◌, ◌++◌, ◌==◌, ◌∙◌, ◌∷◌, ◌≡◌,
}
use llmengine.Tokenizer.Bytes.{Bytes, ◌>>=◌}
use llmengine.Core.Status.{Result, ok, err}
use llmengine.Io.Metadata.{same_string}
use llmengine.Tokenizer.ByteMap.{bytes_to_unicode, unicode_to_bytes}
use llmengine.Tokenizer.ByteMap.RoundTrip.{not-true, without_255, unicode_to_bytes-bytes_to_unicode}
use llmengine.Tokenizer.PreTokenize.Whole.{and_true}
use llmengine.Tokenizer.Bpe.{find_id, push_id}
use llmengine.Tokenizer.Encode.{BpeTokenizer}
use llmengine.Tokenizer.Decode.{
  is_unknown, named_byte, text_of, token_to_text, same_id, prepend, decode_loop,
}

-- The texts of two groups of ids, one behind the other.
prepend-append :
    (x y : Bytes) (r : Option (Result Bytes)) → prepend x (prepend y r) ≡ prepend (x ++ y) r
prepend-append x y none = refl
prepend-append x y (some (ok s)) = ap (λ t. some (ok t)) (sym (append_assoc x y s))
prepend-append x y (some (err e)) = refl

prepend_nil : (r : Option (Result Bytes)) → prepend [] r ≡ r
prepend_nil none = refl
prepend_nil (some (ok s)) = refl
prepend_nil (some (err e)) = refl

-- `decode` goes on behind these ids, with this text in front.
abbrev pub Decodes : BpeTokenizer → List ℤ → Bytes → Type 0
Decodes tk ids out =
    (more : List ℤ) → decode_loop tk (ids ++ more) ≡ prepend out (decode_loop tk more)

pub nil-Decodes : (tk : BpeTokenizer) → Decodes tk [] []
nil-Decodes tk more = sym (prepend_nil (decode_loop tk more))

pub append-Decodes :
    (tk : BpeTokenizer) (xs ys : List ℤ) (s t : Bytes)
    → Decodes tk xs s
    → Decodes tk ys t
    → Decodes tk (xs ++ ys) (s ++ t)
append-Decodes tk xs ys s t d e more =
    ((ap (decode_loop tk) (append_assoc xs ys more) ∙ d (ys ++ more)) ∙ ap (prepend s) (e more))
    ∙ prepend-append s t (decode_loop tk more)

-- An id that `decode` accepts, and its text.
abbrev pub is_plain : BpeTokenizer → ℤ → Bool
is_plain tk id = not (is_unknown tk id) && not (same_id id tk.eos_id)

pub plain-Decodes :
    (tk : BpeTokenizer) (id : ℤ) (out : Bytes)
    → is_plain tk id ≡ true
    → text_of (get_or tk.vocab (pos_part id) []) ≡ some out
    → Decodes tk (id ∷ []) out
unfolding decode_loop token_to_text
plain-Decodes tk id out plain e more =
    let (known, not_eos) = and_true (not (is_unknown tk id)) (not (same_id id tk.eos_id)) plain in
    rw (not-true _ known, not-true _ not_eos, e, ◌>>=◌) refl

-- The vocabulary knows a text, and the text is not the name of a byte.
unfoldable pub is_named : Option ℕ → Bool
is_named none = false
is_named (some b) = true

unfoldable pub knows : BpeTokenizer → Bytes → Option ℤ → Bool
knows tk t none = false
knows tk t (some id) =
    is_plain tk id
    && (same_string (get_or tk.vocab (pos_part id) []) t && not (is_named (named_byte t)))

unfoldable pub is_known : BpeTokenizer → Bytes → Bool
unfolding knows is_named
is_known tk t = knows tk t (find_id tk.vocab_map t)

-- A text that stands for these bytes.
abbrev pub StandsFor : Bytes → Bytes → Type 0
StandsFor t raw = AllBelow 256 raw × (t ≡ bytes_to_unicode raw)

pub same_string→eq : (s t : Bytes) → same_string s t ≡ true → s ≡ t
same_string→eq [] [] h = refl
same_string→eq [] (d ∷ t) h = absurd (cc)
same_string→eq (c ∷ s) [] h = absurd (cc)
same_string→eq (c ∷ s) (d ∷ t) h =
    let (head, tail) = and_true (c == d) (same_string s t) h in
    ap (λ n. n ∷ s) (==→eq c d head) ∙ ap (λ r. d ∷ r) (same_string→eq s t tail)

not_named : (o : Option ℕ) → not (is_named o) ≡ true → o ≡ none
unfolding is_named
not_named none h = refl
not_named (some b) h = absurd (cc)

text_of-StandsFor :
    (t raw : Bytes) → named_byte t ≡ none → StandsFor t raw → text_of t ≡ some (without_255 raw)
unfolding text_of
text_of-StandsFor t raw plain (small, e) =
    rw (plain, text_of) (ap unicode_to_bytes e ∙ unicode_to_bytes-bytes_to_unicode raw small)

-- The id of a known text decodes to the bytes that it stands for.
pub known-Decodes :
    (tk : BpeTokenizer) (t raw : Bytes) (found : Option ℤ)
    → knows tk t found ≡ true
    → StandsFor t raw
    → Decodes tk (push_id found []) (without_255 raw)
unfolding knows
known-Decodes tk t raw none h stands = absurd (cc)
known-Decodes tk t raw (some id) h stands =
    let (plain, more) = and_true (is_plain tk id) _ h in
    let (same, unnamed) = and_true (same_string (get_or tk.vocab (pos_part id) []) t) _ more in
    plain-Decodes tk id (without_255 raw) plain (
      ap text_of (same_string→eq _ t same)
      ∙ text_of-StandsFor t raw (not_named (named_byte t) unnamed) stands)

-- A known text that stands for some bytes.
abbrev pub KnownText : BpeTokenizer → Bytes → Type 0
KnownText tk t = ((raw : Bytes) × StandsFor t raw) × (is_known tk t ≡ true)
