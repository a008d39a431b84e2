-- ===== src/Tokenizer/PreTokenize/Rounds.antt =====
-- The rounds of `pre_tokenize` in src/io/bpe_tokenizer.cpp: where the pointer stands behind them.
use llmengine.Base.{
  Bool, Bool-cases, Returns, Returns-map, arith, drop-length, false, if◌then◌else◌, inl, inr, leb,
  length, ltb, ltb→lt, lt→ltb, not, refl, some, subst, true, ℕ, ◌&&◌, ◌+◌, ◌<◌, ◌==◌, ◌||◌, ◌≡◌,
}
use llmengine.Tokenizer.Bytes.{
  Bytes, ◌>>=◌, unicode_is_space, unicode_is_newline, Returns-bind, Returns-if,
}
use llmengine.Tokenizer.PreTokenize.{
  match_contraction, decode_at, skip_while, skip, next_is, is_symbol, skip_symbols, skip_blank,
  symbol_end, other_end, piece_end,
}
use llmengine.Tokenizer.PreTokenize.Pieces.{
  Boundary, Reaches, Passes, decode_at-Boundary, skip-Reaches, skip-Passes, skip_digits-Passes,
  Anything, next_is-Returns,
}
use mathlib.Core.Bool.{false≢true}
use llmengine.Tokenizer.PreTokenize.Ends.{match_contraction-Passes}
use llmengine.Tokenizer.PreTokenize.Whole.{is_whole, and_true}

module _ (text : Bytes) where
  Boundary-length : Boundary text (length text)
  unfolding is_whole
  Boundary-length = (omega arith, rw (drop-length text) refl)

module _ (isalpha isdigit : ℕ → Bool) (text : Bytes) where
  skip_symbols-Reaches :
      (p : ℕ) → Boundary text p → Returns (Reaches text p) (skip_symbols isalpha isdigit text p)
  skip_symbols-Reaches p b =
      Returns-bind (Reaches text p) (Reaches text p) (skip text (is_symbol isalpha isdigit) p) _
        (skip-Reaches text (is_symbol isalpha isdigit) p b)
        (λ q r.
          Returns-map (Reaches text q) (Reaches text p) (skip text unicode_is_newline q)
            (λ t u. (omega (arith, r.0, u.0), u.1)) (skip-Reaches text unicode_is_newline q r.1))

  -- The character at `p`, which is not the last.
  module _ (p : ℕ) (char : ℕ × ℕ) (e : decode_at text p ≡ some char) (lt : p < length text)
      (positive : 0 < char.1) (next : Boundary text (p + char.1)) where
    skip_symbols-Passes :
        is_symbol isalpha isdigit char.0 ≡ true
        → Returns (Passes text p) (skip_symbols isalpha isdigit text p)
    skip_symbols-Passes h =
        Returns-bind (Passes text p) (Passes text p) (skip text (is_symbol isalpha isdigit) p) _
          (skip-Passes text (is_symbol isalpha isdigit) p char e lt positive next h)
          (λ q r.
            Returns-map (Reaches text q) (Passes text p) (skip text unicode_is_newline q)
              (λ t u. (omega (arith, r.0, u.0), u.1)) (skip-Reaches text unicode_is_newline q r.1))

    skip_stays : (test : ℕ → Bool) → test char.0 ≡ false → skip text test p ≡ some p
    unfolding skip skip_while
    skip_stays test h = rw (lt→ltb p (length text) lt, e, ◌>>=◌, h)

    next_is_lem : (test : ℕ → Bool) → next_is text test p ≡ some (test char.0)
    unfolding next_is
    next_is_lem test = rw (lt→ltb p (length text) lt, e, ◌>>=◌)

    -- Behind the white space stands a newline, or the pointer goes to the end.
    blank_ends :
        (q : ℕ)
        → Passes text p q
        → Returns (Passes text p) (
            next_is text unicode_is_newline q >>= λ newline.
            if newline then skip text unicode_is_newline q else some (length text))
    blank_ends q r =
        Returns-bind (λ newline. Unit {0}) (Passes text p) (next_is text unicode_is_newline q) _
          (next_is-Returns text unicode_is_newline q r.1)
          (λ newline _.
            Returns-if (Passes text p) newline (skip text unicode_is_newline q) (some (length text))
              (λ _.
                Returns-map (Reaches text q) (Passes text p) (skip text unicode_is_newline q)
                  (λ t u. (omega (arith, r.0, u.0), u.1))
                  (skip-Reaches text unicode_is_newline q r.1))
              (λ _. (lt, Boundary-length text)))

    skip_blank-Passes :
        unicode_is_space char.0 ≡ true → Returns (Passes text p) (skip_blank isalpha isdigit text p)
    skip_blank-Passes h = elim (Bool-cases (unicode_is_newline char.0)) [
      | inr inline ↦
          Returns-bind (Passes text p) (Passes text p) (skip text blank p) _
            (skip-Passes text blank p char e lt positive next (rw (h, inline) refl)) blank_ends
      | inl newline ↦
          rw
            (
              skip_stays blank (rw (h, newline) refl),
              ◌>>=◌,
              next_is_lem unicode_is_newline,
              newline,
            )
            (skip-Passes text unicode_is_newline p char e lt positive next newline)
    ]
      where
        blank : ℕ → Bool
        blank cp = unicode_is_space cp && not (unicode_is_newline cp)

    symbol_end-Passes :
        ((leb 128 char.0 || char.1 == 1) ≡ true)
        → Returns (Passes text p) (symbol_end isalpha isdigit text p char)
    unfolding symbol_end
    symbol_end-Passes ascii =
        Returns-bind (λ symbol_next. symbol_next ≡ true → Boundary text (p + 1)) (Passes text p)
          (if char.0 == b' ' then next_is text (is_symbol isalpha isdigit) (p + 1) else some false)
          _
          (Returns-if _ (char.0 == b' ') _ (some false)
            (λ blank.
              let one : char.1 ≡ 1 = ground (arith, ascii, blank) in
              let b : Boundary text (p + 1) = subst (λ n. Boundary text (p + n)) one next in
              Returns-map (Anything text) _ (next_is text (is_symbol isalpha isdigit) (p + 1))
                (λ _ _ _. b) (next_is-Returns text (is_symbol isalpha isdigit) (p + 1) b))
            (λ _ h. absurd (false≢true h)))
          (λ symbol_next behind.
            Returns-if (Passes text p) symbol_next _ _
              (λ h.
                Returns-map (Reaches text (p + 1)) (Passes text p)
                  (skip_symbols isalpha isdigit text (p + 1)) (λ q r. (omega (arith, r.0), r.1))
                  (skip_symbols-Reaches (p + 1) (behind h)))
              (λ _.
                Returns-if (Passes text p) (unicode_is_space char.0) _ (some (p + char.1))
                  skip_blank-Passes (λ _. (omega arith, next))))

    letters-Passes : Returns (Passes text p) (skip text isalpha (p + char.1))
    letters-Passes =
        Returns-map (Reaches text (p + char.1)) (Passes text p) (skip text isalpha (p + char.1))
          (λ q r. (omega (arith, r.0), r.1)) (skip-Reaches text isalpha (p + char.1) next)

    other_end-Passes :
        ((leb 128 char.0 || char.1 == 1) ≡ true)
        → Returns (Passes text p) (other_end isalpha isdigit text p char)
    unfolding other_end
    other_end-Passes ascii =
        Returns-bind (Anything text) (Passes text p)
          (if is_symbol isalpha isdigit char.0
            then next_is text isalpha (p + char.1)
            else some false)
          _
          (Returns-if (Anything text) (is_symbol isalpha isdigit char.0) _ (some false)
            (λ _. next_is-Returns text isalpha (p + char.1) next) (λ _. tt))
          (λ letter_next _.
            Returns-if (Passes text p) letter_next _ _ (λ _. letters-Passes)
              (λ _.
                Returns-if (Passes text p) (isdigit char.0) _ _
                  (skip_digits-Passes text isdigit 2 p char e lt positive next)
                  (λ _.
                    Returns-if (Passes text p) (is_symbol isalpha isdigit char.0) _ _
                      skip_symbols-Passes (λ _. symbol_end-Passes ascii))))

    round-Passes :
        ((leb 128 char.0 || char.1 == 1) ≡ true)
        → Returns (Passes text p) (piece_end isalpha isdigit text p)
    unfolding piece_end
    round-Passes ascii =
        rw (e, ◌>>=◌)
          (Returns-if (Passes text p) (char.0 == 39 && ltb 0 (match_contraction text p)) _ _
            (λ h.
              let (quote, found) = and_true (char.0 == 39) (ltb 0 (match_contraction text p)) h in
              let one : char.1 ≡ 1 = ground (arith, ascii, quote) in
              match_contraction-Passes text p (subst (λ n. Boundary text (p + n)) one next)
                (ltb→lt 0 (match_contraction text p) found))
            (λ _.
              Returns-if (Passes text p) (isalpha char.0) _ _ (λ _. letters-Passes)
                (λ _. other_end-Passes ascii)))

  pub piece_end-Passes :
      (p : ℕ)
      → Boundary text p
      → p < length text
      → Returns (Passes text p) (piece_end isalpha isdigit text p)
  piece_end-Passes p b lt =
      let (char, e, positive, next, ascii) = decode_at-Boundary text p b lt in
      round-Passes p char e lt positive next ascii
