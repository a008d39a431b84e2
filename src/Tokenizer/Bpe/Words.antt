-- ===== src/Tokenizer/Bpe/Words.antt =====
-- The ids of `bpe` in src/io/bpe_tokenizer.cpp and the greedy merges of a word.
use llmengine.Base.{
  List, Option, Option-cases, Returns, [], ap, arith, inl, inr, length, negsuc, none, refl, some,
  subst, suc, sym, zero, ℕ, ℤ, ◌*◌, ◌+◌, ◌<◌, ◌∙◌, ◌∷◌, ◌≡◌, ◌≤◌,
}
use llmengine.Tokenizer.Bytes.{Bytes, ◌>>=◌, Returns-bind}
use llmengine.Tokenizer.Bpe.{
  Ids, Ranks, find_id, Symbol, symbol_at, link, int32_max, merge_loop, push_id, walk, first_symbol,
  collect, merge_fuel, merge_all, bpe_symbols, characters, bpe,
}
use llmengine.Tokenizer.Bpe.Links.{Linked}
use llmengine.Tokenizer.Bpe.Search.{pair_rank}
use llmengine.Tokenizer.Bpe.Greedy.{Reduces, done}
use llmengine.Tokenizer.Bpe.Chain.{Chain}
use llmengine.Tokenizer.Bpe.Fuel.{gaps-le}
use llmengine.Tokenizer.Bpe.Loop.{Ended, merge_loop-Ended}
use llmengine.Tokenizer.Bpe.Linking.{length-link, prev-link, link-Linked, link-Chain}

-- The ids of texts; one that the vocabulary lacks has none.
abbrev pub ids_of : Ids → List Bytes → List ℤ
ids_of vocab [] = []
ids_of vocab (t ∷ ts) = push_id (find_id vocab t) (ids_of vocab ts)

walk-ids_of :
    (vocab : Ids) (ss : List Symbol) (fuel : ℕ) (c : Option ℕ) (ts : List Bytes)
    → Chain ss c ts
    → length ts ≤ fuel
    → walk vocab ss fuel c ≡ some (ids_of vocab ts)
unfolding walk
walk-ids_of vocab ss fuel none [] ch enough = refl
walk-ids_of vocab ss fuel none (t ∷ ts) ch enough = absurd ch
walk-ids_of vocab ss fuel (some i) [] ch enough = absurd ch
walk-ids_of vocab ss zero (some i) (t ∷ ts) ch enough = absurd (omega arith)
walk-ids_of vocab ss (suc fuel) (some i) (t ∷ ts) (within, same, rest) enough =
    rw (walk-ids_of vocab ss fuel (symbol_at ss i).next ts rest (omega arith), ◌>>=◌)
      (ap (λ u. some (push_id (find_id vocab u) (ids_of vocab ts))) same)

Chain-length :
    (ss : List Symbol) (i : ℕ) (ts : List Bytes)
    → Linked ss
    → Chain ss (some i) ts
    → i + length ts ≤ length ss
Chain-length ss i [] linked ch = absurd ch
Chain-length ss i (t ∷ ts) linked (within, same, rest) = elim (Option-cases (symbol_at ss i).next) [
  | inl last ↦ alone ts (subst (λ c. Chain ss c ts) last rest)
  | inr (k, forth) ↦ omega (
    arith,
    (linked i k forth).0,
    Chain-length ss k ts linked (subst (λ c. Chain ss c ts) forth rest),
  )
]
  where
    alone : (ts : List Bytes) → Chain ss none ts → i + suc (length ts) ≤ length ss
    alone [] ch = omega arith
    alone (u ∷ us) ch = absurd ch

first_symbol_lem :
    (ss : List Symbol)
    → 0 < length ss
    → (symbol_at ss 0).prev ≡ negsuc 0
    → first_symbol 0 ss ≡ some 0
unfolding first_symbol
first_symbol_lem [] h e = absurd (omega arith)
first_symbol_lem (s ∷ ss) h e = rw e

collect-ids_of :
    (vocab : Ids) (ss : List Symbol) (ts : List Bytes)
    → 0 < length ss
    → (symbol_at ss 0).prev ≡ negsuc 0
    → Linked ss
    → Chain ss (some 0) ts
    → collect vocab ss ≡ some (ids_of vocab ts)
unfolding collect
collect-ids_of vocab ss ts h e linked ch =
    rw (first_symbol_lem ss h e, collect)
      (walk-ids_of vocab ss (length ss) (some 0) ts ch
        (omega (arith, Chain-length ss 0 ts linked ch)))

-- The ids are those of the greedy merges of the texts.
abbrev pub Encodes : Ids → Ranks → List Bytes → List ℤ → Type 0
Encodes vocab ranks texts ids =
    (us : List Bytes) × Reduces (pair_rank ranks) int32_max texts us × (ids ≡ ids_of vocab us)

merge_all-Encodes :
    (vocab : Ids) (ranks : Ranks) (t : Bytes) (ts : List Bytes)
    → Returns (Encodes vocab ranks (t ∷ ts)) (merge_all vocab ranks (t ∷ ts))
unfolding merge_all
merge_all-Encodes vocab ranks t ts =
    let n = length (t ∷ ts) in
    let start = link n 0 (t ∷ ts) in
    let size = length-link n 0 (t ∷ ts) in
    Returns-bind (Ended ranks start (t ∷ ts)) (Encodes vocab ranks (t ∷ ts))
      (merge_loop ranks (merge_fuel n) start) (collect vocab)
      (merge_loop-Ended ranks (merge_fuel n) start (t ∷ ts)
        (omega (arith, gaps-le (length start) start, ap (λ k. k * k) size)) (link-Linked (t ∷ ts))
        (link-Chain (t ∷ ts) 0 t ts refl))
      (λ end (us, reduced, chain, forward, first, same).
        subst (Returns (Encodes vocab ranks (t ∷ ts)))
          (sym (
            collect-ids_of vocab end us (omega (arith, same, size)) (first ∙ prev-link n t ts)
              forward chain))
          (us, reduced, refl))

pub bpe_symbols-Encodes :
    (vocab : Ids) (ranks : Ranks) (texts : List Bytes)
    → Returns (Encodes vocab ranks texts) (bpe_symbols vocab ranks texts)
unfolding bpe_symbols
bpe_symbols-Encodes vocab ranks [] = ([], done tt, refl)
bpe_symbols-Encodes vocab ranks (t ∷ []) = (t ∷ [], done tt, refl)
bpe_symbols-Encodes vocab ranks (t ∷ u ∷ ts) = merge_all-Encodes vocab ranks t (u ∷ ts)

-- For every word that is cut into characters, `bpe` returns the ids of the texts that greedy merges
-- make of the characters.
pub bpe-Encodes :
    (vocab : Ids) (ranks : Ranks) (word : Bytes) (texts : List Bytes)
    → characters word ≡ some texts
    → Returns (Encodes vocab ranks texts) (bpe vocab ranks word)
unfolding bpe
bpe-Encodes vocab ranks word texts e =
    subst (λ o. Returns (Encodes vocab ranks texts) (o >>= bpe_symbols vocab ranks)) (sym e)
      (bpe_symbols-Encodes vocab ranks texts)
