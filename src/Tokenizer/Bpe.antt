-- ===== src/Tokenizer/Bpe.antt =====
-- `bpe` of src/io/bpe_tokenizer.cpp, which merges the characters of a word into tokens.
pub mod Greedy
pub mod Search
pub mod Links
pub mod Chain
pub mod Fuel
pub mod Loop
pub mod Linking
pub mod Words
use llmengine.Base.{
  List, Option, [], get_or, if◌then◌else◌, length, ltb, ltb_ℤ, negsuc, none, pos, set, some, sub_ℕ,
  suc, zero, ℕ, ℤ, ◌&&◌, ◌*◌, ◌++◌, ◌+◌, ◌-◌, ◌^◌, ◌∷◌,
}
use llmengine.Io.Metadata.{same_string}
use llmengine.Tokenizer.Bytes.{Bytes, ◌>>=◌, slice, utf8_char_len}

-- The maps of the tokenizer: a list of writes, the last one first.
abbrev pub Ids : Type 0
Ids = List (Bytes × ℤ)

abbrev pub Ranks : Type 0
Ranks = List ((Bytes × Bytes) × ℤ)

-- `vocab_map_.find`
unfoldable pub find_id : Ids → Bytes → Option ℤ
find_id [] text = none
find_id ((t, id) ∷ ids) text = if same_string t text then some id else find_id ids text

-- `bpe_ranks_.find`
unfoldable pub find_rank : Ranks → Bytes → Bytes → Option ℤ
find_rank [] a b = none
find_rank (((s, t), rank) ∷ ranks) a b =
    if same_string s a && same_string t b then some rank else find_rank ranks a b

-- `next` is `none` where the source has -1.
pub record Symbol : Type 0 where
  pub text : Bytes
  pub prev : ℤ
  pub next : Option ℕ

abbrev pub symbol_at : List Symbol → ℕ → Symbol
symbol_at symbols i = get_or symbols i (record { text = []; prev = negsuc 0; next = none })

-- The first loop: the characters of the word from `p` on.
unfoldable pub split_loop : Bytes → ℕ → ℕ → Option (List Bytes)
split_loop word zero p = if ltb p (length word) then none else some []
split_loop word (suc fuel) p =
    let q = p + utf8_char_len (get_or word p 0) in
    let round = slice word p q >>= λ char. split_loop word fuel q >>= λ rest. some (char ∷ rest) in
    if ltb p (length word) then round else some []

-- `symbols[i].prev = i - 1`, and `next`: the texts from number `i` of `n` on.
unfoldable pub link : ℕ → ℕ → List Bytes → List Symbol
link n i [] = []
link n i (t ∷ ts) =
    record { text = t; prev = sub_ℕ i 1; next = if ltb (i + 1) n then some (i + 1) else none }
    ∷ link n (i + 1) ts

-- INT32_MAX
abbrev pub int32_max : ℤ
int32_max = pos (2 ^ 31 - 1)

-- `best_rank` and `best_idx`, `none` where the source has -1.
abbrev pub Best : Type 0
Best = ℤ × Option ℕ

module _ (ranks : Ranks) where
  -- The body of the search: symbol `i` of the list with the one behind it.
  unfoldable pub better : List Symbol → ℕ → Best → Best
  better symbols i best = elim (symbol_at symbols i).next [
    | none ↦ best
    | some j ↦ elim (find_rank ranks (symbol_at symbols i).text (symbol_at symbols j).text) [
      | none ↦ best
      | some rank ↦ if ltb_ℤ rank best.0 then (rank, some i) else best
    ]
  ]

  -- The search over the first `n` symbols.
  unfoldable pub search_best : List Symbol → ℕ → Best
  search_best symbols zero = (int32_max, none)
  search_best symbols (suc n) = better symbols n (search_best symbols n)

unfoldable pub set_prev : ℤ → ℕ → List Symbol → List Symbol
set_prev p i [] = []
set_prev p zero (s ∷ ss) = record s { prev = p } ∷ ss
set_prev p (suc i) (s ∷ ss) = s ∷ set_prev p i ss

-- The symbol that takes in the one behind it, number `j`.
abbrev pub joined : List Symbol → ℕ → ℕ → Symbol
joined symbols b j = record (symbol_at symbols b) {
  text = (symbol_at symbols b).text ++ (symbol_at symbols j).text;
  next = (symbol_at symbols j).next;
}

-- The symbol behind both, if there is one, points back to symbol `b`.
unfoldable pub relink : Option ℕ → ℕ → List Symbol → List Symbol
relink none b symbols = symbols
relink (some k) b symbols = set_prev (pos b) k symbols

-- Symbol `b` takes in symbol `j`.
unfoldable pub merge_with : Option ℕ → List Symbol → ℕ → List Symbol
merge_with none symbols b = symbols
merge_with (some j) symbols b =
    set_prev (negsuc 1) j (relink (symbol_at symbols j).next b (set symbols b (joined symbols b j)))

-- The end of a round: symbol `b` takes in the one behind it.
unfoldable pub merge : List Symbol → ℕ → List Symbol
merge symbols b = merge_with (symbol_at symbols b).next symbols b

-- `while (true)`; `none` is the end of the fuel.
unfoldable pub merge_loop : Ranks → ℕ → List Symbol → Option (List Symbol)
merge_loop ranks zero symbols = none
merge_loop ranks (suc fuel) symbols = elim (search_best ranks symbols (length symbols)).1 [
  | none ↦ some symbols
  | some b ↦ merge_loop ranks fuel (merge symbols b)
]

-- An id that is found is pushed.
abbrev pub push_id : Option ℤ → List ℤ → List ℤ
push_id none ids = ids
push_id (some id) ids = id ∷ ids

-- `while (cur >= 0)`
unfoldable pub walk : Ids → List Symbol → ℕ → Option ℕ → Option (List ℤ)
walk vocab symbols fuel none = some []
walk vocab symbols zero (some cur) = none
walk vocab symbols (suc fuel) (some cur) =
    walk vocab symbols fuel (symbol_at symbols cur).next >>= λ rest.
    some (push_id (find_id vocab (symbol_at symbols cur).text) rest)

-- The first symbol whose `prev` is -1.
unfoldable pub first_symbol : ℕ → List Symbol → Option ℕ
first_symbol i [] = none
first_symbol i (s ∷ ss) = elim s.prev [
  | negsuc zero ↦ some i
  | negsuc (suc n) ↦ first_symbol (i + 1) ss
  | pos n ↦ first_symbol (i + 1) ss
]

-- The loop that collects the result. The links go forward, so a walk takes a round for a symbol at most.
unfoldable pub collect : Ids → List Symbol → Option (List ℤ)
collect vocab symbols = elim (first_symbol 0 symbols) [
  | none ↦ some []
  | some i ↦ walk vocab symbols (length symbols) (some i)
]

-- A merge moves a link forward, over at most as many symbols as there are, or ends it.
abbrev pub merge_fuel : ℕ → ℕ
merge_fuel n = suc (n * n)

-- Two symbols or more.
unfoldable pub merge_all : Ids → Ranks → List Bytes → Option (List ℤ)
merge_all vocab ranks texts = do
  symbols ← merge_loop ranks (merge_fuel (length texts)) (link (length texts) 0 texts)
  collect vocab symbols

-- One symbol is looked up; no symbol gives nothing.
unfoldable pub bpe_symbols : Ids → Ranks → List Bytes → Option (List ℤ)
bpe_symbols vocab ranks [] = some []
bpe_symbols vocab ranks (t ∷ []) = some (push_id (find_id vocab t) [])
bpe_symbols vocab ranks (t ∷ u ∷ ts) = merge_all vocab ranks (t ∷ u ∷ ts)

-- The characters of a word. A round takes a byte at least.
unfoldable pub characters : Bytes → Option (List Bytes)
unfolding split_loop
characters word = split_loop word (length word) 0

unfoldable pub bpe : Ids → Ranks → Bytes → Option (List ℤ)
unfolding characters
bpe vocab ranks word = characters word >>= bpe_symbols vocab ranks
