-- ===== src/Memory/Entries.antt =====
-- Facts on the sorted lists of entries of src/runtime/memory_planner.cpp.
use llmengine.Base.{
  Bool-cases, List, [], ap, arith, if◌then◌else◌, inl, inr, refl, some, subst, sym, ℕ, ◌++◌, ◌+◌,
  ◌<◌, ◌==◌, ◌∙◌, ◌∷◌, ◌≡◌, ◌≢◌, ◌≤◌,
}
use llmengine.Memory.Pool.{Entry, before, emplace, take_fit}
use llmengine.Memory.Fit.{BestFit, take_fit-BestFit}

-- How many entries name the buffer `b`.
abbrev pub times : ℕ → List Entry → ℕ
times b [] = 0
times b (e ∷ es) = (if e.buffer == b then 1 else 0) + times b es

abbrev pub Every : (Entry → Type 0) → List Entry → Type 0
Every P [] = Unit {0}
Every P (e ∷ es) = P e × Every P es

pub Every-map :
    (P Q : Entry → Type 0) (es : List Entry) → ((e : Entry) → P e → Q e) → Every P es → Every Q es
Every-map P Q [] f h = tt
Every-map P Q (e ∷ es) f h = (f e h.0, Every-map P Q es f h.1)

pub emplace-Every :
    (P : Entry → Type 0) (e : Entry) (es : List Entry) → P e → Every P es → Every P (emplace e es)
unfolding emplace
emplace-Every P e [] h all = (h, tt)
emplace-Every P e (x ∷ xs) h all = elim (Bool-cases (before x e)) [
  | inl t ↦ rw t (all.0, emplace-Every P e xs h all.1)
  | inr f ↦ rw f (h, all)
]

pub times-emplace :
    (b : ℕ) (e : Entry) (es : List Entry)
    → times b (emplace e es) ≡ (if e.buffer == b then 1 else 0) + times b es
unfolding emplace
times-emplace b e [] = refl
times-emplace b e (x ∷ xs) = elim (Bool-cases (before x e)) [
  | inl t ↦ rw t (omega (arith, times-emplace b e xs))
  | inr f ↦ rw f refl
]

-- No entry names `b`.
pub Every-absent :
    (P : Entry → Type 0) (b : ℕ) (es : List Entry)
    → times b es ≡ 0
    → Every P es
    → Every (λ e. P e × (e.buffer ≢ b)) es
Every-absent P b [] z h = tt
Every-absent P b (e ∷ es) z h =
    ((h.0, ground (arith, z)), Every-absent P b es (omega (arith, z)) h.1)

pub times_beyond : (n : ℕ) (es : List Entry) → Every (λ e. e.buffer < n) es → times n es ≡ 0
times_beyond n [] h = refl
times_beyond n (e ∷ es) h = ground (arith, h.0, times_beyond n es h.1)

Every-split :
    (P : Entry → Type 0) (pre post : List Entry) (e : Entry)
    → Every P (pre ++ e ∷ post)
    → P e × Every P (pre ++ post)
Every-split P [] post e h = h
Every-split P (x ∷ pre) post e h =
    let rest = Every-split P pre post e h.1 in (rest.0, (h.0, rest.1))

times-split :
    (b : ℕ) (pre post : List Entry) (e : Entry)
    → times b (pre ++ e ∷ post) ≡ (if e.buffer == b then 1 else 0) + times b (pre ++ post)
times-split b [] post e = refl
times-split b (x ∷ pre) post e = omega (arith, times-split b pre post e)

-- What a successful search takes.
pub record Took (need : ℕ) (es : List Entry) (b : ℕ) (others : List Entry) : Type 1 where
  pub rank : ℕ
  pub enough : need ≤ rank
  pub every :
      (P : Entry → Type 0) → Every P es → P (record { rank = rank; buffer = b }) × Every P others
  pub counts : (x : ℕ) → times x es ≡ (if b == x then 1 else 0) + times x others

pub take_fit-Took :
    (need : ℕ) (es : List Entry) (b : ℕ) (others : List Entry)
    → take_fit need es ≡ some (b, others)
    → Took need es b others
take_fit-Took need es b others t = go (subst (λ r. BestFit need es r) t (take_fit-BestFit need es))
  where
    go : BestFit need es (some (b, others)) → Took need es b others
    go (pre, post, bytes, split, rest, enough, short) = record {
      rank = bytes;
      enough = enough;
      every = λ P h. rw rest (
          Every-split P pre post (record { rank = bytes; buffer = b })
            (subst (λ l. Every P l) split h));
      counts = λ x.
          ap (λ l. times x l) split
          ∙ times-split x pre post (record { rank = bytes; buffer = b })
          ∙ ap (λ l. (if b == x then 1 else 0) + times x l) (sym rest);
    }
