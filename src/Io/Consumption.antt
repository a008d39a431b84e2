-- ===== src/Io/Consumption.antt =====
-- How many bytes the readers of src/io/gguf_parser.cpp take.
use llmengine.Base.{
  Bool-cases, List, [], arith, if◌then◌else◌, inl, inr, leb, length, length-drop, ltb, subst, suc,
  zero, ℕ, ◌+◌, ◌∷◌, ◌≤◌,
}
use llmengine.Io.Reader.{
  Stream, Reader, ◌>>=◌, pure, fail, read_bytes, le_value, read_le, read_u64_le, max_string_len,
  read_string, repeat,
}
use llmengine.Core.Status.{invalid_argument, Result, ok, err}

-- A result that leaves at least `k` bytes fewer than `n`.
abbrev pub Leaves : {A : Type 0} → ℕ → ℕ → Result (A × Stream) → Type 0
Leaves k n (ok p) = length p.1 + k ≤ n
Leaves k n (err e) = Unit {0}

-- A reader that takes at least `k` bytes where it succeeds.
abbrev pub Takes : {A : Type 0} → ℕ → Reader A → Type 0
Takes k r = (s : Stream) → Leaves k (length s) (r s)

pub bind-Takes :
    {A B : Type 0} (k m : ℕ) (r : Reader A) (f : A → Reader B)
    → Takes k r
    → ((a : A) → Takes m (f a))
    → Takes (k + m) (r >>= f)
bind-Takes {A = A} k m r f t u s = go (r s) (t s)
  where
    add :
        (n : ℕ) {B : Type 0} (y : Result (B × Stream))
        → n + k ≤ length s
        → Leaves m n y
        → Leaves (k + m) (length s) y
    add n (ok p) h l = omega (arith, l, h)
    add n (err e) h l = tt

    go :
        (x : Result (A × Stream))
        → Leaves k (length s) x
        → Leaves (k + m) (length s) (elim x [ ok (a, rest) ↦ f a rest | err e ↦ err e ])
    go (ok (a, rest)) l = add (length rest) (f a rest) l (u a rest)
    go (err e) l = tt

pub weaken : {A : Type 0} (k : ℕ) (r : Reader A) → Takes k r → Takes 0 r
weaken {A = A} k r t s = go (r s) (t s)
  where
    go : (x : Result (A × Stream)) → Leaves k (length s) x → Leaves 0 (length s) x
    go (ok p) l = omega (arith, l)
    go (err e) l = tt

pub pure-Takes : {A : Type 0} (a : A) → Takes 0 (pure a)
pure-Takes a s = omega arith

pub bind-Takes_0 :
    {A B : Type 0} (r : Reader A) (f : A → Reader B)
    → Takes 0 r
    → ((a : A) → Takes 0 (f a))
    → Takes 0 (r >>= f)
bind-Takes_0 r f t u = bind-Takes 0 0 r f t u

pub read_bytes-Takes : (n : ℕ) → Takes n (read_bytes n)
unfolding read_bytes
read_bytes-Takes n s = elim (Bool-cases (leb n (length s))) [
  | inl e ↦ rw e (ground (arith, length-drop n s))
  | inr e ↦ rw e tt
]

pub read_le-Takes : (n : ℕ) → Takes n (read_le n)
read_le-Takes n =
    subst (λ k. Takes k (read_le n)) (omega arith)
      (bind-Takes n 0 (read_bytes n) (λ bs. pure (le_value bs)) (read_bytes-Takes n)
        (λ bs. pure-Takes (le_value bs)))

-- A number is read and put into a value.
pub number-Takes : {B : Type 0} (n : ℕ) (f : ℕ → B) → Takes 0 (read_le n >>= λ v. pure (f v))
number-Takes n f =
    bind-Takes_0 (read_le n) (λ v. pure (f v)) (weaken n (read_le n) (read_le-Takes n))
      (λ v. pure-Takes (f v))

pub read_string-Takes : Takes 0 read_string
unfolding read_string
read_string-Takes =
    bind-Takes_0 read_u64_le
      (λ n. if ltb max_string_len n then fail invalid_argument else read_bytes n)
      (weaken 8 read_u64_le (read_le-Takes 8))
      (λ n s. elim (Bool-cases (ltb max_string_len n)) [
        | inl e ↦ rw e tt
        | inr e ↦ rw e (weaken n (read_bytes n) (read_bytes-Takes n) s)
      ])

pub repeat-Takes : {A : Type 0} (n : ℕ) (r : Reader A) → Takes 0 r → Takes 0 (repeat n r)
unfolding repeat
repeat-Takes {A = A} zero r t = pure-Takes {A = List A} []
repeat-Takes (suc n) r t =
    bind-Takes_0 r (λ a. repeat n r >>= λ rest. pure (a ∷ rest)) t
      (λ a.
        bind-Takes_0 (repeat n r) (λ rest. pure (a ∷ rest)) (repeat-Takes n r t)
          (λ rest. pure-Takes (a ∷ rest)))
