-- ===== src/Cache/Contiguous/Length.antt =====
-- The length that a contiguous cache counts: src/runtime/cache/kv_cache.cpp.
use llmengine.Base.{
  Bool-cases, List, [], ap, arith, if◌then◌else◌, inl, inr, length, length-replicate, map,
  nonpositive, pos, pos_part, refl, replicate, suc, zero, ℕ, ℤ, ◌*◌, ◌+ℤ◌, ◌+◌, ◌||◌, ◌∙◌, ◌∷◌, ◌≡◌,
  ◌≤◌,
}
use llmengine.Cache.Contiguous.{
  Layer, KvCache, clamp, kv_hidden, released, release, init, init_cuda, set_cached_len, advance,
  can_append, reset,
}

-- Every layer holds `max_seq_len` rows of keys and of values.
abbrev pub Sized : {F : Type 0} → ℕ → List (Layer F) → Type 0
Sized n [] = Unit {0}
Sized n (l ∷ ls) = (length l.k ≡ n) × (length l.v ≡ n) × Sized n ls

pub record Valid {F : Type 0} (c : KvCache F) : Type 0 where
  pub bounded : c.cached_len ≤ c.max_seq_len
  pub sized : Sized (c.max_seq_len * kv_hidden c) c.layers

pub data Call : Type 0 where
  inits : ℤ → ℤ → ℤ → ℤ → Call
  inits_cuda : ℤ → ℤ → ℤ → ℤ → Call
  sets_length advances : ℤ → Call
  resets releases : Call

clamp_le : (len : ℤ) (m : ℕ) → clamp len m ≤ m
clamp_le len m = ground arith

length-map : {A B : Type 0} (f : A → B) (xs : List A) → length (map f xs) ≡ length xs
length-map f [] = refl
length-map f (x ∷ xs) = ap suc (length-map f xs)

module _ {F : Type 0} (z : F) where
  unfoldable pub step : KvCache F → Call → KvCache F
  step c (inits layers heads dim len) = init z layers heads dim len c
  step c (inits_cuda layers heads dim len) = (init_cuda layers heads dim len c).1
  step c (sets_length n) = set_cached_len n c
  step c (advances n) = advance n c
  step c resets = reset z c
  step c releases = (release c).1

  unfoldable pub run : KvCache F → List Call → KvCache F
  run c [] = c
  run c (x ∷ xs) = run (step c x) xs

module _ {F : Type 0} where
  Sized-replicate :
      (m n : ℕ) (l : Layer F) → length l.k ≡ n → length l.v ≡ n → Sized n (replicate m l)
  Sized-replicate zero n l p q = tt
  Sized-replicate (suc m) n l p q = (p, q, Sized-replicate m n l p q)

  Sized-map :
      (z : F) (n : ℕ) (ls : List (Layer F))
      → Sized n ls
      → Sized n (map (λ l. record { k = map (λ _. z) l.k; v = map (λ _. z) l.v }) ls)
  Sized-map z n [] h = tt
  Sized-map z n (l ∷ ls) h =
      (length-map (λ _. z) l.k ∙ h.0, length-map (λ _. z) l.v ∙ h.1, Sized-map z n ls h.2)

  released-Valid : Valid (released {F = F})
  released-Valid = record { bounded = omega arith; sized = tt }

  step-Valid : (z : F) (c : KvCache F) (x : Call) → Valid c → Valid (step z c x)
  unfolding step init init_cuda set_cached_len advance reset
  step-Valid z c (inits layers heads dim len) v =
      elim (Bool-cases
        (nonpositive layers || nonpositive heads || nonpositive dim || nonpositive len)) [
          | inl e ↦ rw (e, init) released-Valid
          | inr e ↦
              rw (e, init)
                (record {
                  bounded = omega arith;
                  sized =
                      Sized-replicate (pos_part layers) _ _ (length-replicate _ z)
                        (length-replicate _ z);
                })
        ]
  step-Valid z c (inits_cuda layers heads dim len) v =
      elim (Bool-cases
        (nonpositive layers || nonpositive heads || nonpositive dim || nonpositive len)) [
          | inl e ↦ rw (e, step, init_cuda) released-Valid
          | inr e ↦ rw (e, step, init_cuda) released-Valid
        ]
  step-Valid z c (sets_length n) v = record { bounded = clamp_le n c.max_seq_len; sized = v.sized }
  step-Valid z c (advances n) v = record {
    bounded = clamp_le (pos c.cached_len +ℤ n) c.max_seq_len;
    sized = v.sized;
  }
  step-Valid z c resets v = record { bounded = omega arith; sized = Sized-map z _ c.layers v.sized }
  step-Valid z c releases v = released-Valid

  -- From any cache that is valid, every history of calls ends in a cache that is: the counted length
  -- is within the capacity, and every layer holds the rows of the capacity.
  pub run-Valid : (z : F) (c : KvCache F) (xs : List Call) → Valid c → Valid (run z c xs)
  unfolding run
  run-Valid z c [] v = v
  run-Valid z c (x ∷ xs) v = run-Valid z (step z c x) xs (step-Valid z c x v)

  -- In a valid cache `can_append` decides whether n more rows are counted exactly; where it denies
  -- that of a number, the count stops at the capacity.
  pub advance-can_append :
      (n : ℕ) (c : KvCache F)
      → Valid c
      → (advance (pos n) c).cached_len
        ≡ (if can_append (pos n) c then c.cached_len + n else c.max_seq_len)
  unfolding advance set_cached_len can_append ◌+ℤ◌
  advance-can_append n c v = ground (arith, v.bounded)
