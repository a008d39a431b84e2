-- ===== src/Memory/Lists.antt =====
-- The free lists and the list of live buffers of src/runtime/memory_planner.cpp: a buffer stands in
-- one of them, once, and a free one is used no longer.
use llmengine.Base.{
  Bool-cases, List, [], arith, get_or, inl, inr, length, ltb, refl, subst, sym, true, ℕ, ◌+◌, ◌<◌,
  ◌∷◌, ◌≡◌, ◌≤◌,
}
use llmengine.Core.DType.{}
use llmengine.Memory.{Buffer}
use llmengine.Memory.Pool.{PoolKey, same_key, buffer_key, Entry, emplace, no_buffer, update, drain}
use llmengine.Memory.Entries.{times, Every, Every-map, emplace-Every, times-emplace}

pub same_key_sym : (a b : PoolKey) → same_key a b ≡ true → same_key b a ≡ true
same_key_sym a b h = ground (arith, h)

pub same_key_trans :
    (a b c : PoolKey) → same_key a b ≡ true → same_key b c ≡ true → same_key a c ≡ true
same_key_trans a b c h k = ground (arith, h, k)

pub same_key_refl : (a : PoolKey) → same_key a a ≡ true
same_key_refl a = ground arith

abbrev pub buffer_at : List Buffer → ℕ → Buffer
buffer_at bs b = get_or bs b no_buffer

-- A live entry holds the last use of its buffer.
abbrev pub Live : List Buffer → Entry → Type 0
Live bs e = (e.buffer < length bs) × (e.rank ≡ (buffer_at bs e.buffer).last_use)

-- An entry of the free list of `k` is a buffer of that key, with its bytes, whose last use is over.
abbrev pub Free : List Buffer → ℕ → PoolKey → Entry → Type 0
Free bs now k e =
    (e.buffer < length bs)
    × (e.rank ≡ (buffer_at bs e.buffer).bytes)
    × (same_key (buffer_key (buffer_at bs e.buffer)) k ≡ true)
    × ((buffer_at bs e.buffer).last_use < now)

pub record Lists (bs : List Buffer) (now : ℕ) (live : List Entry) (free : PoolKey → List Entry)
    : Type 0 where
  pub once : (k : PoolKey) (b : ℕ) → times b live + times b (free k) ≤ 1
  pub live_ok : Every (Live bs) live
  pub free_ok : (k : PoolKey) → Every (Free bs now k) (free k)
  pub respects : (j k : PoolKey) → same_key j k ≡ true → free j ≡ free k

pub Lists-later :
    (bs : List Buffer) (now later : ℕ) (live : List Entry) (free : PoolKey → List Entry)
    → now ≤ later
    → Lists bs now live free
    → Lists bs later live free
Lists-later bs now later live free h l = record {
  once = l.once;
  live_ok = l.live_ok;
  free_ok = λ k.
      Every-map (Free bs now k) (Free bs later k) (free k)
        (λ e f. (f.0, f.1, f.2, omega (arith, h, f.3))) (l.free_ok k);
  respects = l.respects;
}

same_key-cases : (k j j' : PoolKey) → same_key j j' ≡ true → same_key k j ≡ same_key k j'
same_key-cases k j j' h = ground (arith, h)

-- One key of the pools changes, for all its spellings.
pub update-respects :
    (free : PoolKey → List Entry) (k : PoolKey) (v : List Entry)
    → ((j j' : PoolKey) → same_key j j' ≡ true → free j ≡ free j')
    → (j j' : PoolKey) → same_key j j' ≡ true
    → update free k v j ≡ update free k v j'
update-respects free k v r j j' h = rw (same_key-cases k j j' h, r j j' h) refl

-- A live buffer becomes free.
release-Lists :
    (bs : List Buffer) (now : ℕ) (e : Entry) (live : List Entry) (free : PoolKey → List Entry)
    → e.rank < now
    → Lists bs now (e ∷ live) free
    → let b = buffer_at bs e.buffer in
      Lists bs now live (
        update free
          (buffer_key b)
          (emplace (record { rank = b.bytes; buffer = e.buffer }) (free (buffer_key b))))
release-Lists bs now e live free lt l = record {
  once = λ j x. elim (Bool-cases (same_key k j)) [
    | inl t ↦ rw t (omega (arith, l.once k x, times-emplace x moved (free k)))
    | inr f ↦ rw f (omega (arith, l.once j x))
  ];
  live_ok = l.live_ok.1;
  free_ok = λ j. elim (Bool-cases (same_key k j)) [
    | inl t ↦ rw t (
        emplace-Every (Free bs now j) moved (free k)
          (l.live_ok.0.0, refl, t, omega (arith, lt, l.live_ok.0.1))
          (subst (λ es. Every (Free bs now j) es) (sym (l.respects k j t)) (l.free_ok j)))
    | inr f ↦ rw f (l.free_ok j)
  ];
  respects = update-respects free k (emplace moved (free k)) l.respects;
}
  where
    k : PoolKey
    k = buffer_key (buffer_at bs e.buffer)

    moved : Entry
    moved = record { rank = (buffer_at bs e.buffer).bytes; buffer = e.buffer }

pub drain-Lists :
    (bs : List Buffer) (now : ℕ) (live : List Entry) (free : PoolKey → List Entry)
    → Lists bs now live free
    → Lists bs now (drain bs now live free).0 (drain bs now live free).1
unfolding drain
drain-Lists bs now [] free l = l
drain-Lists bs now (e ∷ live) free l = elim (Bool-cases (ltb e.rank now)) [
  | inl t ↦
      rw t (drain-Lists bs now live _ (release-Lists bs now e live free (ground (arith, t)) l))
  | inr f ↦ rw f l
]
