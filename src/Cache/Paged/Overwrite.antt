-- ===== src/Cache/Paged/Overwrite.antt =====
-- The loop of `write_tokens` in src/runtime/cache/paged_kv_cache.cpp, against a write to the map of
-- known elements.
use llmengine.Base.{
  Bool, Bool-cases, List, arith, false, get_or, if◌then◌else◌, inl, inr, length, pos, refl, suc,
  true, zero, ℕ, ◌*◌, ◌+◌, ◌-◌, ◌<◌, ◌∙◌, ◌≡◌, ◌≤◌,
}
use llmengine.Core.Status.{ok, make_ok}
use llmengine.Cache.Paged.{PagedKvCache, kv_hidden}
use llmengine.Cache.Paged.Blocks.{}
use llmengine.Cache.Paged.Tokens.{
  Ptr, row_index, no_such_layer, mutable_token_ptr, memcpy, row, write_token, write_loop,
}
use llmengine.Cache.Paged.Invariant.{Inv}
use llmengine.Cache.Paged.Addresses.{block_of}
use llmengine.Cache.Paged.Isolation.{length-memcpy, written_token}
use llmengine.Cache.Paged.Writing.{SameTables-Inv, write_token-SameTables}
use llmengine.Cache.Paged.Contents.{buffer, in_rows}
use llmengine.Cache.Paged.Cells.{IsStored, Mapped, cell, Mapped-physical, memcpy-IsStored}
use llmengine.Cache.Paged.ReadBack.{Ready, written_cell_self, written_cell_other}

one_row : (w t n len : ℕ) → (t + suc n) * w ≤ len → t * w + w ≤ len
one_row w t n len h = grind arith

module _ {F : Type 0} where
  -- The conditions of the loop, with `n` rounds left from round `t` on.
  pub record Writable (c : PagedKvCache F) (id layer start n t : ℕ) (k v : List F) : Type 0 where
    pub inv : Inv c
    pub size : 0 < c.block_size
    pub stored : IsStored c
    pub within : layer < length c.layers
    pub mapped : (p : ℕ) → p < start + t + n → Mapped c id p
    pub keys : (t + n) * kv_hidden c ≤ length k
    pub values : (t + n) * kv_hidden c ≤ length v

  pub Writable-Ready :
      (c : PagedKvCache F) (id layer start n t : ℕ) (k v : List F)
      → Writable c id layer start (suc n) t k v
      → Ready c id (start + t) layer t k v
  Writable-Ready c id layer start n t k v w = record {
    inv = w.inv;
    size = w.size;
    stored = w.stored;
    within = w.within;
    mapped = w.mapped (start + t) (omega arith);
    keys = one_row (kv_hidden c) t n (length k) w.keys;
    values = one_row (kv_hidden c) t n (length v) w.values;
  }

  pub write_token-Ready :
      (c : PagedKvCache F) (id p layer t : ℕ) (k v : List F)
      → Ready c id p layer t k v
      → write_token (pos id) (pos layer) p t k v c
        ≡ ok (written_token (pos layer) (block_of c id p) p t k v c)
  unfolding write_token mutable_token_ptr
  write_token-Ready c id p layer t k v r =
      let inside : no_such_layer (pos layer) c ≡ false = ground (arith, r.within) in
      rw (inside, Mapped-physical c id p r.mapped) refl

  pub written-Writable :
      (c : PagedKvCache F) (id layer start n t : ℕ) (k v : List F)
      → Writable c id layer start (suc n) t k v
      → Writable
          (written_token (pos layer) (block_of c id (start + t)) (start + t) t k v c)
          id
          layer
          start
          n
          (suc t)
          k
          v
  unfolding memcpy
  written-Writable c id layer start n t k v w = record {
    inv =
        SameTables-Inv
          (write_token-SameTables (pos id) (pos layer) (start + t) t k v c r
            (write_token-Ready c id (start + t) layer t k v ready))
          w.inv;
    size = w.size;
    stored =
        memcpy-IsStored (record at { key = false }) (row (kv_hidden c) t v) first
          (memcpy-IsStored at (row (kv_hidden c) t k) c w.stored);
    within = omega (
      arith,
      w.within,
      length-memcpy at (row (kv_hidden c) t k) c,
      length-memcpy (record at { key = false }) (row (kv_hidden c) t v) first,
    );
    mapped = λ p h. w.mapped p (omega (arith, h));
    keys = rw (shift t n) w.keys;
    values = rw (shift t n) w.values;
  }
    where
      ready : Ready c id (start + t) layer t k v
      ready = Writable-Ready c id layer start n t k v w

      at : Ptr
      at = record {
        key = true;
        layer = layer;
        index = row_index c (block_of c id (start + t)) (start + t);
      }

      first : PagedKvCache F
      first = memcpy at (row (kv_hidden c) t k) c

      r : PagedKvCache F
      r = written_token (pos layer) (block_of c id (start + t)) (start + t) t k v c

      shift : (t n : ℕ) → suc t + n ≡ t + suc n
      shift t n = omega arith

  -- What round `t` and the later ones are to leave at one place.
  abbrev pub overwritten :
      F → ℕ → ℕ → ℕ → ℕ → ℕ → ℕ → List F → List F → Bool → ℕ → ℕ → ℕ → ℕ → F → F
  overwritten d w id layer start t n k v key l id' p i x =
      if in_rows id layer (start + t) n l id' p
      then get_or (buffer key k v) ((p - start) * w + i) d
      else x

  one_round :
      (c : PagedKvCache F) (id layer start n t : ℕ) (k v : List F) (key : Bool) (l id' p i : ℕ)
      (d : F)
      → Ready c id (start + t) layer t k v
      → Mapped c id' p
      → i < kv_hidden c
      → overwritten d (kv_hidden c) id layer start (suc t) n k v key l id' p i (
          cell d key l id' p i
            (written_token (pos layer) (block_of c id (start + t)) (start + t) t k v c))
        ≡ overwritten d
            (kv_hidden c)
            id
            layer
            start
            t
            (suc n)
            k
            v
            key
            l
            id'
            p
            i
            (cell d key l id' p i c)
  one_round c id layer start n t k v key l id' p i d r m h =
      elim (Bool-cases (in_rows id layer (start + t) 1 l id' p)) [
        | inl e ↦
            let a : id ≡ id' = ground (arith, e) in
            let b : layer ≡ l = ground (arith, e) in
            let q : p ≡ start + t = ground (arith, e) in
            let z : p - start ≡ t = omega (arith, q) in
            let this = written_cell_self c id (start + t) layer t i k v key d r h in
            rw⁻¹ (a, b) (rw (z, q) (ground (arith, this)))
        | inr e ↦
            let kept =
              written_cell_other c id (start + t) layer t i l id' p k v key d r h m
                (λ a b g. absurd (ground (arith, a, b, g, e))) in
            rw kept (ground (arith, e))
      ]

  -- The loop succeeds, and leaves its rows in place and the other elements as they were.
  pub write_loop-cell :
      (n t : ℕ) (c : PagedKvCache F) (id layer start : ℕ) (k v : List F) (key : Bool)
      (l id' p i : ℕ) (d : F)
      → Writable c id layer start n t k v
      → Mapped c id' p
      → i < kv_hidden c
      → ((write_loop (pos id) (pos layer) start k v n t c).0 ≡ make_ok)
        × (cell d key l id' p i (write_loop (pos id) (pos layer) start k v n t c).1
            ≡ overwritten d
                (kv_hidden c)
                id
                layer
                start
                t
                n
                k
                v
                key
                l
                id'
                p
                i
                (cell d key l id' p i c))
  unfolding write_loop
  write_loop-cell zero t c id layer start k v key l id' p i d w m h = (refl, ground arith)
  write_loop-cell (suc n) t c id layer start k v key l id' p i d w m h =
      let ready = Writable-Ready c id layer start n t k v w in
      let rest =
        write_loop-cell n (suc t)
          (written_token (pos layer) (block_of c id (start + t)) (start + t) t k v c) id layer start
          k v key l id' p i d (written-Writable c id layer start n t k v w) m h in
      rw (write_token-Ready c id (start + t) layer t k v ready, write_loop)
        (rest.0, rest.1 ∙ one_round c id layer start n t k v key l id' p i d ready m h)
