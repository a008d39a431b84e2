-- ===== src/Cache/Paged/Contents.antt =====
-- What a paged cache promises: a map from a layer, a sequence and a position to a row of keys and a
-- row of values. The specification of src/runtime/cache/paged_kv_cache.cpp that forgets the blocks.
use llmengine.Base.{
  Bool, List, Option, false, get_or, if◌then◌else◌, leb, ltb, none, some, true, ℕ, ◌&&◌, ◌*◌, ◌+◌,
  ◌-◌, ◌<◌, ◌==◌, ◌∙◌, ◌≡◌,
}
use llmengine.Core.Status.{}
use llmengine.Cache.Paged.{PagedKvCache, kv_hidden}
use llmengine.Cache.Paged.Blocks.{}
use llmengine.Cache.Paged.Tokens.{}
use llmengine.Cache.Paged.Invariant.{Inv}
use llmengine.Cache.Paged.Addresses.{}
use llmengine.Cache.Paged.Cells.{IsStored, Mapped, cell}
use llmengine.Cache.Paged.Extends.{Extends, Extends-Mapped, Extends-IsStored, Extends-cell}

-- The caller's buffer of keys, or of values.
abbrev pub buffer : {F : Type 0} → Bool → List F → List F → List F
buffer true k v = k
buffer false k v = v

-- The known elements: of the keys or the values, by layer, sequence, position and index in the row.
abbrev pub Contents : Type 0 → Type 0
Contents F = Bool → ℕ → ℕ → ℕ → ℕ → Option F

-- Token `start + t` of a write of `n` rows of width `w`.
abbrev pub in_rows : ℕ → ℕ → ℕ → ℕ → ℕ → ℕ → ℕ → Bool
in_rows id layer start n l id' p = id == id' && layer == l && leb start p && ltb p (start + n)

module _ {F : Type 0} where
  unfoldable pub nothing : Contents F
  nothing key l id p i = none

  -- `n` rows of two buffers are stored from position `start` on.
  unfoldable pub put : F → ℕ → ℕ → ℕ → ℕ → ℕ → List F → List F → Contents F → Contents F
  put d w id layer start n k v m key l id' p i =
      if in_rows id layer start n l id' p && ltb i w
      then some (get_or (buffer key k v) ((p - start) * w + i) d)
      else m key l id' p i

  -- A sequence is forgotten.
  unfoldable pub forget : ℕ → Contents F → Contents F
  forget id m key l id' p i = if id == id' then none else m key l id' p i

  -- The cache is well formed and holds every known element at the address of its token.
  pub record Refines (d : F) (c : PagedKvCache F) (m : Contents F) : Type 0 where
    pub inv : Inv c
    pub stored : IsStored c
    pub reads :
        (key : Bool) (l id p i : ℕ) (x : F)
        → m key l id p i ≡ some x
        → Mapped c id p × (i < kv_hidden c) × (cell d key l id p i c ≡ x)

  pub Extends-Refines :
      (d : F) (c r : PagedKvCache F) (m : Contents F)
      → Extends c r
      → Inv r
      → Refines d c m
      → Refines d r m
  Extends-Refines d c r m e v s = record {
    inv = v;
    stored = Extends-IsStored c r e s.stored;
    reads = λ key l id p i x h.
        (let u = s.reads key l id p i x h in
          (
            Extends-Mapped c r id p e u.0,
            rw (e.num_kv_heads, e.head_dim) u.1,
            Extends-cell c r d key l id p i e u.0 ∙ u.2,
          ));
  }

  pub nothing-Refines : (d : F) (c : PagedKvCache F) → Inv c → IsStored c → Refines d c nothing
  unfolding nothing
  nothing-Refines d c v s = record { inv = v; stored = s; reads = λ key l id p i x h. absurd (cc) }
