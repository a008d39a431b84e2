-- ===== src/Memory/Layout.antt =====
-- The arenas of `MemoryPlanner::plan` in src/runtime/memory_planner.cpp. `arena_info` is the list of
-- its entries in the order of insertion, so that its size is the index of the next arena.
use llmengine.Base.{
  List, Option, Option-cases, [], ap, if◌then◌else◌, inl, inr, length, none, refl, some, suc, zero,
  ℕ, ◌%◌, ◌++◌, ◌+◌, ◌∷◌, ◌≡◌,
}
use llmengine.Memory.{size_mod, align_up, Buffer}
use llmengine.Memory.Pool.{PoolKey, same_key, buffer_key}
use llmengine.Memory.Lists.{buffer_at}

-- An entry: its key, and the index and the next free offset of the arena.
pub record Arena : Type 0 where
  pub key : PoolKey
  pub index : ℕ
  pub used : ℕ

unfoldable pub find_arena : PoolKey → List Arena → Option Arena
find_arena k [] = none
find_arena k (a ∷ rest) =
    let found = find_arena k rest in if same_key a.key k then some a else found

unfoldable pub grow_arena : PoolKey → ℕ → List Arena → List Arena
grow_arena k n [] = []
grow_arena k n (a ∷ rest) =
    let grown = grow_arena k n rest in
    if same_key a.key k then record a { used = n } ∷ rest else a ∷ grown

-- The body of the loop over the buffers.
unfoldable pub place_buffer : ℕ → Buffer → List Arena → Buffer × List Arena
unfolding find_arena grow_arena align_up
place_buffer alignment b info =
    let k = buffer_key b in
    elim (find_arena k info) [
      | none ↦ (
        record b { arena_index = some (length info); offset = 0 },
        info ++ record { key = k; index = length info; used = b.bytes } ∷ [],
      )
      | some a ↦
          let off = align_up a.used alignment in
          (
            record b { arena_index = some a.index; offset = off },
            grow_arena k ((off + b.bytes) % size_mod) info,
          )
    ]

unfoldable pub place_buffers : ℕ → List Buffer → List Arena → List Buffer
unfolding place_buffer
place_buffers alignment [] info = []
place_buffers alignment (b ∷ bs) info =
    let (b', info') = place_buffer alignment b info in b' ∷ place_buffers alignment bs info'

-- The layout changes nothing but the arena and the offset of a buffer.
abbrev pub Same : Buffer → Buffer → Type 0
Same x y =
    (x.id ≡ y.id) × (x.bytes ≡ y.bytes) × (buffer_key x ≡ buffer_key y) × (x.last_use ≡ y.last_use)

place_buffer-Same : (al : ℕ) (b : Buffer) (info : List Arena) → Same (place_buffer al b info).0 b
unfolding place_buffer
place_buffer-Same al b info = elim (Option-cases (find_arena (buffer_key b) info)) [
  | inl e ↦ rw (e, place_buffer) (refl, refl, refl, refl)
  | inr (a, e) ↦ rw (e, place_buffer) (refl, refl, refl, refl)
]

pub place_buffers-Same :
    (al : ℕ) (bs : List Buffer) (info : List Arena) (i : ℕ)
    → (length (place_buffers al bs info) ≡ length bs)
      × Same (buffer_at (place_buffers al bs info) i) (buffer_at bs i)
unfolding place_buffers
place_buffers-Same al [] info i = (refl, (refl, refl, refl, refl))
place_buffers-Same al (b ∷ bs) info zero =
    (ap suc (place_buffers-Same al bs (place_buffer al b info).1 0).0, place_buffer-Same al b info)
place_buffers-Same al (b ∷ bs) info (suc i) =
    let rest = place_buffers-Same al bs (place_buffer al b info).1 i in (ap suc rest.0, rest.1)
