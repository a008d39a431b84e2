-- ===== src/Memory/Arenas.antt =====
-- The offsets that `MemoryPlanner::plan` of src/runtime/memory_planner.cpp gives to the buffers of one
-- arena.
use llmengine.Base.{
  List, [], ap, arith, length, some, suc, sym, zero, ℕ, ◌%◌, ◌+◌, ◌<◌, ◌∙◌, ◌∷◌, ◌≡◌, ◌≤◌,
}
use llmengine.Memory.{size_mod, Buffer}
use llmengine.Memory.Lists.{buffer_at}
use llmengine.Memory.Layout.{Arena, place_buffer, place_buffers}
use llmengine.Memory.Offsets.{arena_at, need, Fits, place_buffer-PlacedAt}

-- A buffer in an arena that is known lies above what is used, at a multiple of the alignment.
later_above :
    (al : ℕ) (bs : List Buffer) (info : List Arena) (j x : ℕ)
    → 0 < al
    → Fits al bs info
    → (buffer_at (place_buffers al bs info) j).arena_index ≡ some x
    → ((buffer_at (place_buffers al bs info) j).offset % al ≡ 0)
      × (x < length info → (arena_at info x).used ≤ (buffer_at (place_buffers al bs info) j).offset)
unfolding place_buffers
later_above al [] info j x h f e = absurd (cc)
later_above al (b ∷ bs) info zero x h f e =
    let r = place_buffer-PlacedAt al b bs info h f in
    let same : some r.arena ≡ some x = sym r.known ∙ e in
    let at : r.arena ≡ x = cc in (r.aligned, rw⁻¹ at r.above)
later_above al (b ∷ bs) info (suc j) x h f e =
    let r = place_buffer-PlacedAt al b bs info h f in
    let rest = later_above al bs (place_buffer al b info).1 j x h r.fits e in
    (rest.0, λ g. omega (arith, r.others x g, rest.1 (omega (arith, g, r.longer))))

layout_apart :
    (al : ℕ) (bs : List Buffer) (info : List Arena) (i j x : ℕ)
    → 0 < al
    → Fits al bs info
    → i < j
    → (buffer_at (place_buffers al bs info) i).arena_index ≡ some x
    → (buffer_at (place_buffers al bs info) j).arena_index ≡ some x
    → (buffer_at (place_buffers al bs info) i).offset + (buffer_at bs i).bytes
      ≤ (buffer_at (place_buffers al bs info) j).offset
unfolding place_buffers
layout_apart al bs info i zero x h f lt e e' = absurd (omega (arith, lt))
layout_apart al [] info i (suc j) x h f lt e e' = absurd (cc)
layout_apart al (b ∷ bs) info zero (suc j) x h f lt e e' =
    let r = place_buffer-PlacedAt al b bs info h f in
    let same : some r.arena ≡ some x = sym r.known ∙ e in
    let at : r.arena ≡ x = cc in
    let above =
      (later_above al bs (place_buffer al b info).1 j x h r.fits e').1 (rw⁻¹ at r.inside) in
    omega (arith, above, ap (λ y. (arena_at (place_buffer al b info).1 y).used) at, r.next)
layout_apart al (b ∷ bs) info (suc i) (suc j) x h f lt e e' =
    let r = place_buffer-PlacedAt al b bs info h f in
    layout_apart al bs (place_buffer al b info).1 i j x h r.fits (omega (arith, lt)) e e'

-- The layout of buffers whose bytes, with the alignment of each, stay below the range of `size_t`:
-- every buffer in an arena starts at a multiple of the alignment, and of two buffers in one arena the
-- first ends before the second starts.
pub place_buffers_lem :
    (al : ℕ) (bs : List Buffer) (i j x : ℕ)
    → 0 < al
    → need al bs < size_mod
    → i < j
    → (buffer_at (place_buffers al bs []) i).arena_index ≡ some x
    → (buffer_at (place_buffers al bs []) j).arena_index ≡ some x
    → ((buffer_at (place_buffers al bs []) i).offset % al ≡ 0)
      × ((buffer_at (place_buffers al bs []) j).offset % al ≡ 0)
      × ((buffer_at (place_buffers al bs []) i).offset + (buffer_at bs i).bytes
          ≤ (buffer_at (place_buffers al bs []) j).offset)
place_buffers_lem al bs i j x h small lt e e' =
    let f : Fits al bs [] = record {
      indexed = λ y g. absurd (omega (arith, g));
      room = λ y. omega (arith, small);
    } in
    (
      (later_above al bs [] i x h f e).0,
      (later_above al bs [] j x h f e').0,
      layout_apart al bs [] i j x h f lt e e',
    )
