-- ===== src/Memory/Offsets.antt =====
-- One round of the layout of the arenas in src/runtime/memory_planner.cpp.
use native.Mathlib.Nat.{mod-eq_of_lt}
use llmengine.Base.{
  Bool-cases, List, Option-cases, [], ap, arith, dec_lt, get_or, get_or-append_last,
  get_or-append_left, get_or-set_ne, get_or-set_self, get_or_beyond, inl, inr, length,
  length-append, length-set, refl, set, some, suc, sym, ℕ, ℕ_discrete, ◌%◌, ◌++◌, ◌+◌, ◌<◌, ◌∙◌,
  ◌∷◌, ◌≡◌, ◌≢◌, ◌≤◌,
}
use llmengine.Memory.{size_mod, align_up, Buffer, align_up_lem}
use llmengine.Memory.Pool.{PoolKey, same_key, buffer_key, no_buffer}
use llmengine.Memory.Layout.{Arena, find_arena, grow_arena, place_buffer}

abbrev pub no_arena : Arena
no_arena = record { key = buffer_key no_buffer; index = 0; used = 0 }

abbrev pub arena_at : List Arena → ℕ → Arena
arena_at info x = get_or info x no_arena

-- What the buffers take at most, with the alignment of each.
abbrev pub need : ℕ → List Buffer → ℕ
need al [] = 0
need al (b ∷ bs) = b.bytes + al + need al bs

-- The entries stand in the order of their indices, and none passes the range of `size_t`.
pub record Fits (al : ℕ) (bs : List Buffer) (info : List Arena) : Type 0 where
  pub indexed : (x : ℕ) → x < length info → (arena_at info x).index ≡ x
  pub room : (x : ℕ) → (arena_at info x).used + need al bs < size_mod

-- The entry that a search finds is the one that grows.
pub record Found (k : PoolKey) (info : List Arena) (a : Arena) : Type 0 where
  place : ℕ
  pub inside : place < length info
  entry : arena_at info place ≡ a
  grown : (n : ℕ) → grow_arena k n info ≡ set info place (record a { used = n })

find_arena-Found :
    (k : PoolKey) (info : List Arena) (a : Arena) → find_arena k info ≡ some a → Found k info a
unfolding find_arena grow_arena
find_arena-Found k [] a = λ e. absurd (cc)
find_arena-Found k (x ∷ rest) a = elim (Bool-cases (same_key x.key k)) [
  | inl t ↦ rw t (λ e.
      let same : x ≡ a = cc in
      record { place = 0; inside = omega arith; entry = same; grown = λ n. rw (t, same) refl })
  | inr f ↦ rw f (λ e.
      let r = find_arena-Found k rest a e in
      record {
        place = suc r.place;
        inside = omega (arith, r.inside);
        entry = r.entry;
        grown = λ n. rw f (ap (λ l. x ∷ l) (r.grown n));
      })
]

-- What one round does.
pub record PlacedAt (al : ℕ) (b : Buffer) (bs : List Buffer) (info : List Arena) (b' : Buffer)
    (info' : List Arena) : Type 0 where
  pub arena : ℕ
  pub known : b'.arena_index ≡ some arena
  pub aligned : b'.offset % al ≡ 0
  pub above : arena < length info → (arena_at info arena).used ≤ b'.offset
  pub longer : length info ≤ length info'
  pub inside : arena < length info'
  pub next : (arena_at info' arena).used ≡ b'.offset + b.bytes
  pub others : (x : ℕ) → x < length info → (arena_at info x).used ≤ (arena_at info' x).used
  pub fits : Fits al bs info'

new_arena :
    (al : ℕ) (b : Buffer) (bs : List Buffer) (info : List Arena)
    → 0 < al
    → Fits al (b ∷ bs) info
    → PlacedAt al b bs info
        (record b { arena_index = some (length info); offset = 0 })
        (info ++ record { key = buffer_key b; index = length info; used = b.bytes } ∷ [])
new_arena al b bs info h f = (record {
  arena = length info;
  known = refl;
  aligned = mod-eq_of_lt h;
  above = λ g. absurd (omega (arith, g));
  longer = omega (arith, length-append info (made ∷ []));
  inside = omega (arith, length-append info (made ∷ []));
  next = rw this (omega arith);
  others = λ x h. rw (that x h) (omega arith);
  fits = record {
    indexed = λ x g. elim (ℕ_discrete x (length info)) [
      | yes q ↦ rw q (rw this refl)
      | no n ↦
          let lt : x < length info = omega (arith, g, n, length-append info (made ∷ [])) in
          rw (that x lt) (f.indexed x lt)
    ];
    room = λ x. elim (ℕ_discrete x (length info)) [
      | yes q ↦ rw q (rw this (omega (arith, f.room (length info))))
      | no n ↦ elim (dec_lt x (length info)) [
        | yes lt ↦ rw (that x lt) (omega (arith, f.room x))
        | no ge ↦
            rw
              (get_or_beyond (info ++ made ∷ []) x no_arena
                (omega (arith, n, ge, length-append info (made ∷ []))))
              (omega (arith, f.room x))
      ]
    ];
  };
})
  where
    made : Arena
    made = record { key = buffer_key b; index = length info; used = b.bytes }

    this : arena_at (info ++ made ∷ []) (length info) ≡ made
    this = get_or-append_last info made no_arena

    that : (x : ℕ) → x < length info → arena_at (info ++ made ∷ []) x ≡ arena_at info x
    that x h = get_or-append_left info (made ∷ []) x no_arena h

old_arena :
    (al : ℕ) (b : Buffer) (bs : List Buffer) (info : List Arena) (a : Arena)
    → 0 < al
    → Fits al (b ∷ bs) info
    → find_arena (buffer_key b) info ≡ some a
    → PlacedAt al b bs info
        (record b { arena_index = some a.index; offset = align_up a.used al })
        (grow_arena (buffer_key b) ((align_up a.used al + b.bytes) % size_mod) info)
old_arena al b bs info a h f e = rw grown (record {
  arena = i;
  known = ap (λ (x : ℕ). some x) (sym (ap (λ (x : Arena). x.index) d.entry) ∙ f.indexed i d.inside);
  aligned = up.0;
  above = λ g. omega (arith, up.1, used);
  longer = omega (arith, same);
  inside = omega (arith, same, d.inside);
  next = rw this small;
  others = λ x g. elim (ℕ_discrete i x) [
    | yes q ↦ rw⁻¹ q (rw this (omega (arith, up.1, used, small)))
    | no n ↦ rw (that x n) (omega arith)
  ];
  fits = record {
    indexed = λ x g. elim (ℕ_discrete i x) [
      | yes q ↦ rw⁻¹ q (rw this (sym (ap (λ (y : Arena). y.index) d.entry) ∙ f.indexed i d.inside))
      | no n ↦ rw (that x n) (f.indexed x (omega (arith, g, same)))
    ];
    room = λ x. elim (ℕ_discrete i x) [
      | yes q ↦ rw⁻¹ q (rw this (omega (arith, small, up.2, used, f.room i)))
      | no n ↦ rw (that x n) (omega (arith, f.room x))
    ];
  };
})
  where
    d : Found (buffer_key b) info a
    d = find_arena-Found (buffer_key b) info a e

    i : ℕ
    i = d.place

    off : ℕ
    off = align_up a.used al

    made : Arena
    made = record a { used = (off + b.bytes) % size_mod }

    grown : grow_arena (buffer_key b) ((off + b.bytes) % size_mod) info ≡ set info i made
    grown = d.grown ((off + b.bytes) % size_mod)

    used : (arena_at info i).used ≡ a.used
    used = ap (λ (x : Arena). x.used) d.entry

    up : (off % al ≡ 0) × (a.used ≤ off) × (off < a.used + al)
    up = align_up_lem a.used al h (omega (arith, used, f.room i))

    small : (off + b.bytes) % size_mod ≡ off + b.bytes
    small = mod-eq_of_lt (omega (arith, up.2, used, f.room i))

    same : length (set info i made) ≡ length info
    same = length-set info i made

    this : arena_at (set info i made) i ≡ made
    this = get_or-set_self info i made no_arena d.inside

    that : (x : ℕ) → i ≢ x → arena_at (set info i made) x ≡ arena_at info x
    that x n = get_or-set_ne info i x made no_arena n

pub place_buffer-PlacedAt :
    (al : ℕ) (b : Buffer) (bs : List Buffer) (info : List Arena)
    → 0 < al
    → Fits al (b ∷ bs) info
    → PlacedAt al b bs info (place_buffer al b info).0 (place_buffer al b info).1
unfolding place_buffer
place_buffer-PlacedAt al b bs info h f = elim (Option-cases (find_arena (buffer_key b) info)) [
  | inl e ↦ rw (e, place_buffer) (new_arena al b bs info h f)
  | inr (a, e) ↦ rw (e, place_buffer) (old_arena al b bs info a h f e)
]
