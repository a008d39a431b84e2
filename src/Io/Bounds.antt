-- ===== src/Io/Bounds.antt =====
-- Where the bytes of a tensor lie in a file, in src/io/gguf_parser.cpp.
use native.Mathlib.Nat.{mod-eq_of_lt, mod-lt, mod_self}
use llmengine.Base.{
  ==→eq, Bool-cases, List, [], ap, arith, drop, false, if◌then◌else◌, inl, inr, leb, length, ltb,
  lt→ltb, negsuc, nonpositive, pos, refl, some, take, true, ℕ, ℤ, ◌%◌, ◌*◌, ◌+◌, ◌-◌, ◌/◌, ◌<◌,
  ◌==◌, ◌^◌, ◌||◌, ◌∙◌, ◌∷◌, ◌≡◌, ◌≤◌,
}
use llmengine.Core.Shape.{size_max, numel_loop}
use llmengine.Core.Shape.Numel.{product, AllPositive, numel_loop_lem}
use llmengine.Memory.{size_mod, align_up, pos-ne_zero}
use llmengine.Io.Format.{f32}
use llmengine.Io.Tensors.{
  GgufTensorInfo, elements_loop, num_elements, bytes_of, bytes, copy_tensor_bytes_from_view,
}
use llmengine.Io.File.{GgufFile, tensor_view, align_offset}
use llmengine.Core.Status.{invalid_argument, out_of_range, Result, ok, err, ◌>>=◌, Result-cases}

-- The tests on wrapped offsets are the test that the range ends inside the view: in a view that is
-- smaller than 2^64 bytes, the copy succeeds exactly when it does, and gives the bytes of the range.
pub copy_tensor_bytes_from_view-in_bounds :
    (view : List ℕ) (data_offset tensor_offset n : ℕ)
    → length view < 2 ^ 64
    → data_offset < 2 ^ 64
    → tensor_offset < 2 ^ 64
    → copy_tensor_bytes_from_view view data_offset tensor_offset n ≡ (
        if leb (data_offset + tensor_offset + n) (length view)
        then ok (take n (drop (data_offset + tensor_offset) view))
        else err out_of_range)
unfolding copy_tensor_bytes_from_view
copy_tensor_bytes_from_view-in_bounds view d t n hv hd ht =
    elim (Bool-cases (ltb (2 ^ 64 - 1 - t) d)) [
      | inl e ↦ let over : leb (d + t + n) (length view) ≡ false = ground arith in rw (e, over) refl
      | inr e ↦
          let fits : d + t < 2 ^ 64 = ground arith in
          rw (e, mod-eq_of_lt fits)
            (elim (Bool-cases (leb (d + t + n) (length view))) [
              | inl i ↦
                  let inside : (ltb (length view) (d + t) || ltb (length view - (d + t)) n)
                      ≡ false =
                    ground arith in
                  rw (i, inside) refl
              | inr o ↦
                  let outside : (ltb (length view) (d + t) || ltb (length view - (d + t)) n)
                      ≡ true =
                    ground arith in
                  rw (o, outside) refl
            ])
    ]

-- In a file that has a memory view `tensor_view` gives what the copy of `read_tensor_data` stores,
-- for the size of the tensor.
pub tensor_view-copy :
    (file : GgufFile) (ti : GgufTensorInfo) (raw : List ℕ)
    → tensor_view (record file { memory_view = some raw }) ti
      ≡ bytes ti >>= λ n. copy_tensor_bytes_from_view raw file.data_offset ti.offset n
unfolding tensor_view copy_tensor_bytes_from_view
tensor_view-copy file ti raw = elim (Result-cases (bytes ti)) [
  | inl (n, e) ↦ rw (e, tensor_view) refl
  | inr (c, e) ↦ rw (e, tensor_view) refl
]

wrap_small : (raw a : ℕ) → raw < size_mod → (raw + (a - 0) % a) % size_mod ≡ raw
wrap_small raw a h = let whole : a - 0 ≡ a = omega arith in rw (whole, mod_self a) (omega arith)

-- The data region starts at the next multiple of the alignment, which is positive, in a file that a
-- `uint64_t` can hold; it is the rounding of the memory planner.
pub align_offset-align_up :
    (raw alignment : ℕ)
    → 0 < alignment
    → raw + alignment ≤ size_mod
    → align_offset raw alignment ≡ some (align_up raw alignment)
unfolding align_offset align_up
align_offset-align_up raw alignment h fits =
    let lt = mod-lt raw h in
    rw (pos-ne_zero alignment h) (elim (Bool-cases (raw % alignment == 0)) [
      | inl e ↦
          let small : raw < size_mod = omega arith in
          rw (e, ==→eq _ _ e) (ap some (wrap_small raw alignment small))
      | inr e ↦
          let less : alignment - raw % alignment < alignment = ground arith in
          rw (e, mod-eq_of_lt less) refl
    ])

-- Every dimension is one that the parser lets pass.
loop-numel_loop : (n : ℕ) (ds : List ℤ) → AllPositive ds → elements_loop n ds ≡ numel_loop n ds
unfolding elements_loop numel_loop
loop-numel_loop n [] h = refl
loop-numel_loop n (negsuc d ∷ ds) h = absurd (omega (arith, h.0))
loop-numel_loop n (pos d ∷ ds) h =
    let up : nonpositive (pos d) ≡ false = ground (arith, h.0) in
    rw (up, lt→ltb 0 d h.0, loop-numel_loop (n * d) ds h.1) refl

mod_div : (n : ℕ) → n ≤ size_max → (n + 1 - 1) % 2 ^ 64 / 1 ≡ n
mod_div n h = omega arith

bytes_of-f32 :
    (n : ℕ)
    → n ≤ size_max
    → bytes_of f32 n ≡ (if leb (n * 4) size_max then ok (n * 4) else err invalid_argument)
bytes_of-f32 n h =
    let same : (n + 1 - 1) % 2 ^ 64 / 1 ≡ n = mod_div n h in
    rw same (elim (Bool-cases (leb (n * 4) size_max)) [
      | inl e ↦ let le : ltb (size_max / 4) n ≡ false = ground arith in rw (e, le) refl
      | inr e ↦ let lt : ltb (size_max / 4) n ≡ true = ground arith in rw (e, lt) refl
    ])

-- The size of a tensor of floats, with positive dimensions: four bytes per element, or the error
-- when that does not fit a `size_t`.
pub bytes-float :
    (ti : GgufTensorInfo)
    → ti.dtype ≡ f32
    → AllPositive ti.dimensions
    → bytes ti ≡ (
        if leb (product ti.dimensions * 4) size_max
        then ok (product ti.dimensions * 4)
        else err invalid_argument)
unfolding bytes
bytes-float ti t h =
    let fit : ℕ → Result ℕ = λ m. if leb m size_max then ok m else err invalid_argument in
    let elements : num_elements ti ≡ fit (product ti.dimensions) =
      loop-numel_loop 1 ti.dimensions h
      ∙ (numel_loop_lem 1 ti.dimensions h (omega arith) ∙ ap fit (omega arith)) in
    ap (λ (r : Result ℕ). elim r [ err e ↦ err e | ok ne ↦ bytes_of ti.dtype ne ]) elements
    ∙ elim (Bool-cases (leb (product ti.dimensions) size_max)) [
      | inl e ↦ rw (e, t) (bytes_of-f32 (product ti.dimensions) (ground arith))
      | inr e ↦
          let over : leb (product ti.dimensions * 4) size_max ≡ false = ground arith in
          rw (e, over) refl
    ]
