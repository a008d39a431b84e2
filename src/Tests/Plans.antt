-- ===== src/Tests/Plans.antt =====
-- Shapes, alignment and the contiguous cache: the theorems at concrete inputs.
use llmengine.Base.{[], arith, if◌then◌else◌, leb, negsuc, pos, refl, replicate, ℕ, ◌∷◌, ◌≡◌}
use llmengine.Core.Status.{invalid_argument, ok, err}
use llmengine.Core.Shape.{size_max, numel}
use llmengine.Core.Shape.Numel.{product, numel-product}
use llmengine.Graph.ShapeInfer.{infer_matmul_shape, infer_linear_shape, infer_embedding_shape}
use llmengine.Graph.ShapeInfer.Valid.{GivesShape, infer-IsShape}
use llmengine.Cache.Contiguous.{KvCache}
use llmengine.Cache.Contiguous.Length.{Valid, advances, resets, run, run-Valid}

numel-product_example : numel (pos 2 ∷ pos 3 ∷ []) ≡ (
    if leb (product (pos 2 ∷ pos 3 ∷ [])) size_max
    then ok (product (pos 2 ∷ pos 3 ∷ []))
    else err invalid_argument)
numel-product_example = numel-product (pos 2 ∷ pos 3 ∷ []) (omega arith, (omega arith, tt))

abbrev contiguous : KvCache ℕ
contiguous = record {
  layers = record { k = replicate 8 0; v = replicate 8 0 } ∷ [];
  num_kv_heads = 1;
  head_dim = 2;
  max_seq_len = 4;
  cached_len = 3;
}

contiguous-Valid : Valid contiguous
contiguous-Valid = record { bounded = omega arith; sized = (refl, refl, tt) }

run-Valid_example : Valid (run 0 contiguous (advances (pos 5) ∷ resets ∷ []))
run-Valid_example = run-Valid 0 contiguous (advances (pos 5) ∷ resets ∷ []) contiguous-Valid

infer-IsShape_example :
    GivesShape (infer_matmul_shape (pos 2 ∷ pos 3 ∷ []) (pos 3 ∷ negsuc 0 ∷ []))
    × GivesShape (infer_linear_shape (pos 2 ∷ pos 3 ∷ []) (pos 3 ∷ negsuc 0 ∷ []))
    × GivesShape (infer_embedding_shape (pos 2 ∷ pos 3 ∷ []) (pos 3 ∷ negsuc 0 ∷ []))
infer-IsShape_example = infer-IsShape (pos 2 ∷ pos 3 ∷ []) (pos 3 ∷ negsuc 0 ∷ []) refl refl
