-- ===== src/Tests/Runs.antt =====
-- An executor for a graph in a chain, and the theorem on it.
use llmengine.Base.{List, [], if◌then◌else◌, ltb, negsuc, none, pos, some, ℕ, ◌+◌, ◌∷◌}
use llmengine.Core.Status.{invalid_argument, err, make_ok}
use llmengine.Core.DType.{DeviceType}
use llmengine.Graph.Data.{OpType}
use llmengine.Exec.{Kernel, Entry, Executor, Context}
use llmengine.Tests.Graphs.{chain}

-- A kernel that counts its calls, and fails from the third on.
abbrev count_call : Kernel (Context ℕ ℕ)
count_call nd s =
    (if ltb s.rest 2 then make_ok else err invalid_argument, record s { rest = s.rest + 1 })

abbrev context : Context ℕ ℕ
context = record {
  kv_cache = none;
  kv_cache_advance_tokens = pos 0;
  paged_kv_write_pos = negsuc 0;
  rest = 0;
}

abbrev kernels : List (Entry (Context ℕ ℕ))
kernels = record { device = DeviceType.cpu; op = OpType.silu; kernel = count_call } ∷ []

abbrev idle : Executor
idle = record { graph = none; execution_order = [] }

abbrev compiled : Executor
compiled = record { graph = some chain; execution_order = 1 ∷ 2 ∷ 0 ∷ [] }
