-- ===== src/Exec/Compile.antt =====
-- What a successful `compile` of src/runtime/executor.cpp promises to `run`.
use llmengine.Base.{List, ℕ, ◌≡◌, ◌⊎◌}
use llmengine.Core.Status.{ErrorCode, runtime_error, ok, err, Status, make_ok}
use llmengine.Core.DType.{DeviceType}
use llmengine.Graph.Data.{Node, Graph}
use llmengine.Exec.{Kernel, Entry, find, run_nodes, Context, advance_kv_cache_step}

module _ {S : Type 0} where
  -- A registered kernel fails, on some node in some state.
  abbrev pub KernelFails : DeviceType → List (Entry S) → Type 0
  KernelFails device es =
      (nd : Node) × (s : S) × (k : Kernel S) × (e : ErrorCode) × (find device nd.op_type es ≡ ok k)
      × ((k nd s).0 ≡ err e)

  -- Success, or the `runtime_error` that reports the failure of a kernel.
  abbrev pub Runs : DeviceType → List (Entry S) → Status → Type 0
  Runs device es st = (st ≡ make_ok) ⊎ ((st ≡ err runtime_error) × KernelFails device es)

-- Success, or `runtime_error` with its cause.
abbrev pub Ends :
    {F R : Type 0}
    → DeviceType
    → List (Entry (Context F R))
    → Graph
    → List ℕ
    → Context F R
    → Status
    → Type 0
Ends device es g order s st =
    (st ≡ make_ok)
    ⊎ ((st ≡ err runtime_error)
        × (KernelFails device es
            ⊎ ((e : ErrorCode) × ((advance_kv_cache_step (run_nodes device es g order s).1).0
                  ≡ err e))))
