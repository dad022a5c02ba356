-- ===== src/Functions/Waiting.antt =====
-- `IsFinished` of src/Functions.cpp and the loop of src/main.cpp that waits for a `Copy`.
pub mod Signal
pub mod Settled
use sync_files.Base.{ℕ, zero, suc, Bool, Option, none, some, List, if◌then◌else◌}
use sync_files.Functions.State.{Functions}
use sync_files.Functions.Copy.{Job, Thread, run}

unfoldable pub is_finished : Functions → Bool
is_finished fn = fn.finished

-- The loop of `main` with up to that many tests; in round k the threads of `Copy` run while it
-- sleeps. `none`: it is still waiting.
unfoldable pub wait_finished : ℕ → Job → (ℕ → List Thread) → Option Job
unfolding is_finished
wait_finished zero j rounds = none
wait_finished (suc n) j rounds =
    let rest = wait_finished n (run j (rounds 0)) (λ k. rounds (suc k)) in
    if is_finished j.fn then some j else rest
