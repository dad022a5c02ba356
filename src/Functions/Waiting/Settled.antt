-- ===== src/Functions/Waiting/Settled.antt =====
-- The loop of `main` (src/main.cpp) that waits for a `Copy` (src/Functions.cpp) under fair rounds.
use sync_files.Base.{
  ℕ, zero, suc, ◌≡◌, refl, ◌∙◌, Bool-cases, inl, inr, true, false, ap, if◌then◌else◌, some, List,
  [], ◌∷◌, Str, arith,
}
use sync_files.Files.{Files}
use sync_files.Functions.State.{initial}
use sync_files.Functions.Copy.{
  Settings, Job, ended, Thread, main_thread, sorter, worker, step, run, start,
}
use sync_files.Functions.Copy.Phases.{Flow}
use sync_files.Functions.Copy.Flow.{run-Flow}
use sync_files.Functions.Copy.Start.{start-Starts, Starts-Flow}
use sync_files.Functions.Copy.Fair.{IsFair, run_rounds}
use sync_files.Functions.Copy.Fair.Queueing.{sorter_step-Sorted}
use sync_files.Functions.Copy.Fair.Removing.{worker_step-Joined, main_step-ended}
use sync_files.Functions.Copy.Fair.Ends.{fair_end}
use sync_files.Functions.Waiting.{is_finished, wait_finished}
use sync_files.Functions.Waiting.Signal.{Signals, run-Signals, Starts-Signals}

-- Nothing changes any more, whatever threads take a step.
abbrev pub IsSettled : Job → Type 0
IsSettled j = (ts : List Thread) → run j ts ≡ j

step-ended : (j : Job) (t : Thread) → Flow j → j.main ≡ ended → step j t ≡ j
unfolding step
step-ended j main_thread v e = main_step-ended j e
step-ended j (sorter i) v e = sorter_step-Sorted j i (v.sorted (ground arith))
step-ended j (worker i) v e = worker_step-Joined j i (v.joined (ground arith))

run-ended : (j : Job) → Flow j → j.main ≡ ended → IsSettled j
unfolding run
run-ended j v e [] = refl
run-ended j v e (t ∷ ts) = rw (step-ended j t v e) (run-ended j v e ts)

wait_more :
    (n : ℕ) (j : Job) (rounds : ℕ → List Thread)
    → j.fn.finished ≡ false
    → wait_finished (suc n) j rounds ≡ wait_finished n (run j (rounds 0)) (λ k. rounds (suc k))
unfolding wait_finished is_finished
wait_more n j rounds f =
    ap (λ b. if b then some j else wait_finished n (run j (rounds 0)) (λ k. rounds (suc k))) f

wait_over :
    (n : ℕ) (j : Job) (rounds : ℕ → List Thread)
    → j.fn.finished ≡ true
    → wait_finished (suc n) j rounds ≡ some j
unfolding wait_finished is_finished
wait_over n j rounds f =
    ap (λ b. if b then some j else wait_finished n (run j (rounds 0)) (λ k. rounds (suc k))) f

-- Where the loop has seen the flag, it leaves with a job that has ended.
wait_finished-IsSettled :
    (n : ℕ) (j : Job) (rounds : ℕ → List Thread)
    → Flow j
    → Signals j
    → (run_rounds n j rounds).main ≡ ended
    → (k : Job) × (wait_finished (suc n) j rounds ≡ some k) × (k.main ≡ ended) × IsSettled k
unfolding run_rounds
wait_finished-IsSettled zero j rounds v s e =
    (j, wait_over zero j rounds (s.heard e), e, run-ended j v e)
wait_finished-IsSettled (suc n) j rounds v s e = elim (Bool-cases j.fn.finished) [
  | inl f ↦ (j, wait_over (suc n) j rounds f, s.told f, run-ended j v (s.told f))
  | inr f ↦
      let (k, w, m, q) =
        wait_finished-IsSettled n (run j (rounds 0)) (λ i. rounds (suc i)) (run-Flow j (rounds 0) v)
          (run-Signals j (rounds 0) s) e in
      (k, wait_more (suc n) j rounds f ∙ w, m, q)
]

-- Once a `Copy` has started, and if each of its threads takes a step in every round, the loop of
-- `main` leaves after some number of tests of `IsFinished`. `Copy` has then ended, and no thread's
-- step changes anything any more.
pub waited :
    (set : Settings) (fs : Files) (input output : Str) (j : Job) (rounds : ℕ → List Thread)
    → start set initial fs input output ≡ some j
    → IsFair j rounds
    → (n : ℕ) × (k : Job) × (wait_finished n j rounds ≡ some k) × (k.main ≡ ended) × IsSettled k
unfolding run
waited set fs input output j rounds e f =
    let (n, q) = fair_end set fs input output j [] rounds e f in
    let s = start-Starts set fs input output j e in
    let (k, w, m, z) =
      wait_finished-IsSettled n j rounds (Starts-Flow set j s) (Starts-Signals set j s) q in
    (suc n, k, w, m, z)
