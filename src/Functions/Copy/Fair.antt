-- ===== src/Functions/Copy/Fair.antt =====
-- `Copy` (src/Functions.cpp) under fair schedules: in every round each thread takes a step, and
-- others may take any. A measure's rule for what is met after some rounds.
pub mod Sorting
pub mod Queueing
pub mod Working
pub mod Removing
pub mod Ends
pub mod Delivered
use sync_files.Base.{
  ℕ, zero, suc, ◌+◌, ◌<◌, ◌≤◌, ◌≡◌, refl, sym, ap, ◌∙◌, List, [], ◌∷◌, ◌⊎◌, inl, inr, arith, length,
  length-set,
}
use mathlib.Core.Path.{subst}
use sync_files.Functions.Sort.{sort_step}
use sync_files.Functions.Work.{work_step}
use sync_files.Functions.Copy.{Job, Thread, main_thread, sorter, worker, main_step, step, run}
use sync_files.Functions.Copy.Threads.{sorter_cases, worker_cases}
use sync_files.Functions.Copy.Flow.{main_step-sorters, main_step-workers}

-- The thread takes a step in the schedule.
abbrev pub Has : Thread → List Thread → Type 0
Has t [] = ⊥
Has t (u ∷ us) = (u ≡ t) ⊎ Has t us

-- The threads of a job with that many sorters and workers.
abbrev pub IsThread : ℕ → ℕ → Thread → Type 0
IsThread s w main_thread = Unit
IsThread s w (sorter i) = i < s
IsThread s w (worker i) = i < w

-- In every round each thread of the job takes a step.
abbrev pub IsFair : Job → (ℕ → List Thread) → Type 0
IsFair j rounds =
    (k : ℕ) (t : Thread) → IsThread (length j.sorters) (length j.workers) t → Has t (rounds k)

unfoldable pub run_rounds : ℕ → Job → (ℕ → List Thread) → Job
run_rounds zero j rounds = j
run_rounds (suc n) j rounds = run_rounds n (run j (rounds 0)) (λ k. rounds (suc k))

-- After some number of rounds.
abbrev pub Eventually : Job → (ℕ → List Thread) → (Job → Type 0) → Type 0
Eventually j rounds Q = (n : ℕ) × Q (run_rounds n j rounds)

-- From every state of `P`, whatever the fair rounds, `Q` is met after some.
abbrev pub Leads : (Job → Type 0) → (Job → Type 0) → Type 0
Leads P Q = (j : Job) (rounds : ℕ → List Thread) → P j → IsFair j rounds → Eventually j rounds Q

-- The numbers of the threads do not change.
pub record SameThreads (j k : Job) : Type 0 where
  pub sorters : length k.sorters ≡ length j.sorters
  pub workers : length k.workers ≡ length j.workers

-- A measure that no step raises, and that some thread's step lowers, until then, whenever it comes.
pub record Descent (P Q : Job → Type 0) : Type 1 where
  pub measure : Job → ℕ
  pub Helps : Job → Thread → Type 0
  pub kept : (j : Job) (t : Thread) → P j → P (step j t)
  pub never : (j : Job) (t : Thread) → P j → measure (step j t) ≤ measure j
  pub lower : (j : Job) (t : Thread) → P j → Helps j t → measure (step j t) < measure j
  pub other : (j : Job) (t u : Thread) → P j → Helps j t → (u ≡ t) ⊎ Helps (step j u) t
  pub helper :
      (j : Job)
      → P j
      → Q j ⊎ ((t : Thread) × IsThread (length j.sorters) (length j.workers) t × Helps j t)

main_step-length : (j : Job) → SameThreads j (main_step j j.main)
main_step-length j = record {
  sorters = ap length (main_step-sorters j j.main);
  workers = ap length (main_step-workers j j.main);
}

step-SameThreads : (j : Job) (t : Thread) → SameThreads j (step j t)
unfolding step
step-SameThreads j main_thread = main_step-length j
step-SameThreads j (sorter i) =
    sorter_cases (SameThreads j) j i (record { sorters = refl; workers = refl })
      λ pc e. record { sorters = length-set j.sorters i (sort_step pc j.fn j.fs).0; workers = refl }
step-SameThreads j (worker i) =
    worker_cases (SameThreads j) j i (record { sorters = refl; workers = refl })
      λ pc e. record { sorters = refl; workers = length-set j.workers i (work_step pc j.fn j.fs).0 }

-- What is fair to a job is fair to it later.
pub SameThreads-Fair :
    (j k : Job) (rounds : ℕ → List Thread) → SameThreads j k → IsFair j rounds → IsFair k rounds
SameThreads-Fair j k rounds s f n t i = f n t (
    subst (λ b. IsThread (length j.sorters) b t) s.workers
      (subst (λ a. IsThread a (length k.workers) t) s.sorters i))

pub run-Fair :
    (ts : List Thread) (j : Job) (rounds : ℕ → List Thread)
    → IsFair j rounds
    → IsFair (run j ts) rounds
unfolding run
run-Fair [] j rounds f = f
run-Fair (t ∷ ts) j rounds f =
    run-Fair ts (step j t) rounds (SameThreads-Fair j (step j t) rounds (step-SameThreads j t) f)

module _ (P Q : Job → Type 0) (d : Descent P Q) where
  run_kept : (ts : List Thread) (j : Job) → P j → P (run j ts)
  unfolding run
  run_kept [] j p = p
  run_kept (t ∷ ts) j p = run_kept ts (step j t) (d.kept j t p)

  run_never : (ts : List Thread) (j : Job) → P j → d.measure (run j ts) ≤ d.measure j
  unfolding run
  run_never [] j p = omega arith
  run_never (t ∷ ts) j p = omega (arith, d.never j t p, run_never ts (step j t) (d.kept j t p))

  round_lower :
      (ts : List Thread) (j : Job) (t : Thread)
      → P j
      → d.Helps j t
      → Has t ts
      → d.measure (run j ts) < d.measure j
  unfolding run
  round_lower [] j t p h m = absurd m
  round_lower (u ∷ us) j t p h (inl e) =
      omega
        (arith, run_never us (step j u) (d.kept j u p), d.lower j u p (subst (d.Helps j) (sym e) h))
  round_lower (u ∷ us) j t p h (inr m) = elim (d.other j t u p h) [
    | inl e ↦
        omega (
          arith,
          run_never us (step j u) (d.kept j u p),
          d.lower j u p (subst (d.Helps j) (sym e) h),
        )
    | inr k ↦ omega (arith, d.never j u p, round_lower us (step j u) t (d.kept j u p) k m)
  ]

  descend :
      (n : ℕ) (j : Job) (rounds : ℕ → List Thread)
      → d.measure j < n
      → P j
      → IsFair j rounds
      → Eventually j rounds (λ k. P k × Q k)
  unfolding run_rounds
  descend zero j rounds h p f = absurd (omega arith)
  descend (suc n) j rounds h p f = elim (d.helper j p) [
    | inl q ↦ (0, (p, q))
    | inr (t, i, k) ↦
        let less = round_lower (rounds 0) j t p k (f 0 t i) in
        let (m, r) =
          descend n (run j (rounds 0)) (λ k. rounds (suc k)) (omega arith) (run_kept (rounds 0) j p)
            (run-Fair (rounds 0) j (λ k. rounds (suc k)) (λ k. f (suc k))) in
        (suc m, r)
  ]

  pub Descent-Leads : Leads P (λ k. P k × Q k)
  Descent-Leads j rounds p f = descend (suc (d.measure j)) j rounds (omega arith) p f

-- The rounds after the first ones.
unfoldable later : ℕ → (ℕ → List Thread) → ℕ → List Thread
later zero rounds = rounds
later (suc n) rounds = later n (λ k. rounds (suc k))

Eventually-later :
    (n : ℕ) (j : Job) (rounds : ℕ → List Thread) (Q : Job → Type 0)
    → Eventually (run_rounds n j rounds) (later n rounds) Q
    → Eventually j rounds Q
unfolding run_rounds later
Eventually-later zero j rounds Q e = e
Eventually-later (suc n) j rounds Q e =
    let (m, q) = Eventually-later n (run j (rounds 0)) (λ k. rounds (suc k)) Q e in (suc m, q)

later-Fair :
    (n : ℕ) (j : Job) (rounds : ℕ → List Thread)
    → IsFair j rounds
    → IsFair (run_rounds n j rounds) (later n rounds)
unfolding run_rounds later
later-Fair zero j rounds f = f
later-Fair (suc n) j rounds f =
    later-Fair n (run j (rounds 0)) (λ k. rounds (suc k))
      (run-Fair (rounds 0) j (λ k. rounds (suc k)) (λ k. f (suc k)))

pub Leads-trans : (P Q R : Job → Type 0) → Leads P Q → Leads Q R → Leads P R
Leads-trans P Q R f g j rounds p h =
    let (n, q) = f j rounds p h in
    Eventually-later n j rounds R
      (g (run_rounds n j rounds) (later n rounds) q (later-Fair n j rounds h))
