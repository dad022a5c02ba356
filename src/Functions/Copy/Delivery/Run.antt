-- ===== src/Functions/Copy/Delivery/Run.antt =====
-- One file through every schedule of `Copy` (src/Functions.cpp).
use sync_files.Base.{
  ℕ, ◌+◌, ◌-◌, ◌≡◌, refl, sym, Bool, true, false, some, List, [], ◌∷◌, ◌⊎◌, inl, inr, arith, count,
  total, total-set, total-get, All, All-set, All-get, get_elem?,
}
use mathlib.Core.Path.{subst}
use sync_files.Functions.Sort.{SortPc, sort_step}
use sync_files.Functions.Work.{WorkPc, work_step}
use sync_files.Functions.Copy.{
  Job, MainPc, join_sorters, push_deletes, set_done, join_workers, remove_dirs, set_finished, ended,
  main_step, Thread, main_thread, sorter, worker, step, run, put_sorter, put_worker, all_stopped,
  all_left,
}
use sync_files.Functions.Copy.Threads.{sorter_cases, worker_cases}
use sync_files.Functions.Copy.Delivery.Defs.{
  Parcel, Harmless, sorted_name, sort_count, work_count, Keepers, Fate, Steady,
}
use sync_files.Functions.Copy.Delivery.Sorting.{sort_step-Steady, sort_step-count, sort_step-errors}
use sync_files.Functions.Copy.Delivery.Working.{held, work_step-Steady, Fate-same}
use sync_files.Functions.Copy.Delivery.Hands.{work_step-Fate}

-- The thread of `Copy` deletes nothing.
abbrev pub IsCalm : MainPc → Type 0
IsCalm (push_deletes _) = ⊥
IsCalm (remove_dirs _) = ⊥
IsCalm _ = Unit

module _ (parcel : Parcel) where
  open parcel use {inp, out, name, bytes}

  -- How often the file is held before it is settled.
  abbrev pub pending : Job → ℕ
  pending j =
      count name j.fn.input_files_set
      + total (sort_count parcel) j.sorters
      + count name j.fn.copy_queue
      + total (work_count parcel) j.workers

  pub record Delivery (j : Job) : Type 0 where
    pub steady : Steady parcel j.fn
    pub keeps_extra : j.settings.delete_without_match ≡ false
    pub calm : IsCalm j.main
    pub sorts : All (λ pc. All (Harmless parcel) (sorted_name pc)) j.sorters
    pub works : All (Keepers parcel) j.workers
    pub fate : Fate parcel (pending j) j.fn j.fs

  sorter-Delivery :
      (j : Job) (i : ℕ) (pc : SortPc)
      → Delivery j
      → get_elem? j.sorters i ≡ some pc
      → Delivery (put_sorter j i (sort_step pc j.fn j.fs))
  sorter-Delivery j i pc v e =
      let (s, h) =
        sort_step-Steady parcel pc j.fn j.fs v.steady (All-get _ j.sorters i pc v.sorts e) in
      record {
        steady = s;
        keeps_extra = v.keeps_extra;
        calm = v.calm;
        sorts = All-set _ j.sorters i _ v.sorts h;
        works = v.works;
        fate =
            Fate-same parcel (pending j) _ j.fn (sort_step pc j.fn j.fs).1 j.fs j.fs
              (omega (
                arith,
                sort_step-count parcel pc j.fn j.fs v.steady.unmatched,
                total-set (sort_count parcel) j.sorters i pc (sort_step pc j.fn j.fs).0 e,
              ))
              (sort_step-errors parcel pc j.fn j.fs) refl v.fate;
      }

  -- What is held by all but the one worker.
  elsewhere : Job → WorkPc → ℕ
  elsewhere j pc =
      total (sort_count parcel) j.sorters
      + (total (work_count parcel) j.workers - work_count parcel pc)

  worker-Fate :
      (j : Job) (i : ℕ) (pc : WorkPc)
      → Delivery j
      → Keepers parcel pc
      → get_elem? j.workers i ≡ some pc
      → let k = put_worker j i (work_step pc j.fn j.fs) in Fate parcel (pending k) k.fn k.fs
  unfolding elsewhere
  worker-Fate j i pc v k e =
      let (pc', fn', fs') = work_step pc j.fn j.fs in
      let bound = total-get (work_count parcel) j.workers i pc e in
      Fate-same parcel (held parcel fn' pc' + elsewhere j pc) _ fn' fn' fs' fs'
        (omega (arith, bound, total-set (work_count parcel) j.workers i pc pc' e)) refl refl
        (work_step-Fate parcel pc j.fn j.fs (elsewhere j pc) v.steady k (
          Fate-same parcel (pending j) _ j.fn j.fn j.fs j.fs (omega (arith, bound)) refl refl
            v.fate))

  worker-Delivery :
      (j : Job) (i : ℕ) (pc : WorkPc)
      → Delivery j
      → get_elem? j.workers i ≡ some pc
      → Delivery (put_worker j i (work_step pc j.fn j.fs))
  worker-Delivery j i pc v e =
      let k = All-get (Keepers parcel) j.workers i pc v.works e in
      let (s, h) = work_step-Steady parcel pc j.fn j.fs v.steady k in
      record {
        steady = s;
        keeps_extra = v.keeps_extra;
        calm = v.calm;
        sorts = v.sorts;
        works = All-set _ j.workers i _ v.works h;
        fate = worker-Fate j i pc v k e;
      }

  -- A change of flags and of the thread's own place.
  abbrev flagged : Job → MainPc → Bool → Bool → Bool → Job
  flagged j m done active finished = record j {
    fn = record (j.fn) { done_stuff = done; active_copy = active; finished = finished };
    main = m;
  }

  flagged-Delivery :
      (j : Job) (m : MainPc) (done active finished : Bool)
      → IsCalm m
      → Delivery j
      → Delivery (flagged j m done active finished)
  flagged-Delivery j m done active finished c v = record {
    steady = record {
      from_eq = v.steady.from_eq;
      to_eq = v.steady.to_eq;
      no_deletes = v.steady.no_deletes;
      unmatched = v.steady.unmatched;
      safe_inputs = v.steady.safe_inputs;
      safe_queue = v.steady.safe_queue;
    };
    keeps_extra = v.keeps_extra;
    calm = c;
    sorts = v.sorts;
    works = v.works;
    fate = v.fate;
  }

  join_sorters_calm :
      (j : Job)
      → j.settings.delete_without_match ≡ false
      → (main_step j join_sorters ≡ record j { main = set_done }) ⊎ (main_step j join_sorters ≡ j)
  unfolding main_step
  join_sorters_calm j h = ground arith

  join_workers_calm :
      (j : Job)
      → j.settings.delete_without_match ≡ false
      → (main_step j join_workers ≡ flagged j set_finished j.fn.done_stuff false j.fn.finished)
        ⊎ (main_step j join_workers ≡ j)
  unfolding main_step
  join_workers_calm j h = ground arith

  main-Delivery : (j : Job) (m : MainPc) → j.main ≡ m → Delivery j → Delivery (main_step j m)
  unfolding main_step
  main-Delivery j join_sorters e v = elim (join_sorters_calm j v.keeps_extra) [
    | inl h ↦
        subst Delivery (sym h)
          (flagged-Delivery j set_done j.fn.done_stuff j.fn.active_copy j.fn.finished tt v)
    | inr h ↦ subst Delivery (sym h) v
  ]
  main-Delivery j (push_deletes l) e v = absurd (rw e at v.calm)
  main-Delivery j set_done e v =
      flagged-Delivery j join_workers true j.fn.active_copy j.fn.finished tt v
  main-Delivery j join_workers e v = elim (join_workers_calm j v.keeps_extra) [
    | inl h ↦
        subst Delivery (sym h)
          (flagged-Delivery j set_finished j.fn.done_stuff false j.fn.finished tt v)
    | inr h ↦ subst Delivery (sym h) v
  ]
  main-Delivery j (remove_dirs l) e v = absurd (rw e at v.calm)
  main-Delivery j set_finished e v =
      flagged-Delivery j ended j.fn.done_stuff j.fn.active_copy true tt v
  main-Delivery j ended e v = v

  pub step-Delivery : (j : Job) (t : Thread) → Delivery j → Delivery (step j t)
  unfolding step
  step-Delivery j main_thread v = main-Delivery j j.main refl v
  step-Delivery j (sorter i) v = sorter_cases Delivery j i v λ pc e. sorter-Delivery j i pc v e
  step-Delivery j (worker i) v = worker_cases Delivery j i v λ pc e. worker-Delivery j i pc v e

  pub run-Delivery : (j : Job) (ts : List Thread) → Delivery j → Delivery (run j ts)
  unfolding run
  run-Delivery j [] v = v
  run-Delivery j (t ∷ ts) v = run-Delivery (step j t) ts (step-Delivery j t v)

  pub stopped-sort_count :
      (ps : List SortPc) → all_stopped ps ≡ true → total (sort_count parcel) ps ≡ 0
  stopped-sort_count [] h = refl
  stopped-sort_count (SortPc.stopped ∷ ps) h = omega (arith, stopped-sort_count ps h)
  stopped-sort_count (_ ∷ ps) h = absurd (cc)

  pub left-work_count : (ws : List WorkPc) → all_left ws ≡ true → total (work_count parcel) ws ≡ 0
  left-work_count [] h = refl
  left-work_count (WorkPc.left ∷ ws) h = omega (arith, left-work_count ws h)
  left-work_count (_ ∷ ws) h = absurd (cc)
