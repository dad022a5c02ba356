-- ===== src/Functions/Copy/Delivery/Outcome.antt =====
-- A file that only the input has, when `Copy` (src/Functions.cpp) has ended.
use sync_files.Base.{
  ℕ, zero, suc, ◌<◌, ◌≡◌, ◌≢◌, refl, ap, ◌∙◌, true, false, some, List, [], ◌++◌, ◌⊎◌, inl, inr,
  arith, Str, contains, count, total, All, replicate,
}
use sync_files.Files.{file, Files, lookup}
use sync_files.Functions.State.{Functions, initial}
use sync_files.Functions.Listing.{prefix_of}
use sync_files.Functions.Work.{WorkPc}
use sync_files.Functions.Work.Transfer.{Holds, reported}
use sync_files.Functions.Copy.{Settings, Job, ended, start, Thread, run}
use sync_files.Functions.Copy.Phases.{Flow, past_workers}
use sync_files.Functions.Copy.Flow.{Flow-drained, run-Flow}
use sync_files.Functions.Copy.Inputs.{Inputs, run-Inputs, Inputs-empty}
use sync_files.Functions.Copy.Start.{Starts, Starts-Flow, start-Starts}
use sync_files.Functions.Copy.Prefixes.{start-Prefixed, lookup-start}
use sync_files.Functions.Copy.Outcome.{has_workers}
use sync_files.Functions.Copy.Delivery.Defs.{Parcel, Harmless, Keepers, Settled, Fate, work_count}
use sync_files.Functions.Copy.Delivery.Run.{
  Delivery, pending, run-Delivery, stopped-sort_count, left-work_count,
}

module _ (parcel : Parcel) where
  open parcel use {inp, out, name, bytes}

  no_work : (n : ℕ) → total (work_count parcel) (replicate n WorkPc.check_done) ≡ 0
  no_work zero = refl
  no_work (suc n) = omega (arith, no_work n)

  check_done-Keepers : (n : ℕ) → All (Keepers parcel) (replicate n WorkPc.check_done)
  check_done-Keepers zero = tt
  check_done-Keepers (suc n) = (tt, check_done-Keepers n)

  -- The threads start with the file on its way.
  Starts-Delivery :
      (set : Settings) (j : Job)
      → Starts set j
      → set.delete_without_match ≡ false
      → j.fn.input_prefix ≡ inp
      → j.fn.output_prefix ≡ out
      → count name j.fn.input_files_set ≡ 1
      → contains j.fn.output_files_set name ≡ false
      → All (Harmless parcel) j.fn.input_files_set
      → Holds j.fs (inp ++ name) bytes
      → Delivery parcel j
  Starts-Delivery set j v d from to once new safe h = record {
    steady = record {
      from_eq = from;
      to_eq = to;
      no_deletes = v.fresh.no_deletes;
      unmatched = new;
      safe_inputs = safe;
      safe_queue = rw v.fresh.no_copies tt;
    };
    keeps_extra = ap (λ s. s.delete_without_match) v.settings_eq ∙ d;
    calm = rw v.main_eq tt;
    sorts = rw v.sorters_eq (tt, (tt, (tt, (tt, tt))));
    works = rw v.workers_eq (check_done-Keepers set.processors);
    fate = inl (
      rw (v.sorters_eq, v.workers_eq, v.fresh.no_copies) (omega (arith, no_work set.processors)),
      h,
    );
  }

  Fate-Settled :
      (n : ℕ) (fn : Functions) (fs : Files) → n ≡ 0 → Fate parcel n fn fs → Settled parcel fn fs
  Fate-Settled n fn fs z (inl (m, h)) = absurd (omega arith)
  Fate-Settled n fn fs z (inr (m, s)) = s

  -- At the end nothing is on its way.
  Delivery-Settled :
      (j : Job)
      → Flow j
      → Inputs j
      → Delivery parcel j
      → j.main ≡ ended
      → j.workers ≢ []
      → Settled parcel j.fn j.fs
  Delivery-Settled j f inputs v over n =
      let joined : past_workers j.main ≡ true = rw over in
      let stops = f.sorted (rw over) in
      Fate-Settled (pending parcel j) j.fn j.fs
        (omega (
          arith,
          ap (count name) (Inputs-empty j inputs stops),
          stopped-sort_count parcel j.sorters stops,
          ap (count name) (Flow-drained j f joined n).1,
          left-work_count parcel j.workers (f.joined joined),
        ))
        v.fate

Starts-Inputs : (set : Settings) (j : Job) → Starts set j → Inputs j
Starts-Inputs set j v = record {
  known = rw v.sorters_eq (tt, (tt, (tt, (tt, tt))));
  some_sorter = rw v.sorters_eq (omega arith);
}

-- With at least one worker and without `-d`, take a file that the input has and the output's
-- listing has not, whose two paths no other listed name uses. When `Copy` has ended, in whatever
-- order its threads ran, the file's bytes stand under its name in the output, or `errors` has its
-- failed copy.
pub delivered :
    (set : Settings) (fs : Files) (input output name bytes : Str) (t : ℕ) (j : Job)
    (ts : List Thread)
    → let parcel : Parcel = record {
      inp = prefix_of input;
      out = prefix_of output;
      name = name;
      bytes = bytes;
    } in
      0 < set.processors
      → set.delete_without_match ≡ false
      → start set initial fs input output ≡ some j
      → count name j.fn.input_files_set ≡ 1
      → contains j.fn.output_files_set name ≡ false
      → All (Harmless parcel) j.fn.input_files_set
      → lookup fs (prefix_of input ++ name) ≡ some (file t bytes)
      → (run j ts).main ≡ ended
      → Holds (run j ts).fs (prefix_of output ++ name) bytes
        ⊎ (reported name (run j ts).fn.errors ≡ true)
delivered set fs input output name bytes t j ts h d e once new safe there over =
    let parcel : Parcel = record {
      inp = prefix_of input;
      out = prefix_of output;
      name = name;
      bytes = bytes;
    } in
    let v = start-Starts set fs input output j e in
    let p = start-Prefixed set initial fs input output j e in
    let held = lookup-start set initial fs input output _ _ j e there in
    let begun = Starts-Delivery parcel set j v d p.from_eq p.to_eq once new safe (t, held) in
    Delivery-Settled parcel (run j ts) (run-Flow j ts (Starts-Flow set j v))
      (run-Inputs j ts (Starts-Inputs set j v)) (run-Delivery parcel j ts begun) over
      (has_workers set j ts h v)
