-- ===== src/Functions/Directories/Created.antt =====
-- What `Helper_CreateDirs` of src/Functions.cpp has made when it leaves.
use sync_files.Base.{
  ◌≡◌, sym, subst, ap, ◌∙◌, List, ◌∷◌, ◌++◌, Str, ℕ, ◌+◌, ◌*◌, ◌≤◌, length, arith,
}
use sync_files.Functions.Directories.{check_done, left, Creation, Event, finish, create_run}
use sync_files.Functions.Directories.Made.{
  create_all, queued_by, IsOrdered, pending, outcome, Knows, create_all-append, made, helpers,
  queued_by-helpers, IsOrdered-helpers, leaves, steps_bound,
}

outcome-left :
    (c : Creation)
    → c.place ≡ left
    → Knows c.done_creating_dirs c.create_dirs_queue c.place
    → outcome c ≡ c.fs
outcome-left c l k =
    ap (λ xs. create_all c.output_prefix c.fs xs)
      (ap (λ p. pending p c.create_dirs_queue) l
        ∙ (subst (λ p. Knows c.done_creating_dirs c.create_dirs_queue p) l k).1)

outcome-check_done :
    (c : Creation) (ds : List Str)
    → c.place ≡ check_done
    → create_all c.output_prefix (outcome c) ds
      ≡ create_all c.output_prefix c.fs (c.create_dirs_queue ++ ds)
outcome-check_done c ds s =
    ap
      (λ p.
        create_all c.output_prefix (create_all c.output_prefix c.fs (pending p c.create_dirs_queue))
          ds)
      s
    ∙ sym (create_all-append c.output_prefix c.fs c.create_dirs_queue ds)

-- Once the flag is set, the helper ends in time, and makes what it was to make.
finished :
    (c : Creation) (n : ℕ)
    → Knows c.done_creating_dirs c.create_dirs_queue c.place
    → 4 * length c.create_dirs_queue + 3 ≤ n
    → let last = create_run c (finish ∷ helpers n) in (last.place ≡ left) × (last.fs ≡ outcome c)
unfolding create_run
finished c n k h =
    let bound = steps_bound c.place c.create_dirs_queue in
    let gone = leaves n c.create_dirs_queue c.output_prefix c.fs c.place (omega arith) in
    let after =
      made (finish ∷ helpers n) c.create_dirs_queue c.done_creating_dirs c.output_prefix c.fs
        c.place k (IsOrdered-helpers n) in
    (
      gone,
      sym (outcome-left (create_run c (finish ∷ helpers n)) gone after.0)
          ∙ after.1
          ∙ ap (λ ds. create_all c.output_prefix (outcome c) ds) (queued_by-helpers n),
    )

-- The helper starts at its test, and no directory is queued once the flag is set. Whatever the
-- order of its steps and the other threads' accesses, once the flag is set at the end, four steps
-- for each directory still queued and three more bring it to its end, and it has then made all
-- directories that were queued, in order, and changed nothing else in the files.
pub created :
    (c : Creation) (es : List Event) (n : ℕ)
    → c.place ≡ check_done
    → IsOrdered c.done_creating_dirs es
    → 4 * length (create_run c es).create_dirs_queue + 3 ≤ n
    → let last = create_run (create_run c es) (finish ∷ helpers n) in
      (last.place ≡ left)
      × (last.fs ≡ create_all c.output_prefix c.fs (c.create_dirs_queue ++ queued_by es))
created c es n s o h =
    let before =
      made es c.create_dirs_queue c.done_creating_dirs c.output_prefix c.fs c.place
        (subst (λ p. Knows c.done_creating_dirs c.create_dirs_queue p) (sym s) tt) o in
    let after = finished (create_run c es) n before.0 h in
    (after.0, after.1 ∙ before.1 ∙ outcome-check_done c (queued_by es) s)
