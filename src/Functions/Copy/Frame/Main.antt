-- ===== src/Functions/Copy/Frame/Main.antt =====
-- A path that no name of a `Copy` (src/Functions.cpp) reaches, through the steps of its own thread.
use mathlib.Core.Path.{subst}
use sync_files.Base.{
  ◌≡◌, ◌≢◌, ◌⊎◌, refl, sym, ◌∙◌, Bool, true, false, none, List, [], ◌∷◌, ◌++◌, arith, Str,
  All-append_one, Option-cases, inl, inr,
}
use sync_files.Files.{Files, clean, lookup}
use sync_files.Files.Calls.{remove_all, below}
use sync_files.Files.Calls.Trees.{lookup-remove_all}
use sync_files.Functions.State.{Functions}
use sync_files.Functions.Copy.{
  Job, MainPc, join_sorters, push_deletes, set_done, join_workers, remove_dirs, set_finished, ended,
  main_step, try_remove_all,
}
use sync_files.Functions.Copy.Frame.{Watch, DeleteSafe, MainSafe, Clear, Framed}

module _ (w : Watch) where
  open w use {inp, out, path, node, moves, deletes}

  -- A step that changes only flags and the place of the thread of `Copy`.
  placed-Framed :
      (j k : Job)
      → k.settings ≡ j.settings
      → k.fs ≡ j.fs
      → k.sorters ≡ j.sorters
      → k.workers ≡ j.workers
      → Clear w k.fn
      → MainSafe w k.main
      → Framed w j
      → Framed w k
  placed-Framed j k a b c d f m v = record {
    clear = f;
    deletes_eq = rw a v.deletes_eq;
    main_safe = m;
    sorts = rw c v.sorts;
    works = rw d v.works;
    same = rw b v.same;
  }

  lookup-try_remove_all :
      (fs : Files) (d : Str)
      → clean d ≢ clean path
      → below d (clean path) ≡ none
      → lookup (try_remove_all fs d) path ≡ lookup fs path
  lookup-try_remove_all fs d n h = elim (Option-cases (remove_all fs d)) [
    | inl e ↦ rw (e, try_remove_all) refl
    | inr (fs', e) ↦ rw (e, try_remove_all) (lookup-remove_all fs fs' d path e n h)
  ]

  -- Flags do not matter.
  flags-Clear :
      (fn : Functions) (done active finished : Bool)
      → Clear w fn
      → Clear w (record fn { done_stuff = done; active_copy = active; finished = finished })
  flags-Clear fn done active finished v = record {
    from_eq = v.from_eq;
    to_eq = v.to_eq;
    move_eq = v.move_eq;
    inputs = v.inputs;
    copies = v.copies;
    removals = v.removals;
    extras = v.extras;
    dirs = v.dirs;
  }

  abbrev flagged : Job → MainPc → Bool → Bool → Bool → Job
  flagged j m done active finished = record j {
    fn = record (j.fn) { done_stuff = done; active_copy = active; finished = finished };
    main = m;
  }

  flagged-Framed :
      (j : Job) (m : MainPc) (done active finished : Bool)
      → MainSafe w m
      → Framed w j
      → Framed w (flagged j m done active finished)
  flagged-Framed j m done active finished h v =
      placed-Framed j (flagged j m done active finished) refl refl refl refl
        (flags-Clear j.fn done active finished v.clear) h v

  joins_sorters :
      (j : Job)
      → (main_step j join_sorters ≡ j)
        ⊎ ((main_step j join_sorters ≡ record j { main = set_done })
            ⊎ ((j.settings.delete_without_match ≡ true)
                × (main_step j join_sorters
                    ≡ record j { main = push_deletes j.fn.output_files_set })))
  unfolding main_step
  joins_sorters j = ground arith

  joins_workers :
      (j : Job)
      → (main_step j join_workers ≡ j)
        ⊎ ((main_step j join_workers ≡ flagged j set_finished j.fn.done_stuff false j.fn.finished)
            ⊎ ((j.settings.delete_without_match ≡ true)
                × (main_step j join_workers
                    ≡ flagged j
                        (remove_dirs j.fn.output_dir_set)
                        j.fn.done_stuff
                        false
                        j.fn.finished)))
  unfolding main_step
  joins_workers j = ground arith

  -- One extra name goes into the delete queue, with the prefix.
  pushed-Framed :
      (j : Job) (g : Str) (rest : List Str)
      → MainSafe w (push_deletes (g ∷ rest))
      → Framed w j
      → Framed w (main_step j (push_deletes (g ∷ rest)))
  unfolding main_step
  pushed-Framed j g rest (d, h) v =
      placed-Framed j (main_step j (push_deletes (g ∷ rest))) refl refl refl refl
        (record {
          from_eq = v.clear.from_eq;
          to_eq = v.clear.to_eq;
          move_eq = v.clear.move_eq;
          inputs = v.clear.inputs;
          copies = v.clear.copies;
          removals =
              All-append_one (DeleteSafe w) j.fn.delete_queue (j.fn.output_prefix ++ g)
                v.clear.removals (rw v.clear.to_eq (h.0 d));
          extras = v.clear.extras;
          dirs = v.clear.dirs;
        })
        (d, h.1) v

  removed-Framed :
      (j : Job) (d : Str) (ds : List Str)
      → MainSafe w (remove_dirs (d ∷ ds))
      → Framed w j
      → Framed w (main_step j (remove_dirs (d ∷ ds)))
  unfolding main_step
  removed-Framed j d ds (t, h) v = record {
    clear = v.clear;
    deletes_eq = v.deletes_eq;
    main_safe = (t, h.1);
    sorts = v.sorts;
    works = v.works;
    same =
        lookup-try_remove_all j.fs (j.fn.output_prefix ++ d) (rw v.clear.to_eq (h.0.itself t))
          (rw v.clear.to_eq (h.0.inside t))
        ∙ v.same;
  }

  ended-Clear : (fn : Functions) → Clear w fn → Clear w (record fn { output_dir_set = [] })
  ended-Clear fn v = record {
    from_eq = v.from_eq;
    to_eq = v.to_eq;
    move_eq = v.move_eq;
    inputs = v.inputs;
    copies = v.copies;
    removals = v.removals;
    extras = v.extras;
    dirs = tt;
  }

  pub main-Framed : (j : Job) (m : MainPc) → j.main ≡ m → Framed w j → Framed w (main_step j m)
  main-Framed j join_sorters e v = elim (joins_sorters j) [
    | inl h ↦ subst (Framed w) (sym h) v
    | inr (inl h) ↦
        subst (Framed w) (sym h)
          (flagged-Framed j set_done j.fn.done_stuff j.fn.active_copy j.fn.finished tt v)
    | inr (inr (d, h)) ↦ subst (Framed w) (sym h) (
        flagged-Framed j (push_deletes j.fn.output_files_set) j.fn.done_stuff j.fn.active_copy
          j.fn.finished (sym v.deletes_eq ∙ d, v.clear.extras) v)
  ]
  main-Framed j (push_deletes []) e v =
      unfold main_step in
      flagged-Framed j set_done j.fn.done_stuff j.fn.active_copy j.fn.finished tt v
  main-Framed j (push_deletes (g ∷ rest)) e v = pushed-Framed j g rest (rw e at v.main_safe) v
  main-Framed j set_done e v =
      unfold main_step in flagged-Framed j join_workers true j.fn.active_copy j.fn.finished tt v
  main-Framed j join_workers e v = elim (joins_workers j) [
    | inl h ↦ subst (Framed w) (sym h) v
    | inr (inl h) ↦
        subst (Framed w) (sym h)
          (flagged-Framed j set_finished j.fn.done_stuff false j.fn.finished tt v)
    | inr (inr (d, h)) ↦ subst (Framed w) (sym h) (
        flagged-Framed j (remove_dirs j.fn.output_dir_set) j.fn.done_stuff false j.fn.finished
          (sym v.deletes_eq ∙ d, v.clear.dirs) v)
  ]
  main-Framed j (remove_dirs []) e v =
      unfold main_step in
      placed-Framed j (main_step j (remove_dirs [])) refl refl refl refl (ended-Clear j.fn v.clear)
        tt v
  main-Framed j (remove_dirs (d ∷ ds)) e v = removed-Framed j d ds (rw e at v.main_safe) v
  main-Framed j set_finished e v =
      unfold main_step in flagged-Framed j ended j.fn.done_stuff j.fn.active_copy true tt v
  main-Framed j ended e v = unfold main_step in v
