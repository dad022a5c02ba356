-- ===== src/Functions/Copy/Frame/Untouched.antt =====
-- What a `Copy` of src/Functions.cpp leaves alone, from its start to any later state.
use mathlib.Core.Path.{subst}
use mathlib.Core.Option.{some-injective}
use sync_files.Base.{
  ◌≡◌, refl, ap, ◌∙◌, some, List, [], ◌∷◌, arith, Str, All, contains, Bool-cases, inl, inr,
}
use sync_files.Base.Partial.{>>=-eq-some}
use sync_files.Files.{Node, Files, lookup}
use sync_files.Functions.State.{Functions, initial}
use sync_files.Functions.Listing.{
  get_files, prefix_of, helper_ifiles, helper_ofiles, helper_idirset, helper_odirset,
}
use sync_files.Functions.Copy.{
  Settings, Job, make_output, drop_dir, handle_dirs, gather, start, Thread, run,
}
use sync_files.Functions.Copy.Start.{Starts, start-Starts}
use sync_files.Functions.Copy.Prefixes.{Prefixed, start-Prefixed, lookup-start}
use sync_files.Functions.Copy.Frame.{Watch, CopySafe, ExtraSafe, DirSafe, Framed}
use sync_files.Functions.Copy.Frame.Running.{run-Framed, check_done-WorkSafe}

helper_ifiles-move : (fn fn' : Functions) → helper_ifiles fn ≡ some fn' → fn'.move ≡ fn.move
unfolding helper_ifiles
helper_ifiles-move fn fn' e = ground arith

helper_ofiles-move : (fn fn' : Functions) → helper_ofiles fn ≡ some fn' → fn'.move ≡ fn.move
unfolding helper_ofiles
helper_ofiles-move fn fn' e = ground arith

helper_idirset-move : (fn fn' : Functions) → helper_idirset fn ≡ some fn' → fn'.move ≡ fn.move
unfolding helper_idirset
helper_idirset-move fn fn' e = ground arith

helper_odirset-move : (fn fn' : Functions) → helper_odirset fn ≡ some fn' → fn'.move ≡ fn.move
unfolding helper_odirset
helper_odirset-move fn fn' e = ground arith

gather-move :
    (set : Settings) (fn fn' : Functions) (fs : Files) (input output : Str)
    → gather set fn fs input output ≡ some fn'
    → fn'.move ≡ set.move
unfolding gather
gather-move set fn fn' fs input output e =
    let (_, _, e₁) = >>=-eq-some (get_files fs input fn.files_input fn.dirs_input) _ e in
    let (_, _, e₂) = >>=-eq-some (get_files fs output fn.files_output fn.dirs_output) _ e₁ in
    let (fn₁, h₁, e₃) = >>=-eq-some (helper_ifiles _) _ e₂ in
    let (fn₂, h₂, e₄) = >>=-eq-some (helper_ofiles fn₁) _ e₃ in
    let (fn₃, h₃, e₅) = >>=-eq-some (helper_idirset fn₂) _ e₄ in
    helper_odirset-move fn₃ fn' e₅
    ∙ helper_idirset-move fn₂ fn₃ h₃
    ∙ helper_ofiles-move fn₁ fn₂ h₂
    ∙ helper_ifiles-move _ fn₁ h₁

handle_dirs-move :
    (dirs : List Str) (fn : Functions) (fs : Files) → (handle_dirs fn fs dirs).0.move ≡ fn.move
unfolding handle_dirs
handle_dirs-move [] fn fs = refl
handle_dirs-move (d ∷ ds) fn fs = elim (Bool-cases (contains fn.output_dir_set d)) [
  | inl h ↦ rw (h, handle_dirs) (handle_dirs-move ds (drop_dir d fn) fs)
  | inr h ↦ rw (h, handle_dirs) (handle_dirs-move ds fn _)
]

start-move :
    (set : Settings) (fn : Functions) (fs : Files) (input output : Str) (j : Job)
    → start set fn fs input output ≡ some j
    → j.fn.move ≡ set.move
unfolding start
start-move set fn fs input output j e =
    let (fs₁, _, e₁) = >>=-eq-some (make_output fs output) _ e in
    let (fn₁, g, e₂) = >>=-eq-some (gather set fn fs₁ input output) _ e₁ in
    subst (λ k. k.fn.move ≡ set.move) (some-injective _ _ e₂)
      (handle_dirs-move fn₁.input_dir_set fn₁ fs₁ ∙ gather-move set fn fn₁ fs₁ input output g)

-- A path, and what the settings can do to it.
abbrev pub watching : Settings → Str → Str → Str → Node → Watch
watching set input output path n = record {
  inp = prefix_of input;
  out = prefix_of output;
  path = path;
  node = some n;
  moves = set.move;
  deletes = set.delete_without_match;
}

Starts-Framed :
    (set : Settings) (input output path : Str) (n : Node) (j : Job)
    → Starts set j
    → Prefixed input output j.fn
    → j.fn.move ≡ set.move
    → lookup j.fs path ≡ some n
    → All (CopySafe (watching set input output path n)) j.fn.input_files_set
    → All (ExtraSafe (watching set input output path n)) j.fn.output_files_set
    → All (DirSafe (watching set input output path n)) j.fn.output_dir_set
    → Framed (watching set input output path n) j
Starts-Framed set input output path n j v p m h a b c = record {
  clear = record {
    from_eq = p.from_eq;
    to_eq = p.to_eq;
    move_eq = m;
    inputs = a;
    copies = rw v.fresh.no_copies tt;
    removals = rw v.fresh.no_deletes tt;
    extras = b;
    dirs = c;
  };
  deletes_eq = ap (λ s. s.delete_without_match) v.settings_eq;
  main_safe = rw v.main_eq tt;
  sorts = rw v.sorters_eq (tt, (tt, (tt, (tt, tt))));
  works = rw v.workers_eq (check_done-WorkSafe (watching set input output path n) set.processors);
  same = h;
}

-- A path keeps what it names through a `Copy`, however its threads run, if it is the target of no
-- listed file; if with -m it is the source of none; and if with -d it is none of the paths that
-- `DoStuff` removes, which have the output's prefix twice, and no extra directory, nor in one.
pub untouched :
    (set : Settings) (fs : Files) (input output path : Str) (n : Node) (j : Job) (ts : List Thread)
    → start set initial fs input output ≡ some j
    → lookup fs path ≡ some n
    → All (CopySafe (watching set input output path n)) j.fn.input_files_set
    → All (ExtraSafe (watching set input output path n)) j.fn.output_files_set
    → All (DirSafe (watching set input output path n)) j.fn.output_dir_set
    → lookup (run j ts).fs path ≡ some n
untouched set fs input output path n j ts e h a b c =
    let w = watching set input output path n in
    let f =
      Starts-Framed set input output path n j (start-Starts set fs input output j e)
        (start-Prefixed set initial fs input output j e)
        (start-move set initial fs input output j e)
        (lookup-start set initial fs input output path n j e h) a b c in
    (run-Framed w j ts f).same
