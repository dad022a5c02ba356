-- ===== src/Functions/Copy/Prefixes.antt =====
-- The prefixes and the files that `Copy` of src/Functions.cpp starts its threads with.
use mathlib.Core.Path.{subst}
use mathlib.Core.Option.{some-injective}
use sync_files.Base.{◌≡◌, refl, ◌∙◌, some, List, [], ◌∷◌, ◌++◌, arith, Str}
use sync_files.Base.Partial.{>>=-eq-some}
use sync_files.Files.{Node, Files, lookup}
use sync_files.Files.Calls.{create_directories}
use sync_files.Files.Calls.Directories.{lookup-create_directories}
use sync_files.Functions.State.{Functions}
use sync_files.Functions.Listing.{
  get_files, prefix_of, helper_ifiles, helper_ofiles, helper_idirset, helper_odirset,
}
use sync_files.Functions.Copy.{Settings, Job, make_output, drop_dir, handle_dirs, gather, start}

pub record Prefixed (input output : Str) (fn : Functions) : Type 0 where
  pub from_eq : fn.input_prefix ≡ prefix_of input
  pub to_eq : fn.output_prefix ≡ prefix_of output

module _ (input output : Str) where
  helper_ifiles-Prefixed :
      (fn fn' : Functions)
      → Prefixed input output fn
      → helper_ifiles fn ≡ some fn'
      → Prefixed input output fn'
  unfolding helper_ifiles
  helper_ifiles-Prefixed fn fn' v e = ground arith

  helper_ofiles-Prefixed :
      (fn fn' : Functions)
      → Prefixed input output fn
      → helper_ofiles fn ≡ some fn'
      → Prefixed input output fn'
  unfolding helper_ofiles
  helper_ofiles-Prefixed fn fn' v e = ground arith

  helper_idirset-Prefixed :
      (fn fn' : Functions)
      → Prefixed input output fn
      → helper_idirset fn ≡ some fn'
      → Prefixed input output fn'
  unfolding helper_idirset
  helper_idirset-Prefixed fn fn' v e = ground arith

  helper_odirset-Prefixed :
      (fn fn' : Functions)
      → Prefixed input output fn
      → helper_odirset fn ≡ some fn'
      → Prefixed input output fn'
  unfolding helper_odirset
  helper_odirset-Prefixed fn fn' v e = ground arith

  gather-Prefixed :
      (set : Settings) (fn fn' : Functions) (fs : Files)
      → gather set fn fs input output ≡ some fn'
      → Prefixed input output fn'
  unfolding gather
  gather-Prefixed set fn fn' fs e =
      let (_, _, e₁) = >>=-eq-some (get_files fs input fn.files_input fn.dirs_input) _ e in
      let (_, _, e₂) = >>=-eq-some (get_files fs output fn.files_output fn.dirs_output) _ e₁ in
      let (fn₁, h₁, e₃) = >>=-eq-some (helper_ifiles _) _ e₂ in
      let (fn₂, h₂, e₄) = >>=-eq-some (helper_ofiles fn₁) _ e₃ in
      let (fn₃, h₃, e₅) = >>=-eq-some (helper_idirset fn₂) _ e₄ in
      helper_odirset-Prefixed fn₃ fn'
        (helper_idirset-Prefixed fn₂ fn₃
          (helper_ofiles-Prefixed fn₁ fn₂
            (helper_ifiles-Prefixed _ fn₁ (record { from_eq = refl; to_eq = refl }) h₁) h₂)
          h₃)
        e₅

handle_dirs-prefixes :
    (dirs : List Str) (fn : Functions) (fs : Files)
    → let fn' = (handle_dirs fn fs dirs).0 in
      (fn'.input_prefix ≡ fn.input_prefix) × (fn'.output_prefix ≡ fn.output_prefix)
unfolding handle_dirs
handle_dirs-prefixes [] fn fs = (refl, refl)
handle_dirs-prefixes (d ∷ ds) fn fs = ground (
  arith,
  handle_dirs-prefixes ds (drop_dir d fn) fs,
  handle_dirs-prefixes ds fn (create_directories fs (fn.output_prefix ++ d)),
)

-- Making directories leaves every node that is there.
lookup-handle_dirs :
    (dirs : List Str) (fn : Functions) (fs : Files) (q : Str) (n : Node)
    → lookup fs q ≡ some n
    → lookup (handle_dirs fn fs dirs).1 q ≡ some n
unfolding handle_dirs
lookup-handle_dirs [] fn fs q n h = h
lookup-handle_dirs (d ∷ ds) fn fs q n h = ground (
  arith,
  lookup-handle_dirs ds (drop_dir d fn) fs q n h,
  lookup-handle_dirs ds fn (create_directories fs (fn.output_prefix ++ d)) q n
      (lookup-create_directories fs (fn.output_prefix ++ d) q n h),
)

lookup-make_output :
    (fs fs' : Files) (output q : Str) (n : Node)
    → make_output fs output ≡ some fs'
    → lookup fs q ≡ some n
    → lookup fs' q ≡ some n
unfolding make_output
lookup-make_output fs fs' output q n e h = ground (arith, lookup-create_directories fs output q n h)

pub start-Prefixed :
    (set : Settings) (fn : Functions) (fs : Files) (input output : Str) (j : Job)
    → start set fn fs input output ≡ some j
    → Prefixed input output j.fn
unfolding start
start-Prefixed set fn fs input output j e =
    let (fs₁, _, e₁) = >>=-eq-some (make_output fs output) _ e in
    let (fn₁, g, e₂) = >>=-eq-some (gather set fn fs₁ input output) _ e₁ in
    let p = gather-Prefixed input output set fn fn₁ fs₁ g in
    let (a, b) = handle_dirs-prefixes fn₁.input_dir_set fn₁ fs₁ in
    subst (λ k. Prefixed input output k.fn) (some-injective _ _ e₂)
      (record { from_eq = a ∙ p.from_eq; to_eq = b ∙ p.to_eq })

-- What the file system has keeps its place up to the start of the threads.
pub lookup-start :
    (set : Settings) (fn : Functions) (fs : Files) (input output q : Str) (n : Node) (j : Job)
    → start set fn fs input output ≡ some j
    → lookup fs q ≡ some n
    → lookup j.fs q ≡ some n
unfolding start
lookup-start set fn fs input output q n j e h =
    let (fs₁, m, e₁) = >>=-eq-some (make_output fs output) _ e in
    let (fn₁, _, e₂) = >>=-eq-some (gather set fn fs₁ input output) _ e₁ in
    subst (λ k. lookup k.fs q ≡ some n) (some-injective _ _ e₂)
      (lookup-handle_dirs fn₁.input_dir_set fn₁ fs₁ q n (lookup-make_output fs fs₁ output q n m h))
