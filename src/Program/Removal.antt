-- ===== src/Program/Removal.antt =====
-- What `-rm` of `main` (src/main.cpp) deletes.
use sync_files.Base.{
  ◌≡◌, ◌≢◌, ◌∙◌, refl, sym, ap, Bool, true, false, Option, none, some, List, [], ◌∷◌, arith, Str,
  codes, All, Option-cases, inl, inr,
}
use sync_files.Files.{Files, clean, lookup, exists, is_directory}
use sync_files.Files.Calls.{below, remove, remove_all}
use sync_files.Files.Laws.{lookup-remove_ne}
use sync_files.Files.Calls.Trees.{lookup-remove_all}
use sync_files.Program.Patterns.{given, nodes}
use sync_files.Program.Flags.{parse_flags}
use sync_files.Program.{
  Options, deleted, to_lower, parse, add_path, sort_paths, delete_dirs, delete_files, confirm,
  dispatch, last_two, with_paths, main,
}

-- A path that is neither the named one nor in it.
abbrev pub Apart : Str → Str → Type 0
Apart p named = (clean named ≢ clean p) × (below named (clean p) ≡ none)

sort_paths-Apart :
    (fs : Files) (p : Str) (paths : List Str)
    → All (Apart p) paths
    → All (Apart p) (sort_paths fs paths).0 × All (Apart p) (sort_paths fs paths).1
unfolding sort_paths
sort_paths-Apart fs p [] h = (tt, tt)
sort_paths-Apart fs p (path ∷ paths) h =
    added (exists fs path) (is_directory fs path) (sort_paths-Apart fs p paths h.1)
  where
    added :
        (e d : Bool)
        → All (Apart p) (sort_paths fs paths).0 × All (Apart p) (sort_paths fs paths).1
        → All (Apart p) (add_path e d path (sort_paths fs paths)).0
          × All (Apart p) (add_path e d path (sort_paths fs paths)).1
    added false d r = r
    added true true r = (r.0, (h.0, r.1))
    added true false r = ((h.0, r.0), r.1)

lookup-delete_dirs :
    (fs : Files) (p : Str) (dirs : List Str)
    → All (Apart p) dirs
    → lookup (delete_dirs fs dirs) p ≡ lookup fs p
unfolding delete_dirs
lookup-delete_dirs fs p [] h = refl
lookup-delete_dirs fs p (d ∷ ds) h = elim (Option-cases (remove_all fs d)) [
  | inl e ↦ rw (e, delete_dirs) refl
  | inr (fs', e) ↦
      rw (e, delete_dirs)
        (lookup-delete_dirs fs' p ds h.1 ∙ lookup-remove_all fs fs' d p e h.0.0 h.0.1)
]

lookup-delete_files :
    (fs : Files) (p : Str) (files dirs : List Str)
    → All (Apart p) files
    → All (Apart p) dirs
    → lookup (delete_files fs files dirs) p ≡ lookup fs p
unfolding delete_files
lookup-delete_files fs p [] dirs h k = lookup-delete_dirs fs p dirs k
lookup-delete_files fs p (f ∷ files) dirs h k = elim (Option-cases (remove fs f)) [
  | inl e ↦ rw (e, delete_files) refl
  | inr (fs', e) ↦
      rw (e, delete_files)
        (lookup-delete_files fs' p files dirs h.1 k ∙ lookup-remove_ne fs fs' f p e h.0.0)
]

confirm-deleted :
    (fs fs' : Files) (answer : Str) (named : List Str × List Str)
    → confirm fs answer named ≡ deleted fs'
    → (to_lower answer ≡ codes "y") × (delete_files fs named.0 named.1 ≡ fs')
unfolding confirm
confirm-deleted fs fs' answer (files, dirs) e = ground arith

dispatch-deleted :
    (fs fs' : Files) (answer : Str) (o : Options) (input last : Str)
    → dispatch fs answer o input last ≡ deleted fs'
    → (o.search ≡ false)
      × (o.remove ≡ true)
      × (confirm fs answer (sort_paths fs o.sinodes) ≡ deleted fs')
unfolding dispatch
dispatch-deleted fs fs' answer o input last e = ground arith

with_paths-deleted :
    (fs fs' : Files) (answer : Str) (args : List Str) (paths : Option (Str × Str))
    → with_paths fs answer args paths ≡ deleted fs'
    → ((parse args).search ≡ false)
      × ((parse args).remove ≡ true)
      × (confirm fs answer (sort_paths fs (parse args).sinodes) ≡ deleted fs')
with_paths-deleted fs fs' answer args none e = absurd cc
with_paths-deleted fs fs' answer args (some (input, last)) e =
    dispatch-deleted fs fs' answer (parse args) input last e

-- Where a run deletes, an argument has the pattern of `-rm` and none that is tested before it, none
-- selects the search, the answer was `y` or `Y`, and every path that is neither one of the arguments
-- without a pattern nor below one names what it named before.
pub deletes_named :
    (fs fs' : Files) (answer : Str) (args : List Str) (p : Str)
    → main fs answer args ≡ deleted fs'
    → All (Apart p) (nodes args)
    → (given 2 args ≡ true)
      × (given 4 args ≡ false)
      × (to_lower answer ≡ codes "y")
      × (lookup fs' p ≡ lookup fs p)
unfolding main
deletes_named fs fs' answer args p e h =
    let f = parse_flags args in
    let d = with_paths-deleted fs fs' answer args (last_two args) e in
    let named = sort_paths fs (parse args).sinodes in
    let c = confirm-deleted fs fs' answer named d.2 in
    let apart : All (Apart p) (parse args).sinodes = rw f.8 h in
    let a = sort_paths-Apart fs p (parse args).sinodes apart in
    (
      sym f.2 ∙ d.1,
      sym f.4 ∙ d.0,
      c.0,
      ap (λ x. lookup x p) (sym c.1) ∙ lookup-delete_files fs p named.0 named.1 a.0 a.1,
    )
