-- ===== src/Program/Modes.antt =====
-- When `main` (src/main.cpp) copies, and with which settings.
use sync_files.Base.{◌≡◌, ◌∙◌, sym, ap, true, false, ◌||◌, Option, none, some, List, arith, Str}
use sync_files.Files.{Files, exists}
use sync_files.Functions.Copy.{Settings}
use sync_files.Program.{
  Options, copy, settings_of, parse, confirm, dispatch, last_two, with_paths, main,
}
use sync_files.Program.Patterns.{given}
use sync_files.Program.Flags.{parse_flags}

-- What holds where a run copies.
record Copies (fs : Files) (o : Options) (cfg : Settings) (input output : Str)
    (paths : Option (Str × Str)) : Type 0 where
  named : paths ≡ some (input, output)
  there : exists fs input ≡ true
  search : o.search ≡ false
  remove : o.remove ≡ false
  links : o.reconstitutesymlinks ≡ false
  settings : cfg ≡ settings_of o

confirm-copy :
    (fs : Files) (answer : Str) (named : List Str × List Str) (set : Settings) (input output : Str)
    → confirm fs answer named ≡ copy set input output
    → ⊥
unfolding confirm
confirm-copy fs answer (files, dirs) set input output e = ground arith

dispatch-copy :
    (fs : Files) (answer : Str) (o : Options) (i l : Str) (set : Settings) (input output : Str)
    → dispatch fs answer o i l ≡ copy set input output
    → Copies fs o set input output (some (i, l))
unfolding dispatch
dispatch-copy fs answer o i l set input output e = record {
  named = grind (arith, confirm-copy);
  there = grind (arith, confirm-copy);
  search = grind (arith, confirm-copy);
  remove = grind (arith, confirm-copy);
  links = grind (arith, confirm-copy);
  settings = grind (arith, confirm-copy);
}

with_paths-copy :
    (fs : Files) (answer : Str) (args : List Str) (paths : Option (Str × Str)) (set : Settings)
    (input output : Str)
    → with_paths fs answer args paths ≡ copy set input output
    → Copies fs (parse args) set input output paths
with_paths-copy fs answer args none set input output e = absurd cc
with_paths-copy fs answer args (some (i, l)) set input output e =
    dispatch-copy fs answer (parse args) i l set input output e

-- Where a run copies, the paths are its last two arguments, and the first of them exists; no
-- argument selects the search, a deletion or the links. Of the settings that `Copy` is called with,
-- `deletewithoutmatch` is set exactly if the first pattern of some argument, in the order of the
-- tests, is -d, `overwriteexisting` if it is -o or -f, `force` if it is -f, and `move` if it is -m.
pub copies_lem :
    (fs : Files) (answer : Str) (args : List Str) (set : Settings) (input output : Str)
    → main fs answer args ≡ copy set input output
    → (last_two args ≡ some (input, output))
      × (exists fs input ≡ true)
      × (given 4 args ≡ false)
      × (given 2 args ≡ false)
      × (given 1 args ≡ false)
      × (set.delete_without_match ≡ given 3 args)
      × (set.overwrite_existing ≡ (given 6 args || given 5 args))
      × (set.force ≡ given 5 args)
      × (set.move ≡ given 7 args)
unfolding main
copies_lem fs answer args set input output e =
    let f = parse_flags args in
    let c = with_paths-copy fs answer args (last_two args) set input output e in
    (
      c.named,
      c.there,
      sym f.4 ∙ c.search,
      sym f.2 ∙ c.remove,
      sym f.1 ∙ c.links,
      ap (λ s. s.delete_without_match) c.settings ∙ f.3,
      ap (λ s. s.overwrite_existing) c.settings ∙ f.6,
      ap (λ s. s.force) c.settings ∙ f.5,
      ap (λ s. s.move) c.settings ∙ f.7,
    )
