-- ===== src/Tests/Program.antt =====
-- Runs of `main` (src/main.cpp) on a small disk.
use sync_files.Base.{◌≡◌, refl, true, false, ◌||◌, some, List, [], ◌∷◌, All, arith, Str, codes}
use sync_files.Files.{Files, lookup, exists}
use sync_files.Functions.Copy.{Settings}
use sync_files.Tests.Samples.{disk, file_calls}
use sync_files.Program.{Action, deleted, copy, to_lower, parse, main, last_two, has}
use sync_files.Program.Patterns.{given, nodes}
use sync_files.Program.Flags.{parse_flags}
use sync_files.Program.Removal.{Apart, deletes_named}
use sync_files.Program.Modes.{copies_lem}

abbrev copy_args : List Str
copy_args = codes "-p4" ∷ codes "-f" ∷ codes "in" ∷ codes "out" ∷ []

parse_flags_example :
    let o = parse copy_args in
    (o.debug ≡ given 0 copy_args)
    × (o.reconstitutesymlinks ≡ given 1 copy_args)
    × (o.remove ≡ given 2 copy_args)
    × (o.deletewithoutmatch ≡ given 3 copy_args)
    × (o.search ≡ given 4 copy_args)
    × (o.force ≡ given 5 copy_args)
    × (o.overwriteexisting ≡ (given 6 copy_args || given 5 copy_args))
    × (o.move ≡ given 7 copy_args)
    × (o.sinodes ≡ nodes copy_args)
parse_flags_example = parse_flags copy_args

abbrev copy_settings : Settings
copy_settings = record {
  delete_without_match = false;
  overwrite_existing = true;
  force = true;
  move = false;
  processors = 4;
}

main_copies : main disk [] copy_args ≡ copy copy_settings (codes "in") (codes "out")
unfolding main has file_calls
main_copies = refl

copies_lem_example :
    (last_two copy_args ≡ some (codes "in", codes "out"))
    × (exists disk (codes "in") ≡ true)
    × (given 4 copy_args ≡ false)
    × (given 2 copy_args ≡ false)
    × (given 1 copy_args ≡ false)
    × (false ≡ given 3 copy_args)
    × (true ≡ (given 6 copy_args || given 5 copy_args))
    × (true ≡ given 5 copy_args)
    × (false ≡ given 7 copy_args)
copies_lem_example =
    copies_lem disk [] copy_args copy_settings (codes "in") (codes "out") main_copies

abbrev remove_args : List Str
remove_args = codes "-rm" ∷ codes "out/old" ∷ codes "in/d" ∷ []

unfoldable disk_after : Action → Files
disk_after (deleted fs) = fs
disk_after _ = disk

unfoldable after_remove : Files
unfolding main has file_calls disk_after
after_remove = disk_after (main disk (codes "Y") remove_args)

main_deletes : main disk (codes "Y") remove_args ≡ deleted after_remove
unfolding main has file_calls after_remove
main_deletes = refl

named_nodes : nodes remove_args ≡ codes "out/old" ∷ codes "in/d" ∷ []
unfolding has
named_nodes = refl

a_Apart : All (Apart (codes "in/a")) (nodes remove_args)
unfolding has file_calls
a_Apart = (((λ e. ground arith), refl), (((λ e. ground arith), refl), tt))

deletes_named_example :
    (given 2 remove_args ≡ true)
    × (given 4 remove_args ≡ false)
    × (to_lower (codes "Y") ≡ codes "y")
    × (lookup after_remove (codes "in/a") ≡ lookup disk (codes "in/a"))
deletes_named_example =
    deletes_named disk after_remove (codes "Y") remove_args (codes "in/a") main_deletes a_Apart
