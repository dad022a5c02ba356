-- ===== src/Tests/Listing.antt =====
-- The listings of src/Functions.cpp over a small disk.
use sync_files.Base.{◌≡◌, refl, some, List, [], ◌∷◌, map, true, false, Str, codes}
use sync_files.Files.{ends_with_separator}
use sync_files.Files.Calls.Names.{names, names_in}
use sync_files.Functions.State.{Functions, initial}
use sync_files.Functions.Listing.{get_files_relative}
use sync_files.Functions.Listing.Names.{
  of_kind, insert_all, seen, IsNonempty, get_files_relative-names,
}
use sync_files.Functions.Copy.{gather}
use sync_files.Functions.Copy.Listed.{Listable, Gathered, gather-Gathered}
use sync_files.Tests.Samples.{disk, settings, file_calls}

abbrev nothing : List Str
nothing = []

in_Listable : Listable disk (codes "in")
unfolding file_calls names names_in IsNonempty
in_Listable = record { is_dir = refl; readable = refl; nonempty = (tt, (tt, (tt, tt))) }

slash_Listable : Listable disk (codes "in/")
unfolding file_calls names names_in IsNonempty
slash_Listable = record { is_dir = refl; readable = refl; nonempty = (tt, (tt, (tt, tt))) }

out_Listable : Listable disk (codes "out")
unfolding file_calls names names_in IsNonempty
out_Listable = record { is_dir = refl; readable = refl; nonempty = (tt, (tt, tt)) }

gather-Gathered_example :
    (fn : Functions) × (gather (settings 1 true) initial disk (codes "in") (codes "out") ≡ some fn)
    × Gathered disk (codes "in") (codes "out") fn
gather-Gathered_example =
    gather-Gathered (settings 1 true) disk (codes "in") (codes "out") in_Listable out_Listable

abbrev cut_files : List Str
cut_files = map (seen (codes "in/")) (of_kind false (names disk (codes "in/")))

-- With a separator at the end of the path, the names `a` and `d/b` are cut.
cut_files_lem : cut_files ≡ codes "" ∷ codes "/b" ∷ []
unfolding file_calls names names_in of_kind seen ends_with_separator
cut_files_lem = refl

get_files_relative-names_example :
    get_files_relative disk (codes "in/") [] []
    ≡ some (
      insert_all cut_files [],
      insert_all (map (seen (codes "in/")) (of_kind true (names disk (codes "in/")))) [],
    )
get_files_relative-names_example =
    get_files_relative-names disk (codes "in/") [] [] slash_Listable.is_dir slash_Listable.readable
      slash_Listable.nonempty
