-- ===== src/Tests/Relinking.antt =====
-- `ReconstitueSymlinks` (src/Functions.cpp) over small disks with a junction.
use sync_files.Base.{
  ℕ, ◌≡◌, refl, true, false, contains, Option, some, none, List, [], ◌∷◌, arith, Str, codes,
}
use sync_files.Files.{Node, file, dir, ends_with_separator, lookup}
use sync_files.Files.Calls.{ancestors, create_each}
use sync_files.Files.Calls.Names.{names, names_in}
use sync_files.Functions.Listing.{get_files_relative, insert_entries, relative}
use sync_files.Functions.Symlinks.{
  Disk, Ending, finished, thrown, outside, remove_junction, copy_new, copy_entries, copy_recursive,
  replace, doubled, aliased, search_folders, replace_each, list_folders, reconstitute_symlinks,
}
use sync_files.Functions.Symlinks.Lone.{IsLone}
use sync_files.Functions.Symlinks.Frame.{Away, Keeps, reconstitute_symlinks-Keeps}
use sync_files.Functions.Symlinks.Copied.{Replaced, replace-Replaced}
use sync_files.Tests.Samples.{file_calls}

abbrev over : List (Str × Node) → List Str → Disk
over ns js = record {
  files = record { nodes = ns; refused = λ p. false; unreadable = λ p. false; copy_time = λ t. t };
  junctions = js;
  target = λ p. codes "t";
}

-- `a/j` is a junction, and the other folder has a directory in its place.
abbrev linked : Disk
linked =
    over
      ((codes "a", dir)
        ∷ (codes "a/j", dir)
        ∷ (codes "a/j/x", file 1 (codes "old"))
        ∷ (codes "b", dir)
        ∷ (codes "b/j", dir)
        ∷ (codes "b/j/x", file 2 (codes "new"))
        ∷ [])
      (codes "a/j" ∷ [])

abbrev nested : Disk
nested =
    over
      ((codes "a", dir)
        ∷ (codes "a/j", dir)
        ∷ (codes "a/j/k", dir)
        ∷ (codes "t", dir)
        ∷ (codes "t/k", dir)
        ∷ (codes "b", dir)
        ∷ (codes "b/k", dir)
        ∷ [])
      (codes "a/j" ∷ codes "a/j/k" ∷ codes "t/k" ∷ [])

-- Unfolding this runs `ReconstitueSymlinks`.
unfoldable relink_calls : ℕ
unfolding ancestors create_each file_calls names names_in get_files_relative insert_entries relative
    outside remove_junction copy_new copy_entries copy_recursive replace doubled search_folders
    replace_each list_folders reconstitute_symlinks ends_with_separator
relink_calls = 0

abbrev content_of : Str → Ending → Option Node
content_of p (finished d) = lookup d.files p
content_of p _ = none

relinked :
    content_of (codes "a/j/x") (reconstitute_symlinks linked (codes "a" ∷ codes "b" ∷ []))
    ≡ some (file 2 (codes "new"))
unfolding relink_calls
relinked = refl

-- What stands behind `a/j` is seen there, with the junction `k` in it, a second time.
shown_twice : reconstitute_symlinks nested (codes "a" ∷ codes "b" ∷ []) ≡ aliased
unfolding relink_calls
shown_twice = refl

linked_folders :
    list_folders linked.files (codes "a" ∷ codes "b" ∷ [])
    ≡ some ((codes "a/", codes "j" ∷ []) ∷ (codes "b/", codes "j" ∷ []) ∷ [])
unfolding relink_calls
linked_folders = refl

near-Away : Away (codes "a/j") (codes "b/j/x")
unfolding relink_calls
near-Away = record { other = λ e. ground arith; outer = refl }

contains-one : (a q : Str) → contains (a ∷ []) q ≡ true → a ≡ q
contains-one a q h = ground arith

linked-IsLone : IsLone linked (codes "a/j")
unfolding relink_calls
linked-IsLone q c n b = absurd (n (contains-one (codes "a/j") q c))

reconstitute_symlinks-Keeps_example :
    Keeps
      (codes "b/j/x")
      (file 2 (codes "new"))
      (reconstitute_symlinks linked (codes "a" ∷ codes "b" ∷ []))
unfolding file_calls
reconstitute_symlinks-Keeps_example =
    reconstitute_symlinks-Keeps linked (codes "a" ∷ codes "b" ∷ []) (codes "a/") (codes "j" ∷ [])
      ((codes "b/", codes "j" ∷ []) ∷ []) (codes "b/j/x") (file 2 (codes "new")) linked_folders
      ((λ j. (near-Away, linked-IsLone)), tt) refl

source-Away : Away (codes "a/j") (codes "b/j")
unfolding relink_calls
source-Away = record { other = λ e. ground arith; outer = refl }

abbrev disk_of : Ending → Disk
disk_of (finished d) = d
disk_of (thrown d) = d
disk_of _ = linked

linked_end : Disk
linked_end = disk_of (replace linked (codes "b/j") (codes "a/j"))

replace-Replaced_example : Replaced linked linked_end (codes "b/j") (codes "a/j")
unfolding relink_calls linked_end
replace-Replaced_example =
    replace-Replaced linked linked_end (codes "b/j") (codes "a/j") refl source-Away refl

-- `a/d/j` is a junction, and the other folder has a `j` elsewhere.
abbrev misplaced : Disk
misplaced =
    over
      ((codes "a", dir)
        ∷ (codes "a/d", dir)
        ∷ (codes "a/d/j", dir)
        ∷ (codes "a/d/j/y", file 1 (codes "old"))
        ∷ (codes "b", dir)
        ∷ (codes "b/j", dir)
        ∷ [])
      (codes "a/d/j" ∷ [])
