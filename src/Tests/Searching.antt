-- ===== src/Tests/Searching.antt =====
-- `Search` and `ConvertToString` (src/main.cpp) over a small disk.
use sync_files.Base.{
  ℕ, ◌/◌, ◌≡◌, ◌≢◌, none, ltb, refl, true, false, some, List, [], ◌∷◌, arith, Str, codes, length,
}
use sync_files.Files.Calls.{Entry, iterate}
use sync_files.Program.{to_lower, has}
use sync_files.Program.Narrow.{convert_to_string, narrowed, IsZeros, convert_to_string-IsZeros}
use sync_files.Program.Search.{
  search_files, search_entries, convert_to_wide_string, wide_length, to_lower_wide, found, thrown,
}
use sync_files.Program.Search.Found.{Picks, search_files-Picks}
use sync_files.Tests.Samples.{disk, file_calls}

abbrev in_entries : List Entry
in_entries = (codes "in/a", false) ∷ (codes "in/d", true) ∷ (codes "in/d/b", false) ∷ []

in_iterate : iterate disk (codes "in") ≡ some in_entries
unfolding file_calls
in_iterate = refl

-- A name in capitals finds the file.
search_capital : search_files disk (codes "in") (codes "B") ≡ found (codes "in/d/b" ∷ []) 0
unfolding search_files search_entries convert_to_wide_string wide_length to_lower_wide has
    file_calls
search_capital = refl

search_empty : search_files disk (codes "in") [] ≡ thrown
unfolding search_files convert_to_wide_string wide_length file_calls
search_empty = refl

search_files-Picks_example :
    (xs : List Str) × (search_files disk (codes "in") (codes "B")
      ≡ found xs (length in_entries / 10000))
    × Picks (to_lower (codes "B")) in_entries xs
search_files-Picks_example =
    search_files-Picks disk (codes "in") 66 [] in_entries in_iterate
      (((λ e. ground arith), refl), tt) ((refl, tt), ((refl, tt), ((refl, tt), tt)))

convert_to_string-IsZeros_example :
    ((t : Str) → convert_to_string (codes "ab") ≡ some t → IsZeros t)
    × ((x : ℕ) (r : Str)
        → codes "ab" ≡ x ∷ r
        → x ≢ 0
        → ltb x 256 ≡ true
        → convert_to_string (codes "ab") ≡ none)
convert_to_string-IsZeros_example = convert_to_string-IsZeros (codes "ab")

convert_ab : convert_to_string (codes "ab") ≡ none
unfolding convert_to_string narrowed
convert_ab = refl
