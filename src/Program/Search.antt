-- ===== src/Program/Search.antt =====
-- `Search` and `ConvertToWideString` of src/main.cpp, in the C locale.
pub mod Found
use sync_files.Base.{
  ℕ, zero, suc, ◌+◌, ◌%◌, Bool, true, false, Option, none, some, List, [], ◌∷◌, ◌++◌, Str, take,
  ltb, leb, ◌==◌, ◌&&◌, if◌then◌else◌,
}
use sync_files.Base.Partial.{◌>>=◌}
use sync_files.Files.{Files, filename}
use sync_files.Files.Calls.{Entry, iterate}
use sync_files.Program.{has}

-- `mbstowcs(nullptr, s, …)`: the characters before the first 0; `none` is `(size_t)-1`.
unfoldable pub wide_length : Str → Option ℕ
wide_length [] = some 0
wide_length (x ∷ s) =
    let rest = wide_length s in
    if x == 0
    then some 0
    else if ltb x 128
    then (elim rest [ none ↦ none | some n ↦ some (suc n) ])
    else none

-- What `ConvertToWideString` comes to; a string of `(size_t)-1` characters cannot be made, and the
-- exception ends the program.
pub data Wide : Type 0 where
  nullopt : Wide
  converted : Str → Wide
  unmade : Wide

abbrev pub wide_of : Str → Option ℕ → Wide
wide_of s none = unmade
wide_of s (some zero) = nullopt
wide_of s (some (suc n)) = converted (take (suc n) s)

unfoldable pub convert_to_wide_string : Str → Wide
convert_to_wide_string s = wide_of s (wide_length s)

-- `ToLower` of a wide string; `std::tolower` of a character above 255 is undefined.
unfoldable pub to_lower_wide : Str → Option Str
to_lower_wide [] = some []
to_lower_wide (x ∷ s) =
    let rest = to_lower_wide s in
    if leb x 255
    then (elim rest [
      | none ↦ none
      | some r ↦ some ((if leb 65 x && leb x 90 then x + 32 else x) ∷ r)
    ])
    else none

-- One entry: directories and files alike.
abbrev pub noted : Str → Str → Entry → List Str → List Str
noted wname name (p, true) inputs = if has name wname then inputs ++ p ∷ [] else inputs
noted wname name (p, false) inputs = if has name wname then inputs ++ p ∷ [] else inputs

-- The messages after one more entry.
abbrev pub told : ℕ → ℕ → ℕ
told count messages = if count % 10000 == 0 then suc messages else messages

-- The loop, with the paths found, the entries counted and the messages "Still Searching...".
unfoldable pub search_entries : Str → List Entry → List Str → ℕ → ℕ → Option (List Str × ℕ)
search_entries wname [] inputs count messages = some (inputs, messages)
search_entries wname (e ∷ es) inputs count messages = do
  name ← to_lower_wide (filename e.0)
  search_entries wname es (noted wname name e inputs) (suc count) (told (suc count) messages)

-- What a search comes to: the paths that are printed and the number of messages before them.
pub data Report : Type 0 where
  found : List Str → ℕ → Report
  thrown : Report  -- `filesystem_error` or `bad_optional_access`
  ended : Report  -- `std::terminate`
  undefined : Report

abbrev pub report : Option (List Str × ℕ) → Report
report none = undefined
report (some (inputs, messages)) = found inputs messages

abbrev pub search_named : List Entry → Wide → Report
search_named es nullopt = thrown
search_named es unmade = ended
search_named es (converted name) = elim (to_lower_wide name) [
  | none ↦ undefined
  | some wname ↦ report (search_entries wname es [] 0 0)
]

abbrev pub search_below : Str → Option (List Entry) → Report
search_below name none = thrown
search_below name (some es) = search_named es (convert_to_wide_string name)

unfoldable pub search_files : Files → Str → Str → Report
search_files fs path name = search_below name (iterate fs path)
