-- ===== src/Functions/Listing/Names.antt =====
-- What the listings of src/Functions.cpp hold, by the names that stand in the directory.
use sync_files.Base.{
  ℕ, ◌-◌, ◌≡◌, refl, ap, ◌∙◌, Bool, true, false, some, List, [], ◌∷◌, ◌++◌, map, arith, Str, insert,
  length, All, Bool-cases, inl, inr, append-nil, append_assoc, drop, ltb, if◌then◌else◌,
  length-append, drop-append, take-length,
}
use sync_files.Files.{Files, separator, ends_with_separator, is_directory, join}
use sync_files.Files.Calls.{Entry}
use sync_files.Files.Calls.Names.{names, joined, iterate-names, exists-is_directory}
use sync_files.Functions.Listing.{
  relative, prefix_of, sort_entries, get_files, insert_entries, get_files_relative, push_relative,
  insert_relative,
}

-- The names of directories, or of files, in the order of the listing.
unfoldable pub of_kind : Bool → List Entry → List Str
of_kind k [] = []
of_kind true ((r, true) ∷ es) = r ∷ of_kind true es
of_kind true ((r, false) ∷ es) = of_kind true es
of_kind false ((r, true) ∷ es) = of_kind false es
of_kind false ((r, false) ∷ es) = r ∷ of_kind false es

unfoldable pub insert_all : List Str → List Str → List Str
insert_all [] set = set
insert_all (r ∷ rs) set = insert_all rs (insert r set)

-- A name as the program cuts it out of the path: without its first character if the directory's
-- path ends with a separator.
unfoldable pub seen : Str → Str → Str
seen d r = if ends_with_separator d then drop 1 r else r

unfoldable pub IsNonempty : Str → Type 0
IsNonempty [] = ⊥
IsNonempty (x ∷ r) = Unit

relative-append : (p r : Str) → relative (length p) (p ++ r) ≡ some r
unfolding relative
relative-append p r =
    rw (drop-append p r, lt_false)
      (ap some (take-length (length (p ++ r) - length p) r (omega (arith, length-append p r))))
  where
    lt_false : ltb (length (p ++ r)) (length p) ≡ false
    lt_false = ground (arith, length-append p r)

relative-after : (d : Str) (x : ℕ) (r : Str) → relative (length (prefix_of d)) (d ++ x ∷ r) ≡ some r
relative-after d x r =
    rw (same_length, ← append_assoc d (x ∷ []) r) (relative-append (d ++ x ∷ []) r)
  where
    same_length : length (prefix_of d) ≡ length (d ++ x ∷ [])
    same_length = omega (arith, length-append d (separator ∷ []), length-append d (x ∷ []))

relative-join :
    (d r : Str) → IsNonempty r → relative (length (prefix_of d)) (join d r) ≡ some (seen d r)
unfolding join seen IsNonempty
relative-join d [] h = absurd h
relative-join d (x ∷ r) h = elim (Bool-cases (ends_with_separator d)) [
  | inl e ↦ rw (e, join, seen) (relative-after d x r)
  | inr e ↦ rw (e, join, seen) (relative-after d separator (x ∷ r))
]

pub of_kind_Nonempty :
    (k : Bool) (es : List Entry) → All (λ e. IsNonempty e.0) es → All IsNonempty (of_kind k es)
unfolding of_kind
of_kind_Nonempty k [] h = tt
of_kind_Nonempty true ((r, true) ∷ es) h = (h.0, of_kind_Nonempty true es h.1)
of_kind_Nonempty true ((r, false) ∷ es) h = of_kind_Nonempty true es h.1
of_kind_Nonempty false ((r, true) ∷ es) h = of_kind_Nonempty false es h.1
of_kind_Nonempty false ((r, false) ∷ es) h = (h.0, of_kind_Nonempty false es h.1)

insert_entries-names :
    (d : Str) (es : List Entry) (files dirs : List Str)
    → All (λ e. IsNonempty e.0) es
    → insert_entries (length (prefix_of d)) (map (joined d) es) files dirs
      ≡ some (
        insert_all (map (seen d) (of_kind false es)) files,
        insert_all (map (seen d) (of_kind true es)) dirs,
      )
unfolding insert_entries of_kind insert_all
insert_entries-names d [] files dirs h = refl
insert_entries-names d ((r, true) ∷ es) files dirs h =
    rw (insert_entries, relative-join d r h.0)
      (insert_entries-names d es files (insert (seen d r) dirs) h.1)
insert_entries-names d ((r, false) ∷ es) files dirs h =
    rw (insert_entries, relative-join d r h.0)
      (insert_entries-names d es (insert (seen d r) files) dirs h.1)

sort_entries-names :
    (d : Str) (es : List Entry) (files dirs : List Str)
    → sort_entries (map (joined d) es) files dirs
      ≡ (files ++ map (join d) (of_kind false es), dirs ++ map (join d) (of_kind true es))
unfolding sort_entries of_kind
sort_entries-names d [] files dirs = rw (append-nil files, append-nil dirs) refl
sort_entries-names d ((r, true) ∷ es) files dirs =
    sort_entries-names d es files (dirs ++ join d r ∷ [])
    ∙ ap (λ k. (files ++ map (join d) (of_kind false es), k))
        (append_assoc dirs (join d r ∷ []) (map (join d) (of_kind true es)))
sort_entries-names d ((r, false) ∷ es) files dirs =
    sort_entries-names d es (files ++ join d r ∷ []) dirs
    ∙ ap (λ k. (k, dirs ++ map (join d) (of_kind true es)))
        (append_assoc files (join d r ∷ []) (map (join d) (of_kind false es)))

pub push_relative-names :
    (d : Str) (rs queue : List Str)
    → All IsNonempty rs
    → push_relative (length (prefix_of d)) (map (join d) rs) queue ≡ some (queue ++ map (seen d) rs)
unfolding push_relative
push_relative-names d [] queue h = rw (append-nil queue) refl
push_relative-names d (r ∷ rs) queue h =
    rw (push_relative, relative-join d r h.0)
      (push_relative-names d rs (queue ++ seen d r ∷ []) h.1
        ∙ ap some (append_assoc queue (seen d r ∷ []) (map (seen d) rs)))

pub insert_relative-names :
    (d : Str) (rs set : List Str)
    → All IsNonempty rs
    → insert_relative (length (prefix_of d)) (map (join d) rs) set
      ≡ some (insert_all (map (seen d) rs) set)
unfolding insert_relative insert_all
insert_relative-names d [] set h = refl
insert_relative-names d (r ∷ rs) set h =
    rw (insert_relative, relative-join d r h.0)
      (insert_relative-names d rs (insert (seen d r) set) h.1)

pub get_files-names :
    (fs : Files) (d : Str) (files dirs : List Str)
    → is_directory fs d ≡ true
    → fs.unreadable d ≡ false
    → get_files fs d files dirs
      ≡ some (
        files ++ map (join d) (of_kind false (names fs d)),
        dirs ++ map (join d) (of_kind true (names fs d)),
      )
unfolding get_files
get_files-names fs d files dirs h k =
    rw (exists-is_directory fs d h, iterate-names fs d h k)
      (ap some (sort_entries-names d (names fs d) files dirs))

-- For a directory that can be opened, and whose names are not empty, `GetFilesRelative` inserts the
-- names of its files into the one set and those of its directories into the other, in full, or
-- without their first character where the path ends with a separator.
pub get_files_relative-names :
    (fs : Files) (d : Str) (files dirs : List Str)
    → is_directory fs d ≡ true
    → fs.unreadable d ≡ false
    → All (λ e. IsNonempty e.0) (names fs d)
    → get_files_relative fs d files dirs
      ≡ some (
        insert_all (map (seen d) (of_kind false (names fs d))) files,
        insert_all (map (seen d) (of_kind true (names fs d))) dirs,
      )
unfolding get_files_relative
get_files_relative-names fs d files dirs h k n =
    rw (exists-is_directory fs d h, iterate-names fs d h k)
      (insert_entries-names d (names fs d) files dirs n)
