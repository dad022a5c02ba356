-- ===== src/Functions/Symlinks/Frame.antt =====
-- What `ReconstitueSymlinks` of src/Functions.cpp leaves alone.
use mathlib.Core.Option.{some-injective}
use sync_files.Base.{
  ◌≡◌, ◌≢◌, refl, subst, sym, ap, ◌∙◌, Bool, true, false, none, some, List, [], ◌∷◌, ◌++◌, Str, All,
  All-map, contains, ◌||◌, Bool-cases, Option-cases, inl, inr, arith,
}
use sync_files.Files.{Node, Files, clean, lookup, is_directory, filename}
use sync_files.Files.Calls.{below, remove_all, create_directories}
use sync_files.Files.Calls.Names.{names}
use sync_files.Files.Calls.Trees.{lookup-remove_all}
use sync_files.Files.Calls.Directories.{lookup-create_directories}
use sync_files.Functions.Symlinks.Copying.{lookup-copy_recursive}
use sync_files.Functions.Symlinks.Lone.{IsLone, doubled-IsLone}
use sync_files.Functions.Symlinks.{
  Disk, is_junction, Ending, finished, thrown, undefined, aliased, shows, doubled, outside,
  remove_junction, copy_recursive, ending_of, replace, Folder, search_folders, replace_each,
  list_folders, reconstitute_symlinks,
}

-- The path is neither the junction nor below it.
pub record Away (junction path : Str) : Type 0 where
  pub other : clean junction ≢ clean path
  pub outer : below junction (clean path) ≡ none

-- The path names the node on the disk that the function leaves.
unfoldable pub Keeps : Str → Node → Ending → Type 0
Keeps p n (finished d) = lookup d.files p ≡ some n
Keeps p n (thrown d) = lookup d.files p ≡ some n
Keeps p n undefined = ⊥
Keeps p n aliased = ⊥

ending_of-Keeps :
    (d : Disk) (r : Bool × Files) (p : Str) (n : Node)
    → lookup r.1 p ≡ some n
    → Keeps p n (ending_of d r)
unfolding Keeps
ending_of-Keeps d (true, fs) p n h = h
ending_of-Keeps d (false, fs) p n h = h

pub lookup-remove_junction :
    (d e : Disk) (to p : Str)
    → remove_junction d to ≡ some e
    → Away to p
    → lookup e.files p ≡ lookup d.files p
unfolding remove_junction
lookup-remove_junction d e to p r a = elim (Option-cases (remove_all d.files to)) [
  | inl k ↦ absurd (ground arith)
  | inr (fs, k) ↦
      ap (λ x. lookup x.files p) (sym (some-injective _ _ (rw (k, remove_junction) at r)))
      ∙ lookup-remove_all d.files fs to p k a.other a.outer
]

replace-Keeps :
    (d : Disk) (from to p : Str) (n : Node)
    → Away to p
    → lookup d.files p ≡ some n
    → Keeps p n (replace d from to)
unfolding replace Keeps
replace-Keeps d from to p n a h = elim (Option-cases (remove_junction d to)) [
  | inl k ↦ rw (k, replace) h
  | inr (e, k) ↦
      let made = create_directories e.files to in
      let m = lookup-create_directories e.files to p n (lookup-remove_junction d e to p k a ∙ h) in
      elim (Bool-cases (is_directory made to)) [
        | inl b ↦
            rw (k, b, replace)
              (ending_of-Keeps e (copy_recursive made from to) p n
                (lookup-copy_recursive made from to p n m))
        | inr b ↦ rw (k, b, replace) m
      ]
]

search_folders-Keeps :
    (d : Disk) (first name p : Str) (n : Node) (folders : List Folder)
    → Away (first ++ name) p
    → doubled d (first ++ name) ≡ false
    → lookup d.files p ≡ some n
    → Keeps p n (search_folders d first name folders)
unfolding search_folders Keeps
search_folders-Keeps d first name p n [] a s h = h
search_folders-Keeps d first name p n ((prefix, dirs) ∷ folders) a s h =
    elim (Bool-cases (contains dirs name || contains dirs (filename (first ++ name)))) [
      | inl b ↦ rw (b, s, search_folders) (replace-Keeps d (prefix ++ name) (first ++ name) p n a h)
      | inr b ↦ rw (b, search_folders) (search_folders-Keeps d first name p n folders a s h)
    ]

-- The junctions of a disk that the function goes on with were there before.
abbrev Fewer : Disk → Ending → Type 0
Fewer d (finished e) =
    ((q : Str) → contains e.junctions q ≡ true → contains d.junctions q ≡ true)
    × (e.target ≡ d.target)
Fewer d _ = Unit

contains-outside :
    (p q : Str) (js : List Str) → contains (outside p js) q ≡ true → contains js q ≡ true
unfolding outside
contains-outside p q [] h = h
contains-outside p q (j ∷ js) h = ground (arith, contains-outside p q js)

ending_of-Fewer :
    (p : Str) (d e : Disk) (r : Bool × Files)
    → e.junctions ≡ outside p d.junctions
    → e.target ≡ d.target
    → Fewer d (ending_of e r)
ending_of-Fewer p d e (true, fs) j t =
    (λ q h. contains-outside p q d.junctions (subst (λ js. contains js q ≡ true) j h), t)
ending_of-Fewer p d e (false, fs) j t = tt

replace-Fewer : (d : Disk) (from to : Str) → Fewer d (replace d from to)
unfolding replace remove_junction
replace-Fewer d from to = elim (Option-cases (remove_all d.files to)) [
  | inl k ↦ rw (k, replace, remove_junction) tt
  | inr (fs, k) ↦ elim (Bool-cases (is_directory (create_directories fs to) to)) [
    | inl b ↦
        rw (k, b, replace, remove_junction)
          (ending_of-Fewer to d (record d { files = fs; junctions = outside to d.junctions })
            (copy_recursive (create_directories fs to) from to) refl refl)
    | inr b ↦ rw (k, b, replace, remove_junction) tt
  ]
]

search_folders-Fewer :
    (d : Disk) (first name : Str) (folders : List Folder)
    → Fewer d (search_folders d first name folders)
unfolding search_folders
search_folders-Fewer d first name [] = (λ q h. h, refl)
search_folders-Fewer d first name ((prefix, dirs) ∷ folders) =
    elim (Bool-cases (contains dirs name || contains dirs (filename (first ++ name)))) [
      | inl b ↦ elim (Bool-cases (doubled d (first ++ name))) [
        | inl s ↦ rw (b, s, search_folders) tt
        | inr s ↦ rw (b, s, search_folders) (replace-Fewer d (prefix ++ name) (first ++ name))
      ]
      | inr b ↦ rw (b, search_folders) (search_folders-Fewer d first name folders)
    ]

-- The path is away from the directory, if that is a junction, which no other junction shows.
abbrev pub Spared : Disk → Str → Str → Str → Type 0
Spared d first p name =
    is_junction d (first ++ name) ≡ true → Away (first ++ name) p × IsLone d (first ++ name)

Spared-Fewer :
    (d e : Disk) (first p name : Str)
    → Fewer d (finished e)
    → Spared d first p name
    → Spared e first p name
Spared-Fewer d e first p name (f, t) s j =
    let (a, l) = s (f (clean (first ++ name)) j) in
    (a, λ q c x y. ap (λ g. shows g (first ++ name) q) t ∙ l q (f q c) x y)

-- The rest of the loop after one junction.
abbrev rest_of : Str → List Str → List Folder → Ending → Ending
rest_of first names folders (finished e) = replace_each e first names folders
rest_of first names folders (thrown e) = thrown e
rest_of first names folders undefined = undefined
rest_of first names folders aliased = aliased

rest_of-Keeps :
    (names : List Str) (d : Disk) (first p : Str) (n : Node) (folders : List Folder) (r : Ending)
    → All (Spared d first p) names
    → Fewer d r
    → Keeps p n r
    → ((e : Disk)
        → All (Spared e first p) names
        → lookup e.files p ≡ some n
        → Keeps p n (replace_each e first names folders))
    → Keeps p n (rest_of first names folders r)
unfolding Keeps
rest_of-Keeps names d first p n folders (finished e) a f h k =
    k e (All-map _ _ names (λ x g. Spared-Fewer d e first p x f g) a) h
rest_of-Keeps names d first p n folders (thrown e) a f h k = h
rest_of-Keeps names d first p n folders undefined a f h k = h
rest_of-Keeps names d first p n folders aliased a f h k = h

replace_each-rest_of :
    (names : List Str) (d : Disk) (first name : Str) (folders : List Folder)
    → is_junction d (first ++ name) ≡ true
    → replace_each d first (name ∷ names) folders
      ≡ rest_of first names folders (search_folders d first name folders)
unfolding replace_each
replace_each-rest_of names d first name folders j = ground arith

replace_each-Keeps :
    (names : List Str) (d : Disk) (first p : Str) (n : Node) (folders : List Folder)
    → All (Spared d first p) names
    → lookup d.files p ≡ some n
    → Keeps p n (replace_each d first names folders)
unfolding replace_each Keeps
replace_each-Keeps [] d first p n folders a h = h
replace_each-Keeps (name ∷ names) d first p n folders a h =
    elim (Bool-cases (is_junction d (first ++ name))) [
      | inl j ↦ rw (replace_each-rest_of names d first name folders j) (
          rest_of-Keeps names d first p n folders (search_folders d first name folders) a.1
            (search_folders-Fewer d first name folders)
            (search_folders-Keeps d first name p n folders (a.0 j).0
              (doubled-IsLone d (first ++ name) (a.0 j).1) h)
            (λ e. replace_each-Keeps names e first p n folders))
      | inr j ↦ rw (j, replace_each) (replace_each-Keeps names d first p n folders a.1 h)
    ]

-- If none of the first folder's listed directories that are junctions is shown, whole or in part, at
-- a second path by another junction that is not below it, then `ReconstitueSymlinks` can be
-- followed to its end, and whatever that is, a path keeps what it names, unless it is one of those
-- directories or is below one.
pub reconstitute_symlinks-Keeps :
    (d : Disk) (paths : List Str) (first : Str) (names : List Str) (folders : List Folder) (p : Str)
    (n : Node)
    → list_folders d.files paths ≡ some ((first, names) ∷ folders)
    → All (Spared d first p) names
    → lookup d.files p ≡ some n
    → Keeps p n (reconstitute_symlinks d paths)
unfolding reconstitute_symlinks
reconstitute_symlinks-Keeps d paths first names folders p n e a h =
    rw (e, reconstitute_symlinks) (replace_each-Keeps names d first p n folders a h)
