-- ===== src/Functions/Symlinks/Copied.antt =====
-- What `ReconstitueSymlinks` of src/Functions.cpp puts in the place of a junction.
use mathlib.Core.Option.{some-injective}
use sync_files.Base.{
  ◌≡◌, refl, sym, ap, ◌∙◌, Bool, true, false, some, List, [], ◌∷◌, Str, All, contains, Bool-cases,
  Option-cases, inl, inr, arith,
}
use sync_files.Files.{Node, file, dir, Files, clean, join, lookup, is_directory}
use sync_files.Files.Calls.{Entry, remove_all, create_directories}
use sync_files.Files.Calls.Names.{names}
use sync_files.Files.Calls.Directories.{lookup-create_directories}
use sync_files.Files.Laws.{lookup-copy_file_self}
use sync_files.Functions.Symlinks.Copying.{
  lookup-copy_new, lookup-copy_entries, lookup-copy_recursive,
}
use sync_files.Functions.Work.Transfer.{Holds}
use sync_files.Functions.Symlinks.Frame.{Away, lookup-remove_junction}
use sync_files.Functions.Symlinks.{
  Disk, is_junction, finished, thrown, outside, remove_junction, copy_new, copy_entries,
  copy_recursive, ending_of, replace,
}

-- A file below the source stands below the target with its bytes, and a directory is there too.
abbrev pub Copied : Files → Files → Str → Str → Entry → Type 0
Copied fs fs' from to (r, true) = is_directory fs' (join to r) ≡ true
Copied fs fs' from to (r, false) =
    (bytes : Str) → Holds fs (join from r) bytes → Holds fs' (join to r) bytes

-- Every node is where it was.
abbrev Kept : Files → Files → Type 0
Kept fs fs' = (q : Str) (n : Node) → lookup fs q ≡ some n → lookup fs' q ≡ some n

is_directory-Kept :
    (fs fs' : Files) (p : Str) → Kept fs fs' → is_directory fs p ≡ true → is_directory fs' p ≡ true
unfolding is_directory
is_directory-Kept fs fs' [] k h = h
is_directory-Kept fs fs' (x ∷ r) k h = ground (arith, k (x ∷ r) dir)

copy_new-Holds :
    (fs fs' : Files) (from to bytes : Str)
    → copy_new fs from to ≡ some fs'
    → Holds fs from bytes
    → Holds fs' to bytes
unfolding copy_new
copy_new-Holds fs fs' from to bytes e (t, h) =
    (fs.copy_time t, lookup-copy_file_self fs fs' from to bytes t h (ground arith))

-- Files that are where they were, before a copy.
Copied-earlier :
    (fs fs₁ fs' : Files) (from to : Str) (es : List Entry)
    → Kept fs fs₁
    → All (Copied fs₁ fs' from to) es
    → All (Copied fs fs' from to) es
Copied-earlier fs fs₁ fs' from to [] k h = tt
Copied-earlier fs fs₁ fs' from to ((r, true) ∷ es) k h =
    (h.0, Copied-earlier fs fs₁ fs' from to es k h.1)
Copied-earlier fs fs₁ fs' from to ((r, false) ∷ es) k h = (
  λ bytes (t, l). h.0 bytes (t, k (join from r) (file t bytes) l),
  Copied-earlier fs fs₁ fs' from to es k h.1,
)

abbrev with_flag : Bool → Files → Bool × Files
with_flag b fs = (b, fs)

not_ended : (fs fs' : Files) → with_flag false fs' ≡ with_flag true fs → ⊥
not_ended fs fs' e = cc

ended_Kept :
    (es : List Entry) (fs fs' : Files) (from to : Str)
    → copy_entries fs from to es ≡ (true, fs')
    → Kept fs fs'
ended_Kept es fs fs' from to e q n h =
    ap (λ x. lookup x.1 q) (sym e) ∙ lookup-copy_entries es fs from to q n h

-- After a copy of entries that ended without an exception.
copy_entries-Copied :
    (es : List Entry) (fs fs' : Files) (from to : Str)
    → copy_entries fs from to es ≡ (true, fs')
    → All (Copied fs fs' from to) es
unfolding copy_entries
copy_entries-Copied [] fs fs' from to e = tt
copy_entries-Copied ((r, true) ∷ es) fs fs' from to e =
    let made = create_directories fs (join to r) in
    elim (Bool-cases (fs.unreadable (join from r))) [
      | inl u ↦ absurd (not_ended fs' _ (rw (u, copy_entries) at e))
      | inr u ↦ elim (Bool-cases (is_directory made (join to r))) [
        | inr m ↦ absurd (not_ended fs' _ (rw (u, m, copy_entries) at e))
        | inl m ↦
            let rest = rw (u, m, copy_entries) at e in
            (
              is_directory-Kept made fs' (join to r) (ended_Kept es made fs' from to rest) m,
              Copied-earlier fs made fs' from to es
                  (λ q n. lookup-create_directories fs (join to r) q n)
                  (copy_entries-Copied es made fs' from to rest),
            )
      ]
    ]
copy_entries-Copied ((r, false) ∷ es) fs fs' from to e =
    elim (Option-cases (copy_new fs (join from r) (join to r))) [
      | inl k ↦ absurd (not_ended fs' _ (rw (k, copy_entries) at e))
      | inr (fs₁, k) ↦
          let rest = rw (k, copy_entries) at e in
          (
            λ bytes h.
                let (t, l) = copy_new-Holds fs fs₁ (join from r) (join to r) bytes k h in
                (t, ended_Kept es fs₁ fs' from to rest (join to r) (file t bytes) l),
            Copied-earlier fs fs₁ fs' from to es
                (λ q n. lookup-copy_new fs fs₁ (join from r) to r q n k)
                (copy_entries-Copied es fs₁ fs' from to rest),
          )
    ]

pub contains-outside_self : (p : Str) (js : List Str) → contains (outside p js) (clean p) ≡ false
unfolding outside
contains-outside_self p [] = refl
contains-outside_self p (j ∷ js) = ground (arith, contains-outside_self p js)

-- What a junction has become, by the files as they stand when the copy starts.
pub record Replaced (d d' : Disk) (from to : Str) : Type 0 where
  pub gone : Disk
  pub removed : remove_junction d to ≡ some gone
  pub no_junction : is_junction d' to ≡ false
  pub is_dir : is_directory d'.files to ≡ true
  pub copied :
      let start = create_directories gone.files to in
      All (Copied start d'.files from to) (names start from)

copy_recursive-Copied :
    (fs fs' : Files) (from to : Str)
    → lookup fs from ≡ some dir
    → copy_recursive fs from to ≡ (true, fs')
    → All (Copied fs fs' from to) (names fs from)
unfolding copy_recursive
copy_recursive-Copied fs fs' from to h e = elim (Bool-cases (fs.unreadable from)) [
  | inl u ↦ absurd (not_ended fs' _ (rw (h, u, copy_recursive) at e))
  | inr u ↦ copy_entries-Copied (names fs from) fs fs' from to (rw (h, u, copy_recursive) at e)
]

thrown-ne-finished : (d d' : Disk) → thrown d ≡ finished d' → ⊥
thrown-ne-finished d d' e = cc

finished-inj : (d d' : Disk) → finished d ≡ finished d' → d ≡ d'
finished-inj d d' e = cc

ending_of-finished :
    (g : Disk) (r : Bool × Files) (d : Disk)
    → ending_of g r ≡ finished d
    → (r ≡ (true, d.files)) × (d.junctions ≡ g.junctions)
ending_of-finished g (false, fs) d e = absurd (thrown-ne-finished _ d e)
ending_of-finished g (true, fs) d e =
    let p = finished-inj _ d e in (ap (λ x. (true, x.files)) p, sym (ap (λ x. x.junctions) p))

pub remove_junction-junctions :
    (d e : Disk) (to : Str) → remove_junction d to ≡ some e → e.junctions ≡ outside to d.junctions
unfolding remove_junction
remove_junction-junctions d e to r = elim (Option-cases (remove_all d.files to)) [
  | inl k ↦ absurd (ground arith)
  | inr (fs, k) ↦ sym (ap (λ x. x.junctions) (some-injective _ _ (rw (k, remove_junction) at r)))
]

-- If the replacement of a junction ends without an exception, by a directory that is neither the
-- junction nor below it, then the junction is a directory and no junction any more, and has every
-- file, with its bytes, and every directory that is below the replacement when the copy starts.
pub replace-Replaced :
    (d d' : Disk) (from to : Str)
    → lookup d.files from ≡ some dir
    → Away to from
    → replace d from to ≡ finished d'
    → Replaced d d' from to
unfolding replace
replace-Replaced d d' from to h a e = elim (Option-cases (remove_junction d to)) [
  | inl k ↦ absurd (thrown-ne-finished d d' (rw (k, replace) at e))
  | inr (g, k) ↦ elim (Bool-cases (is_directory (create_directories g.files to) to)) [
    | inr b ↦ absurd (thrown-ne-finished _ d' (rw (k, b, replace) at e))
    | inl b ↦
        let made = create_directories g.files to in
        let (c, js) =
          ending_of-finished g (copy_recursive made from to) d' (rw (k, b, replace) at e) in
        let start =
          lookup-create_directories g.files to from dir
            (lookup-remove_junction d g to from k a ∙ h) in
        record {
          gone = g;
          removed = k;
          no_junction =
              ap (λ x. contains x (clean to)) (js ∙ remove_junction-junctions d g to k)
              ∙ contains-outside_self to d.junctions;
          is_dir =
              is_directory-Kept made d'.files to
                (λ q n l. ap (λ x. lookup x.1 q) (sym c) ∙ lookup-copy_recursive made from to q n l)
                b;
          copied = copy_recursive-Copied made d'.files from to start c;
        }
  ]
]
