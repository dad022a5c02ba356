-- ===== src/Files/Calls/Names.antt =====
-- The names of what stands below a directory, read off the table, and what the recursive iteration
-- that src/Functions.cpp uses makes of them.
use sync_files.Base.{
  ◌≡◌, refl, ap, Bool, true, false, ◌&&◌, none, some, List, [], ◌∷◌, map, arith, Str, Bool-cases,
  Option-cases, inl, inr, ite, str_dec,
}
use sync_files.Files.{
  Node, Files, is_dir_node, exists_node, is_directory, exists, lookup, clean, join,
}
use sync_files.Files.Calls.{Entry, below, entries, readable, iterate}

-- The names with their kinds, in the table's order, up to the first closed directory.
unfoldable pub names_in : (Str → Bool) → Str → List (Str × Node) → List Entry
names_in closed d [] = []
names_in closed d ((q, n) ∷ t) = elim (below d q) [
  | none ↦ names_in closed d t
  | some r ↦ elim (is_dir_node (some n) && closed (join d r)) [
    | true ↦ (r, true) ∷ []
    | false ↦ (r, is_dir_node (some n)) ∷ names_in closed d t
  ]
]

unfoldable pub names : Files → Str → List Entry
unfolding names_in
names fs d = names_in fs.unreadable d fs.nodes

-- An entry of the iteration over a directory, for a name.
abbrev pub joined : Str → Entry → Entry
joined d (r, b) = (join d r, b)

closed_true : (a b : Bool) → (a && b) ≡ true → a ≡ true
closed_true a b h = ground arith

readable-entries :
    (closed : Str → Bool) (d : Str) (t : List (Str × Node))
    → readable closed (entries d t) ≡ map (joined d) (names_in closed d t)
unfolding readable entries names_in
readable-entries closed d [] = refl
readable-entries closed d ((q, n) ∷ t) = elim (Option-cases (below d q)) [
  | inl e ↦ rw (e, entries, names_in) (readable-entries closed d t)
  | inr (r, e) ↦ elim (Bool-cases (is_dir_node (some n) && closed (join d r))) [
    | inl h ↦
        rw
          (
            e,
            entries,
            names_in,
            readable,
            h,
            closed_true (is_dir_node (some n)) (closed (join d r)) h,
          )
          refl
    | inr h ↦
        rw (e, entries, names_in, readable, h)
          (ap (◌∷◌ (join d r, is_dir_node (some n))) (readable-entries closed d t))
  ]
]

-- A directory that can be opened is iterated over by its names.
pub iterate-names :
    (fs : Files) (d : Str)
    → is_directory fs d ≡ true
    → fs.unreadable d ≡ false
    → iterate fs d ≡ some (map (joined d) (names fs d))
unfolding iterate names
iterate-names fs d h k =
    rw (h, k, iterate, names) (ap some (readable-entries fs.unreadable d fs.nodes))

pub exists-is_directory : (fs : Files) (d : Str) → is_directory fs d ≡ true → exists fs d ≡ true
unfolding exists is_directory
exists-is_directory fs [] h = absurd (ground arith)
exists-is_directory fs (x ∷ r) h =
    elim (lookup fs (x ∷ r))
        as (λ n.
          ite (str_dec (clean (x ∷ r)) []) true (is_dir_node n) ≡ true
          → ite (str_dec (clean (x ∷ r)) []) true (exists_node n) ≡ true) [
            | none ↦ λ e. e
            | some n ↦ λ e. elim (str_dec (clean (x ∷ r)) []) as (λ b. ite b true true ≡ true) [
              | yes a ↦ refl
              | no b ↦ refl
            ]
          ]
      h
