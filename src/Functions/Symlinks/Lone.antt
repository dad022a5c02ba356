-- ===== src/Functions/Symlinks/Lone.antt =====
-- Junctions that `ReconstitueSymlinks` of src/Functions.cpp can replace at one path only.
use sync_files.Base.{
  ◌≡◌, ◌≢◌, refl, Bool, true, false, none, some, List, [], ◌∷◌, Str, contains, ◌||◌, Option-cases,
  inl, inr, arith, ite, str_dec,
}
use sync_files.Files.{clean}
use sync_files.Files.Calls.{below}
use sync_files.Functions.Symlinks.{Disk, shows, any_shows, doubled, outside}

-- No other junction shows the path, or what is in it, a second time.
abbrev pub IsLone : Disk → Str → Type 0
IsLone d p =
    (q : Str)
    → contains d.junctions q ≡ true
    → clean p ≢ q
    → below p q ≡ none
    → shows d.target p q ≡ false

either_false : {a b : Bool} → a ≡ false → b ≡ false → (a || b) ≡ false
either_false h k = ground arith

outside-shows :
    (target : Str → Str) (p : Str) (js : List Str)
    → ((q : Str) → contains js q ≡ true → clean p ≢ q → below p q ≡ none → shows target p q ≡ false)
    → any_shows target p (outside p js) ≡ false
unfolding outside
outside-shows target p [] h = refl
outside-shows target p (j ∷ js) h =
    let rest = outside-shows target p js (λ q k. h q (ground arith)) in
    elim (str_dec (clean p) j)
      as (λ x.
        any_shows target p (
          ite x (outside p js)
            (elim (below p j) [ none ↦ j ∷ outside p js | some r ↦ outside p js ]))
        ≡ false) [
          | yes e ↦ rest
          | no n ↦ elim (Option-cases (below p j)) [
            | inl b ↦ rw b (either_false (h j (ground arith) n b) rest)
            | inr (r, b) ↦ rw b rest
          ]
        ]

pub doubled-IsLone : (d : Disk) (p : Str) → IsLone d p → doubled d p ≡ false
unfolding doubled
doubled-IsLone d p h = outside-shows d.target p d.junctions h
