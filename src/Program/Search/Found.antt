-- ===== src/Program/Search/Found.antt =====
-- What `Search` of src/main.cpp finds.
use sync_files.Base.{
  ℕ, suc, ◌+◌, ◌/◌, ◌≡◌, ◌⊎◌, inl, inr, refl, sym, ap, ◌≢◌, ◌∙◌, subst, Bool, true, false, some,
  List, [], ◌∷◌, ◌++◌, Str, All, All-map, arith, length, take-length, ltb, leb, ◌==◌, ==_iff,
  if◌then◌else◌, Bool-cases, append-nil, append_assoc,
}
use mathlib.Core.Path.{ap₂}
use sync_files.Files.{Files, filename}
use sync_files.Files.Calls.{Entry, iterate}
use sync_files.Program.{is_prefix, find, has, to_lower}
use sync_files.Program.Search.{
  wide_length, converted, convert_to_wide_string, to_lower_wide, noted, told, search_entries, found,
  report, search_named, search_files,
}

-- The second text stands somewhere in the first.
abbrev pub Within : Str → Str → Type 0
Within s p = (before : Str) × (after : Str) × (s ≡ before ++ (p ++ after))

is_prefix-append : (p s : Str) → is_prefix p (p ++ s) ≡ true
is_prefix-append [] s = refl
is_prefix-append (x ∷ p) s = ground (arith, is_prefix-append p s)

is_prefix-eq : (p s : Str) → is_prefix p s ≡ true → (after : Str) × (s ≡ p ++ after)
is_prefix-eq [] s h = (s, refl)
is_prefix-eq (x ∷ p) [] h = absurd (ground arith)
is_prefix-eq (x ∷ p) (y ∷ s) h = elim (Bool-cases (x == y)) [
  | inl e ↦
      let (after, q) = is_prefix-eq p s (ground arith) in
      (after, ap (◌∷◌ y) q ∙ ap (λ z. z ∷ (p ++ after)) (sym ((==_iff x y).0 e)))
  | inr e ↦ absurd (ground arith)
]

has-Within : (s p : Str) → has s p ≡ true → Within s p
unfolding has
has-Within [] p h = elim (Bool-cases (is_prefix p [])) [
  | inl e ↦ let (after, q) = is_prefix-eq p [] e in ([], after, q)
  | inr e ↦ absurd (ground arith)
]
has-Within (x ∷ s) p h = elim (Bool-cases (is_prefix p (x ∷ s))) [
  | inl e ↦ let (after, q) = is_prefix-eq p (x ∷ s) e in ([], after, q)
  | inr e ↦
      let (before, after, q) = has-Within s p (ground arith) in (x ∷ before, after, ap (◌∷◌ x) q)
]

prefix-has : (s p : Str) → is_prefix p s ≡ true → has s p ≡ true
unfolding has
prefix-has [] p h = rw (h, find) refl
prefix-has (x ∷ s) p h = rw (h, find) refl

Within-has : (before p after : Str) → has (before ++ (p ++ after)) p ≡ true
unfolding has
Within-has [] p after = prefix-has (p ++ after) p (is_prefix-append p after)
Within-has (x ∷ before) p after = ground (arith, Within-has before p after)

to_lower_wide-lower :
    (s : Str) → All (λ x. leb x 255 ≡ true) s → to_lower_wide s ≡ some (to_lower s)
unfolding to_lower_wide
to_lower_wide-lower [] h = refl
to_lower_wide-lower (x ∷ s) h = rw (h.0, to_lower_wide-lower s h.1, to_lower_wide) refl

-- The paths of the entries whose file name has the text, in any case, in the entries' order.
abbrev pub Picks : Str → List Entry → List Str → Type 0
Picks text [] xs = xs ≡ []
Picks text ((p, d) ∷ es) xs =
    ((ys : List Str) × Within (to_lower (filename p)) text × Picks text es ys × (xs ≡ p ∷ ys))
    ⊎ ((Within (to_lower (filename p)) text → ⊥) × Picks text es xs)

-- A file name that `std::tolower` is defined on.
abbrev pub IsNarrow : Entry → Type 0
IsNarrow (p, d) = All (λ x. leb x 255 ≡ true) (filename p)

noted-eq :
    (wname name p : Str) (d : Bool) (inputs : List Str)
    → noted wname name (p, d) inputs ≡ (if has name wname then inputs ++ p ∷ [] else inputs)
noted-eq wname name p true inputs = refl
noted-eq wname name p false inputs = refl

told-eq : (count : ℕ) → told (suc count) (count / 10000) ≡ suc count / 10000
told-eq count = ground arith

-- One round of the loop.
search_entries-cons :
    (text p : Str) (d : Bool) (es : List Entry) (inputs : List Str) (count : ℕ)
    → All (λ x. leb x 255 ≡ true) (filename p)
    → search_entries text ((p, d) ∷ es) inputs count (count / 10000)
      ≡ search_entries text es
          (if has (to_lower (filename p)) text then inputs ++ p ∷ [] else inputs)
          (suc count)
          (suc count / 10000)
unfolding search_entries
search_entries-cons text p d es inputs count h =
    rw
      (
        to_lower_wide-lower (filename p) h,
        search_entries,
        noted-eq text (to_lower (filename p)) p d inputs,
        told-eq count,
      )
      refl

search_entries-Picks :
    (text : Str) (es : List Entry) (inputs : List Str) (count : ℕ)
    → All IsNarrow es
    → (xs : List Str) × (search_entries text es inputs count (count / 10000)
        ≡ some (inputs ++ xs, (length es + count) / 10000))
      × Picks text es xs
unfolding search_entries
search_entries-Picks text [] inputs count h =
    ([], ap₂ (λ xs n. some (xs, n / 10000)) (sym (append-nil inputs)) (omega arith), refl)
search_entries-Picks text ((p, d) ∷ es) inputs count h =
    elim (Bool-cases (has (to_lower (filename p)) text)) [
      | inl e ↦
          let (xs, q, k) = search_entries-Picks text es (inputs ++ p ∷ []) (suc count) h.1 in
          (
            p ∷ xs,
            search_entries-cons text p d es inputs count h.0
                ∙ rw e (
                    q
                    ∙ ap₂ (λ ys n. some (ys, n / 10000)) (append_assoc inputs (p ∷ []) xs)
                        (sum es)),
            inl (xs, has-Within (to_lower (filename p)) text e, k, refl),
          )
      | inr e ↦
          let (xs, q, k) = search_entries-Picks text es inputs (suc count) h.1 in
          (
            xs,
            search_entries-cons text p d es inputs count h.0
                ∙ rw e (q ∙ ap (λ n. some (inputs ++ xs, n / 10000)) (sum es)),
            inr (missing e, k),
          )
    ]
  where
    sum : (es : List Entry) → length es + suc count ≡ suc (length es) + count
    sum es = omega arith

    missing : has (to_lower (filename p)) text ≡ false → Within (to_lower (filename p)) text → ⊥
    missing e (before, after, q) =
        let t = Within-has before text after in
        ground (arith, subst (λ s. has s text ≡ true) (sym q) t)

-- A text that the C locale can convert.
abbrev pub IsPlain : Str → Type 0
IsPlain s = All (λ x. (x ≢ 0) × (ltb x 128 ≡ true)) s

wide_length-Plain : (s : Str) → IsPlain s → wide_length s ≡ some (length s)
unfolding wide_length
wide_length-Plain [] h = refl
wide_length-Plain (x ∷ s) h = ground (arith, h.0.0, h.0.1, wide_length-Plain s h.1)

convert_to_wide_string-Plain :
    (x : ℕ) (s : Str) → IsPlain (x ∷ s) → convert_to_wide_string (x ∷ s) ≡ converted (x ∷ s)
unfolding convert_to_wide_string
convert_to_wide_string-Plain x s h =
    rw (wide_length-Plain (x ∷ s) h)
      (ap converted (take-length (suc (length s)) (x ∷ s) (omega arith)))

IsPlain-narrow : (s : Str) → IsPlain s → All (λ x. leb x 255 ≡ true) s
IsPlain-narrow s h = All-map _ _ s (λ x k. ground (arith, k.1)) h

-- For a directory that can be opened, a name of one or more characters of ASCII, and file names
-- without characters above 255: `Search` prints, in the order of the iteration, exactly the paths
-- whose file name contains the name in any case, after one message for every 10000 entries.
pub search_files-Picks :
    (fs : Files) (path : Str) (x : ℕ) (name : Str) (es : List Entry)
    → iterate fs path ≡ some es
    → IsPlain (x ∷ name)
    → All IsNarrow es
    → (xs : List Str) × (search_files fs path (x ∷ name) ≡ found xs (length es / 10000))
      × Picks (to_lower (x ∷ name)) es xs
unfolding search_files
search_files-Picks fs path x name es e h k =
    let (xs, q, t) = search_entries-Picks (to_lower (x ∷ name)) es [] 0 k in
    (
      xs,
      rw
          (
            e,
            search_files,
            search_named,
            convert_to_wide_string-Plain x name h,
            to_lower_wide-lower (x ∷ name) (IsPlain-narrow (x ∷ name) h),
          )
          (ap report q ∙ ap (λ n. found xs (n / 10000)) (omega arith)),
      t,
    )
