-- ===== src/Functions/Sort/Decision.antt =====
-- Which files `Helper_SortFiles` (src/Functions.cpp) queues for copying.
use sync_files.Base.{
  ℕ, ◌<◌, ◌≡◌, ◌≢◌, ◌⊎◌, inl, inr, refl, Bool, true, false, some, ◌∷◌, ◌++◌, arith, Str, contains,
  length, ltb, lt→ltb, ◌==◌, ==_iff, sym, ◌∙◌, Bool-cases, if◌then◌else◌,
}
use sync_files.Files.{Files, file, lookup}
use sync_files.Files.Calls.{last_write_time, file_size?}
use sync_files.Functions.State.{Functions}
use sync_files.Functions.Sort.{enqueue, forget, judge_matched, judge_file}

-- Two files of one name, as they are read: the times and the sizes.
record Read (fn : Functions) (fs : Files) (name : Str) (t u a b : ℕ) : Type 0 where
  in_time : last_write_time fs (fn.input_prefix ++ name) ≡ t
  out_time : last_write_time fs (fn.output_prefix ++ name) ≡ u
  in_size : file_size? fs (fn.input_prefix ++ name) ≡ some a
  out_size : file_size? fs (fn.output_prefix ++ name) ≡ some b

files-Read :
    (fn : Functions) (fs : Files) (name bytes bytes' : Str) (t u : ℕ)
    → lookup fs (fn.input_prefix ++ name) ≡ some (file t bytes)
    → lookup fs (fn.output_prefix ++ name) ≡ some (file u bytes')
    → Read fn fs name t u (length bytes) (length bytes')
unfolding last_write_time file_size?
files-Read fn fs name bytes bytes' t u e f = record {
  in_time = rw (e, last_write_time) refl;
  out_time = rw (f, last_write_time) refl;
  in_size = rw (e, file_size?) refl;
  out_size = rw (f, file_size?) refl;
}

-- A file that is copied: it is newer than the output's, or older with force, or of its time and
-- overwritten or of another size.
abbrev pub Wanted : Functions → ℕ → ℕ → ℕ → ℕ → Type 0
Wanted fn t u a b =
    (u < t)
    ⊎ (((t < u) × (fn.force ≡ true)) ⊎ ((t ≡ u) × ((fn.overwrite_existing ≡ true) ⊎ (a ≢ b))))

-- A file that is not copied: the output's is newer and is not to be overwritten by force, or the
-- times and the sizes are the same and it is not to be overwritten.
abbrev pub Kept : Functions → ℕ → ℕ → ℕ → ℕ → Type 0
Kept fn t u a b =
    ((t < u) × (fn.force ≡ false)) ⊎ ((t ≡ u) × (fn.overwrite_existing ≡ false) × (a ≡ b))

not_ltb : (u t : ℕ) → t < u → ltb u t ≡ false
not_ltb u t h = ground arith

not_ltb_same : (u t : ℕ) → t ≡ u → ltb u t ≡ false
not_ltb_same u t h = ground arith

times : (t u : ℕ) → (u < t) ⊎ ((t < u) ⊎ (t ≡ u))
times t u = ground arith

-- The choice, given what is read.
module _ (fn : Functions) (fs : Files) (name : Str) (t u a b : ℕ)
    (r : Read fn fs name t u a b) where
  newer : u < t → judge_matched fn fs name ≡ enqueue name true
  unfolding judge_matched
  newer h = rw (r.in_time, r.out_time, lt→ltb u t h, judge_matched) refl

  older :
      (f : Bool)
      → fn.force ≡ f
      → t < u
      → judge_matched fn fs name ≡ (if f then enqueue name true else forget name)
  unfolding judge_matched
  older f e h = rw (r.in_time, r.out_time, not_ltb u t h, lt→ltb t u h, e, judge_matched) refl

  same :
      (o : Bool)
      → fn.overwrite_existing ≡ o
      → t ≡ u
      → judge_matched fn fs name
        ≡ (if o then enqueue name true else if a == b then forget name else enqueue name true)
  unfolding judge_matched
  same true e h =
      rw (r.in_time, r.out_time, not_ltb_same u t h, not_ltb_same t u (sym h), e, judge_matched)
        refl
  same false e h = elim (Bool-cases (a == b)) [
    | inl q ↦
        rw
          (
            r.in_time,
            r.out_time,
            not_ltb_same u t h,
            not_ltb_same t u (sym h),
            e,
            r.in_size,
            r.out_size,
            q,
            judge_matched,
          )
          refl
    | inr q ↦
        rw
          (
            r.in_time,
            r.out_time,
            not_ltb_same u t h,
            not_ltb_same t u (sym h),
            e,
            r.in_size,
            r.out_size,
            q,
            judge_matched,
          )
          refl
  ]

  abbrev Decided : Type 0
  Decided =
      ((judge_matched fn fs name ≡ forget name) × Kept fn t u a b)
      ⊎ ((judge_matched fn fs name ≡ enqueue name true) × Wanted fn t u a b)

  older-Decided : (f : Bool) → fn.force ≡ f → t < u → Decided
  older-Decided true e h = inr (older true e h, inr (inl (h, e)))
  older-Decided false e h = inl (older false e h, inl (h, e))

  same-Decided : (o q : Bool) → fn.overwrite_existing ≡ o → (a == b) ≡ q → t ≡ u → Decided
  same-Decided true q e k h = inr (same true e h, inr (inr (h, inl e)))
  same-Decided false true e k h = inl (same false e h ∙ rw k refl, inr (h, e, (==_iff a b).0 k))
  same-Decided false false e k h =
      inr (same false e h ∙ rw k refl, inr (inr (h, inr λ x. absurd (ground arith))))

  all-Decided : Decided
  all-Decided = elim (times t u) [
    | inl h ↦ inr (newer h, inl h)
    | inr (inl h) ↦ older-Decided fn.force refl h
    | inr (inr h) ↦ same-Decided fn.overwrite_existing (a == b) refl refl h
  ]

judge_file-matched :
    (fn : Functions) (fs : Files) (c : ℕ) (rest : Str)
    → contains fn.output_files_set (c ∷ rest) ≡ true
    → judge_file fn fs (c ∷ rest) ≡ judge_matched fn fs (c ∷ rest)
unfolding judge_file
judge_file-matched fn fs c rest h = rw (h, judge_file) refl

-- A file whose name the output's listing has too, and which can be read on both sides, is queued
-- exactly if it is newer than the output's, or older with force, or of the same time and
-- overwritten or of another size; otherwise its name is dropped from the output's set.
pub decides :
    (fn : Functions) (fs : Files) (c : ℕ) (rest bytes bytes' : Str) (t u : ℕ)
    → contains fn.output_files_set (c ∷ rest) ≡ true
    → lookup fs (fn.input_prefix ++ (c ∷ rest)) ≡ some (file t bytes)
    → lookup fs (fn.output_prefix ++ (c ∷ rest)) ≡ some (file u bytes')
    → ((judge_file fn fs (c ∷ rest) ≡ forget (c ∷ rest))
        × Kept fn t u (length bytes) (length bytes'))
      ⊎ ((judge_file fn fs (c ∷ rest) ≡ enqueue (c ∷ rest) true)
          × Wanted fn t u (length bytes) (length bytes'))
decides fn fs c rest bytes bytes' t u h e f = rw (judge_file-matched fn fs c rest h) (
    all-Decided fn fs (c ∷ rest) t u (length bytes) (length bytes')
      (files-Read fn fs (c ∷ rest) bytes bytes' t u e f))
