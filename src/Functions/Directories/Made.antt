-- ===== src/Functions/Directories/Made.antt =====
-- The steps of `Helper_CreateDirs` of src/Functions.cpp, one by one: what it is to make, and how
-- far it is from its end.
use mathlib.Core.Bool.{false≢true}
use sync_files.Base.{
  ◌≡◌, refl, ap, ◌∙◌, Bool, true, false, List, [], ◌∷◌, ◌++◌, Str, ℕ, zero, suc, ◌+◌, ◌*◌, ◌≤◌,
  length, arith,
}
use sync_files.Files.{Files}
use sync_files.Files.Calls.{create_directories}
use sync_files.Functions.Directories.{
  DirsPc, check_done, check_size, pop, create, left, Creation, Event, helper, queued, finish,
  create_run,
}

-- All of the directories, made in order.
abbrev pub create_all : Str → Files → List Str → Files
create_all prefix fs [] = fs
create_all prefix fs (d ∷ ds) = create_all prefix (create_directories fs (prefix ++ d)) ds

abbrev pub queued_by : List Event → List Str
queued_by [] = []
queued_by (queued d ∷ es) = d ∷ queued_by es
queued_by (_ ∷ es) = queued_by es

-- Nothing is queued once the flag is set.
abbrev pub IsOrdered : Bool → List Event → Type 0
IsOrdered done [] = Unit
IsOrdered true (queued d ∷ es) = ⊥
IsOrdered false (queued d ∷ es) = IsOrdered false es
IsOrdered done (finish ∷ es) = IsOrdered true es
IsOrdered done (helper ∷ es) = IsOrdered done es

-- What the helper still has to make.
abbrev pub pending : DirsPc → List Str → List Str
pending (create d) ds = d ∷ ds
pending _ ds = ds

-- What is made when the helper goes on to its end from here.
abbrev pub outcome : Creation → Files
outcome c = create_all c.output_prefix c.fs (pending c.place c.create_dirs_queue)

-- What the helper has read still holds.
abbrev pub Knows : Bool → List Str → DirsPc → Type 0
Knows done ds check_size = done ≡ true
Knows done ds left = (done ≡ true) × (ds ≡ [])
Knows done ds _ = Unit

pub create_all-append :
    (prefix : Str) (fs : Files) (xs ys : List Str)
    → create_all prefix fs (xs ++ ys) ≡ create_all prefix (create_all prefix fs xs) ys
create_all-append prefix fs [] ys = refl
create_all-append prefix fs (x ∷ xs) ys =
    create_all-append prefix (create_directories fs (prefix ++ x)) xs ys

-- A directory queued behind those that are pending is made after them.
pending-append :
    (p : DirsPc) (prefix : Str) (fs : Files) (ds : List Str) (d : Str) (es : List Str)
    → create_all prefix (create_all prefix fs (pending p (ds ++ d ∷ []))) es
      ≡ create_all prefix (create_all prefix fs (pending p ds)) (d ∷ es)
pending-append check_done prefix fs ds d es =
    ap (λ f. create_all prefix f es) (create_all-append prefix fs ds (d ∷ []))
pending-append check_size prefix fs ds d es =
    ap (λ f. create_all prefix f es) (create_all-append prefix fs ds (d ∷ []))
pending-append pop prefix fs ds d es =
    ap (λ f. create_all prefix f es) (create_all-append prefix fs ds (d ∷ []))
pending-append (create x) prefix fs ds d es =
    ap (λ f. create_all prefix f es)
      (create_all-append prefix (create_directories fs (prefix ++ x)) ds (d ∷ []))
pending-append left prefix fs ds d es =
    ap (λ f. create_all prefix f es) (create_all-append prefix fs ds (d ∷ []))

Knows_true : (p : DirsPc) (done : Bool) (ds : List Str) → Knows done ds p → Knows true ds p
Knows_true check_done done ds k = tt
Knows_true check_size done ds k = refl
Knows_true pop done ds k = tt
Knows_true (create x) done ds k = tt
Knows_true left done ds k = (refl, k.1)

-- A flag that is not set has not been read as set.
Knows_queued : (p : DirsPc) (ds ds' : List Str) → Knows false ds p → Knows false ds' p
Knows_queued check_done ds ds' k = tt
Knows_queued check_size ds ds' k = k
Knows_queued pop ds ds' k = tt
Knows_queued (create x) ds ds' k = tt
Knows_queued left ds ds' k = absurd (false≢true k.0)

abbrev creation : List Str → Bool → Str → Files → DirsPc → Creation
creation ds done prefix fs p = record {
  create_dirs_queue = ds;
  done_creating_dirs = done;
  output_prefix = prefix;
  fs = fs;
  place = p;
}

-- At any moment the helper is to make what it was to make at first, then what has been queued.
pub made :
    (es : List Event) (ds : List Str) (done : Bool) (prefix : Str) (fs : Files) (p : DirsPc)
    → Knows done ds p
    → IsOrdered done es
    → let c = create_run (creation ds done prefix fs p) es in
      Knows c.done_creating_dirs c.create_dirs_queue c.place
      × (outcome c ≡ create_all prefix (create_all prefix fs (pending p ds)) (queued_by es))
unfolding create_run
made [] ds done prefix fs p k o = (k, refl)
made (queued d ∷ es) ds true prefix fs p k o = absurd o
made (queued d ∷ es) ds false prefix fs p k o =
    let rest = made es (ds ++ d ∷ []) false prefix fs p (Knows_queued p ds (ds ++ d ∷ []) k) o in
    (rest.0, rest.1 ∙ pending-append p prefix fs ds d (queued_by es))
made (finish ∷ es) ds done prefix fs p k o = made es ds true prefix fs p (Knows_true p done ds k) o
made (helper ∷ es) ds true prefix fs check_done k o = made es ds true prefix fs check_size refl o
made (helper ∷ es) ds false prefix fs check_done k o = made es ds false prefix fs pop tt o
made (helper ∷ es) [] done prefix fs check_size k o = made es [] done prefix fs left (k, refl) o
made (helper ∷ es) (d ∷ ds) done prefix fs check_size k o = made es (d ∷ ds) done prefix fs pop tt o
made (helper ∷ es) [] done prefix fs pop k o = made es [] done prefix fs check_done tt o
made (helper ∷ es) (d ∷ ds) done prefix fs pop k o = made es ds done prefix fs (create d) tt o
made (helper ∷ es) ds done prefix fs (create d) k o =
    made es ds done prefix (create_directories fs (prefix ++ d)) check_done tt o
made (helper ∷ es) ds done prefix fs left k o = made es ds done prefix fs left k o

abbrev pub helpers : ℕ → List Event
helpers zero = []
helpers (suc n) = helper ∷ helpers n

pub queued_by-helpers : (n : ℕ) → queued_by (helpers n) ≡ []
queued_by-helpers zero = refl
queued_by-helpers (suc n) = queued_by-helpers n

pub IsOrdered-helpers : (n : ℕ) → IsOrdered true (helpers n)
IsOrdered-helpers zero = tt
IsOrdered-helpers (suc n) = IsOrdered-helpers n

-- The steps that the helper takes to its end once the flag is set.
abbrev pub steps : DirsPc → List Str → ℕ
steps check_done ds = 4 * length ds + 2
steps check_size ds = 4 * length ds + 1
steps pop [] = 3
steps pop (d ∷ ds) = 4 * length ds + 4
steps (create d) ds = 4 * length ds + 3
steps left ds = 0

pub leaves :
    (n : ℕ) (ds : List Str) (prefix : Str) (fs : Files) (p : DirsPc)
    → steps p ds ≤ n
    → (create_run (creation ds true prefix fs p) (helpers n)).place ≡ left
unfolding create_run
leaves zero ds prefix fs check_done h = absurd (omega arith)
leaves zero ds prefix fs check_size h = absurd (omega arith)
leaves zero [] prefix fs pop h = absurd (omega arith)
leaves zero (d ∷ ds) prefix fs pop h = absurd (omega arith)
leaves zero ds prefix fs (create d) h = absurd (omega arith)
leaves zero ds prefix fs left h = refl
leaves (suc n) ds prefix fs check_done h = leaves n ds prefix fs check_size (omega arith)
leaves (suc n) [] prefix fs check_size h = leaves n [] prefix fs left (omega arith)
leaves (suc n) (d ∷ ds) prefix fs check_size h = leaves n (d ∷ ds) prefix fs pop (omega arith)
leaves (suc n) [] prefix fs pop h = leaves n [] prefix fs check_done (omega arith)
leaves (suc n) (d ∷ ds) prefix fs pop h = leaves n ds prefix fs (create d) (omega arith)
leaves (suc n) ds prefix fs (create d) h =
    leaves n ds prefix (create_directories fs (prefix ++ d)) check_done (omega arith)
leaves (suc n) ds prefix fs left h = leaves n ds prefix fs left (omega arith)

pub steps_bound : (p : DirsPc) (ds : List Str) → steps p ds ≤ 4 * length ds + 3
steps_bound check_done ds = omega arith
steps_bound check_size ds = omega arith
steps_bound pop [] = omega arith
steps_bound pop (d ∷ ds) = omega arith
steps_bound (create d) ds = omega arith
steps_bound left ds = omega arith
