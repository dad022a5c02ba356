-- ===== src/Program/Patterns.antt =====
-- The patterns of the options of `main` (src/main.cpp), and what its arguments do to the options.
use sync_files.Base.{
  ℕ, zero, suc, leb, ◌==◌, not, ◌&&◌, ◌≡◌, ◌∙◌, refl, ap, Bool, true, false, ◌||◌, Option, none,
  some, List, [], ◌∷◌, ◌++◌, arith, Str, codes, if◌then◌else◌, drop, ◌+◌, append-nil, append_assoc,
  Option-cases, Bool-cases, sym, inl, inr,
}
use sync_files.Program.{
  has, find, is_found, stoi, Options, take_number, set_processors, take_option, take_options,
}

-- The patterns of the options without a value, in the order of the tests.
abbrev pub patterns : List Str
patterns =
    codes "--debug"
    ∷ codes "-reconstitutesymlinks"
    ∷ codes "-rm"
    ∷ codes "-d"
    ∷ codes "-s"
    ∷ codes "-f"
    ∷ codes "-o"
    ∷ codes "-m"
    ∷ []

-- The number of the first pattern that stands anywhere in an argument, or that of the patterns.
abbrev pub first_of : List Str → Str → ℕ
first_of [] s = 0
first_of (p ∷ ps) s = let rest = first_of ps s in if has s p then 0 else suc rest

-- Some argument's first pattern is the one of the number.
abbrev pub given : ℕ → List Str → Bool
given n [] = false
given n (s ∷ args) = (first_of patterns s == n) || given n args

-- The arguments that are no option.
abbrev pub is_node : Str → Bool
is_node s = leb 8 (first_of patterns s) && not (is_found (find s (codes "-p")))

abbrev pub nodes : List Str → List Str
nodes [] = []
nodes (s ∷ args) = let rest = nodes args in if is_node s then s ∷ rest else rest

-- What an argument does, by the number of its first pattern.
abbrev by_kind : Options → Str → ℕ → Options
by_kind o s zero = record o { debug = true }
by_kind o s (suc zero) = record o { reconstitutesymlinks = true }
by_kind o s (suc (suc zero)) = record o { remove = true }
by_kind o s (suc (suc (suc zero))) = record o { deletewithoutmatch = true }
by_kind o s (suc (suc (suc (suc zero)))) = record o { search = true }
by_kind o s (suc (suc (suc (suc (suc zero))))) = record o { force = true }
by_kind o s (suc (suc (suc (suc (suc (suc zero)))))) = record o { overwriteexisting = true }
by_kind o s (suc (suc (suc (suc (suc (suc (suc zero))))))) = record o { move = true }
by_kind o s _ = take_number o s (find s (codes "-p"))

take_option-kind : (o : Options) (s : Str) → take_option o s ≡ by_kind o s (first_of patterns s)
unfolding take_option
take_option-kind o s = ground arith

abbrev kept_node : ℕ → Str → List Str
kept_node n s = if leb 8 n && not (is_found (find s (codes "-p"))) then s ∷ [] else []

-- One argument's effect on the flags and the nodes.
record Effect (o o' : Options) (n : ℕ) (s : Str) : Type 0 where
  debug : o'.debug ≡ (o.debug || (n == 0))
  links : o'.reconstitutesymlinks ≡ (o.reconstitutesymlinks || (n == 1))
  remove : o'.remove ≡ (o.remove || (n == 2))
  delete : o'.deletewithoutmatch ≡ (o.deletewithoutmatch || (n == 3))
  search : o'.search ≡ (o.search || (n == 4))
  force : o'.force ≡ (o.force || (n == 5))
  overwrite : o'.overwriteexisting ≡ (o.overwriteexisting || (n == 6))
  move : o'.move ≡ (o.move || (n == 7))
  nodes : o'.sinodes ≡ o.sinodes ++ kept_node n s

-- The last two tests.
number-nodes :
    (o : Options) (s : Str) (at : Option ℕ)
    → (take_number o s at).sinodes ≡ o.sinodes ++ (if not (is_found at) then s ∷ [] else [])
number-nodes o s none = refl
number-nodes o s (some i) = elim (Option-cases (stoi (drop (i + 2) s))) [
  | inl e ↦ rw (e, set_processors) (sym (append-nil o.sinodes))
  | inr (n, e) ↦ rw (e, set_processors) (sym (append-nil o.sinodes))
]

by_kind-nodes :
    (o : Options) (s : Str) (n : ℕ) → (by_kind o s n).sinodes ≡ o.sinodes ++ kept_node n s
by_kind-nodes o s zero = sym (append-nil o.sinodes)
by_kind-nodes o s (suc zero) = sym (append-nil o.sinodes)
by_kind-nodes o s (suc (suc zero)) = sym (append-nil o.sinodes)
by_kind-nodes o s (suc (suc (suc zero))) = sym (append-nil o.sinodes)
by_kind-nodes o s (suc (suc (suc (suc zero)))) = sym (append-nil o.sinodes)
by_kind-nodes o s (suc (suc (suc (suc (suc zero))))) = sym (append-nil o.sinodes)
by_kind-nodes o s (suc (suc (suc (suc (suc (suc zero)))))) = sym (append-nil o.sinodes)
by_kind-nodes o s (suc (suc (suc (suc (suc (suc (suc zero))))))) = sym (append-nil o.sinodes)
by_kind-nodes o s (suc (suc (suc (suc (suc (suc (suc (suc n)))))))) =
    ground (arith, number-nodes o s (find s (codes "-p")))

by_kind-Effect : (o : Options) (s : Str) (n : ℕ) → Effect o (by_kind o s n) n s
by_kind-Effect o s n = record {
  debug = ground arith;
  links = ground arith;
  remove = ground arith;
  delete = ground arith;
  search = ground arith;
  force = ground arith;
  overwrite = ground arith;
  move = ground arith;
  nodes = by_kind-nodes o s n;
}

-- A run of arguments' effect.
pub record Effects (o o' : Options) (args : List Str) : Type 0 where
  pub debug : o'.debug ≡ (o.debug || given 0 args)
  pub links : o'.reconstitutesymlinks ≡ (o.reconstitutesymlinks || given 1 args)
  pub remove : o'.remove ≡ (o.remove || given 2 args)
  pub delete : o'.deletewithoutmatch ≡ (o.deletewithoutmatch || given 3 args)
  pub search : o'.search ≡ (o.search || given 4 args)
  pub force : o'.force ≡ (o.force || given 5 args)
  pub overwrite : o'.overwriteexisting ≡ (o.overwriteexisting || given 6 args)
  pub move : o'.move ≡ (o.move || given 7 args)
  pub nodes : o'.sinodes ≡ o.sinodes ++ nodes args

or_none : (b : Bool) → b ≡ (b || false)
or_none b = ground arith

or_assoc : (a b c d e : Bool) → a ≡ (b || c) → d ≡ (a || e) → d ≡ (b || (c || e))
or_assoc a b c d e h k = ground arith

take_option-Effect : (o : Options) (s : Str) → Effect o (take_option o s) (first_of patterns s) s
take_option-Effect o s = rw (take_option-kind o s) (by_kind-Effect o s (first_of patterns s))

nodes-cons :
    (s : Str) (args : List Str) → nodes (s ∷ args) ≡ kept_node (first_of patterns s) s ++ nodes args
nodes-cons s args = elim (Bool-cases (is_node s)) [
  | inl e ↦ rw (e, nodes, kept_node) refl
  | inr e ↦ rw (e, nodes, kept_node) refl
]

pub take_options-Effects : (o : Options) (args : List Str) → Effects o (take_options o args) args
unfolding take_options
take_options-Effects o [] = record {
  debug = or_none o.debug;
  links = or_none o.reconstitutesymlinks;
  remove = or_none o.remove;
  delete = or_none o.deletewithoutmatch;
  search = or_none o.search;
  force = or_none o.force;
  overwrite = or_none o.overwriteexisting;
  move = or_none o.move;
  nodes = sym (append-nil o.sinodes);
}
take_options-Effects o (s ∷ args) =
    let e = take_option-Effect o s in
    let r = take_options-Effects (take_option o s) args in
    record {
      debug =
          or_assoc (take_option o s).debug o.debug (first_of patterns s == 0)
            (take_options (take_option o s) args).debug (given 0 args) e.debug r.debug;
      links =
          or_assoc (take_option o s).reconstitutesymlinks o.reconstitutesymlinks
            (first_of patterns s == 1) (take_options (take_option o s) args).reconstitutesymlinks
            (given 1 args) e.links r.links;
      remove =
          or_assoc (take_option o s).remove o.remove (first_of patterns s == 2)
            (take_options (take_option o s) args).remove (given 2 args) e.remove r.remove;
      delete =
          or_assoc (take_option o s).deletewithoutmatch o.deletewithoutmatch
            (first_of patterns s == 3) (take_options (take_option o s) args).deletewithoutmatch
            (given 3 args) e.delete r.delete;
      search =
          or_assoc (take_option o s).search o.search (first_of patterns s == 4)
            (take_options (take_option o s) args).search (given 4 args) e.search r.search;
      force =
          or_assoc (take_option o s).force o.force (first_of patterns s == 5)
            (take_options (take_option o s) args).force (given 5 args) e.force r.force;
      overwrite =
          or_assoc (take_option o s).overwriteexisting o.overwriteexisting
            (first_of patterns s == 6) (take_options (take_option o s) args).overwriteexisting
            (given 6 args) e.overwrite r.overwrite;
      move =
          or_assoc (take_option o s).move o.move (first_of patterns s == 7)
            (take_options (take_option o s) args).move (given 7 args) e.move r.move;
      nodes =
          r.nodes
          ∙ ap (λ x. x ++ nodes args) e.nodes
          ∙ append_assoc o.sinodes (kept_node (first_of patterns s) s) (nodes args)
          ∙ ap (◌++◌ o.sinodes) (sym (nodes-cons s args));
    }
