-- ===== src/Program/Flags.antt =====
-- The options of `main` (src/main.cpp).
use sync_files.Base.{◌≡◌, ◌∙◌, Bool, true, false, ◌||◌, List, arith, Str, Bool-cases, sym, inl, inr}
use sync_files.Program.{defaults, take_options, forced, parse}
use sync_files.Program.Patterns.{given, nodes, take_options-Effects}

or_true : (a b : Bool) → true ≡ b → true ≡ (a || b)
or_true a b h = ground arith

or_false : (a b : Bool) → false ≡ b → a ≡ (a || b)
or_false a b h = ground arith

-- An option is set exactly if some argument, be it a path, has its pattern anywhere and none of
-- the patterns that are tested before it, `-f` sets overwriting as `-o` does, and the named paths
-- are the arguments without any pattern, in order. The number that -p gives is not covered.
pub parse_flags :
    (args : List Str)
    → let o = parse args in
      (o.debug ≡ given 0 args)
      × (o.reconstitutesymlinks ≡ given 1 args)
      × (o.remove ≡ given 2 args)
      × (o.deletewithoutmatch ≡ given 3 args)
      × (o.search ≡ given 4 args)
      × (o.force ≡ given 5 args)
      × (o.overwriteexisting ≡ (given 6 args || given 5 args))
      × (o.move ≡ given 7 args)
      × (o.sinodes ≡ nodes args)
unfolding parse
parse_flags args =
    let e = take_options-Effects defaults args in
    elim (Bool-cases (take_options defaults args).force) [
      | inl f ↦
          rw (f, forced)
            (
              e.debug,
              e.links,
              e.remove,
              e.delete,
              e.search,
              sym f ∙ e.force,
              or_true (given 6 args) (given 5 args) (sym f ∙ e.force),
              e.move,
              e.nodes,
            )
      | inr f ↦
          rw (f, forced)
            (
              e.debug,
              e.links,
              e.remove,
              e.delete,
              e.search,
              e.force,
              e.overwrite ∙ or_false (given 6 args) (given 5 args) (sym f ∙ e.force),
              e.move,
              e.nodes,
            )
    ]
