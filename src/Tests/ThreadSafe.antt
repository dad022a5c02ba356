-- ===== src/Tests/ThreadSafe.antt =====
-- The classes of include/ThreadSafe.h, at small contents.
use sync_files.Base.{ℕ, ◌≡◌, refl, true, false, List, [], ◌∷◌, ◌++◌, arith, ltb, drop}
use sync_files.Types.{returned}
use sync_files.Types.Pairs.{free}
use sync_files.ThreadSafe.TsQueue as Queue
use sync_files.ThreadSafe.TsQueue.Counts as Counts
use sync_files.ThreadSafe.TsSet.{
  Compare, Call, insert, insert_hint, insert_list, place, place_all, after, size, call, number,
}
use sync_files.ThreadSafe.TsSet.Members.{Hinted, Stands, holds, present, after-Stands}
use sync_files.ThreadSafe.TsSet.KeySet.{view, with_all_comm, after_eq}

ltb_irrefl : (a : ℕ) → ltb a a ≡ false
ltb_irrefl a = ground arith

ltb_trans : (a b c : ℕ) → ltb a b ≡ true → ltb b c ≡ true → ltb a c ≡ true
ltb_trans a b c h k = ground arith

ltb_total : (a b : ℕ) → ltb a b ≡ false → ltb b a ≡ false → a ≡ b
ltb_total a b h k = ground arith

-- `std::less<int>`, for numbers that are not negative.
instance abbrev number_order : Compare ℕ
number_order = record { less = ltb; irrefl = ltb_irrefl; trans = ltb_trans; total = ltb_total }

abbrev queue_calls : List (Queue.Call ℕ)
queue_calls = Queue.push 4 ∷ Queue.pop ∷ Queue.size ∷ Queue.push 5 ∷ []

abbrev one : List ℕ
one = 3 ∷ []

calls_lem_example :
    (Counts.calls queue_calls (free one)).1
    ≡ free (drop (Counts.pops queue_calls) (one ++ Counts.pushed queue_calls))
unfolding Queue.call Queue.body
calls_lem_example = Counts.calls_lem queue_calls one (tt, (tt, (tt, (tt, tt))))

abbrev set_calls : List (Call ℕ)
set_calls = insert 7 ∷ insert_hint 1 5 ∷ insert_list (9 ∷ 7 ∷ []) ∷ []

set_after : (after set_calls (free one)).content ≡ 3 ∷ 5 ∷ 7 ∷ 9 ∷ []
unfolding after call place place_all
set_after = refl

after-Stands_example : Stands (after set_calls (free one)) (present set_calls (λ a. holds a one))
unfolding Hinted place
after-Stands_example = after-Stands set_calls one (tt, tt) (refl, tt)

-- A key that is there already is not counted again.
counted_once : (call size (call (insert 3) (free one)).1).0 ≡ returned (number 1)
unfolding call place
counted_once = refl

abbrev up : List (Call ℕ)
up = insert 1 ∷ insert 2 ∷ []

abbrev down : List (Call ℕ)
down = insert 2 ∷ insert 1 ∷ []

after_eq_example : (after up (free one)).content ≡ (after down (free one)).content
unfolding Hinted place
after_eq_example =
    after_eq up down one one (tt, tt) (tt, tt) tt tt (with_all_comm (2 ∷ []) (1 ∷ []) (view one))
