-- ===== src/Tests/Containers.antt =====
-- The containers of include/Types.h, at small contents.
use sync_files.Base.{
  ℕ, ◌+◌, ◌≡◌, ◌≢◌, ◌⊎◌, ◌↔◌, refl, true, false, Option, some, none, List, [], ◌∷◌, ◌++◌, arith,
  codes, length, get_elem?, set,
}
use sync_files.Types.{returned, stuck, Guarded}
use sync_files.Types.Pairs.{free}
use sync_files.Types.TsDeque as Ts
use sync_files.Types.TsDeque.Fifo as Fifo
use sync_files.Types.TsDeque.Places as Places
use sync_files.Types.TsDeque.Making as Making
use sync_files.Types.Vector as Vec
use sync_files.Types.Vector.View as VecView
use sync_files.Types.Deque as Deque
use sync_files.Types.Deque.Sequences as Sequences
use sync_files.Types.VarVector as Var
use sync_files.Types.VarVector.Places as VarPlaces
use sync_files.Types.Text as Text
use sync_files.Types.Text.Order as Order
use sync_files.Types.Text.View as TextView

abbrev traffic : List (Ts.Call ℕ)
traffic = Ts.push_back 1 ∷ Ts.get_pop_front ∷ Ts.get_pop_front ∷ Ts.push_back 2 ∷ []

fifo_example :
    Fifo.popped (Fifo.calls traffic (free (7 ∷ []))).0
      ++ (Fifo.calls traffic (free (7 ∷ []))).1.content
    ≡ (7 ∷ []) ++ Fifo.pushed traffic
fifo_example = Fifo.fifo traffic (7 ∷ []) (tt, (tt, (tt, (tt, tt))))

abbrev nil : List ℕ
nil = []

abbrev two : List ℕ
two = 1 ∷ 2 ∷ []

abbrev more : List ℕ
more = 8 ∷ 9 ∷ []

abbrev zeroth : ℕ
zeroth = 0

abbrev write_five : Var.Call ℕ
write_five = Var.assign 5 0

abbrev push_five : Var.Call ℕ
push_five = Var.push 5

abbrev push_four : Vec.Call ℕ
push_four = Vec.push_back 4

-- A pop that throws releases the lock, and a locked deque is waited for.
lock_released : (Ts.call Ts.get_pop_front (free nil)).1.flag ≡ false
unfolding Ts.call
lock_released = refl

lock_waited :
    Ts.call Ts.get_pop_front (record { flag = true; content = nil })
    ≡ (stuck, record { flag = true; content = nil })
unfolding Ts.call
lock_waited = refl

erase_range-insert_range_example :
    Ts.call (Ts.erase_range 1 (1 + length more)) (Ts.call (Ts.insert_range 1 more) (free two)).1
    ≡ (returned (Ts.position 1), free two)
erase_range-insert_range_example = Places.erase_range-insert_range 1 more two (omega arith)

abbrev two_deques : List (Guarded (List ℕ))
two_deques = free (1 ∷ []) ∷ free (2 ∷ 3 ∷ []) ∷ []

different : zeroth ≢ 1
different e = absurd (omega arith)

swap_lem_example :
    (Ts.swap two_deques 0 1
      ≡ (returned Ts.nothing, set (set two_deques 0 (free (2 ∷ 3 ∷ []))) 1 (free (1 ∷ []))))
    × ((Ts.swap two_deques 0 0).0 ≡ stuck)
swap_lem_example = Places.swap_lem two_deques 0 1 (1 ∷ []) (2 ∷ 3 ∷ []) different refl refl

set_lem_example :
    let v = (Var.call none write_five (free two)).1 in
    ((Var.call none (Var.get 0) v).0 ≡ returned (Var.element 5))
    × ((Var.call none (Var.get 1) v).0 ≡ (Var.call none (Var.get 1) (free two)).0)
    × ((Var.call none Var.size v).0 ≡ returned (Var.number (length two)))
    × (Var.call none Var.pop (Var.call none push_five v).1 ≡ (returned Var.nothing, v))
set_lem_example = VarPlaces.set_lem none two 5 0 1 (omega arith) different

refines_example :
    let r = Vec.call Vec.data_pointer (free (some two)) in
    (VecView.seen r.0 ≡ returned (VecView.on_list Vec.data_pointer two).0)
    × (Vec.view r.1.content ≡ (VecView.on_list Vec.data_pointer two).1)
    × (r.1.flag ≡ false)
refines_example = VecView.refines Vec.data_pointer (some two)

abbrev two_vectors : List (Guarded (Option (List ℕ)))
two_vectors = free none ∷ free (some (2 ∷ [])) ∷ []

pair_lem_example :
    ((r : Option (List ℕ)) × (t : Option (List ℕ)) × (get_elem? (Vec.swap two_vectors 0 1).1 0
        ≡ some (free r))
      × (Vec.view r ≡ Vec.view (some (2 ∷ [])))
      × (get_elem? (Vec.swap two_vectors 0 1).1 1 ≡ some (free t))
      × (Vec.view t ≡ Vec.view none))
    × ((get_elem? (Vec.copy_assign two_vectors 0 1).1 0 ≡ some (free (some (2 ∷ []))))
        × (get_elem? (Vec.copy_assign two_vectors 0 1).1 1 ≡ some (free (some (2 ∷ [])))))
    × ((get_elem? (Vec.move_assign two_vectors 0 1).1 0 ≡ some (free (some (2 ∷ []))))
        × (get_elem? (Vec.move_assign two_vectors 0 1).1 1 ≡ some (free none)))
pair_lem_example = VecView.pair_lem two_vectors 0 1 none (some (2 ∷ [])) different refl refl

abbrev texts : List Text.Text
texts = free (some (codes "ab")) ∷ free (some (codes "b")) ∷ free none ∷ []

append_lem_example :
    let t = (Text.append (free none) (codes "x")).1 in
    ((Text.to_string t).0 ≡ returned (Text.text_of none ++ codes "x"))
    × ((Text.size t).0 ≡ returned (Text.size_of none + length (codes "x")))
    × (t.flag ≡ false)
append_lem_example = TextView.append_lem none (codes "x")

assign_lem_example :
    ((get_elem? (Text.copy_assign texts 0 1).1 0 ≡ some (free (some (codes "b"))))
      × (get_elem? (Text.copy_assign texts 0 1).1 1 ≡ some (free (some (codes "b")))))
    × ((get_elem? (Text.move_assign texts 0 1).1 0 ≡ some (free (some (codes "b"))))
        × (get_elem? (Text.move_assign texts 0 1).1 1 ≡ some (free none)))
    × ((r : Option (List ℕ)) × (get_elem? (Text.append_string texts 0 1).1 0 ≡ some (free r))
        × (Text.text_of r ≡ Text.text_of (some (codes "ab")) ++ Text.text_of (some (codes "b")))
        × (get_elem? (Text.append_string texts 0 1).1 1 ≡ some (free (some (codes "b")))))
assign_lem_example =
    TextView.assign_lem texts 0 1 (some (codes "ab")) (some (codes "b")) different refl refl

less-trichotomy_example :
    ((Text.less texts 0 1 ≡ (returned true, texts))
      × (Text.greater texts 0 1 ≡ (returned false, texts))
      × (Text.less_equal texts 0 1 ≡ (returned true, texts))
      × (Text.greater_equal texts 0 1 ≡ (returned false, texts)))
    ⊎ (((Text.less texts 0 1 ≡ (returned false, texts))
          × (Text.greater texts 0 1 ≡ (returned true, texts))
          × (Text.less_equal texts 0 1 ≡ (returned false, texts))
          × (Text.greater_equal texts 0 1 ≡ (returned true, texts)))
        ⊎ ((some (codes "ab") ≡ some (codes "b"))
            × (Text.less texts 0 1 ≡ (returned false, texts))
            × (Text.greater texts 0 1 ≡ (returned false, texts))
            × (Text.less_equal texts 0 1 ≡ (returned true, texts))
            × (Text.greater_equal texts 0 1 ≡ (returned true, texts))))
less-trichotomy_example =
    Order.less-trichotomy texts 0 1 (some (codes "ab")) (some (codes "b")) different refl refl

first_less : Text.less texts 0 1 ≡ (returned true, texts)
unfolding Text.less
first_less = refl

second_less : Text.less texts 1 2 ≡ (returned true, texts)
unfolding Text.less
second_less = refl

equal_lem_example :
    (Text.equal texts 1 2 ≡ (returned true, texts))
    ↔ ((s : List ℕ) × (some (codes "b") ≡ some s) × (none ≡ some s))
equal_lem_example =
    Order.equal_lem texts 1 2 (some (codes "b")) none (λ e. absurd (omega arith)) refl refl

abbrev deque_steps : List (Deque.DequeCall ℕ)
deque_steps = Deque.push_back 1 ∷ Deque.size ∷ Deque.swap_plain (4 ∷ []) ∷ Deque.to_deque ∷ []

answers_lem_example :
    Sequences.deque_calls deque_steps (free none) ≡ Sequences.answers deque_steps (Vec.view none)
answers_lem_example = Sequences.answers_lem deque_steps none

-- The constructor from a `ts_deque &&` leaves the other deque's elements where they are.
make_from_free :
    Making.make_from ((Making.make (Making.of_list two)).1 ∷ []) 0
    ≡ (returned (free two), free two ∷ [])
unfolding Making.make_from Making.make Making.assigned
make_from_free = refl
