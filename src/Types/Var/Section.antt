-- ===== src/Types/Var/Section.antt =====
-- What a thread of `ThreadSafeVar` (include/Types.h) knows while it holds the lock.
use sync_files.Base.{
  ℕ, ◌≤◌, ◌≡◌, refl, sym, ap, Bool, true, false, Option, none, some, List, [], ◌∷◌, ◌++◌, arith,
  set, get_elem?, total, total-set, total-get, All, All-set, All-get, set-set,
}
use sync_files.Types.Var.{
  Arithmetic, Op, get, assign, increment, decrement, VarPc, idle, waiting, reading, writing,
  clearing, Var, enter, after_read, test_and_set, put, move,
}

abbrev pub set_to : Bool → ℕ
set_to true = 1
set_to false = 0

set_to-le : (b : Bool) → set_to b ≤ 1
set_to-le b = ground arith

module _ {ℓ} {A : Type ℓ} where
  -- A call that runs alone: the new value, and what it returns.
  abbrev pub alone : Arithmetic A → Op A → A → A × Option A
  alone num get v = (v, some v)
  alone num (assign x) v = (x, none)
  alone num (increment x) v = (num.plus v x, none)
  alone num (decrement x) v = (num.minus v x, none)

  -- Calls one after the other: the last value, and what each returns.
  abbrev pub last : Arithmetic A → A → List (Op A) → A
  last num v [] = v
  last num v (op ∷ ops) = last num (alone num op v).0 ops

  abbrev pub returns : Arithmetic A → A → List (Op A) → List (Op A × Option A)
  returns num v [] = []
  returns num v (op ∷ ops) = (op, (alone num op v).1) ∷ returns num (alone num op v).0 ops

  pub last-append :
      (num : Arithmetic A) (v : A) (ops : List (Op A)) (op : Op A)
      → last num v (ops ++ op ∷ []) ≡ (alone num op (last num v ops)).0
  last-append num v [] op = refl
  last-append num v (o ∷ ops) op = last-append num (alone num o v).0 ops op

  pub returns-append :
      (num : Arithmetic A) (v : A) (ops : List (Op A)) (op : Op A)
      → returns num v (ops ++ op ∷ [])
        ≡ returns num v ops ++ (op, (alone num op (last num v ops)).1) ∷ []
  returns-append num v [] op = refl
  returns-append num v (o ∷ ops) op =
      ap (◌∷◌ (o, (alone num o v).1)) (returns-append num (alone num o v).0 ops op)

  abbrev pub holds : VarPc A → ℕ
  holds idle = 0
  holds (waiting o) = 0
  holds _ = 1

  -- What a thread knows: `base` is the value before the call that holds the lock.
  abbrev pub Knows : Arithmetic A → A → A → VarPc A → Type ℓ
  Knows num base v idle = Unit
  Knows num base v (waiting o) = Unit
  Knows num base v (reading o) = base ≡ v
  Knows num base v (writing o x) = (base ≡ v) × (alone num o base ≡ (x, none))
  Knows num base v (clearing o r) = alone num o base ≡ (v, r)

  abbrev pub calls : List (Op A × Option A) → List (Op A)
  calls [] = []
  calls (e ∷ es) = e.0 ∷ calls es

  pub calls-append : (es ds : List (Op A × Option A)) → calls (es ++ ds) ≡ calls es ++ calls ds
  calls-append [] ds = refl
  calls-append (e ∷ es) ds = ap (◌∷◌ e.0) (calls-append es ds)

  pub record Inv (num : Arithmetic A) (base : A) (s : Var A) : Type ℓ where
    pub one : total holds s.threads ≡ set_to s.locked
    pub knows : All (Knows num base s.value) s.threads
    pub free : s.locked ≡ false → base ≡ s.value

  -- Where one thread is in its call, the others know nothing.
  idle_Knows :
      (num : Arithmetic A) (base v : A) (ps : List (VarPc A))
      → total holds ps ≡ 0
      → All (Knows num base v) ps
  idle_Knows num base v [] h = tt
  idle_Knows num base v (idle ∷ ps) h = (tt, idle_Knows num base v ps (omega arith))
  idle_Knows num base v (waiting o ∷ ps) h = (tt, idle_Knows num base v ps (omega arith))
  idle_Knows num base v (pc ∷ ps) h = absurd (ground arith)

  -- The thread that holds the lock changes the value, and what it knows itself.
  others_Knows :
      (num : Arithmetic A) (base v : A) (ps : List (VarPc A)) (i : ℕ) (pc pc' : VarPc A)
      → get_elem? ps i ≡ some pc
      → holds pc ≡ 1
      → total holds ps ≤ 1
      → Knows num base v pc'
      → All (Knows num base v) (set ps i pc')
  others_Knows num base v ps i pc pc' e h t k = rw (sym (set-set ps i idle pc')) (
      All-set (Knows num base v) (set ps i idle) i pc'
        (idle_Knows num base v (set ps i idle) (omega (arith, total-set holds ps i pc idle e))) k)

  enter-Knows : (num : Arithmetic A) (base v : A) (o : Op A) → base ≡ v → Knows num base v (enter o)
  enter-Knows num base v get h = h
  enter-Knows num base v (assign x) h = (h, refl)
  enter-Knows num base v (increment x) h = h
  enter-Knows num base v (decrement x) h = h

  holds-enter : (o : Op A) → holds (enter o) ≡ 1
  holds-enter o = ground arith

  after_read-Knows :
      (num : Arithmetic A) (base v : A) (o : Op A)
      → base ≡ v
      → Knows num base v (after_read num o v)
  after_read-Knows num base v get h = cc
  after_read-Knows num base v (assign x) h = (h, refl)
  after_read-Knows num base v (increment x) h = (h, cc)
  after_read-Knows num base v (decrement x) h = (h, cc)

  holds-after_read : (num : Arithmetic A) (o : Op A) (v : A) → holds (after_read num o v) ≡ 1
  holds-after_read num o v = ground arith

  abbrev pub next_base : Arithmetic A → A → VarPc A → A
  next_base num base (clearing o r) = (alone num o base).0
  next_base num base _ = base

  put-Inv :
      (num : Arithmetic A) (base : A) (s : Var A) (i : ℕ) (pc pc' : VarPc A)
      → get_elem? s.threads i ≡ some pc
      → holds pc' ≡ holds pc
      → Knows num base s.value pc'
      → Inv num base s
      → Inv num base (put s i s.value s.locked pc')
  put-Inv num base s i pc pc' e h k v = record {
    one = omega (arith, total-set holds s.threads i pc pc' e, v.one);
    knows = All-set (Knows num base s.value) s.threads i pc' v.knows k;
    free = v.free;
  }

  wait-Inv :
      (num : Arithmetic A) (base : A) (s : Var A) (i : ℕ) (o : Op A) (flag : Bool)
      → get_elem? s.threads i ≡ some (waiting o)
      → s.locked ≡ flag
      → Inv num base s
      → Inv num base (put s i s.value true (test_and_set flag o))
  wait-Inv num base s i o true e f v = record {
    one = ground (arith, total-set holds s.threads i (waiting o) (waiting o) e, v.one);
    knows = All-set (Knows num base s.value) s.threads i (waiting o) v.knows tt;
    free = λ q. absurd cc;
  }
  wait-Inv num base s i o false e f v = record {
    one = ground (arith, total-set holds s.threads i (waiting o) (enter o) e, holds-enter o, v.one);
    knows =
        All-set (Knows num base s.value) s.threads i (enter o) v.knows
          (enter-Knows num base s.value o (v.free f));
    free = λ q. absurd cc;
  }

  write-Inv :
      (num : Arithmetic A) (base : A) (s : Var A) (i : ℕ) (o : Op A) (x : A)
      → get_elem? s.threads i ≡ some (writing o x)
      → Inv num base s
      → Inv num base (put s i x s.locked (clearing o none))
  write-Inv num base s i o x e v = record {
    one = omega (arith, total-set holds s.threads i (writing o x) (clearing o none) e, v.one);
    knows =
        others_Knows num base x s.threads i (writing o x) (clearing o none) e refl
          (omega (arith, v.one, set_to-le s.locked))
          ((All-get (Knows num base s.value) s.threads i (writing o x) v.knows e).1);
    free = λ q. absurd (ground (arith, v.one, total-get holds s.threads i (writing o x) e));
  }

  clear-Inv :
      (num : Arithmetic A) (base : A) (s : Var A) (i : ℕ) (o : Op A) (r : Option A)
      → get_elem? s.threads i ≡ some (clearing o r)
      → Inv num base s
      → Inv num (alone num o base).0 (put s i s.value false idle)
  clear-Inv num base s i o r e v = record {
    one = omega (
      arith,
      total-set holds s.threads i (clearing o r) idle e,
      v.one,
      total-get holds s.threads i (clearing o r) e,
      set_to-le s.locked,
    );
    knows =
        others_Knows num (alone num o base).0 s.value s.threads i (clearing o r) idle e refl
          (omega (arith, v.one, set_to-le s.locked)) tt;
    free =
        λ q. ap (λ p. p.0) (All-get (Knows num base s.value) s.threads i (clearing o r) v.knows e);
  }

  pub move-Inv :
      (num : Arithmetic A) (base : A) (s : Var A) (i : ℕ) (op : Op A) (pc : VarPc A)
      → get_elem? s.threads i ≡ some pc
      → Inv num base s
      → Inv num (next_base num base pc) (move num s i op pc)
  unfolding move
  move-Inv num base s i op idle e v = put-Inv num base s i idle (waiting op) e refl tt v
  move-Inv num base s i op (waiting o) e v = wait-Inv num base s i o s.locked e refl v
  move-Inv num base s i op (reading o) e v =
      put-Inv num base s i (reading o) (after_read num o s.value) e (holds-after_read num o s.value)
        (after_read-Knows num base s.value o
          (All-get (Knows num base s.value) s.threads i (reading o) v.knows e))
        v
  move-Inv num base s i op (writing o x) e v = write-Inv num base s i o x e v
  move-Inv num base s i op (clearing o r) e v = clear-Inv num base s i o r e v
