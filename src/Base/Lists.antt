-- ===== src/Base/Lists.antt =====
-- Lists measured, counted and indexed by native numbers, under the library's names.
use Prim.Native.Nat.{ℕ, zero, suc, ◌+◌, ◌≤◌, ◌<◌}
use mathlib.Core.Path.{◌≡◌, refl, sym, ap, subst}
use mathlib.Core.Logic.{◌≢◌}
use mathlib.Core.List.{List, [], ◌∷◌, ◌++◌}
use mathlib.Core.Option.{Option, none, some, some-injective, none-ne-some}
use native.Mathlib.Omega.{arith}

module _ {ℓ} {A : Type ℓ} where
  abbrev pub length : List A → ℕ
  length [] = 0
  length (x ∷ xs) = suc (length xs)

  abbrev pub get_elem? : List A → ℕ → Option A
  get_elem? [] i = none
  get_elem? (x ∷ xs) zero = some x
  get_elem? (x ∷ xs) (suc i) = get_elem? xs i

  -- A write out of bounds changes nothing.
  abbrev pub set : List A → ℕ → A → List A
  set [] i v = []
  set (x ∷ xs) zero v = v ∷ xs
  set (x ∷ xs) (suc i) v = x ∷ set xs i v

  abbrev pub take : ℕ → List A → List A
  take zero xs = []
  take (suc n) [] = []
  take (suc n) (x ∷ xs) = x ∷ take n xs

  abbrev pub drop : ℕ → List A → List A
  drop zero xs = xs
  drop (suc n) [] = []
  drop (suc n) (x ∷ xs) = drop n xs

  abbrev pub replicate : ℕ → A → List A
  replicate zero a = []
  replicate (suc n) a = a ∷ replicate n a

  pub length-append : (xs ys : List A) → length (xs ++ ys) ≡ length xs + length ys
  length-append [] ys = omega arith
  length-append (x ∷ xs) ys = omega (arith, length-append xs ys)

  pub drop-append : (xs ys : List A) → drop (length xs) (xs ++ ys) ≡ ys
  drop-append [] ys = refl
  drop-append (x ∷ xs) ys = drop-append xs ys

  pub take-length : (n : ℕ) (xs : List A) → length xs ≤ n → take n xs ≡ xs
  take-length zero [] h = refl
  take-length zero (x ∷ xs) h = absurd (omega arith)
  take-length (suc n) [] h = refl
  take-length (suc n) (x ∷ xs) h = ap (◌∷◌ x) (take-length n xs (omega arith))

module _ {ℓ} {A : Type ℓ} where
  pub length-set : (xs : List A) (i : ℕ) (y : A) → length (set xs i y) ≡ length xs
  length-set [] i y = refl
  length-set (x ∷ xs) zero y = refl
  length-set (x ∷ xs) (suc i) y = ap suc (length-set xs i y)

  pub length-replicate : (n : ℕ) (x : A) → length (replicate n x) ≡ n
  length-replicate zero x = refl
  length-replicate (suc n) x = ap suc (length-replicate n x)

  -- The sum of a measure over a list.
  abbrev pub total : (A → ℕ) → List A → ℕ
  total h [] = 0
  total h (x ∷ xs) = h x + total h xs

  -- What one write changes in such a sum.
  pub total-set :
      (h : A → ℕ) (xs : List A) (i : ℕ) (x y : A)
      → get_elem? xs i ≡ some x
      → total h (set xs i y) + h x ≡ total h xs + h y
  total-set h [] i x y e = absurd (none-ne-some x e)
  total-set h (z ∷ xs) zero x y e = ground arith
  total-set h (z ∷ xs) (suc i) x y e = omega (arith, total-set h xs i x y e)

  pub total-get :
      (h : A → ℕ) (xs : List A) (i : ℕ) (x : A) → get_elem? xs i ≡ some x → h x ≤ total h xs
  total-get h [] i x e = absurd (none-ne-some x e)
  total-get h (z ∷ xs) zero x e = ground arith
  total-get h (z ∷ xs) (suc i) x e = omega (arith, total-get h xs i x e)

  pub get-lt-length : (xs : List A) (i : ℕ) (x : A) → get_elem? xs i ≡ some x → i < length xs
  get-lt-length [] i x e = absurd (none-ne-some x e)
  get-lt-length (z ∷ xs) zero x e = omega arith
  get-lt-length (z ∷ xs) (suc i) x e = omega (arith, get-lt-length xs i x e)

  abbrev pub All {κ} : (A → Type κ) → List A → Type κ
  All P [] = Unit
  All P (x ∷ xs) = P x × All P xs

  pub All-append_one {κ} :
      (P : A → Type κ) (xs : List A) (y : A) → All P xs → P y → All P (xs ++ y ∷ [])
  All-append_one P [] y h k = (k, tt)
  All-append_one P (x ∷ xs) y h k = (h.0, All-append_one P xs y h.1 k)

  pub All-set {κ} :
      (P : A → Type κ) (xs : List A) (i : ℕ) (y : A) → All P xs → P y → All P (set xs i y)
  All-set P [] i y h k = tt
  All-set P (x ∷ xs) zero y h k = (k, h.1)
  All-set P (x ∷ xs) (suc i) y h k = (h.0, All-set P xs i y h.1 k)

  pub All-map {κ} : (P Q : A → Type κ) (xs : List A) → ((x : A) → P x → Q x) → All P xs → All Q xs
  All-map P Q [] f h = tt
  All-map P Q (x ∷ xs) f h = (f x h.0, All-map P Q xs f h.1)

  pub All-get {κ} :
      (P : A → Type κ) (xs : List A) (i : ℕ) (x : A) → All P xs → get_elem? xs i ≡ some x → P x
  All-get P [] i x h e = absurd (none-ne-some x e)
  All-get P (z ∷ xs) zero x h e = subst P (some-injective z x e) h.0
  All-get P (z ∷ xs) (suc i) x h e = All-get P xs i x h.1 e

  pub get-set :
      (xs : List A) (i : ℕ) (x y : A) → get_elem? xs i ≡ some x → get_elem? (set xs i y) i ≡ some y
  get-set [] i x y e = absurd (none-ne-some x e)
  get-set (z ∷ xs) zero x y e = refl
  get-set (z ∷ xs) (suc i) x y e = get-set xs i x y e

  pub get-set_ne :
      (xs : List A) (i k : ℕ) (y : A) → i ≢ k → get_elem? (set xs i y) k ≡ get_elem? xs k
  get-set_ne [] i k y h = refl
  get-set_ne (z ∷ xs) zero zero y h = absurd (h refl)
  get-set_ne (z ∷ xs) zero (suc k) y h = refl
  get-set_ne (z ∷ xs) (suc i) zero y h = refl
  get-set_ne (z ∷ xs) (suc i) (suc k) y h = get-set_ne xs i k y λ e. h (ap suc e)

  pub set-set : (xs : List A) (i : ℕ) (x y : A) → set (set xs i x) i y ≡ set xs i y
  set-set [] i x y = refl
  set-set (z ∷ xs) zero x y = refl
  set-set (z ∷ xs) (suc i) x y = ap (◌∷◌ z) (set-set xs i x y)

  pub set_same : (xs : List A) (i : ℕ) (x : A) → get_elem? xs i ≡ some x → set xs i x ≡ xs
  set_same [] i x e = refl
  set_same (z ∷ xs) zero x e = ap (λ y. y ∷ xs) (sym (some-injective z x e))
  set_same (z ∷ xs) (suc i) x e = ap (◌∷◌ z) (set_same xs i x e)
