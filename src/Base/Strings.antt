-- ===== src/Base/Strings.antt =====
-- Strings as the lists of their characters' codes, with decidable equality and list membership.
use Prim.Native.Nat.{ℕ, suc, ◌+◌}
use Prim.Native.Char.{code}
use Prim.Native.String.{String}
use mathlib.Core.Path.{◌≡◌, refl}
use mathlib.Core.Logic.{◌≢◌, ite, dite}
use mathlib.Core.Bool.{Bool, true, false}
use mathlib.Core.List.{List, [], ◌∷◌, ◌++◌}
use native.Mathlib.Omega.{arith}
use native.Mathlib.Decide.{ℕ_discrete}

-- `std::wstring` and `std::string`
abbrev pub Str : Type 0
Str = List ℕ

-- The codes of a literal.
abbrev pub codes : String → Str
codes String.[] = []
codes (String.◌∷◌ c s) = code c ∷ codes s

nil-ne-cons : (x : ℕ) (s : Str) → [] ≢ x ∷ s
nil-ne-cons x s e = cc

cons-ne-nil : (x : ℕ) (s : Str) → x ∷ s ≢ []
cons-ne-nil x s e = cc

cons-eq : (x y : ℕ) (s t : Str) → x ≡ y → s ≡ t → x ∷ s ≡ y ∷ t
cons-eq x y s t p q = cc

cons-ne_head : (x y : ℕ) (s t : Str) → x ≢ y → x ∷ s ≢ y ∷ t
cons-ne_head x y s t n e = n (ground arith)

cons-ne_tail : (x y : ℕ) (s t : Str) → s ≢ t → x ∷ s ≢ y ∷ t
cons-ne_tail x y s t n e = n (ground arith)

unfoldable pub str_dec : Discrete Str
unfolding ℕ_discrete nil-ne-cons cons-ne-nil cons-eq cons-ne_tail cons-ne_head
str_dec [] [] = yes refl
str_dec [] (y ∷ t) = no (nil-ne-cons y t)
str_dec (x ∷ s) [] = no (cons-ne-nil x s)
str_dec (x ∷ s) (y ∷ t) =
    let rest = str_dec s t in
    dite (ℕ_discrete x y)
      (λ p. dite rest (λ q. yes (cons-eq x y s t p q)) (λ n. no (cons-ne_tail x y s t n)))
      (λ n. no (cons-ne_head x y s t n))

-- Is the string in the list?
abbrev pub contains : List Str → Str → Bool
contains [] a = false
contains (x ∷ xs) a = ite (str_dec x a) true (contains xs a)

-- `insert` of a set that is kept as a list.
abbrev pub insert : Str → List Str → List Str
insert a xs = elim (contains xs a) [ true ↦ xs | false ↦ a ∷ xs ]

-- `erase` of such a set.
abbrev pub erase : Str → List Str → List Str
erase a [] = []
erase a (x ∷ xs) = ite (str_dec x a) (erase a xs) (x ∷ erase a xs)

-- How often the string is in the list.
abbrev pub count : Str → List Str → ℕ
count a [] = 0
count a (x ∷ xs) = ite (str_dec x a) (suc (count a xs)) (count a xs)

pub count-append : (a : Str) (xs ys : List Str) → count a (xs ++ ys) ≡ count a xs + count a ys
count-append a [] ys = omega arith
count-append a (x ∷ xs) ys = ground (arith, count-append a xs ys)

pub contains-erase_of_absent :
    (a b : Str) (xs : List Str) → contains xs a ≡ false → contains (erase b xs) a ≡ false
contains-erase_of_absent a b [] h = refl
contains-erase_of_absent a b (x ∷ xs) h = ground (arith, contains-erase_of_absent a b xs)

pub contains-erase_self : (a : Str) (xs : List Str) → contains (erase a xs) a ≡ false
contains-erase_self a [] = refl
contains-erase_self a (x ∷ xs) = ground (arith, contains-erase_self a xs)

pub contains-erase_ne :
    (a b : Str) (xs : List Str) → b ≢ a → contains (erase b xs) a ≡ contains xs a
contains-erase_ne a b [] n = refl
contains-erase_ne a b (x ∷ xs) n = ground (arith, contains-erase_ne a b xs n)

pub contains-insert :
    (a b : Str) (xs : List Str) → contains (insert b xs) a ≡ ite (str_dec b a) true (contains xs a)
contains-insert a b xs = ground arith

str_test : contains (codes "ab" ∷ codes "ac" ∷ []) (codes "ac") ≡ true
unfolding str_dec ℕ_discrete
str_test = refl
