-- ===== src/Types/Text.antt =====
-- `String` of include/Types.h: a pointer to a std::string, or null, under a lock. Each method holds
-- the lock of its object, and of the other where it has one.
pub mod View
pub mod Order
use sync_files.Base.{
  ℕ, zero, suc, ◌+◌, Bool, true, false, not, Option, none, some, List, [], ◌∷◌, ◌++◌, Str, length,
  get_elem?, leb, ltb, if◌then◌else◌, ◌==◌, replicate,
}
use sync_files.Types.{Nothing, Outcome, returned, thrown, undefined, Guarded, guard, guard_both}

-- The pointer, null or to a text.
abbrev pub Text : Type 0
Text = Guarded (Option Str)

abbrev pub new : Option Str → Text
new s = record { flag = false; content = s }

-- The constructors: from nothing, a text, or a number of equal characters.
unfoldable pub string : Text
string = new none

unfoldable pub string_of : Str → Text
string_of s = new (some s)

unfoldable pub string_count : ℕ → ℕ → Text
string_count n c = new (some (replicate n c))

-- `<` and `==` of std::string.
abbrev pub str_less : Str → Str → Bool
str_less [] [] = false
str_less [] (y ∷ ys) = true
str_less (x ∷ xs) [] = false
str_less (x ∷ xs) (y ∷ ys) =
    let rest = str_less xs ys in if ltb x y then true else if ltb y x then false else rest

abbrev pub str_equal : Str → Str → Bool
str_equal [] [] = true
str_equal [] (y ∷ ys) = false
str_equal (x ∷ xs) [] = false
str_equal (x ∷ xs) (y ∷ ys) = let rest = str_equal xs ys in if x == y then rest else false

abbrev pub size_of : Option Str → ℕ
size_of none = 0
size_of (some s) = length s

unfoldable pub size : Text → Outcome ℕ × Text
size t = guard (λ p. (returned (size_of p), p)) t

abbrev pub is_empty : Option Str → Bool
is_empty none = true
is_empty (some s) = leb (length s) 0

unfoldable pub empty : Text → Outcome Bool × Text
empty t = guard (λ p. (returned (is_empty p), p)) t

-- The text of `c_str` and of the conversion to std::string.
abbrev pub text_of : Option Str → Str
text_of none = []
text_of (some s) = s

unfoldable pub c_str : Text → Outcome Str × Text
c_str t = guard (λ p. (returned (text_of p), p)) t

unfoldable pub to_string : Text → Outcome Str × Text
to_string t = guard (λ p. (returned (text_of p), p)) t

unfoldable pub reset : Text → Outcome Nothing × Text
reset t = guard (λ p. (returned tt, none)) t

abbrev pub appended : Option Str → Str → Option Str
appended none s = some s
appended (some r) s = some (r ++ s)

-- `operator+=` of a std::string.
unfoldable pub append : Text → Str → Outcome Nothing × Text
append t s = guard (λ p. (returned tt, appended p s)) t

-- `operator[]`; at the text's end it is the final zero.
abbrev pub char_at : Str → ℕ → Outcome ℕ
char_at [] zero = returned 0
char_at [] (suc i) = undefined
char_at (c ∷ s) zero = returned c
char_at (c ∷ s) (suc i) = char_at s i

abbrev pub char_of : Option Str → ℕ → Outcome ℕ
char_of none i = thrown
char_of (some s) i = char_at s i

unfoldable pub subscript : Text → ℕ → Outcome ℕ × Text
subscript t i = guard (λ p. (char_of p i, p)) t

-- The methods of two objects, by the places of `*this` and of the other.
abbrev pub copied : Option Str → Option Str → Outcome Nothing × Option Str × Option Str
copied p none = (returned tt, none, none)
copied p (some s) = (returned tt, some s, some s)

unfoldable pub copy_assign : List Text → ℕ → ℕ → Outcome Nothing × List Text
copy_assign ts i k = guard_both copied ts i k

abbrev pub moved : Option Str → Option Str → Outcome Nothing × Option Str × Option Str
moved p q = (returned tt, q, none)

unfoldable pub move_assign : List Text → ℕ → ℕ → Outcome Nothing × List Text
move_assign ts i k = guard_both moved ts i k

abbrev pub joined : Option Str → Option Str → Outcome Nothing × Option Str × Option Str
joined (some r) (some s) = (returned tt, some (r ++ s), some s)
joined (some r) none = (returned tt, some r, none)
joined none (some s) = (returned tt, some s, some s)
joined none none = (returned tt, none, none)

-- `operator+=` of a String.
unfoldable pub append_string : List Text → ℕ → ℕ → Outcome Nothing × List Text
append_string ts i k = guard_both joined ts i k

abbrev pub is_less : Option Str → Option Str → Bool
is_less (some r) (some s) = str_less r s
is_less (some r) none = true
is_less none (some s) = false
is_less none none = false

unfoldable pub less : List Text → ℕ → ℕ → Outcome Bool × List Text
less ts i k = guard_both (λ p q. (returned (is_less p q), p, q)) ts i k

abbrev pub is_equal : Option Str → Option Str → Bool
is_equal (some r) (some s) = str_equal r s
is_equal _ _ = false

unfoldable pub equal : List Text → ℕ → ℕ → Outcome Bool × List Text
equal ts i k = guard_both (λ p q. (returned (is_equal p q), p, q)) ts i k

abbrev pub negate : Outcome Bool × List Text → Outcome Bool × List Text
negate (returned b, ts) = (returned (not b), ts)
negate (r, ts) = (r, ts)

-- `operator>` asks `rhs < *this`; the others are negations.
unfoldable pub greater : List Text → ℕ → ℕ → Outcome Bool × List Text
unfolding less
greater ts i k = less ts k i

unfoldable pub less_equal : List Text → ℕ → ℕ → Outcome Bool × List Text
unfolding greater
less_equal ts i k = negate (greater ts i k)

unfoldable pub greater_equal : List Text → ℕ → ℕ → Outcome Bool × List Text
unfolding less
greater_equal ts i k = negate (less ts i k)

unfoldable pub not_equal : List Text → ℕ → ℕ → Outcome Bool × List Text
unfolding equal
not_equal ts i k = negate (equal ts i k)
