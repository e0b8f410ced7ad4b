-- ===== src/Text.antt =====
-- world/registry/Registry.h: `isNamespacedId`. A text is read as its code points; the test looks
-- for ':' alone, which is one byte in every encoding, so bytes and code points give one answer.
-- Also `std::to_string` on an unsigned number, which names the automatically registered actions.
pub mod Namespaced
use Prim.Native.Char.{Char, code}
use Prim.Native.String.{◌++◌ as append}
use clone_craft.Base.{
  ℕ, zero, suc, ◌+◌, ◌/◌, ◌%◌, String, Bool, true, false, ◌||◌, Option, none, some, List, [], ◌∷◌,
  length, leb, ◌==◌, if◌then◌else◌,
}

abbrev pub codes : String → List ℕ
codes String.[] = []
codes (String.◌∷◌ c s) = code c ∷ codes s

abbrev pub shift : Option ℕ → Option ℕ
shift none = none
shift (some i) = some (suc i)

-- `id.find( c, from )`
unfoldable pub find : ℕ → ℕ → List ℕ → Option ℕ
find c from [] = none
find c zero (x ∷ xs) = if x == c then some 0 else shift (find c zero xs)
find c (suc from) (x ∷ xs) = shift (find c from xs)

abbrev pub is_none : Option ℕ → Bool
is_none none = true
is_none (some _) = false

unfoldable pub namespaced_codes : List ℕ → Bool
unfolding find
namespaced_codes cs = elim (find b':' 0 cs) [
  | none ↦ false
  | some separator ↦
      if separator == 0 || leb (length cs) (separator + 1)
      then false
      else is_none (find b':' (separator + 1) cs)
]

unfoldable pub is_namespaced_id : String → Bool
unfolding namespaced_codes
is_namespaced_id id = namespaced_codes (codes id)

abbrev pub is_empty : String → Bool
is_empty String.[] = true
is_empty (String.◌∷◌ c s) = false

digit : ℕ → Char
digit d =
    if d == 0
    then "0"
    else if d == 1
    then "1"
    else if d == 2
    then "2"
    else if d == 3
    then "3"
    else if d == 4
    then "4"
    else if d == 5
    then "5"
    else if d == 6
    then "6"
    else if d == 7
    then "7"
    else if d == 8
    then "8"
    else "9"

print : ℕ → ℕ → String → String
print zero n rest = rest
print (suc fuel) n rest =
    let more = print fuel (n / 10) (String.◌∷◌ (digit (n % 10)) rest) in
    if leb n 9 then String.◌∷◌ (digit n) rest else more

-- Twenty digits hold every 64-bit number.
unfoldable pub to_string : ℕ → String
unfolding print digit
to_string n = print 20 n ""
