-- ===== src/Utils/RandomString.antt =====
-- `Utils.RandomString` of kit.go over the numbers that crypto/rand draws.
use kit_legacy.Base.{
  ℕ, zero, suc, ◌+◌, ◌<◌, ℤ, pos, negsuc, ◌≡◌, refl, String, codes, Option, none, some, List, [],
  ◌∷◌, length, All, arith,
}

abbrev pub ascii_letter_set : String
ascii_letter_set = "0123456789ABCDEFGHIJKLMNOPQRSTUVWXYZabcdefghijklmnopqrstuvwxyz"

abbrev pub ascii_letter_set_size : ℕ
ascii_letter_set_size = 62

-- `s[i]`; none is the panic of an index out of range.
unfoldable pub get_elem? : List ℕ → ℕ → Option ℕ
get_elem? [] i = none
get_elem? (x ∷ xs) zero = some x
get_elem? (x ∷ xs) (suc i) = get_elem? xs i

-- The reply of the i-th `rand.Int` with the bound 62: none is an error, which is passed to `panic`.
abbrev pub Draws : Type 0
Draws = ℕ → Option ℕ

unfoldable pub put_letter : Option ℕ → Option (List ℕ) → Option (List ℕ)
put_letter none rest = none
put_letter (some letter) none = none
put_letter (some letter) (some bts) = some (letter ∷ bts)

unfoldable pub draw_letter : Option ℕ → Option ℕ
draw_letter none = none
draw_letter (some num) = get_elem? (codes ascii_letter_set) num

-- The loop, from the index `i` on, for the letters that are left.
unfoldable pub fill : Draws → ℕ → ℕ → Option (List ℕ)
fill draws zero i = some []
fill draws (suc left) i = put_letter (draw_letter (draws i)) (fill draws left (i + 1))

-- The bytes of the text; none is a panic, as is the `make` of a negative length.
unfoldable pub random_string : Draws → ℤ → Option (List ℕ)
random_string draws (negsuc n) = none
random_string draws (pos n) = fill draws n 0

abbrev pub Letter : ℕ → Type 0
Letter b = (i : ℕ) × (i < ascii_letter_set_size) × (get_elem? (codes ascii_letter_set) i ≡ some b)

add_zero : (i : ℕ) → i + 0 ≡ i
add_zero i = omega arith

next : (i j : ℕ) → i + suc j ≡ (i + 1) + j
next i j = omega arith

get_elem_below : (xs : List ℕ) (i : ℕ) → i < length xs → (x : ℕ) × (get_elem? xs i ≡ some x)
unfolding get_elem?
get_elem_below [] i h = absurd (omega arith)
get_elem_below (x ∷ xs) zero h = (x, refl)
get_elem_below (x ∷ xs) (suc i) h = get_elem_below xs i (omega arith)

-- What the library gives: each draw below `last` succeeds, with a number below 62.
unfoldable pub DrawsTo : Draws → ℕ → Type 0
DrawsTo draws last =
    (i : ℕ) → i < last → (num : ℕ) × (draws i ≡ some num) × (num < ascii_letter_set_size)

-- A text of letters, one for each draw from the first one on, in their order.
unfoldable pub Letters : Draws → ℕ → ℕ → Option (List ℕ) → Type 0
Letters draws first n reply =
    (bts : List ℕ) × (reply ≡ some bts)
    × (length bts ≡ n)
    × All Letter bts
    × ((i : ℕ) → i < n → get_elem? bts i ≡ draw_letter (draws (first + i)))

cons_each :
    (draws : Draws) (first n letter : ℕ) (bts : List ℕ)
    → draw_letter (draws first) ≡ some letter
    → ((i : ℕ) → i < n → get_elem? bts i ≡ draw_letter (draws (first + 1 + i)))
    → (i : ℕ) → i < suc n
    → get_elem? (letter ∷ bts) i ≡ draw_letter (draws (first + i))
unfolding get_elem?
cons_each draws first n letter bts e each zero h = rw (add_zero first, e) refl
cons_each draws first n letter bts e each (suc i) h = rw (next first i) (each i (omega (arith, h)))

fill-Letters :
    (draws : Draws) (left i : ℕ)
    → DrawsTo draws (i + left)
    → Letters draws i left (fill draws left i)
unfolding Letters DrawsTo fill put_letter draw_letter get_elem?
fill-Letters draws zero i ok = ([], refl, refl, tt, λ j h. absurd (omega (arith, h)))
fill-Letters draws (suc left) i ok =
    let (num, drawn, small) = ok i (omega arith) in
    let (letter, found) = get_elem_below (codes ascii_letter_set) num (omega arith) in
    let (bts, e, l, all, each) = fill-Letters draws left (i + 1) (λ j h. ok j (omega arith)) in
    (
      letter ∷ bts,
      rw (drawn, found, e) refl,
      omega arith,
      ((num, small, found), all),
      cons_each draws i left letter bts (rw (drawn) found) each,
    )

-- RandomString of a length that is not negative, while the random source replies with numbers below
-- 62: it does not panic, and gives that many bytes, each one of the 62 letters and digits, the i-th
-- the one that the i-th draw names.
pub random_string-Letters :
    (draws : Draws) (n : ℕ) → DrawsTo draws n → Letters draws 0 n (random_string draws (pos n))
unfolding random_string DrawsTo
random_string-Letters draws n ok = fill-Letters draws n 0 (λ i h. ok i (omega arith))
