-- ===== src/Prelude/Decimal.antt =====
-- Decimal text: `SetString(_, 10)` and `String` of Go's `math/big`, `ParseUint(_, 10, 64)` and
-- `FormatUint` of its `strconv`, and the pattern `^[1-9][0-9]*$`.
use Prim.Native.Char.{Char, code}
use Prim.Native.Nat.{ℕ, zero, suc, ◌+◌, ◌-◌, ◌*◌, ◌/◌, ◌%◌, ◌<◌, ◌≤◌}
use Prim.Native.String.{String}
use mathlib.Core.Path.{◌≡◌, refl, ◌∙◌, ap, sym}
use mathlib.Core.Bool.{Bool, true, false, ◌&&◌}
use mathlib.Core.Logic.{inl, inr}
use mathlib.Core.List.{List, [], ◌∷◌}
use mathlib.Core.Option.{Option, none, some}
use native.Mathlib.Omega.{arith}
use epeius.Prelude.Tests.{ltb, leb, ◌==◌, if◌then◌else◌, Bool-cases}
use epeius.Prelude.Text.{codes}
use epeius.Prelude.Int.{ℤ, pos, negsuc}

unfoldable pub is_digit : ℕ → Bool
is_digit c = leb b'0' c && leb c b'9'

-- The value of the digits, after the ones already read.
unfoldable pub digits_value : List ℕ → ℕ → Option ℕ
unfolding is_digit
digits_value [] acc = some acc
digits_value (c ∷ cs) acc =
    let rest = digits_value cs (acc * 10 + (c - b'0')) in if is_digit c then rest else none

unfoldable pub unsigned : List ℕ → Option ℕ
unfolding digits_value
unsigned [] = none
unsigned (c ∷ cs) = digits_value (c ∷ cs) 0

abbrev negate : Option ℕ → Option ℤ
negate none = none
negate (some zero) = some (pos 0)
negate (some (suc n)) = some (negsuc n)

abbrev nonnegative : Option ℕ → Option ℤ
nonnegative none = none
nonnegative (some n) = some (pos n)

signed : List ℕ → Option ℤ
unfolding unsigned
signed [] = none
signed (c ∷ cs) =
    if c == b'-'
    then negate (unsigned cs)
    else if c == b'+'
    then nonnegative (unsigned cs)
    else nonnegative (unsigned (c ∷ cs))

-- new(big.Int).SetString(s, 10); `none` where the second result is false.
unfoldable pub set_string : String → Option ℤ
unfolding signed
set_string s = signed (codes s)

abbrev pub max_uint64 : ℕ
max_uint64 = 18_446_744_073_709_551_615

abbrev in_uint64 : Option ℕ → Option ℕ
in_uint64 none = none
in_uint64 (some n) = if leb n max_uint64 then some n else none

-- strconv.ParseUint(s, 10, 64), where its error is tested.
unfoldable pub parse_uint : String → Option ℕ
unfolding unsigned
parse_uint s = in_uint64 (unsigned (codes s))

abbrev clamped : Option ℕ → ℕ
clamped none = 0
clamped (some n) = if leb n max_uint64 then n else max_uint64

-- The same with the error dropped: 0 for a bad text, the greatest value for a number out of range.
unfoldable pub parse_uint_value : String → ℕ
unfolding unsigned
parse_uint_value s = clamped (unsigned (codes s))

digit : ℕ → Char
digit zero = "0"
digit (suc zero) = "1"
digit (suc (suc zero)) = "2"
digit (suc (suc (suc zero))) = "3"
digit (suc (suc (suc (suc zero)))) = "4"
digit (suc (suc (suc (suc (suc zero))))) = "5"
digit (suc (suc (suc (suc (suc (suc zero)))))) = "6"
digit (suc (suc (suc (suc (suc (suc (suc zero))))))) = "7"
digit (suc (suc (suc (suc (suc (suc (suc (suc zero)))))))) = "8"
digit _ = "9"

show_digits : ℕ → ℕ → String → String
unfolding digit
show_digits zero n rest = rest
show_digits (suc fuel) n rest =
    let longer = show_digits fuel (n / 10) (String.◌∷◌ (digit (n % 10)) rest) in
    if ltb n 10 then String.◌∷◌ (digit n) rest else longer

-- The text of a number. Each round divides by ten, so a fuel above the number suffices.
unfoldable pub nat_text : ℕ → String
unfolding show_digits
nat_text n = show_digits (suc n) n ""

-- big.Int's String.
unfoldable pub int_text : ℤ → String
unfolding nat_text
int_text (pos n) = nat_text n
int_text (negsuc n) = String.◌∷◌ "-" (nat_text (suc n))

all_digits : List ℕ → Bool
unfolding is_digit
all_digits [] = true
all_digits (c ∷ cs) = is_digit c && all_digits cs

matches_positive : List ℕ → Bool
unfolding all_digits
matches_positive [] = false
matches_positive (c ∷ cs) = leb b'1' c && leb c b'9' && all_digits cs

-- positiveInteger.MatchString(value)
unfoldable pub positive_integer : String → Bool
unfolding matches_positive
positive_integer s = matches_positive (codes s)

code-digit : (n : ℕ) → n < 10 → code (digit n) ≡ 48 + n
unfolding digit
code-digit zero h = refl
code-digit (suc zero) h = refl
code-digit (suc (suc zero)) h = refl
code-digit (suc (suc (suc zero))) h = refl
code-digit (suc (suc (suc (suc zero)))) h = refl
code-digit (suc (suc (suc (suc (suc zero))))) h = refl
code-digit (suc (suc (suc (suc (suc (suc zero)))))) h = refl
code-digit (suc (suc (suc (suc (suc (suc (suc zero))))))) h = refl
code-digit (suc (suc (suc (suc (suc (suc (suc (suc zero)))))))) h = refl
code-digit (suc (suc (suc (suc (suc (suc (suc (suc (suc zero))))))))) h = refl
code-digit (suc (suc (suc (suc (suc (suc (suc (suc (suc (suc n)))))))))) h = absurd (omega arith)

digits_value-digit :
    (d acc : ℕ) (rest : String)
    → d < 10
    → digits_value (codes (String.◌∷◌ (digit d) rest)) acc
      ≡ digits_value (codes rest) (acc * 10 + d)
unfolding digits_value
digits_value-digit d acc rest h =
    rw (code-digit d h, digit_test) (ap (digits_value (codes rest)) (omega arith))
  where
    digit_test : is_digit (48 + d) ≡ true
    digit_test = ground arith

digits_value-show_digits :
    (fuel n : ℕ) (rest : String)
    → n < fuel
    → digits_value (codes (show_digits fuel n rest)) 0 ≡ digits_value (codes rest) n
unfolding show_digits
digits_value-show_digits zero n rest h = elim h [ ]
digits_value-show_digits (suc fuel) n rest h = elim (Bool-cases (ltb n 10)) [
  | inl last ↦
      rw last
        (digits_value-digit n 0 rest (ground arith) ∙ ap (digits_value (codes rest)) (omega arith))
  | inr longer ↦ rw longer (
      digits_value-show_digits fuel (n / 10) (String.◌∷◌ (digit (n % 10)) rest) (ground arith)
      ∙ digits_value-digit (n % 10) (n / 10) rest (omega arith)
      ∙ ap (digits_value (codes rest)) (omega arith))
]

-- The text of a number starts with a digit.
show_digits_head :
    (fuel n : ℕ) (rest : String)
    → n < fuel
    → (d : ℕ) × (tail : String) × (d < 10) × (show_digits fuel n rest ≡ String.◌∷◌ (digit d) tail)
unfolding show_digits
show_digits_head zero n rest h = elim h [ ]
show_digits_head (suc fuel) n rest h = elim (Bool-cases (ltb n 10)) [
  | inl last ↦ (n, rest, ground arith, rw last)
  | inr longer ↦
      let (d, tail, small, e) =
        show_digits_head fuel (n / 10) (String.◌∷◌ (digit (n % 10)) rest) (ground arith) in
      (d, tail, small, rw longer e)
]

unsigned_text :
    (d : ℕ) (tail : String)
    → unsigned (codes (String.◌∷◌ (digit d) tail))
      ≡ digits_value (codes (String.◌∷◌ (digit d) tail)) 0
unfolding unsigned
unsigned_text d tail = refl

pub unsigned-nat_text : (n : ℕ) → unsigned (codes (nat_text n)) ≡ some n
unfolding nat_text digits_value
unsigned-nat_text n =
    let (d, tail, small, e) = show_digits_head (suc n) n "" (omega arith) in
    rw e (
      unsigned_text d tail
      ∙ ap (λ s. digits_value (codes s) 0) (sym e)
      ∙ digits_value-show_digits (suc n) n "" (omega arith))

signed_text :
    (d : ℕ) (tail : String)
    → d < 10
    → signed (codes (String.◌∷◌ (digit d) tail))
      ≡ nonnegative (unsigned (codes (String.◌∷◌ (digit d) tail)))
unfolding signed
signed_text d tail h = rw (code-digit d h) (ground arith)

-- Printing a number and reading the text back gives the number.
pub set_string-nat_text : (n : ℕ) → set_string (nat_text n) ≡ some (pos n)
unfolding set_string nat_text
set_string-nat_text n =
    let (d, tail, small, e) = show_digits_head (suc n) n "" (omega arith) in
    ap (λ s. signed (codes s)) e
    ∙ signed_text d tail small
    ∙ ap (λ s. nonnegative (unsigned (codes s))) (sym e)
    ∙ ap nonnegative (unsigned-nat_text n)

pub parse_uint_value-nat_text : (n : ℕ) → n ≤ max_uint64 → parse_uint_value (nat_text n) ≡ n
unfolding parse_uint_value
parse_uint_value-nat_text n h = rw (unsigned-nat_text n) (ground arith)

signed_minus : (cs : List ℕ) → signed (b'-' ∷ cs) ≡ negate (unsigned cs)
unfolding signed
signed_minus cs = refl

pub set_string-int_text : (z : ℤ) → set_string (int_text z) ≡ some z
unfolding int_text
set_string-int_text (pos n) = set_string-nat_text n
set_string-int_text (negsuc n) =
    unfold set_string in
    signed_minus (codes (nat_text (suc n))) ∙ ap negate (unsigned-nat_text (suc n))
