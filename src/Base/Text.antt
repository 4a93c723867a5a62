-- ===== src/Base/Text.antt =====
-- Go's text functions that the program uses: `strconv.Itoa` (also behind `%v` of a number) and
-- `strings.Join`.
use Prim.Native.Char.{Char, code}
use stroom_k8s_operator.Base.{
  ◌==◌, nat_eq, if◌then◌else◌, ℕ, zero, suc, ◌/◌, ◌%◌, String, ◌<>◌, true, false, List, [], ◌∷◌,
  ltb,
}
use stroom_k8s_operator.Base.Int.{ℤ, pos, negsuc}

abbrev digit : ℕ → String
digit zero = "0"
digit (suc zero) = "1"
digit (suc (suc zero)) = "2"
digit (suc (suc (suc zero))) = "3"
digit (suc (suc (suc (suc zero)))) = "4"
digit (suc (suc (suc (suc (suc zero))))) = "5"
digit (suc (suc (suc (suc (suc (suc zero)))))) = "6"
digit (suc (suc (suc (suc (suc (suc (suc zero))))))) = "7"
digit (suc (suc (suc (suc (suc (suc (suc (suc zero)))))))) = "8"
digit _ = "9"

-- The fuel is one more than the number, which has at most that many digits.
digits_from : ℕ → ℕ → String → String
digits_from zero n acc = acc
digits_from (suc fuel) n acc =
    let shown = digit (n % 10) <> acc in
    elim (ltb n 10) [ true ↦ shown | false ↦ digits_from fuel (n / 10) shown ]

itoa_ℕ : ℕ → String
unfolding digits_from
itoa_ℕ n = digits_from (suc n) n ""

unfoldable pub itoa : ℤ → String
unfolding itoa_ℕ
itoa (pos n) = itoa_ℕ n
itoa (negsuc n) = "-" <> itoa_ℕ (suc n)

unfoldable pub join : List String → String → String
join [] separator = ""
join (s ∷ []) separator = s
join (s ∷ t ∷ rest) separator = s <> separator <> join (t ∷ rest) separator

-- strings.ToUpper on ASCII letters; the program applies it to the names of Kubernetes objects,
-- which hold no other letters.
upper : Char → Char
unfolding nat_eq
upper c =
    if code c == b'a'
    then "A"
    else if code c == b'b'
    then "B"
    else if code c == b'c'
    then "C"
    else if code c == b'd'
    then "D"
    else if code c == b'e'
    then "E"
    else if code c == b'f'
    then "F"
    else if code c == b'g'
    then "G"
    else if code c == b'h'
    then "H"
    else if code c == b'i'
    then "I"
    else if code c == b'j'
    then "J"
    else if code c == b'k'
    then "K"
    else if code c == b'l'
    then "L"
    else if code c == b'm'
    then "M"
    else if code c == b'n'
    then "N"
    else if code c == b'o'
    then "O"
    else if code c == b'p'
    then "P"
    else if code c == b'q'
    then "Q"
    else if code c == b'r'
    then "R"
    else if code c == b's'
    then "S"
    else if code c == b't'
    then "T"
    else if code c == b'u'
    then "U"
    else if code c == b'v'
    then "V"
    else if code c == b'w'
    then "W"
    else if code c == b'x'
    then "X"
    else if code c == b'y'
    then "Y"
    else if code c == b'z'
    then "Z"
    else c

unfoldable pub to_upper : String → String
unfolding upper
to_upper String.[] = String.[]
to_upper (String.◌∷◌ c s) = String.◌∷◌ (upper c) (to_upper s)
