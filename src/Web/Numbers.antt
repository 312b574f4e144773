-- ===== src/Web/Numbers.antt =====
-- `BigInt` and `Number` of JavaScript on a text, `trim`, `split` on one character and the decimal
-- print, as apps/web/src/lib/format.ts and apps/web/src/routes/app.tsx call them. A `Number` is rounded
-- to the nearest double.
use giroledger.Base.{
  ℕ, zero, suc, ◌+◌, ◌-◌, ◌*◌, ◌/◌, ◌%◌, ◌^◌, Bool, true, false, ◌&&◌, ◌||◌, not, Option, none,
  some, List, [], ◌∷◌, ◌++◌, ltb, leb, ◌==◌, if◌then◌else◌, length, drop,
}
use giroledger.Base.Int.{ℤ, pos, negsuc}
use giroledger.Base.Text.{Text, codes, text_eq, starts_with, lower}

-- White space and line ends.
abbrev pub is_space : ℕ → Bool
is_space c =
    c == 32
    || (leb 9 c && leb c 13)
    || c == 0xA0
    || c == 0x1680
    || (leb 0x2000 c && leb c 0x200A)
    || c == 0x2028
    || c == 0x2029
    || c == 0x202F
    || c == 0x205F
    || c == 0x3000
    || c == 0xFEFF

abbrev pub trim_start : Text → Text
trim_start [] = []
trim_start (c ∷ t) = if is_space c then trim_start t else c ∷ t

abbrev pub trim_end : Text → Text
trim_end [] = []
trim_end (c ∷ t) = let rest = trim_end t in if is_space c && text_eq rest [] then [] else c ∷ rest

-- `s.trim()`.
abbrev pub trim : Text → Text
trim s = trim_end (trim_start s)

abbrev pub push : ℕ → List Text → List Text
push c [] = (c ∷ []) ∷ []
push c (p ∷ ps) = (c ∷ p) ∷ ps

-- `s.split(d)`.
abbrev pub split_on : ℕ → Text → List Text
split_on d [] = [] ∷ []
split_on d (c ∷ t) = let rest = split_on d t in if c == d then [] ∷ rest else push c rest

abbrev pub digit_value : ℕ → ℕ
digit_value c =
    if leb b'0' c && leb c b'9'
    then c - b'0'
    else (if leb b'a' c && leb c b'z'
        then c - b'a' + 10
        else (if leb b'A' c && leb c b'Z' then c - b'A' + 10 else 36))

-- The number that digits of a base print, `none` where some character is no digit.
unfoldable pub digits_from : (base acc : ℕ) → Text → Option ℕ
digits_from base acc [] = some acc
digits_from base acc (c ∷ t) =
    let rest = digits_from base (acc * base + digit_value c) t in
    if ltb (digit_value c) base then rest else none

unfoldable pub digits : ℕ → Text → Option ℕ
unfolding digits_from
digits base [] = none
digits base (c ∷ t) = digits_from base 0 (c ∷ t)

abbrev pub radix : Text → ℕ
radix t =
    if starts_with (lower t) (codes "0x")
    then 16
    else (if starts_with (lower t) (codes "0o")
        then 8
        else (if starts_with (lower t) (codes "0b") then 2 else 10))

abbrev pub negate : ℕ → ℤ
negate zero = pos 0
negate (suc n) = negsuc n

-- `BigInt(s)`, `none` where it throws.
unfoldable pub big_int : Text → Option ℤ
unfolding digits
big_int s = elim (trim s) [
  | [] ↦ some (pos 0)
  | c ∷ t ↦
      if not (radix (c ∷ t) == 10)
      then (elim (digits (radix (c ∷ t)) (drop 1 t)) [ none ↦ none | some n ↦ some (pos n) ])
      else (if c == b'-'
          then (elim (digits 10 t) [ none ↦ none | some n ↦ some (negate n) ])
          else (elim (digits 10 (if c == b'+' then t else c ∷ t)) [
            | none ↦ none
            | some n ↦ some (pos n)
          ]))
]

-- What `Number` gives: a fraction is kept as its sign and its whole part.
pub data Number : Type 0 where
  nan : Number
  infinite : (negative : Bool) → Number
  whole : ℤ → Number
  fraction : (negative : Bool) (whole_part : ℕ) → Number

-- How many binary digits a number has; `fuel` of the number itself is enough.
unfoldable pub bits : (fuel n : ℕ) → ℕ
bits zero n = 0
bits (suc fuel) n = elim (n == 0) [ true ↦ 0 | false ↦ suc (bits fuel (n / 2)) ]

-- The nearest whole number to a quotient, the even one of two that are as near.
abbrev pub round_half_even : (numerator denominator : ℕ) → ℕ
round_half_even n d =
    if ltb (2 * (n % d)) d
    then n / d
    else (if ltb d (2 * (n % d)) then n / d + 1 else n / d + n / d % 2)

-- The least double above 0 is one of this many parts of 1.
abbrev pub parts_of_one : ℕ
parts_of_one = 2 ^ 1_074

-- The double nearest to a quotient, in those parts: 53 binary digits, and not less than one part.
abbrev pub nearest : (numerator denominator : ℕ) → ℕ
nearest n d =
    let parts = n * parts_of_one / d in
    let shift = bits parts parts - 53 in
    round_half_even (n * parts_of_one) (d * 2 ^ shift) * 2 ^ shift

abbrev pub of_parts : (negative : Bool) (parts : ℕ) → Number
of_parts negative v =
    if leb (2 ^ 1_024 * parts_of_one) v
    then infinite negative
    else (if v % parts_of_one == 0
        then whole (if negative then negate (v / parts_of_one) else pos (v / parts_of_one))
        else fraction negative (v / parts_of_one))

unfoldable pub quotient : (negative : Bool) (numerator denominator : ℕ) → Number
unfolding bits
quotient negative n d = of_parts negative (nearest n d)

-- The exponent behind an `e`: a power of ten that multiplies and one that divides.
abbrev pub exponent : Text → Option (ℕ × ℕ)
exponent [] = none
exponent (c ∷ t) =
    if c == b'-'
    then (elim (digits 10 t) [ none ↦ none | some n ↦ some (0, n) ])
    else (elim (digits 10 (if c == b'+' then t else c ∷ t)) [ none ↦ none | some n ↦ some (n, 0) ])

-- The digits before and behind the point.
abbrev pub mantissa : List Text → Option (ℕ × ℕ)
mantissa (w ∷ []) = elim (digits 10 w) [ none ↦ none | some n ↦ some (n, 0) ]
mantissa (w ∷ f ∷ []) = elim (digits 10 (w ++ f)) [ none ↦ none | some n ↦ some (n, length f) ]
mantissa _ = none

abbrev pub scaled : Bool → Option (ℕ × ℕ) → Option (ℕ × ℕ) → Number
scaled negative none e = nan
scaled negative (some m) none = nan
scaled negative (some (m, places)) (some (up, down)) =
    quotient negative (m * 10 ^ up) (10 ^ (places + down))

unfoldable pub decimal_number : Bool → Text → Number
unfolding digits quotient
decimal_number negative t =
    if text_eq t (codes "Infinity") then infinite negative else (elim (split_on b'e' (lower t)) [
      | m ∷ [] ↦ scaled negative (mantissa (split_on b'.' m)) (some (0, 0))
      | m ∷ e ∷ [] ↦ scaled negative (mantissa (split_on b'.' m)) (exponent e)
      | _ ↦ nan
    ])

-- `Number(s)`.
unfoldable pub number : Text → Number
unfolding digits quotient decimal_number
number s = elim (trim s) [
  | [] ↦ whole (pos 0)
  | c ∷ t ↦
      if not (radix (c ∷ t) == 10)
      then (elim (digits (radix (c ∷ t)) (drop 1 t)) [ none ↦ nan | some n ↦ quotient false n 1 ])
      else (if c == b'-'
          then decimal_number true t
          else decimal_number false (if c == b'+' then t else c ∷ t))
]

-- The decimal digits of a number, put before what follows; `fuel` above the number is enough.
unfoldable pub decimal_from : (fuel n : ℕ) → Text → Text
decimal_from zero n acc = acc
decimal_from (suc fuel) n acc =
    let rest = decimal_from fuel (n / 10) ((b'0' + n % 10) ∷ acc) in
    if ltb n 10 then (b'0' + n) ∷ acc else rest

-- `n.toString()`.
unfoldable pub decimal : ℕ → Text
unfolding decimal_from
decimal n = decimal_from (suc n) n []
