-- ===== src/Web/Format.antt =====
-- apps/web/src/lib/format.ts: amounts, spans of time and addresses as the page reads and shows them.
-- Times are whole milliseconds.
pub mod Amounts
use giroledger.Base.{
  ℕ, zero, suc, ◌+◌, ◌-◌, ◌*◌, ◌/◌, ◌%◌, ◌^◌, Bool, true, false, ◌&&◌, ◌||◌, not, Option, none,
  some, List, [], ◌∷◌, ◌++◌, ltb, leb, ◌==◌, if◌then◌else◌, length, take, drop,
}
use giroledger.Base.Int.{ℤ, pos, negsuc, sub_ℕ}
use giroledger.Base.Text.{Text, codes, text_eq}
use giroledger.Web.Numbers.{trim, trim_end, split_on, big_int, decimal}

-- `short`: the ends of a long address around an ellipsis.
unfoldable pub short : Text → ℕ → ℕ → Text
short addr lead tail =
    if leb (length addr) (lead + tail + 2)
    then addr
    else take lead addr ++ 0x2026 ∷ drop (length addr - tail) addr

-- `toLocaleString("en-US")` on the digits of a whole number.
abbrev pub grouped : Text → Text
grouped [] = []
grouped (c ∷ t) =
    let rest = grouped t in
    if not (text_eq t []) && length t % 3 == 0 then c ∷ b',' ∷ rest else c ∷ rest

abbrev pub repeat : ℕ → ℕ → Text
repeat c zero = []
repeat c (suc n) = c ∷ repeat c n

-- `replace(/0+$/, "")`.
abbrev pub drop_zeros : Text → Text
drop_zeros [] = []
drop_zeros (c ∷ t) =
    let rest = drop_zeros t in if c == b'0' && text_eq rest [] then [] else c ∷ rest

unfoldable pub units : (value decimals max_fraction : ℕ) → Text
units value decimals max_fraction =
    let base = 10 ^ decimals in
    let whole = grouped (decimal (value / base)) in
    let digits = decimal (value % base) in
    let fraction =
      drop_zeros (take max_fraction (repeat b'0' (decimals - length digits) ++ digits)) in
    if value % base == 0
    then whole
    else (if text_eq fraction [] then whole else whole ++ b'.' ∷ fraction)

-- `w * base + f` on bigints.
abbrev pub combine : ℤ → ℕ → ℤ → ℤ
combine (pos w) base (pos f) = pos (w * base + f)
combine (pos w) base (negsuc f) = sub_ℕ (w * base) (suc f)
combine (negsuc w) base (pos f) = sub_ℕ f (suc w * base)
combine (negsuc w) base (negsuc f) = sub_ℕ 0 (suc w * base + suc f)

-- `t || "0"`.
abbrev pub or_zero : Text → Text
or_zero [] = codes "0"
or_zero (c ∷ t) = c ∷ t

-- The whole part and the fraction; what stands behind a second point is not read.
abbrev pub parts : List Text → Text × Text
parts [] = (codes "0", [])
parts (w ∷ []) = (w, [])
parts (w ∷ f ∷ rest) = (w, f)

-- The fraction, filled up with zeros to the decimals and cut there.
abbrev pub padded : Text → ℕ → Text
padded f decimals = take decimals (f ++ repeat b'0' decimals)

abbrev pub both : ℕ → Option ℤ → Option ℤ → Option ℤ
both base none f = none
both base (some w) none = none
both base (some w) (some f) = some (combine w base f)

-- `toUnits`, `none` where `BigInt` throws.
unfoldable pub to_units : Text → ℕ → Option ℤ
to_units input decimals = elim (trim input) [
  | [] ↦ some (pos 0)
  | c ∷ t ↦
      let p = parts (split_on b'.' (c ∷ t)) in
      both (10 ^ decimals) (big_int (or_zero p.0)) (big_int (or_zero (padded p.1 decimals)))
]

abbrev pub plural : ℕ → Text → Text
plural n unit = decimal n ++ b' ' ∷ unit ++ (if n == 1 then [] else codes "s")

unfoldable pub duration : ℕ → Text
duration seconds =
    if seconds % 604_800 == 0
    then plural (seconds / 604_800) (codes "week")
    else (if seconds % 86_400 == 0
        then plural (seconds / 86_400) (codes "day")
        else (if seconds % 3_600 == 0
            then plural (seconds / 3_600) (codes "hour")
            else (if seconds % 60 == 0
                then plural (seconds / 60) (codes "minute")
                else plural seconds (codes "second"))))

-- `Math.round` of a quotient.
abbrev pub rounded : ℕ → ℕ → ℕ
rounded n d = (n + d / 2) / d

abbrev pub when_text : Bool → Text → Text
when_text future span = if future then codes "in " ++ span else span ++ codes " ago"

unfoldable pub relative_time : (unix_seconds now : ℕ) → Text
relative_time unix_seconds now =
    let at = unix_seconds * 1_000 in
    let future = leb now at in
    let mins = rounded ((at - now) + (now - at)) 60_000 in
    let hours = rounded mins 60 in
    let days = rounded hours 24 in
    if ltb mins 1
    then (if future then codes "any moment" else codes "just now")
    else (if ltb mins 60
        then when_text future (plural mins (codes "min"))
        else (if ltb hours 24
            then when_text future (plural hours (codes "hour"))
            else when_text future (plural days (codes "day"))))

-- The alphabet of XRPL addresses: no 0, I, O and l.
abbrev pub is_base58 : ℕ → Bool
is_base58 c =
    (leb b'1' c && leb c b'9')
    || (leb b'A' c && leb c b'H')
    || (leb b'J' c && leb c b'N')
    || (leb b'P' c && leb c b'Z')
    || (leb b'a' c && leb c b'k')
    || (leb b'm' c && leb c b'z')

abbrev pub all_base58 : Text → Bool
all_base58 [] = true
all_base58 (c ∷ t) = is_base58 c && all_base58 t

unfoldable pub looks_like_xrpl_address : Text → Bool
looks_like_xrpl_address value = elim (trim value) [
  | [] ↦ false
  | c ∷ t ↦ c == b'r' && leb 24 (length t) && leb (length t) 34 && all_base58 t
]
