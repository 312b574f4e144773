-- ===== src/Web/Format/Amounts.antt =====
-- `toUnits` on what a visitor types as an amount.
use giroledger.Base.{
  ℕ, zero, suc, ◌+◌, ◌-◌, ◌*◌, ◌^◌, ◌≤◌, ◌≡◌, refl, ap, ◌∙◌, true, false, ◌&&◌, some, [], ◌∷◌, ◌++◌,
  arith, All, All-append, leb, length, take,
}
use giroledger.Base.Int.{pos}
use giroledger.Base.Text.{Text}
use giroledger.Web.Numbers.{
  is_space, radix, trim, trim_end, split_on, big_int, digits, digits_from, digit_value,
}
use giroledger.Web.Format.{to_units, repeat, padded, or_zero, parts, both}

abbrev pub IsDigit : ℕ → Type 0
IsDigit c = leb b'0' c && leb c b'9' ≡ true

abbrev pub IsDigits : Text → Type 0
IsDigits t = All IsDigit t

-- The number that digits print, the last digit first in worth.
abbrev pub value_from : ℕ → Text → ℕ
value_from acc [] = acc
value_from acc (c ∷ t) = value_from (acc * 10 + (c - b'0')) t

digits_from-value :
    (acc : ℕ) (t : Text) → IsDigits t → digits_from 10 acc t ≡ some (value_from acc t)
unfolding digits_from
digits_from-value acc [] h = refl
digits_from-value acc (c ∷ t) h = ground (arith, digits_from-value (acc * 10 + digit_value c) t)

digit-space : (c : ℕ) → IsDigit c → is_space c ≡ false
digit-space c h = ground arith

abbrev pub IsSolid : Text → Type 0
IsSolid t = All (λ c. is_space c ≡ false) t

digits-IsSolid : (t : Text) → IsDigits t → IsSolid t
digits-IsSolid [] h = tt
digits-IsSolid (c ∷ t) h = (digit-space c h.0, digits-IsSolid t h.1)

trim_end-solid : (t : Text) → IsSolid t → trim_end t ≡ t
trim_end-solid [] h = refl
trim_end-solid (c ∷ t) h = rw (h.0) (ap (◌∷◌ c) (trim_end-solid t h.1))

trim-solid : (t : Text) → IsSolid t → trim t ≡ t
trim-solid [] h = refl
trim-solid (c ∷ t) h = rw (h.0) (trim_end-solid (c ∷ t) h)

radix-digits : (t : Text) → IsDigits t → radix t ≡ 10
radix-digits [] h = refl
radix-digits (c ∷ []) h = ground arith
radix-digits (c ∷ d ∷ t) h = ground arith

big_int-digits :
    (c : ℕ) (t : Text) → IsDigits (c ∷ t) → big_int (c ∷ t) ≡ some (pos (value_from 0 (c ∷ t)))
unfolding big_int digits
big_int-digits c t h =
    rw (trim-solid (c ∷ t) (digits-IsSolid (c ∷ t) h), big_int)
      (rw (radix-digits (c ∷ t) h) (ground (arith, digits_from-value 0 (c ∷ t) h)))

split_on-whole : (f : Text) → IsDigits f → split_on b'.' f ≡ f ∷ []
split_on-whole [] k = refl
split_on-whole (c ∷ f) k = rw (split_on-whole f k.1) (ground arith)

split_on-digits :
    (w f : Text) → IsDigits w → IsDigits f → split_on b'.' (w ++ b'.' ∷ f) ≡ w ∷ f ∷ []
split_on-digits [] [] h k = refl
split_on-digits [] (c ∷ f) h k = ap (◌∷◌ []) (split_on-whole (c ∷ f) k)
split_on-digits (c ∷ w) f h k = rw (split_on-digits w f h.1 k) (ground arith)

pow-suc : (n : ℕ) → 10 ^ suc n ≡ 10 * 10 ^ n
pow-suc n = omega arith

shift : (acc p q : ℕ) → q ≡ 10 * p → (acc * 10 + 0) * p ≡ acc * q
shift acc p q h = rw h (grind arith)

value_from-zeros : (acc n : ℕ) → value_from acc (repeat b'0' n) ≡ acc * 10 ^ n
value_from-zeros acc zero = omega arith
value_from-zeros acc (suc n) =
    value_from-zeros (acc * 10 + 0) n ∙ shift acc (10 ^ n) (10 ^ suc n) (pow-suc n)

value_from-append :
    (acc : ℕ) (s t : Text) → value_from acc (s ++ t) ≡ value_from (value_from acc s) t
value_from-append acc [] t = refl
value_from-append acc (c ∷ s) t = value_from-append (acc * 10 + (c - b'0')) s t

repeat-IsDigits : (n : ℕ) → IsDigits (repeat b'0' n)
repeat-IsDigits zero = tt
repeat-IsDigits (suc n) = (refl, repeat-IsDigits n)

take-repeat : (d m : ℕ) → d ≤ m → take d (repeat b'0' m) ≡ repeat b'0' d
take-repeat zero m h = refl
take-repeat (suc d) zero h = absurd (omega arith)
take-repeat (suc d) (suc m) h = ap (◌∷◌ b'0') (take-repeat d m (omega arith))

take-filled :
    (f : Text) (d m : ℕ)
    → length f ≤ d
    → d ≤ m
    → take d (f ++ repeat b'0' m) ≡ f ++ repeat b'0' (d - length f)
take-filled [] d m h k = rw (take-repeat d m k) (ground arith)
take-filled (c ∷ f) zero m h k = absurd (omega arith)
take-filled (c ∷ f) (suc d) m h k =
    let left : d - length f ≡ suc d - suc (length f) = omega arith in
    ap (◌∷◌ c) (take-filled f d m (omega arith) (omega arith) ∙ ap (λ n. f ++ repeat b'0' n) left)

big_int-or_zero : (t : Text) → IsDigits t → big_int (or_zero t) ≡ some (pos (value_from 0 t))
unfolding big_int digits digits_from
big_int-or_zero [] h = refl
big_int-or_zero (c ∷ t) h = big_int-digits c t h

to_units-trimmed :
    (input : Text) (c : ℕ) (t : Text) (decimals : ℕ)
    → trim input ≡ c ∷ t
    → to_units input decimals
      ≡ both
          (10 ^ decimals)
          (big_int (or_zero (parts (split_on b'.' (c ∷ t))).0))
          (big_int (or_zero (padded (parts (split_on b'.' (c ∷ t))).1 decimals)))
unfolding to_units
to_units-trimmed input c t decimals h = rw (h, to_units) refl

padded-fits :
    (f : Text) (decimals : ℕ)
    → length f ≤ decimals
    → padded f decimals ≡ f ++ repeat b'0' (decimals - length f)
padded-fits f decimals h = take-filled f decimals decimals h (omega arith)

-- An amount typed as digits, a point and no more digits than the token has decimals is read as the
-- whole part times the token's unit and the fraction at its place.
pub to_units-digits :
    (c : ℕ) (w f : Text) (decimals : ℕ)
    → IsDigits (c ∷ w)
    → IsDigits f
    → length f ≤ decimals
    → to_units ((c ∷ w) ++ b'.' ∷ f) decimals
      ≡ some
          (pos (value_from 0 (c ∷ w) * 10 ^ decimals + value_from 0 f * 10 ^ (decimals - length f)))
to_units-digits c w f decimals hw hf fits =
    let typed = (c ∷ w) ++ b'.' ∷ f in
    let solid : IsSolid typed =
      All-append _ (c ∷ w) (b'.' ∷ f) (digits-IsSolid (c ∷ w) hw) (refl, digits-IsSolid f hf) in
    let filled : Text = f ++ repeat b'0' (decimals - length f) in
    let are_digits : IsDigits filled =
      All-append IsDigit f _ hf (repeat-IsDigits (decimals - length f)) in
    let worth : value_from 0 filled ≡ value_from 0 f * 10 ^ (decimals - length f) =
      value_from-append 0 f _ ∙ value_from-zeros (value_from 0 f) (decimals - length f) in
    to_units-trimmed typed c (w ++ b'.' ∷ f) decimals (trim-solid typed solid)
    ∙ rw (split_on-digits (c ∷ w) f hw hf) (
        rw (padded-fits f decimals fits) (
          rw (big_int-digits c w hw, big_int-or_zero filled are_digits)
            (ap (λ x. some (pos (value_from 0 (c ∷ w) * 10 ^ decimals + x))) worth)))
