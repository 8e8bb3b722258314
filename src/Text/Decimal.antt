-- ===== src/Text/Decimal.antt =====
-- arg(uint) and toUInt: decimal numerals.
use kde_nasmount.Prelude.{
  ℕ, zero, suc, ◌+◌, ◌-◌, ◌*◌, ◌/◌, ◌%◌, ◌^◌, ◌<◌, Bool, true, false, ◌&&◌, Option, none, some, [],
  ◌∷◌, ◌≡◌, refl, arith, ltb, leb, if◌then◌else◌, Bool-cases, inl, inr, not, ◌||◌, ap, ◌∙◌,
}
use native.Mathlib.Nat.{pow-suc}
use kde_nasmount.Text.{Text, contains, is_empty}

abbrev pub is_digit : ℕ → Bool
is_digit c = leb b'0' c && leb c b'9'

abbrev pub all_units : (ℕ → Bool) → Text → Bool
all_units p [] = true
all_units p (c ∷ t) = p c && all_units p t

-- Ten digits are enough for a 32-bit number.
digits_onto : ℕ → ℕ → Text → Text
digits_onto zero n acc = acc
digits_onto (suc fuel) n acc =
    let more = digits_onto fuel (n / 10) ((b'0' + n % 10) ∷ acc) in
    if ltb n 10 then (b'0' + n) ∷ acc else more

unfoldable pub decimal : ℕ → Text
unfolding digits_onto
decimal n = digits_onto 10 n []

read_digits : ℕ → Text → ℕ
read_digits acc [] = acc
read_digits acc (c ∷ t) = read_digits (acc * 10 + (c - b'0')) t

-- toUInt on a text of decimal digits, the only texts that the program passes to it.
unfoldable pub to_uint : Text → Option ℕ
unfolding read_digits
to_uint t =
    if is_empty t || not (all_units is_digit t)
    then none
    else (let n = read_digits 0 t in if ltb n (2 ^ 32) then some n else none)

-- Printing takes digits off the end, reading them puts the number together again.
read_digits-digits_onto :
    (fuel n : ℕ) (acc : Text)
    → n < 10 ^ fuel
    → read_digits 0 (digits_onto fuel n acc) ≡ read_digits n acc
unfolding read_digits digits_onto
read_digits-digits_onto zero n acc h = rw (zero_of n h)
  where
    zero_of : (n : ℕ) → n < 10 ^ 0 → n ≡ 0
    zero_of n h = omega arith
read_digits-digits_onto (suc fuel) n acc h = elim (Bool-cases (ltb n 10)) [
  | inl small ↦ rw small (ap (λ d. read_digits d acc) (ground arith))
  | inr big ↦ rw big (
      read_digits-digits_onto fuel (n / 10) _ (omega (arith, rw pow-suc at h))
      ∙ ap (λ d. read_digits d acc) (omega arith))
]

digits_onto_digits :
    (fuel n : ℕ) (acc : Text)
    → n < 10 ^ fuel
    → all_units is_digit acc ≡ true
    → all_units is_digit (digits_onto fuel n acc) ≡ true
unfolding digits_onto
digits_onto_digits zero n acc h d = d
digits_onto_digits (suc fuel) n acc h d = elim (Bool-cases (ltb n 10)) [
  | inl small ↦ ground arith
  | inr big ↦
      rw big (digits_onto_digits fuel (n / 10) _ (omega (arith, rw pow-suc at h)) (ground arith))
]

digits_onto_fuel :
    (fuel n : ℕ) (acc : Text) → is_empty acc ≡ false → is_empty (digits_onto fuel n acc) ≡ false
unfolding digits_onto
digits_onto_fuel zero n acc h = h
digits_onto_fuel (suc fuel) n acc h =
    ground (arith, digits_onto_fuel fuel (n / 10) ((b'0' + n % 10) ∷ acc))

pub decimal_digits : (n : ℕ) → n < 2 ^ 32 → all_units is_digit (decimal n) ≡ true
unfolding decimal
decimal_digits n h = digits_onto_digits 10 n [] (omega arith) refl

pub decimal_nonempty : (n : ℕ) → is_empty (decimal n) ≡ false
unfolding decimal digits_onto
decimal_nonempty n = ground (arith, digits_onto_fuel 9 (n / 10) ((b'0' + n % 10) ∷ []))

read_digits-decimal : (n : ℕ) → n < 2 ^ 32 → read_digits 0 (decimal n) ≡ n
unfolding decimal
read_digits-decimal n h =
    read_digits-digits_onto 10 n [] (omega arith) ∙ (unfold read_digits in refl)

-- A 32-bit number is read back from its numeral.
pub to_uint-decimal : (n : ℕ) → n < 2 ^ 32 → to_uint (decimal n) ≡ some n
unfolding to_uint
to_uint-decimal n h =
    rw (decimal_nonempty n, decimal_digits n h, read_digits-decimal n h) (ground arith)

pub to_uint_bound : (t : Text) (n : ℕ) → to_uint t ≡ some n → n < 2 ^ 32
unfolding to_uint
to_uint_bound t n h = ground arith

-- A text of digits has no other unit in it.
pub digits_lack :
    (t : Text) (c : ℕ) → all_units is_digit t ≡ true → is_digit c ≡ false → contains t c ≡ false
unfolding contains
digits_lack [] c h n = refl
digits_lack (x ∷ t) c h n = ground (arith, digits_lack t c)
