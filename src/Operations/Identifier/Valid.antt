-- ===== src/Operations/Identifier/Valid.antt =====
-- A generated share id is a valid one.
use kde_nasmount.Prelude.{
  ℕ, zero, suc, ◌+◌, ◌/◌, ◌%◌, ◌<◌, Bool, true, false, Option, none, some, [], ◌∷◌, ◌++◌, ◌≡◌, ◌⊎◌,
  inl, inr, refl, arith,
}
use kde_nasmount.Prelude.Program.{Program, ret, run, run->>=}
use kde_nasmount.Text.{Text}
use kde_nasmount.Text.Decimal.{all_units}
use kde_nasmount.UnitValue.Marker.{is_hex, length, is_valid_share_id}
use kde_nasmount.Operations.{Call, Answer, random_number}
use kde_nasmount.Operations.Identifier.{
  hex_digit, hex_onto, hex_field, share_id_in_use, attempt, generate_unique_share_id,
}

hex_digit-is_hex : (d : ℕ) → d < 16 → is_hex (hex_digit d) ≡ true
unfolding hex_digit
hex_digit-is_hex d h = ground arith

length-hex_onto : (digits n : ℕ) (acc : Text) → length (hex_onto digits n acc) ≡ digits + length acc
unfolding hex_onto
length-hex_onto zero n acc = omega arith
length-hex_onto (suc digits) n acc =
    ground (arith, length-hex_onto digits (n / 16) (hex_digit (n % 16) ∷ acc))

all_units-hex_onto :
    (digits n : ℕ) (acc : Text)
    → all_units is_hex acc ≡ true
    → all_units is_hex (hex_onto digits n acc) ≡ true
unfolding hex_onto
all_units-hex_onto zero n acc h = h
all_units-hex_onto (suc digits) n acc h =
    all_units-hex_onto digits (n / 16) (hex_digit (n % 16) ∷ acc)
      (ground (arith, hex_digit-is_hex (n % 16) (omega arith)))

length-append : (a b : Text) → length (a ++ b) ≡ length a + length b
length-append [] b = omega arith
length-append (c ∷ a) b = ground (arith, length-append a b)

all_units-append :
    (a b : Text)
    → all_units is_hex a ≡ true
    → all_units is_hex b ≡ true
    → all_units is_hex (a ++ b) ≡ true
all_units-append [] b h k = k
all_units-append (c ∷ a) b h k = ground (arith, all_units-append a b)

-- two fields of sixteen digits
hex_fields-is_valid : (high low : ℕ) → is_valid_share_id (hex_field high ++ hex_field low) ≡ true
unfolding is_valid_share_id hex_field
hex_fields-is_valid high low =
    all_units-append (hex_onto 16 high []) (hex_onto 16 low []) (all_units-hex_onto 16 high [] refl)
      (all_units-hex_onto 16 low [] refl)

module _ {S : Type 0} (handle : (c : Call) → S → Answer c × S) where
  IsValidOrNone : Option Text → Type 0
  IsValidOrNone made =
      (made ≡ none) ⊎ ((id : Text) × (made ≡ some id) × (is_valid_share_id id ≡ true))

  used_next :
      (used : Bool) (left high low : ℕ) (s : S)
      → IsValidOrNone (run handle (attempt left) s).0
      → IsValidOrNone
          (run handle
            (elim used as (λ _. Program Call Answer (Option Text)) [
              | true ↦ attempt left
              | false ↦ ret (some (hex_field high ++ hex_field low))
            ])
            s).0
  unfolding IsValidOrNone run
  used_next true left high low s again = again
  used_next false left high low s again =
      inr (hex_field high ++ hex_field low, refl, hex_fields-is_valid high low)

  attempt-IsValidOrNone : (left : ℕ) (s : S) → IsValidOrNone (run handle (attempt left) s).0
  unfolding attempt IsValidOrNone run
  attempt-IsValidOrNone zero s = inl refl
  attempt-IsValidOrNone (suc left) s =
      let high = handle random_number s in
      let low = handle random_number high.1 in
      let id = hex_field high.0 ++ hex_field low.0 in
      let used = run handle (share_id_in_use id) low.1 in
      rw
        (run->>= handle (share_id_in_use id)
          (λ b. elim b as (λ _. Program Call Answer (Option Text)) [
            | true ↦ attempt left
            | false ↦ ret (some id)
          ])
          low.1)
        (used_next used.0 left high.0 low.0 used.1 (attempt-IsValidOrNone left used.1))

  -- Whatever numbers are drawn, generateUniqueShareId gives up after its eight attempts or gives a valid
  -- share id: thirty-two hexadecimal digits.
  pub generate_unique_share_id-is_valid :
      (s : S)
      → ((run handle generate_unique_share_id s).0 ≡ none)
        ⊎ ((id : Text) × ((run handle generate_unique_share_id s).0 ≡ some id)
            × (is_valid_share_id id ≡ true))
  unfolding generate_unique_share_id IsValidOrNone
  generate_unique_share_id-is_valid s = attempt-IsValidOrNone 8 s
