-- ===== src/UnitSpec/Unc/Accepted.antt =====
-- What validateUnc accepts, exactly.
use kde_nasmount.Prelude.{
  ℕ, true, false, Option, none, some, [], ◌∷◌, ◌++◌, ◌≡◌, refl, arith, ok, ap, ◌∙◌, sym,
  Option-cases, Bool-cases, inl, inr,
}
use kde_nasmount.Text.{
  Text, codes, contains, chop_end, is_empty, strip_prefix, list_contains, ends_with, starts_with,
  is_utf16,
}
use kde_nasmount.Text.Decimal.{all_units}
use kde_nasmount.Text.Laws.{
  chop_end_id, ends_with-chop_end, strip_prefix-eq-some, strip_prefix-append,
}
use kde_nasmount.Text.Split.{split}
use kde_nasmount.UnitValue.Encode.{has_control_chars}
use kde_nasmount.UnitSpec.Unc.{
  is_host_unit, span_host, share_path, after_host, unc_rest, unc_match, check_parts, validate_unc,
}

-- A validated path: what it is made of, for readers of the accepted value.
pub record IsUnc (value : Text) : Type 0 where
  pub host : Text
  pub share : Text
  pub well_formed : is_utf16 value ≡ true
  pub parts : value ≡ codes "//" ++ (host ++ (b'/' ∷ share))
  pub host_units : all_units is_host_unit host ≡ true
  pub host_named : is_empty host ≡ false
  pub share_named : is_empty share ≡ false
  pub share_start : starts_with (codes "/") share ≡ false
  pub no_comma : contains value b',' ≡ false
  pub no_control : has_control_chars value ≡ false
  pub no_trailing_slash : ends_with value b'/' ≡ false
  pub no_parent : list_contains (split b'/' share) (codes "..") ≡ false

span_host-append : (t : Text) → t ≡ (span_host t).0 ++ (span_host t).1
unfolding span_host
span_host-append [] = refl
span_host-append (c ∷ t) = ground (arith, span_host-append t)

span_host-units : (t : Text) → all_units is_host_unit (span_host t).0 ≡ true
unfolding span_host
span_host-units [] = refl
span_host-units (c ∷ t) = ground (arith, span_host-units t)

after_host-eq-some :
    (h r : Text) {host share : Text}
    → after_host (h, r) ≡ some (host, share)
    → (h ≡ host)
      × (r ≡ b'/' ∷ share)
      × (is_empty host ≡ false)
      × (is_empty share ≡ false)
      × (starts_with (codes "/") share ≡ false)
unfolding after_host share_path strip_prefix
after_host-eq-some [] r e = cc
after_host-eq-some (c ∷ h) [] e = cc
after_host-eq-some (c ∷ h) (d ∷ []) e = ground arith
after_host-eq-some (c ∷ h) (d ∷ x ∷ r) e = ground arith

no_match : {p : Text × Text} → ◌≡◌ {A = Option (Text × Text)} none (some p) → ⊥
no_match h = cc

unc_match_lem :
    (t : Text) → is_utf16 t ≡ true → unc_match t ≡ unc_rest (strip_prefix (codes "//") t)
unfolding unc_match
unc_match_lem t u = rw u refl

unc_match-is_utf16 : (t : Text) {p : Text × Text} → unc_match t ≡ some p → is_utf16 t ≡ true
unfolding unc_match
unc_match-is_utf16 t {p} e = elim (Bool-cases (is_utf16 t)) [
  | inl u ↦ u
  | inr u ↦ absurd (no_match (sym (ill_formed u) ∙ e))
]
  where
    ill_formed : is_utf16 t ≡ false → unc_match t ≡ none
    ill_formed u = rw u refl

-- What the expression accepts.
unc_match-eq-some :
    (t : Text) {host share : Text}
    → unc_match t ≡ some (host, share)
    → (t ≡ codes "//" ++ (host ++ (b'/' ∷ share)))
      × (all_units is_host_unit host ≡ true)
      × (is_empty host ≡ false)
      × (is_empty share ≡ false)
      × (starts_with (codes "/") share ≡ false)
unfolding unc_rest
unc_match-eq-some t {host} {share} e = elim (Option-cases (strip_prefix (codes "//") t)) [
  | inl p ↦ absurd (no_match (sym (unc_match_lem t (unc_match-is_utf16 t e) ∙ rw p) ∙ e))
  | inr (r, p) ↦
      let (h, tail, named, filled, start) =
        after_host-eq-some (span_host r).0 (span_host r).1
          (sym (unc_match_lem t (unc_match-is_utf16 t e) ∙ rw p) ∙ e) in
      let whole = strip_prefix-eq-some (codes "//") t r p in
      (
        whole ∙ ap (λ u. codes "//" ++ u) (span_host-append r ∙ rw (tail, h)),
        ap (all_units is_host_unit) (sym h) ∙ span_host-units r,
        named,
        filled,
        start,
      )
]

has_control_chars-chop_end :
    (c : ℕ) (t : Text) → has_control_chars t ≡ false → has_control_chars (chop_end c t) ≡ false
unfolding has_control_chars chop_end
has_control_chars-chop_end c [] h = refl
has_control_chars-chop_end c (x ∷ t) h = ground (arith, has_control_chars-chop_end c t)

contains-chop_end : (c d : ℕ) (t : Text) → contains t d ≡ false → contains (chop_end c t) d ≡ false
unfolding contains chop_end
contains-chop_end c d [] h = refl
contains-chop_end c d (x ∷ t) h = ground (arith, contains-chop_end c d t)

check_parts-eq-ok :
    (v : Text) (o : Option (Text × Text)) {value : Text}
    → check_parts v o ≡ ok value
    → (value ≡ v)
      × ((host : Text) × (share : Text) × (o ≡ some (host, share))
          × (list_contains (split b'/' share) (codes "..") ≡ false))
unfolding check_parts
check_parts-eq-ok v none h = cc
check_parts-eq-ok v (some (host, share)) h = (ground arith, (host, share, refl, ground arith))

validate_unc-eq-ok :
    (unc : Text) {value : Text}
    → validate_unc unc ≡ ok value
    → (has_control_chars unc ≡ false)
      × (contains unc b',' ≡ false)
      × (check_parts (chop_end b'/' unc) (unc_match (chop_end b'/' unc)) ≡ ok value)
unfolding validate_unc
validate_unc-eq-ok unc h = ground arith

-- Whatever validateUnc accepts is valid UTF-16 of the form //host/share with a host of letters, digits, '.', '_' and '-'
-- and a share path that starts with no slash and has no ".." component; it has no comma, no
-- control character and no slash at its end, and it is the argument with trailing slashes cut.
pub validate_unc-IsUnc :
    (unc value : Text) → validate_unc unc ≡ ok value → (value ≡ chop_end b'/' unc) × IsUnc value
validate_unc-IsUnc unc value h =
    let (plain, commaless, checked) = validate_unc-eq-ok unc h in
    let (is, found) = check_parts-eq-ok (chop_end b'/' unc) _ checked in
    let (host, share, matched, parent) = found in
    let (parts, units, named, filled, start) = unc_match-eq-some (chop_end b'/' unc) matched in
    (
      is,
      rw is (record {
        host = host;
        share = share;
        well_formed = unc_match-is_utf16 (chop_end b'/' unc) matched;
        parts = parts;
        host_units = units;
        host_named = named;
        share_named = filled;
        share_start = start;
        no_comma = contains-chop_end b'/' b',' unc commaless;
        no_control = has_control_chars-chop_end b'/' unc plain;
        no_trailing_slash = ends_with-chop_end unc b'/';
        no_parent = parent;
      }),
    )

validate_unc_steps :
    (unc : Text)
    → has_control_chars unc ≡ false
    → contains unc b',' ≡ false
    → validate_unc unc ≡ check_parts (chop_end b'/' unc) (unc_match (chop_end b'/' unc))
unfolding validate_unc
validate_unc_steps unc plain commaless = ground arith

validate_unc_id :
    (value host share : Text)
    → has_control_chars value ≡ false
    → contains value b',' ≡ false
    → chop_end b'/' value ≡ value
    → unc_match value ≡ some (host, share)
    → list_contains (split b'/' share) (codes "..") ≡ false
    → validate_unc value ≡ ok value
unfolding check_parts
validate_unc_id value host share plain commaless chopped matched parent =
    validate_unc_steps value plain commaless ∙ rw (chopped, matched) (ground arith)

span_host-stop :
    (h r : Text) → all_units is_host_unit h ≡ true → span_host (h ++ (b'/' ∷ r)) ≡ (h, b'/' ∷ r)
unfolding span_host
span_host-stop [] r u = refl
span_host-stop (c ∷ h) r u = ground (arith, span_host-stop h r)

after_host-found :
    (h s : Text)
    → is_empty h ≡ false
    → is_empty s ≡ false
    → starts_with (codes "/") s ≡ false
    → after_host (h, b'/' ∷ s) ≡ some (h, s)
unfolding after_host share_path strip_prefix
after_host-found [] s a b d = cc
after_host-found (c ∷ h) [] a b d = cc
after_host-found (c ∷ h) (x ∷ s) a b d = ground arith

unc_match-parts : (value : Text) (u : IsUnc value) → unc_match value ≡ some (u.host, u.share)
unfolding unc_rest
unc_match-parts value u =
    unc_match_lem value u.well_formed
    ∙ ap (λ v. unc_rest (strip_prefix (codes "//") v)) u.parts
    ∙ rw
        (
          strip_prefix-append (codes "//") (u.host ++ (b'/' ∷ u.share)),
          span_host-stop u.host u.share u.host_units,
        )
        (after_host-found u.host u.share u.host_named u.share_named u.share_start)

-- Every path of the form that accepted paths have is accepted as it is.
pub validate_unc_complete : (value : Text) → IsUnc value → validate_unc value ≡ ok value
validate_unc_complete value u =
    validate_unc_id value u.host u.share u.no_control u.no_comma
      (chop_end_id value b'/' u.no_trailing_slash) (unc_match-parts value u) u.no_parent

pub validate_unc-validate_unc :
    (unc value : Text) → validate_unc unc ≡ ok value → validate_unc value ≡ ok value
validate_unc-validate_unc unc value h =
    validate_unc_complete value (validate_unc-IsUnc unc value h).1
