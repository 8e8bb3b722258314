-- ===== src/UnitSpec/Unc.antt =====
-- validateUnc: //host/share[/subdir] paths.
pub mod Accepted
use kde_nasmount.Prelude.{
  ℕ, Bool, true, false, not, ◌&&◌, ◌||◌, Option, none, some, List, [], ◌∷◌, ◌++◌, ◌≡◌, refl, arith,
  leb, ◌==◌, if◌then◌else◌, Result, ok, err, ap, ◌∙◌, sym, Option-cases, inl, inr,
}
use kde_nasmount.Text.{
  Text, codes, contains, chop_end, is_empty, strip_prefix, list_contains, ends_with, starts_with,
  is_utf16,
}
use kde_nasmount.Text.Decimal.{is_digit, all_units}
use kde_nasmount.Text.Laws.{
  chop_end_id, ends_with-chop_end, strip_prefix-eq-some, strip_prefix-append,
}
use kde_nasmount.Text.Split.{split}
use kde_nasmount.UnitValue.Encode.{has_control_chars}

pub data UncError : Type 0 where
  control_characters comma not_unc parent_component : UncError

-- [A-Za-z0-9._-]
abbrev is_host_unit : ℕ → Bool
is_host_unit c =
    (leb b'A' c && leb c b'Z')
    || ((leb b'a' c && leb c b'z') || (is_digit c || (c == b'.' || (c == b'_' || c == b'-'))))

-- The longest prefix of host units, and what follows it.
span_host : Text → Text × Text
span_host [] = ([], [])
span_host (c ∷ t) = let (h, r) = span_host t in if is_host_unit c then (c ∷ h, r) else ([], c ∷ t)

-- `([^/].*)$` at what follows the host's slash. No text that gets here has a line feed in it.
share_path : Text → Option Text
share_path [] = none
share_path (c ∷ t) = if c == b'/' then none else some (c ∷ t)

after_host : Text × Text → Option (Text × Text)
after_host ([], r) = none
after_host (c ∷ h, []) = none
after_host (c ∷ h, d ∷ r) =
    if d == b'/' then (elim (share_path r) [ none ↦ none | some s ↦ some (c ∷ h, s) ]) else none

unc_rest : Option Text → Option (Text × Text)
unc_rest none = none
unc_rest (some t) = after_host (span_host t)

-- `^//([A-Za-z0-9._-]+)/([^/].*)$`: the host and the share path. A slash is no host unit, so the
-- host is the longest run of host units. QRegularExpression matches no string that is not UTF-16.
unfoldable pub unc_match : Text → Option (Text × Text)
unfolding is_utf16 strip_prefix unc_rest after_host span_host share_path
unc_match t = if is_utf16 t then unc_rest (strip_prefix (codes "//") t) else none

check_parts : Text → Option (Text × Text) → Result UncError Text
check_parts value none = err not_unc
check_parts value (some (host, share)) =
    if list_contains (split b'/' share) (codes "..") then err parent_component else ok value

unfoldable pub validate_unc : Text → Result UncError Text
unfolding has_control_chars contains chop_end unc_match split list_contains check_parts
validate_unc unc =
    if has_control_chars unc
    then err control_characters
    else if contains unc b','
    then err comma
    else (let value = chop_end b'/' unc in check_parts value (unc_match value))
