-- ===== src/UnitSpec/Template/Section.antt =====
-- extractSectionAssignments: the strict reader of one section of a unit file.
pub mod Read
use kde_nasmount.Prelude.{
  ℕ, Bool, false, not, ◌&&◌, ◌||◌, Option, none, some, List, [], ◌∷◌, ◌==◌, leb, if◌then◌else◌,
  Result, ok, err, ◌>>=◌,
}
use kde_nasmount.Qt.{Qt, trimmed}
use kde_nasmount.Text.{Text, line_feed, text_eq, is_empty, list_contains}
use kde_nasmount.Text.Decimal.{is_digit}
use kde_nasmount.Text.Split.{split}

-- The errors carry the section, and the line or the key.
pub data SectionError : Type 0 where
  unparseable_line unknown_directive duplicate_assignment : Text → Text → SectionError
  missing_section : Text → SectionError

abbrev is_alpha : ℕ → Bool
is_alpha c = (leb b'A' c && leb c b'Z') || (leb b'a' c && leb c b'z')

abbrev cons_name : ℕ → Option Text → Option Text
cons_name c none = none
cons_name c (some t) = some (c ∷ t)

header_end : Text → Option Text
header_end [] = none
header_end (c ∷ t) =
    let rest = cons_name c (header_end t) in
    if c == b']' then (if is_empty t then some [] else none) else if is_alpha c then rest else none

named : Option Text → Option Text
named none = none
named (some []) = none
named (some (c ∷ t)) = some (c ∷ t)

-- `^\[([A-Za-z]+)\]$`
unfoldable pub section_header : Text → Option Text
unfolding header_end named
section_header [] = none
section_header (c ∷ t) = if c == b'[' then named (header_end t) else none

abbrev cons_key : ℕ → Option (Text × Text) → Option (Text × Text)
cons_key c none = none
cons_key c (some (k, v)) = some (c ∷ k, v)

key_end : Text → Option (Text × Text)
key_end [] = none
key_end (c ∷ t) =
    let rest = cons_key c (key_end t) in
    if c == b'=' then some ([], t) else if is_alpha c || is_digit c then rest else none

-- `^([A-Za-z][A-Za-z0-9]*)=(.*)$`, on a line with no line feed in it. The content has passed fromUtf8, so
-- the line is valid UTF-16, which QRegularExpression asks for.
unfoldable pub assignment : Text → Option (Text × Text)
unfolding key_end
assignment [] = none
assignment (c ∷ t) = if is_alpha c then cons_key c (key_end t) else none

-- QMap<QString, QString>
abbrev pub Values : Type 0
Values = List (Text × Text)

unfoldable pub has_value : Text → Values → Bool
unfolding text_eq
has_value key [] = false
has_value key ((k, v) ∷ r) = text_eq k key || has_value key r

-- value(key): the empty text for a missing key
unfoldable pub value_lookup : Text → Values → Text
unfolding text_eq
value_lookup key [] = []
value_lookup key ((k, v) ∷ r) = if text_eq k key then v else value_lookup key r

-- The local variables of the loop.
pub record SectionScan : Type 0 where
  pub in_section : Bool
  pub section_seen : Bool
  pub values : Values

abbrev pub section_start : SectionScan
section_start = record { in_section = false; section_seen = false; values = [] }

module _ (qt : Qt) (section : Text) (allowed_keys : List Text) where
  unfoldable pub add_assignment :
      Text → Option (Text × Text) → SectionScan → Result SectionError SectionScan
  unfolding list_contains has_value
  add_assignment line none s = err (unparseable_line section line)
  add_assignment line (some (key, v)) s =
      if not (list_contains allowed_keys key)
      then err (unknown_directive section key)
      else if has_value key s.values
      then err (duplicate_assignment section key)
      else ok (record s { values = (key, v) ∷ s.values })

  unfoldable pub at_line : Text → Option Text → SectionScan → Result SectionError SectionScan
  unfolding text_eq trimmed assignment add_assignment
  at_line line (some name) s =
      let here = text_eq name section in
      ok (record s { in_section = here; section_seen = s.section_seen || here })
  at_line line none s =
      if not s.in_section || is_empty (trimmed qt line)
      then ok s
      else add_assignment line (assignment line) s

  unfoldable pub section_lines : List Text → SectionScan → Result SectionError SectionScan
  unfolding section_header at_line
  section_lines [] s = ok s
  section_lines (line ∷ lines) s = do
    s' ← at_line line (section_header line) s
    section_lines lines s'

  unfoldable pub finish_section : SectionScan → Result SectionError Values
  finish_section s = if not s.section_seen then err (missing_section section) else ok s.values

module _ (qt : Qt) where
  unfoldable pub extract_section_assignments : Text → Text → List Text → Result SectionError Values
  unfolding split section_lines finish_section
  extract_section_assignments content section allowed_keys = do
    s ← section_lines qt section allowed_keys (split line_feed content) section_start
    finish_section qt section allowed_keys s
