-- ===== src/Verify/Mountinfo.antt =====
-- /proc/self/mountinfo: parseMountinfo with its field decoding, and classifyMountEntries.
pub mod Visible
pub mod Escape
use mathlib.Core.Option
use kde_nasmount.Prelude.{
  ℕ, Bool, true, false, not, ◌&&◌, ◌||◌, Option, none, some, List, [], ◌∷◌, ◌++◌, ◌==◌,
  if◌then◌else◌,
}
use kde_nasmount.Qt.{Qt}
use kde_nasmount.Text.{Text, codes, line_feed, text_eq, is_some}
use kde_nasmount.Text.Split.{split, drop_empty}

-- qint64, as far as the program uses it: the ids are compared, no more.
pub data ℤ : Type 0 where
  pos negsuc : ℕ → ℤ

abbrev pub same_id : ℤ → ℤ → Bool
same_id (pos m) (pos n) = m == n
same_id (negsuc m) (negsuc n) = m == n
same_id _ _ = false

pub record MountEntry : Type 0 where
  pub mount_id : ℤ
  pub parent_id : ℤ
  pub mount_point : Text
  pub filesystem_type : Text
  pub mount_source : Text

-- replace("\\abc", r): a backslash and three digits become one unit.
unfoldable pub replace_octal : ℕ → ℕ → ℕ → ℕ → Text → Text
replace_octal a b c r (w ∷ x ∷ y ∷ z ∷ t) = elim (w == b'\\' && (x == a && (y == b && z == c))) [
  | true ↦ r ∷ replace_octal a b c r t
  | false ↦ w ∷ replace_octal a b c r (x ∷ y ∷ z ∷ t)
]
replace_octal a b c r t = t

unfoldable pub unescape_mountinfo_field : Text → Text
unfolding replace_octal
unescape_mountinfo_field field = replace_octal b'1' b'3' b'4' b'\\' (
    replace_octal b'0' b'1' b'2' line_feed
      (replace_octal b'0' b'1' b'1' 9 (replace_octal b'0' b'4' b'0' b' ' field)))

-- the fields behind the first "-"
unfoldable pub after_separator : List Text → List Text
unfolding text_eq
after_separator [] = []
after_separator (f ∷ fs) =
    let rest = after_separator fs in if text_eq f (codes "-") then fs else rest

module _ (to_long_long : Text → Option ℤ) where
  -- the entry of a line, with the fields from the sixth on searched for the separator
  entry_of : Text → Text → Text → List Text → Option MountEntry
  unfolding unescape_mountinfo_field
  entry_of mount_id_field parent_id_field point (kind ∷ source ∷ _) =
      elim (to_long_long mount_id_field) [
        | none ↦ none
        | some this ↦
            Option.map
              (λ parent. record {
                mount_id = this;
                parent_id = parent;
                mount_point = unescape_mountinfo_field point;
                filesystem_type = kind;
                mount_source = unescape_mountinfo_field source;
              })
              (to_long_long parent_id_field)
      ]
  entry_of _ _ _ _ = none

  unfoldable pub parse_fields : List Text → Option MountEntry
  unfolding after_separator entry_of
  parse_fields (i ∷ p ∷ _ ∷ _ ∷ point ∷ _ ∷ rest) = entry_of i p point (after_separator rest)
  parse_fields _ = none

  unfoldable pub keep_some : Option MountEntry → List MountEntry → List MountEntry
  keep_some none es = es
  keep_some (some e) es = e ∷ es

  unfoldable pub parse_lines : List Text → List MountEntry
  unfolding split drop_empty parse_fields keep_some
  parse_lines [] = []
  parse_lines (l ∷ ls) = keep_some (parse_fields (drop_empty (split b' ' l))) (parse_lines ls)

  unfoldable pub parse_mountinfo : Text → List MountEntry
  unfolding parse_lines
  parse_mountinfo content = parse_lines (drop_empty (split line_feed content))

pub data MountState : Type 0 where
  absent present indeterminate : MountState

pub data VerificationState : Type 0 where
  not_applicable match_ mismatch indeterminate : VerificationState

pub record MountClassification : Type 0 where
  pub mount : MountState
  pub verification : VerificationState

abbrev pub unknown : MountClassification
unknown = record {
  mount = MountState.indeterminate;
  verification = VerificationState.indeterminate;
}

abbrev pub nothing_mounted : MountClassification
nothing_mounted = record {
  mount = MountState.absent;
  verification = VerificationState.not_applicable;
}

-- the entries at the target, in their order
unfoldable pub stack_at : Text → List MountEntry → List MountEntry
unfolding text_eq
stack_at target [] = []
stack_at target (e ∷ es) =
    let rest = stack_at target es in if text_eq e.mount_point target then e ∷ rest else rest

-- some entry of the list is mounted on the mount with this id
unfoldable pub any_on : ℤ → List MountEntry → Bool
any_on i [] = false
any_on i (e ∷ es) = same_id e.parent_id i || any_on i es

-- The outcome of the search for the visible mount.
pub data Top : Type 0 where
  ambiguous no_top : Top
  top : MountEntry → Top

found_top : Option MountEntry → Top
found_top none = no_top
found_top (some e) = top e

-- the loop over the stack; the first list holds the entries before the current one
unfoldable pub find_top : List MountEntry → Option MountEntry → List MountEntry → Top
unfolding any_on found_top
find_top before found [] = found_top found
find_top before found (candidate ∷ after) =
    let covered = any_on candidate.mount_id (before ++ after) in
    let next =
      find_top (before ++ (candidate ∷ [])) (if covered then found else some candidate) after in
    if not covered && is_some found then ambiguous else next

unfoldable pub classify_top : Text → Top → MountClassification
unfolding text_eq
classify_top expected_what (top e) =
    if text_eq e.filesystem_type (codes "cifs")
    then record {
      mount = MountState.present;
      verification =
          if text_eq e.mount_source expected_what
          then VerificationState.match_
          else VerificationState.mismatch;
    }
    else if text_eq e.filesystem_type (codes "autofs")
    then nothing_mounted
    else record { mount = MountState.present; verification = VerificationState.mismatch }
classify_top _ _ = unknown

unfoldable pub classify_stack : Text → List MountEntry → MountClassification
unfolding find_top classify_top
classify_stack expected_what [] = nothing_mounted
classify_stack expected_what (e ∷ es) = classify_top expected_what (find_top [] none (e ∷ es))

unfoldable pub classify_mount_entries : Qt → List MountEntry → Text → Text → MountClassification
unfolding stack_at classify_stack
classify_mount_entries qt entries canonical_mount_point expected_what =
    classify_stack expected_what (stack_at (qt.clean_path canonical_mount_point) entries)
