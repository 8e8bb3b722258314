-- ===== src/PackageState.antt =====
-- core/packagestate.h and core/packagestate.cpp: may the package be removed? The details of the
-- verdicts are left out.
pub mod Empty
use kde_nasmount.Prelude.{
  ℕ, Bool, true, false, not, ◌&&◌, ◌||◌, Option, none, some, List, [], ◌∷◌, ◌++◌, ltb,
  if◌then◌else◌, Result, ok, err, ◌>>=◌,
}
use kde_nasmount.Qt.{Qt}
use kde_nasmount.Text.{Text, codes, text_eq, starts_with, strip_prefix}
use kde_nasmount.UnitValue.Marker.{parse_marker, has_marker}

pub data Classification : Type 0 where
  empty managed unsafe indeterminate : Classification

-- What QFileInfo says of a path.
pub record Info : Type 0 where
  pub exists : Bool
  pub is_dir : Bool
  pub is_sym_link : Bool

-- One entry *.mount or *.automount, with size and content when it can be opened.
pub record Candidate : Type 0 where
  pub is_sym_link : Bool
  pub is_file : Bool
  pub opened : Option (ℕ × Text)

pub record Host : Type 0 where
  pub info : Text → Info
  pub is_readable : Text → Bool
  pub candidates : Text → List Candidate

abbrev pub max_candidate_bytes : ℕ
max_candidate_bytes = 1048576

-- Whether the content is a managed unit; an error is the verdict that ends the scan.
unfoldable pub check_content : Text → Result Classification Bool
unfolding has_marker parse_marker
check_content content =
    if not (has_marker content)
    then ok false
    else elim (parse_marker content) [ err _ ↦ err unsafe | ok _ ↦ ok true ]

unfoldable pub check_opened : Option (ℕ × Text) → Result Classification Bool
unfolding check_content
check_opened none = err indeterminate
check_opened (some (size, content)) =
    if ltb max_candidate_bytes size then err unsafe else check_content content

unfoldable pub check_candidate : Candidate → Result Classification Bool
unfolding check_opened
check_candidate c = if c.is_sym_link || not c.is_file then err unsafe else check_opened c.opened

-- the loop over the candidates; the flag is managedUnitFound
unfoldable pub scan_candidates : List Candidate → Bool → Result Classification Bool
unfolding check_candidate
scan_candidates [] found = ok found
scan_candidates (c ∷ cs) found = do
  managed_ ← check_candidate c
  scan_candidates cs (managed_ || found)

abbrev pub state_roots : List Text
state_roots = codes "/etc/nasmount" ∷ codes "/run/nasmount" ∷ codes "/run/nasmount-ids" ∷ []

module _ (qt : Qt) (host : Host) where
  unfoldable pub under_root : Text → Text → Text
  unfolding text_eq
  under_root root absolute_path =
      if text_eq root (codes "/") then absolute_path else qt.clean_path (root ++ absolute_path)

  unfoldable pub any_state : Text → List Text → Bool
  unfolding under_root
  any_state root [] = false
  any_state root (r ∷ rs) =
      ((host.info (under_root root r)).exists || (host.info (under_root root r)).is_sym_link)
      || any_state root rs

  unfoldable pub scan_units : Text → Result Classification Bool
  unfolding scan_candidates
  scan_units unit_path =
      if not (host.info unit_path).exists
      then ok false
      else if not (host.info unit_path).is_dir || (host.info unit_path).is_sym_link
      then err unsafe
      else if not (host.is_readable unit_path)
      then err indeterminate
      else scan_candidates (host.candidates unit_path) false

  unfoldable pub conclude : Text → Result Classification Bool → Classification
  unfolding any_state
  conclude root (err verdict) = verdict
  conclude root (ok found) = if any_state root state_roots || found then managed else empty

  unfoldable pub classify : Text → Classification
  unfolding strip_prefix text_eq under_root scan_units conclude
  classify filesystem_root =
      if not (starts_with (codes "/") filesystem_root)
        || not (text_eq (qt.clean_path filesystem_root) filesystem_root)
      then indeterminate
      else conclude filesystem_root
          (scan_units (under_root filesystem_root (codes "/etc/systemd/system")))
