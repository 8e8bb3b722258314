-- ===== src/Verify/Halves.antt =====
-- pairScannedHalves over the halves that a scan has found: ScannedHalf, OwnedUnit. The human-readable detail is left out.
pub mod Distinct
use kde_nasmount.Prelude.{
  ℕ, ◌+◌, ◌-◌, Bool, true, false, not, ◌&&◌, ◌||◌, Option, none, some, List, [], ◌∷◌, ◌++◌, ◌==◌,
  ltb, if◌then◌else◌, Result, ok, err,
}
use kde_nasmount.Text.{Text, codes, line_feed, text_eq, strip_prefix, is_some}
use kde_nasmount.Text.Percent.{undouble_percent}
use kde_nasmount.Text.Split.{split}
use kde_nasmount.UnitValue.Access.{AuthenticationKind, credentials, AccessMode, read_write}
use kde_nasmount.UnitValue.Marker.{Marker, parse_marker}
use kde_nasmount.Verify.Files.{Files, FileProbe, readable, missing, tampered, probe_unit_file}
use kde_nasmount.Verify.Definition.{Definition, marker_eq}

pub record ScannedHalf : Type 0 where
  pub base_name : Text
  pub is_mount : Bool
  pub marker : Marker
  pub where_ : Text
  pub what : Text

pub record OwnedUnit : Type 0 where
  pub mount_point : Text
  pub unit_name : Text
  pub id : Text
  pub owner_uid : ℕ
  pub owner_gid : ℕ
  pub authentication : AuthenticationKind
  pub access : AccessMode
  pub state : Definition
  pub what : Text

pub record Group : Type 0 where
  pub mount_half : Option ScannedHalf
  pub automount_half : Option ScannedHalf

-- QMap<QString, Group>: the entries in the order of their keys.
abbrev pub Groups : Type 0
Groups = List (Text × Group)

-- operator< of QString, by UTF-16 units
unfoldable pub text_lt : Text → Text → Bool
text_lt _ [] = false
text_lt [] (_ ∷ _) = true
text_lt (x ∷ xs) (y ∷ ys) = ltb x y || (x == y && text_lt xs ys)

unfoldable pub put_half : ScannedHalf → Group → Group
put_half half g =
    if half.is_mount
    then record g { mount_half = some half }
    else record g { automount_half = some half }

abbrev pub no_halves : Group
no_halves = record { mount_half = none; automount_half = none }

-- `groups[half.baseName]` and the assignment to one of its halves
unfoldable pub add_half : ScannedHalf → Groups → Groups
unfolding text_eq text_lt put_half
add_half half [] = (half.base_name, put_half half no_halves) ∷ []
add_half half ((key, g) ∷ gs) =
    let later = add_half half gs in
    if text_eq key half.base_name
    then (key, put_half half g) ∷ gs
    else if text_lt key half.base_name
    then (key, g) ∷ later
    else (half.base_name, put_half half no_halves) ∷ (key, g) ∷ gs

unfoldable pub group_halves : List ScannedHalf → Groups → Groups
unfolding add_half
group_halves [] groups = groups
group_halves (half ∷ halves) groups = group_halves halves (add_half half groups)

abbrev pub blank_unit : Text → OwnedUnit
blank_unit name = record {
  mount_point = [];
  unit_name = name;
  id = [];
  owner_uid = 0;
  owner_gid = 0;
  authentication = credentials;
  access = read_write;
  state = Definition.none;
  what = [];
}

unfoldable pub unit_of_half : Text → Definition → ScannedHalf → Text → OwnedUnit
unit_of_half name d half what_ = record {
  mount_point = half.where_;
  unit_name = name;
  id = half.marker.id;
  owner_uid = half.marker.owner_uid;
  owner_gid = half.marker.owner_gid;
  authentication = half.marker.authentication;
  access = half.marker.access;
  state = d;
  what = what_;
}

-- The last line cannot be reached: a group is made for a half.
unfoldable pub unit_of_group : Text → Option ScannedHalf → Option ScannedHalf → OwnedUnit
unfolding marker_eq text_eq unit_of_half
unit_of_group name (some m) (some a) =
    if not (marker_eq m.marker a.marker) || not (text_eq m.where_ a.where_)
    then record (blank_unit name) { state = Definition.tampered }
    else unit_of_half name Definition.pair m m.what
unit_of_group name (some m) none = unit_of_half name Definition.partial m m.what
unit_of_group name none (some a) = unit_of_half name Definition.partial a []
unit_of_group name none none = blank_unit name

unfoldable pub units_of : Groups → List OwnedUnit
unfolding unit_of_group
units_of [] = []
units_of ((name, g) ∷ gs) = unit_of_group name g.mount_half g.automount_half ∷ units_of gs

abbrev pub is_trusted : OwnedUnit → Bool
is_trusted u = elim (u.state) [ Definition.tampered ↦ false | _ ↦ true ]

-- `byId[key].size()` and `byMountPoint[key].size()`: how many units that are not Tampered have the key
unfoldable pub claims : (OwnedUnit → Text) → Text → List OwnedUnit → ℕ
unfolding text_eq
claims key_of key [] = 0
claims key_of key (u ∷ us) =
    let rest = claims key_of key us in
    if is_trusted u && text_eq (key_of u) key then 1 + rest else rest

abbrev pub demoted : OwnedUnit → OwnedUnit
demoted u = record u {
  state = Definition.tampered;
  id = [];
  owner_uid = 0;
  owner_gid = 0;
  authentication = credentials;
  access = read_write;
}

unfoldable pub has_collided : List OwnedUnit → OwnedUnit → Bool
unfolding claims
has_collided units u =
    is_trusted u
    && (ltb 1 (claims (λ v. v.id) u.id units)
        || ltb 1 (claims (λ v. v.mount_point) u.mount_point units))

unfoldable pub demote_collided : List OwnedUnit → List OwnedUnit → List OwnedUnit
unfolding has_collided
demote_collided units [] = []
demote_collided units (u ∷ us) =
    (if has_collided units u then demoted u else u) ∷ demote_collided units us

unfoldable pub pair_scanned_halves : List ScannedHalf → List OwnedUnit
unfolding group_halves units_of demote_collided
pair_scanned_halves halves =
    let units = units_of (group_halves halves []) in demote_collided units units
