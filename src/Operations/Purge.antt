-- ===== src/Operations/Purge.antt =====
-- purge: everything is checked before anything is stopped, and everything is stopped before anything
-- is removed.
pub mod Handler
pub mod Known
pub mod Cleared
pub mod Gated
use kde_nasmount.Prelude.{
  ℕ, ◌+◌, Bool, true, false, not, ◌&&◌, ◌||◌, Option, none, some, List, [], ◌∷◌, ◌==◌, leb,
  if◌then◌else◌, Result, ok, err,
}
use kde_nasmount.Prelude.Program.{Program, ret, call, ◌>>=◌, perform, or_fail}
use kde_nasmount.Qt.{Qt}
use kde_nasmount.Text.{Text, codes, text_eq, list_contains}
use kde_nasmount.UnitValue.Marker.{length, has_marker, parse_marker}
use kde_nasmount.UnitValue.Paths.{UnitPaths, PathsError, unit_paths_for}
use kde_nasmount.Verify.Definition.{Definition, DefinitionCheck, same_authentication}
use kde_nasmount.Verify.Halves.{OwnedUnit, is_trusted}
use kde_nasmount.Credentials as Credentials
use kde_nasmount.Operations as Operations
use kde_nasmount.Operations.{
  open_units, remove_unit, remove_automount_id, daemon_reload, stop, stored, mount_file,
  automount_file,
}
use kde_nasmount.Operations.Remove.{is_down}

pub data Call : Type 0 where
  -- Verify::enumerateManagedUnits
  managed_units : Call
  -- the names of the unit directory with what was read, none for a file that cannot be opened
  unit_entries : Call
  -- the process `systemd-escape -p`
  systemd_escape : Text → Call
  -- Verify::inspectDefinition
  inspect : UnitPaths → ℕ → Text → Call
  operation : Operations.Call → Call
  -- DurableFs::openSystemRoot and DurableFs::durableRemoveTree
  open_root : Text → Call
  remove_tree : Text → Call

abbrev pub Answer : Call → Type 0
Answer managed_units = List OwnedUnit
Answer unit_entries = List (Text × Option Text)
Answer (systemd_escape _) = Option Text
Answer (inspect _ _ _) = DefinitionCheck
Answer (operation c) = Operations.Answer c
Answer (open_root _) = Bool
Answer (remove_tree _) = Bool

unfoldable pub operated :
    {A : Type 0} → Program Operations.Call Operations.Answer A → Program Call Answer A
operated (ret a) = ret a
operated (call c k) = call (operation c) (λ r. operated (k r))

pub record PurgeOutput : Type 0 where
  pub is_ok : Bool
  pub removed_shares : ℕ

-- `return out` before the last line
abbrev pub stopped_at : ℕ → PurgeOutput
stopped_at n = record { is_ok = false; removed_shares = n }

abbrev is_tampered : Definition → Bool
is_tampered Definition.tampered = true
is_tampered _ = false

-- every unit is well formed and the caller's
unfoldable pub all_owned : ℕ → List OwnedUnit → Bool
all_owned uid [] = true
all_owned uid (u ∷ us) = not (is_tampered u.state) && (u.owner_uid == uid && all_owned uid us)

unfoldable pub valid_bases : List OwnedUnit → List Text
valid_bases [] = []
valid_bases (u ∷ us) = u.unit_name ∷ valid_bases us

unfoldable pub ends_with_text : Text → Text → Bool
unfolding text_eq
ends_with_text suffix [] = text_eq [] suffix
ends_with_text suffix (c ∷ t) = text_eq (c ∷ t) suffix || ends_with_text suffix t

-- QString::chopped
unfoldable pub chopped_by : ℕ → Text → Text
chopped_by n [] = []
chopped_by n (c ∷ t) = let rest = chopped_by n t in if leb n (length t) then c ∷ rest else []

unfoldable pub base_of : Text → Text
unfolding ends_with_text chopped_by
base_of name =
    if ends_with_text (codes ".mount") name then chopped_by 6 name else chopped_by 10 name

-- a file that looks managed parses and belongs to an enumerated unit
unfoldable pub entry_known : List Text → Text × Option Text → Bool
unfolding has_marker parse_marker list_contains base_of
entry_known bases (name, none) = true
entry_known bases (name, some content) =
    if has_marker content
    then (elim (parse_marker content) [ err _ ↦ false | ok _ ↦ list_contains bases (base_of name) ])
    else true

unfoldable pub all_known : List Text → List (Text × Option Text) → Bool
unfolding entry_known
all_known bases [] = true
all_known bases (e ∷ es) = entry_known bases e && all_known bases es

pub record ValidatedUnit : Type 0 where
  pub definition : DefinitionCheck
  pub paths : UnitPaths

abbrev is_pair_or_partial : Definition → Bool
is_pair_or_partial Definition.pair = true
is_pair_or_partial Definition.partial = true
is_pair_or_partial _ = false

-- the definition is still the one that was enumerated
unfoldable pub is_unchanged : ℕ → OwnedUnit → DefinitionCheck → Bool
unfolding text_eq
is_unchanged uid u def =
    is_pair_or_partial def.state
    && (text_eq def.id u.id
        && (def.owner_uid == uid
            && (def.owner_gid == u.owner_gid
                && same_authentication def.authentication u.authentication)))

abbrev also : ValidatedUnit → Option (List ValidatedUnit) → Option (List ValidatedUnit)
also v none = none
also v (some vs) = some (v ∷ vs)

-- a unit that cannot be validated fails
abbrev pub with_some :
    {A B : Type 0}
    → Option A
    → (A → Program Call Answer (Option B))
    → Program Call Answer (Option B)
with_some none f = ret none
with_some (some a) f = f a

abbrev or_none :
    {B : Type 0} → Bool → Program Call Answer (Option B) → Program Call Answer (Option B)
or_none true p = p
or_none false p = ret none

abbrev ok_of : {E A : Type 0} → Result E A → Option A
ok_of (err _) = none
ok_of (ok a) = some a

abbrev or_stop : ℕ → Bool → Program Call Answer PurgeOutput → Program Call Answer PurgeOutput
or_stop n true p = p
or_stop n false p = ret (stopped_at n)

module _ (qt : Qt) (uid : ℕ) where
  unfoldable pub validate_at : OwnedUnit → UnitPaths → Program Call Answer (Option ValidatedUnit)
  unfolding is_unchanged text_eq
  validate_at u paths = or_none (text_eq paths.unit_name u.unit_name) (do
    def ← perform (inspect paths uid u.mount_point)
    or_none (is_unchanged uid u def) (ret (some (record { definition = def; paths = paths }))))

  unfoldable pub validate_unit : OwnedUnit → Program Call Answer (Option ValidatedUnit)
  unfolding unit_paths_for validate_at
  validate_unit u = do
    escaped ← perform (systemd_escape u.mount_point)
    with_some (ok_of (unit_paths_for qt (λ _. escaped) u.mount_point)) (validate_at u)

  unfoldable pub validate_all : List OwnedUnit → Program Call Answer (Option (List ValidatedUnit))
  unfolding validate_unit
  validate_all [] = ret (some [])
  validate_all (u ∷ us) = validate_unit u >>= λ made.
      with_some made (λ v. validate_all us >>= λ rest. ret (also v rest))

  -- the safety gates of all definitions; nothing is deleted here
  unfoldable pub stop_all : List ValidatedUnit → Program Call Answer Bool
  unfolding is_down
  stop_all [] = ret true
  stop_all (v ∷ vs) =
      perform
        (operation (stop v.paths.unit_name v.definition.canonical_mount_point v.definition.what))
      >>= λ result. (if is_down result then stop_all vs else ret false)

  remove_trees : ℕ → Program Call Answer PurgeOutput
  remove_trees n = do
    etc_opened ← perform (open_root (codes "/etc"))
    or_stop n etc_opened (do
      private_removed ← perform (remove_tree (codes "/etc/nasmount"))
      or_stop n private_removed (do
        run_opened ← perform (open_root (codes "/run"))
        or_stop n run_opened (do
          ids_removed ← perform (remove_tree (codes "/run/nasmount-ids"))
          or_stop n ids_removed (do
            run_removed ← perform (remove_tree (codes "/run/nasmount"))
            ret (record { is_ok = run_removed; removed_shares = n })))))

  reload_and_clear : ℕ → Program Call Answer PurgeOutput
  unfolding remove_trees
  reload_and_clear n = do
    reloaded ← perform (operation daemon_reload)
    or_stop n reloaded (remove_trees n)

  -- the files of one share; the order is units, record, credential
  remove_share : ValidatedUnit → Program Call Answer Bool
  unfolding operated stored Credentials.remove
  remove_share v = do
    mount_removed ← perform (operation (remove_unit (mount_file v.paths.unit_name)))
    or_fail mount_removed (do
      automount_removed ← perform (operation (remove_unit (automount_file v.paths.unit_name)))
      or_fail automount_removed (do
        forgotten ← perform (operation (remove_automount_id v.paths.unit_name))
        or_fail forgotten (operated (stored (Credentials.remove v.definition.id)))))

  unfoldable pub remove_all : List ValidatedUnit → ℕ → Program Call Answer PurgeOutput
  unfolding remove_share reload_and_clear
  remove_all [] n = reload_and_clear n
  remove_all (v ∷ vs) n =
      remove_share v >>= λ removed. let rest = remove_all vs (n + 1) in or_stop n removed rest

  unfoldable pub after_stop : List ValidatedUnit → Bool → Program Call Answer PurgeOutput
  unfolding remove_all
  after_stop vs down =
      or_stop 0 down
        (do opened ← perform (operation open_units); or_stop 0 opened (remove_all vs 0))

  unfoldable pub stop_then_remove : Option (List ValidatedUnit) → Program Call Answer PurgeOutput
  unfolding stop_all after_stop
  stop_then_remove none = ret (stopped_at 0)
  stop_then_remove (some vs) = stop_all vs >>= after_stop vs

  check_entries : List OwnedUnit → List (Text × Option Text) → Program Call Answer PurgeOutput
  unfolding all_known valid_bases validate_all stop_then_remove
  check_entries units entries =
      or_stop 0 (all_known (valid_bases units) entries) (validate_all units >>= stop_then_remove)

  check_units : List OwnedUnit → Program Call Answer PurgeOutput
  unfolding all_owned check_entries
  check_units units =
      or_stop 0 (all_owned uid units)
        (do entries ← perform unit_entries; check_entries units entries)

  unfoldable pub purge : Program Call Answer PurgeOutput
  unfolding check_units
  purge = do units ← perform managed_units; check_units units
