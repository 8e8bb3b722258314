-- ===== src/Tests/Disk.antt =====
-- A root on a small disk: the unit files and the credentials, and whether the trigger is active.
use kde_nasmount.Prelude.{
  ℕ, Bool, true, false, Option, none, some, List, [], ◌≡◌, ◌≢◌, inl, inr, refl, sym, ap, ◌∙◌, arith,
  Bool-cases, if◌then◌else◌,
}
use kde_nasmount.Text.{Text, text_eq, strip_prefix}
use kde_nasmount.Text.Laws.{text_eq_iff, text_eq_refl}
use kde_nasmount.UnitValue.Paths.{unit_directory}
use kde_nasmount.Verify.Files.{
  Files, FileProbe, drop_in_exists, Opened, no_entry, descriptor, probe_unit_file, readable,
  missing,
}
use kde_nasmount.Arming.{Machine}
use kde_nasmount.Credentials.{Utf8, Utf8Laws}
use kde_nasmount.Credentials as Credentials
use kde_nasmount.Operations.Machine.{
  Root, Same, SameUnits, SameRest, Wrote, Replaced, RootLaws, unit_of,
}
use kde_nasmount.Operations.Machine.Keeps.{Same-refl}
use kde_nasmount.Tests.Machine.{idle, nothing, root_file}

-- every unit is a byte of its own, as for ASCII
abbrev pub plain : Utf8
plain = record { to_utf8 = λ t. t }

pub plain_laws : Utf8Laws plain
plain_laws = record { nil = refl; ascii = λ c t h. refl; before_ascii = λ t c u h. refl }

abbrev pub put : {V : Type 0} → (Text → V) → Text → V → Text → V
put f name v other = if text_eq other name then v else f other

pub put_same : {V : Type 0} (f : Text → V) (name : Text) (v : V) → put f name v name ≡ v
put_same f name v = rw (text_eq_refl name) refl

pub put_other :
    {V : Type 0} (f : Text → V) (name other : Text) (v : V)
    → other ≢ name
    → put f name v other ≡ f other
put_other f name other v h = elim (Bool-cases (text_eq other name)) [
  | inl e ↦ absurd (h ((text_eq_iff other name).0 e))
  | inr e ↦ rw e refl
]

pub record Disk : Type 0 where
  pub units : Text → Option Text
  pub credentials : Text → Option (List ℕ)
  pub active : Bool

abbrev opened_of : Option Text → Opened
opened_of none = no_entry
opened_of (some content) = descriptor (some root_file) (some content)

unfoldable pub unit_entry : (Text → Option Text) → Option Text → Opened
unit_entry units none = no_entry
unit_entry units (some name) = opened_of (units name)

abbrev pub files_of : Disk → Files
files_of d = record {
  open_no_follow = λ path. unit_entry d.units (strip_prefix unit_directory path);
  entry_exists = λ path. false;
}

abbrev machine : Machine Disk
machine = record {
  observe = λ d. if d.active then idle else nothing;
  stop = λ unit d. (true, record d { active = false });
  start = λ unit d. (true, record d { active = true });
  write_automount_id = λ unit id d. (true, d);
  remove_automount_id = λ unit d. (true, d);
  credential_healthy = λ id d. (true, d);
  credential_absent = λ id d. (true, d);
  open_mountpoint_no_follow = λ plan uid gid d. (true, d);
  open_mountpoint_no_create = λ plan uid gid d. (true, d);
}

abbrev pub root : Root Disk
root = record {
  machine = machine;
  files = files_of;
  credential_file = λ d. d.credentials;
  random = λ d. (0x0123456789abcdef, d);
  list_contents = λ d. ([], d);
  open_unit_directory = λ d. (true, d);
  read_unit_file = λ name d. (elim (d.units name) [ none ↦ false | some _ ↦ true ], d);
  read_back = λ content. content;
  write_unit_file = λ name content d. (true, record d { units = put d.units name (some content) });
  remove_unit_file = λ name d. (true, record d { units = put d.units name none });
  open_credential_directory = λ d. (true, d);
  replace_credential =
      λ name bytes d. (true, record d { credentials = put d.credentials name (some bytes) });
  unlink_credential = λ name d. (true, record d { credentials = put d.credentials name none });
  open_credential = λ name d. (
    elim (d.credentials name) [
      | none ↦ Credentials.no_entry
      | some _ ↦ Credentials.descriptor true
    ],
    d,
  );
  reload_daemon = λ d. (true, d);
}

-- the unit of a name is what the disk holds under it
unit_lem :
    (d : Disk) (name : Text)
    → unit_of root d name
      ≡ probe_unit_file
          (record {
            open_no_follow = λ path. opened_of (d.units name);
            entry_exists = λ path. false;
          })
          name
unfolding probe_unit_file unit_entry strip_prefix
unit_lem d name = refl

probe_of : Option Text → FileProbe
probe_of none = missing
probe_of (some content) = readable content

unit-probe_of : (d : Disk) (name : Text) → unit_of root d name ≡ probe_of (d.units name)
unfolding probe_unit_file probe_of
unit-probe_of d name = unit_lem d name ∙ opened (d.units name)
  where
    opened :
        (o : Option Text)
        → probe_unit_file
            (record { open_no_follow = λ path. opened_of o; entry_exists = λ path. false })
            name
          ≡ probe_of o
    opened none = refl
    opened (some content) = refl

Wrote-Replaced :
    {V : Type 0} (view : Disk → Text → V) (name : Text) (new : V) (d t : Disk)
    → Wrote root view name new true d t
    → Replaced root view name new true d t
Wrote-Replaced view name new d t wrote = record {
  others = λ other h plain_name. wrote.others other h;
  written = wrote.written;
}

put-Wrote :
    (name : Text) (o : Option Text) (d : Disk)
    → Wrote root (unit_of root) name (probe_of o) true d (record d { units = put d.units name o })
put-Wrote name o d = record {
  others = λ other h.
      unit-probe_of (record d { units = put d.units name o }) other
      ∙ ap probe_of (put_other d.units name other o h)
      ∙ sym (unit-probe_of d other);
  written = inl (
      unit-probe_of (record d { units = put d.units name o }) name
      ∙ ap probe_of (put_same d.units name o));
}

credential-Wrote :
    (name : Text) (o : Option (List ℕ)) (d : Disk)
    → Wrote root root.credential_file name o true d
        (record d { credentials = put d.credentials name o })
credential-Wrote name o d = record {
  others = λ other h. put_other d.credentials name other o h;
  written = inl (put_same d.credentials name o);
}

no_drop_in : (d t : Disk) → SameRest root d t
unfolding drop_in_exists
no_drop_in d t = record { drop_in_same = λ path. refl }

active-Same : (d : Disk) (b : Bool) → Same root d (record d { active = b })
active-Same d b = record {
  units = record {
    unit_same = λ name. unit-probe_of (record d { active = b }) name ∙ sym (unit-probe_of d name);
  };
  rest = no_drop_in d (record d { active = b });
  credentials = record { credential_same = λ name. refl };
}

credential_units :
    (d : Disk) (c : Text → Option (List ℕ)) → SameUnits root d (record d { credentials = c })
credential_units d c = record {
  unit_same =
      λ name. unit-probe_of (record d { credentials = c }) name ∙ sym (unit-probe_of d name);
}

pub root_laws : RootLaws root
unfolding probe_of
root_laws = record {
  random_same = λ d. Same-refl root d;
  random_fits = λ d. omega arith;
  list_same = λ d. Same-refl root d;
  open_units_same = λ d. Same-refl root d;
  read_same = λ n d. Same-refl root d;
  write_wrote = λ n c d. Wrote-Replaced _ _ _ _ _ (put-Wrote n (some c) d);
  write_rest = λ n c d. no_drop_in d _;
  write_credentials = λ n c d. record { credential_same = λ name. refl };
  remove_wrote = λ n d. put-Wrote n none d;
  remove_rest = λ n d. no_drop_in d _;
  remove_credentials = λ n d. record { credential_same = λ name. refl };
  open_credentials_same = λ d. Same-refl root d;
  replace_wrote = λ n b d. Wrote-Replaced _ _ _ _ _ (credential-Wrote n (some b) d);
  replace_units = λ n b d. credential_units d _;
  replace_rest = λ n b d. no_drop_in d _;
  unlink_wrote = λ n d. credential-Wrote n none d;
  unlink_units = λ n d. credential_units d _;
  unlink_rest = λ n d. no_drop_in d _;
  open_credential_same = λ n d. Same-refl root d;
  reload_same = λ d. Same-refl root d;
  stop_same = λ u d. active-Same d false;
  start_same = λ u d. active-Same d true;
  write_id_same = λ u i d. Same-refl root d;
  remove_id_same = λ u d. Same-refl root d;
  healthy_same = λ i d. Same-refl root d;
  absent_same = λ i d. Same-refl root d;
  follow_same = λ p u g d. Same-refl root d;
  create_same = λ p u g d. Same-refl root d;
}
