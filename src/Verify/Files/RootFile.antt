-- ===== src/Verify/Files/RootFile.antt =====
-- What probeUnitFile and dropInExists have seen.
use kde_nasmount.Prelude.{
  Bool, true, false, none, some, ◌≡◌, ◌++◌, refl, ap, ◌∙◌, arith, if◌then◌else◌,
}
use kde_nasmount.Text.{Text, codes}
use kde_nasmount.Verify.Files.{
  Files, FileProbe, readable, tampered, probe_unit_file, drop_in_exists, Stat, Opened, no_entry,
  refused, descriptor, is_unsafe, probe_opened,
}

-- A regular file of root that nobody else may write, opened without following a link.
pub record IsRootFile (files : Files) (path content : Text) : Type 0 where
  pub stat : Stat
  pub opened : files.open_no_follow path ≡ descriptor (some stat) (some content)
  pub regular : stat.is_regular ≡ true
  pub root_owned : stat.uid ≡ 0
  pub group_locked : stat.group_writable ≡ false
  pub others_locked : stat.others_writable ≡ false

safe_stat :
    (st : Stat)
    → is_unsafe st ≡ false
    → (st.is_regular ≡ true)
      × (st.uid ≡ 0)
      × (st.group_writable ≡ false)
      × (st.others_writable ≡ false)
safe_stat st h = (ground arith, ground arith, ground arith, ground arith)

stat_next :
    (st : Stat) (c : Text) (b : Bool) {content : Text}
    → ◌≡◌ {A = FileProbe} (if b then tampered else readable c) (readable content)
    → (b ≡ false) × (c ≡ content)
stat_next st c true h = cc
stat_next st c false h = (refl, cc)

opened-IsRootFile :
    (files : Files) (path content : Text) (o : Opened)
    → files.open_no_follow path ≡ o
    → probe_opened o ≡ readable content
    → IsRootFile files path content
unfolding probe_opened
opened-IsRootFile files path content no_entry e h = cc
opened-IsRootFile files path content refused e h = cc
opened-IsRootFile files path content (descriptor none c) e h = cc
opened-IsRootFile files path content (descriptor (some st) none) e h = cc
opened-IsRootFile files path content (descriptor (some st) (some c)) e h =
    let (safe, same) = stat_next st c (is_unsafe st) h in
    let (regular, owned, group, others) = safe_stat st safe in
    record {
      stat = st;
      opened = e ∙ ap (λ x. descriptor (some st) (some x)) same;
      regular = regular;
      root_owned = owned;
      group_locked = group;
      others_locked = others;
    }

pub probe_unit_file-IsRootFile :
    (files : Files) (path content : Text)
    → probe_unit_file files path ≡ readable content
    → IsRootFile files path content
unfolding probe_unit_file
probe_unit_file-IsRootFile files path content h =
    opened-IsRootFile files path content (files.open_no_follow path) refl h

pub drop_in_absent :
    (files : Files) (path : Text)
    → drop_in_exists files path ≡ false
    → files.entry_exists (path ++ codes ".d") ≡ false
unfolding drop_in_exists
drop_in_absent files path h = h
