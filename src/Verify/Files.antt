-- ===== src/Verify/Files.antt =====
-- The unit files as the inspection sees them: open with O_NOFOLLOW, fstat, read, and lstat of the
-- drop-in directory (probeUnitFile and dropInExists).
pub mod RootFile
use kde_nasmount.Prelude.{
  ℕ, Bool, true, false, not, ◌||◌, Option, none, some, ◌++◌, ◌==◌, if◌then◌else◌,
}
use kde_nasmount.Text.{Text, codes}

-- What fstat gives of an open file.
pub record Stat : Type 0 where
  pub is_regular : Bool
  pub uid : ℕ
  pub group_writable : Bool
  pub others_writable : Bool

-- The outcome of open(path, O_RDONLY | O_NOFOLLOW | O_CLOEXEC): ENOENT, any other error, or a
-- descriptor with the outcome of fstat and of taking it as a QFile, with what readAll then returns,
-- which is what was read before an error.
pub data Opened : Type 0 where
  no_entry refused : Opened
  descriptor : Option Stat → Option Text → Opened

-- The file system that the inspection reads.
pub record Files : Type 0 where
  pub open_no_follow : Text → Opened
  -- lstat succeeds
  pub entry_exists : Text → Bool

-- FileProbe, with the content that is read on `Ok`
pub data FileProbe : Type 0 where
  missing tampered : FileProbe
  readable : Text → FileProbe

abbrev pub is_unsafe : Stat → Bool
is_unsafe st = not st.is_regular || (not (st.uid == 0) || (st.group_writable || st.others_writable))

unfoldable pub probe_opened : Opened → FileProbe
probe_opened no_entry = missing
probe_opened refused = tampered
probe_opened (descriptor none _) = tampered
probe_opened (descriptor (some st) none) = tampered
probe_opened (descriptor (some st) (some content)) =
    if is_unsafe st then tampered else readable content

unfoldable pub probe_unit_file : Files → Text → FileProbe
unfolding probe_opened
probe_unit_file files path = probe_opened (files.open_no_follow path)

unfoldable pub drop_in_exists : Files → Text → Bool
drop_in_exists files unit_path = files.entry_exists (unit_path ++ codes ".d")

-- The text variable that the probe fills: empty unless the file was read.
abbrev pub probe_content : FileProbe → Text
probe_content (readable content) = content
probe_content _ = codes ""

abbrev pub is_missing : FileProbe → Bool
is_missing missing = true
is_missing _ = false

abbrev pub is_tampered : FileProbe → Bool
is_tampered tampered = true
is_tampered _ = false
