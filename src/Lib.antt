-- ===== src/Lib.antt =====
-- Verification library of nasmount, a KDE tool that mounts SMB shares through systemd units.
--
-- The program writes a pair of unit files for a share, NAME.mount and NAME.automount, each with a
-- marker block of comments that names the share and its owner. A privileged part writes and removes
-- the pair and starts and stops its trigger; every part recognises the pair by reading it back and
-- comparing it with what it would write. The modules follow the sources:
--
-- * UnitValue (src/core/unitvalue.cpp): Encode is encodeUnitValue, Paths is unitPathsFor, Access
--   holds AccessMode and its spelling, Marker holds Marker, markerComment, hasMarker, parseMarker.
-- * UnitSpec (src/core/unitspec.cpp): Unc is validateUnc, Mountpoint is validateMountpoint, Options
--   is mountOptions and mountOptionsFor, Template is buildMountUnitContent,
--   buildAutomountUnitContent, validateMountUnitBody and validateAutomountUnitBody.
-- * Verify (src/core/verify.cpp): Files is probeUnitFile and dropInExists, Definition is
--   inspectDefinition, Halves is pairScannedHalves, Scan is scanManagedHalves and the two
--   enumerations, Mountinfo is parseMountinfo and classifyMountEntries, Runtime is inspectRuntime.
-- * Arming (src/root/arming.cpp): the two prechecks, safeStop and armShare.
-- * Credentials (src/root/credentialstore.cpp): write, remove, healthy and assertAbsent; Content is
--   about the content of the file.
-- * DurableFs (src/root/durablefs.cpp): durableReplace and durableUnlink; Directory is what the system
--   calls on a directory are documented to do.
-- * Operations (src/root/operations.cpp): Identifier is shareIdInUse and generateUniqueShareId, Define
--   is define with its clean-up, Remove is remove, Purge is purge; Purge/Known
--   and Purge/Cleared are about its checks. Machine is what they run on.
-- * Helper (src/helper/helper.cpp): prepare, doDefine and doUndefine; Handler is what they run on.
-- * Boot (src/boot/main.cpp): armOneShare and the loop of main.
-- * PackageState (src/core/packagestate.cpp): classify.
--
-- A QString is a list of UTF-16 units (Text). A function that returns bool and writes an error is a
-- Result; error texts are constructors, and details meant for people are left out. Qt's space test,
-- HTML escaping, cleanPath and number parsing are arguments (Qt, Numbers), with what Qt documents of
-- them in QtLaws. The operating system is read through records: Files for open, fstat and lstat,
-- Observed for systemctl, mountinfo and statx, Host for QFileInfo. Arming acts on a Machine, a record
-- of calls with the state they leave and whether they succeed. Owner and group ids are 32 bits wide,
-- so decimal printing has ten digits of fuel, enough for every such number.
--
-- The credential store, the operations and the helper are programs: trees of calls, each continued by
-- what it answers (Prelude/Program). A handler runs a program on a state, and what holds in every
-- state on the way holds wherever the program is interrupted between two calls. RootLaws states what
-- the calls promise: a call that writes or removes a file has done so when it succeeds, and when it fails
-- has done so or nothing; removing changes that file only, writing also entries that may be temporary
-- files, which a failed durableReplace can leave; the others leave the files alone. A unit file is seen
-- as what UTF-8 makes of the text that was written (read_back), which is that text when it is valid
-- UTF-16; the encoding itself is an argument (Utf8). Generating a share id or a temporary name makes
-- at most eight attempts; the loop of writes has one round of fuel for each byte, which is enough.
--
-- Not modelled: the walks over directory descriptors of unitspec.cpp, the rest of durablefs.cpp, the
-- root lock, runtime files, systemd calls and the inventory (src/root), the cleanup program, and the session
-- library, the dialog and the settings module.
pub mod Prelude
pub mod Text
pub mod Qt
pub mod UnitValue
pub mod UnitSpec
pub mod Verify
pub mod Arming
pub mod PackageState
pub mod Credentials
pub mod DurableFs
pub mod Operations
pub mod Helper
pub mod Boot
pub mod Tests
