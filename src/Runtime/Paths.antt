-- ===== src/Runtime/Paths.antt =====
-- src/runtime/matcher.ts, `canonicalPath`: the lexical normalisation of POSIX and Windows paths.
-- `toLowerCase` follows the Unicode tables of the host, so it is the parameter `lower`.
pub mod Segments
pub mod Identity
use agent_experience_agentic.Common.{
  ℕ, ◌+◌, Text, codes, ◌==◌, List, [], ◌∷◌, ◌++◌, Bool, true, false, not, ◌&&◌, ◌||◌, if◌then◌else◌,
  nat_eq, leb, trim, split, join, replace_all, includes_unit, starts_with, slice_from, Result, ok,
  err, guard, ◌>>=◌, ◌>>◌,
}
use mathlib.Core.List.{reverse}

pub data PathFlavor : Type 0 where
  posix_absolute posix_relative windows_drive_absolute windows_unc : PathFlavor

pub record CanonicalPath : Type 0 where
  pub flavor : PathFlavor
  pub normalized : Text

-- The `RangeError`s of `canonicalPath`.
pub data PathError : Type 0 where
  surrounding_whitespace drive_relative windows_relative : PathError

abbrev pub slash : ℕ
slash = b'/'

abbrev pub backslash : ℕ
backslash = 0x5c

is_letter : ℕ → Bool
is_letter c = (leb b'A' c && leb c b'Z') || (leb b'a' c && leb c b'z')

-- `/^[A-Za-z]:/`.
unfoldable pub has_drive : Text → Bool
unfolding is_letter
has_drive (c ∷ d ∷ s) = is_letter c && nat_eq d b':'
has_drive _ = false

-- `/^[\\/]/`.
starts_with_separator : Text → Bool
starts_with_separator [] = false
starts_with_separator (c ∷ s) = nat_eq c backslash || nat_eq c slash

-- `/^\\\\/`, two backslashes.
unfoldable pub is_unc : Text → Bool
is_unc s = starts_with (backslash ∷ backslash ∷ []) s

-- The trimmed path starts as a Windows path does.
unfoldable pub is_windows_looking : Text → Bool
unfolding has_drive is_unc
is_windows_looking s = has_drive s || is_unc s

-- `/^[A-Za-z]:(?![\\/])/`.
unfoldable pub is_drive_relative : Text → Bool
unfolding has_drive starts_with_separator
is_drive_relative path = has_drive path && not (starts_with_separator (slice_from 2 path))

-- One round of the loop in `normalizeSegments`, its `segments` with the last one first.
unfoldable pub push_segment : Bool → List Text → Text → List Text
push_segment absolute [] segment =
    if segment == [] || segment == codes "."
    then []
    else if segment == codes ".."
    then (if not absolute then segment ∷ [] else [])
    else segment ∷ []
push_segment absolute (last ∷ rest) segment =
    if segment == [] || segment == codes "."
    then last ∷ rest
    else if segment == codes ".."
    then if not (last == codes "..")
      then rest
      else if not absolute
      then segment ∷ last ∷ rest
      else last ∷ rest
    else segment ∷ last ∷ rest

unfoldable pub push_segments : Bool → List Text → List Text → List Text
unfolding push_segment
push_segments absolute segments [] = reverse segments
push_segments absolute segments (part ∷ parts) =
    push_segments absolute (push_segment absolute segments part) parts

module _ (lower : Text → Text) where
  unfoldable pub raw_segments : Bool → List Text → List Text
  raw_segments case_insensitive [] = []
  raw_segments case_insensitive (raw ∷ parts) =
      (if case_insensitive then lower raw else raw) ∷ raw_segments case_insensitive parts

  unfoldable pub normalize_segments : Text → Bool → Bool → List Text
  unfolding push_segments raw_segments split
  normalize_segments path absolute case_insensitive =
      push_segments absolute [] (raw_segments case_insensitive (split slash path))

  windows_segments : Text → List Text
  unfolding normalize_segments replace_all
  windows_segments rest = normalize_segments (replace_all backslash slash rest) true true

  unfoldable pub drive_path : Text → CanonicalPath
  unfolding windows_segments join
  drive_path path = record {
    flavor = windows_drive_absolute;
    normalized =
        lower (drive path) ++ codes ":/" ++ join slash (windows_segments (slice_from 3 path));
  }
    where
      drive : Text → Text
      drive [] = []
      drive (c ∷ _) = c ∷ []

  unfoldable pub unc_path : Text → CanonicalPath
  unfolding windows_segments join
  unc_path path = record {
    flavor = windows_unc;
    normalized = codes "//" ++ join slash (windows_segments (slice_from 2 path));
  }

  unfoldable pub posix_path : Text → CanonicalPath
  unfolding normalize_segments join
  posix_path path =
      if starts_with (slash ∷ []) path
      then record {
        flavor = posix_absolute;
        normalized = slash ∷ join slash (normalize_segments path true false);
      }
      else record {
        flavor = posix_relative;
        normalized = join slash (normalize_segments path false false);
      }

  -- The chain of tests after the two checks.
  unfoldable pub by_flavor : Text → Result PathError CanonicalPath
  by_flavor path =
      if has_drive path
      then ok (drive_path path)
      else if is_unc path
      then ok (unc_path path)
      else if includes_unit backslash path
      then err windows_relative
      else ok (posix_path path)

  unfoldable pub canonical_path : Text → Result PathError CanonicalPath
  canonical_path path = do
    let trimmed = trim path
    guard (path == trimmed || not (is_windows_looking trimmed)) surrounding_whitespace
    guard (not (is_drive_relative path)) drive_relative
    by_flavor path

  unfoldable pub normalize_runtime_path : Text → Result PathError Text
  unfolding canonical_path
  normalize_runtime_path path = do canonical ← canonical_path path; ok canonical.normalized

  -- Opens all that a path is normalised by.
  unfoldable pub path_run : Unit {0}
  unfolding normalize_runtime_path canonical_path by_flavor has_drive is_unc is_windows_looking
      is_drive_relative drive_path unc_path posix_path trim ◌==◌
  path_run = tt

unfoldable pub flavor_name : PathFlavor → Text
flavor_name posix_absolute = codes "posix-absolute"
flavor_name posix_relative = codes "posix-relative"
flavor_name windows_drive_absolute = codes "windows-drive-absolute"
flavor_name windows_unc = codes "windows-unc"

-- The identity of a canonical path: its flavor, a NUL, its normalized form.
unfoldable pub path_identity : CanonicalPath → Text
unfolding flavor_name
path_identity c = flavor_name c.flavor ++ 0 ∷ c.normalized

module _ (lower : Text → Text) where
  unfoldable pub canonical_runtime_path_identity : Text → Result PathError Text
  canonical_runtime_path_identity path = do
    canonical ← canonical_path lower path
    ok (path_identity canonical)

-- `toLowerCase` on ASCII, for tests.
abbrev pub ascii_lower : Text → Text
ascii_lower [] = []
ascii_lower (c ∷ s) = (if leb b'A' c && leb c b'Z' then c + 32 else c) ∷ ascii_lower s
