-- ===== src/Runtime/Tests/Paths.antt =====
-- Paths of each flavor, normalised.
use agent_experience_agentic.Common.{
  ℕ, Text, String, codes, ◌≡◌, refl, [], ◌∷◌, true, false, arith, nat_eq, leb, ◌&&◌, ◌+◌,
  if◌then◌else◌, All, Lacks, Result, ok, err,
}
use agent_experience_agentic.Runtime.Paths.{
  slash, ascii_lower, normalize_runtime_path, normalize_segments, canonical_path, CanonicalPath,
  posix_absolute, windows_unc, PathError, drive_relative, surrounding_whitespace, windows_relative,
  path_run,
}
use agent_experience_agentic.Runtime.Paths.Segments.{IsPlain, normalize_segments-IsPlain}
use agent_experience_agentic.Runtime.Paths.Identity.{canonical_path_idempotent}

abbrev normal_form : String → Result PathError Text
normal_form s = normalize_runtime_path ascii_lower (codes s)

normal_forms :
    (normal_form "/a/./b//../c" ≡ ok (codes "/a/c"))
    × (normal_form "../x/../../y" ≡ ok (codes "../../y"))
    × (normal_form "C:\\Src\\..\\X" ≡ ok (codes "c:/x"))
    × (normal_form "\\\\Host\\Share\\." ≡ ok (codes "//host/share"))
    × (normal_form "C:Src" ≡ err drive_relative)
    × (normal_form " C:/Src" ≡ err surrounding_whitespace)
    × (normal_form "a\\b" ≡ err windows_relative)
unfolding path_run
normal_forms = (refl, refl, refl, refl, refl, refl, refl)

ascii_lower-Lacks : (w : Text) → Lacks slash w → Lacks slash (ascii_lower w)
ascii_lower-Lacks [] h = tt
ascii_lower-Lacks (c ∷ w) h = (lowered c h.0, ascii_lower-Lacks w h.1)
  where
    lowered :
        (c : ℕ)
        → nat_eq c slash ≡ false
        → nat_eq (if leb b'A' c && leb c b'Z' then c + 32 else c) slash ≡ false
    lowered c h = ground arith

normalize_segments-IsPlain_example :
    All IsPlain (normalize_segments ascii_lower (codes "Src/../A/.") true true)
normalize_segments-IsPlain_example =
    normalize_segments-IsPlain ascii_lower (codes "Src/../A/.") true ascii_lower-Lacks

abbrev canonical : CanonicalPath
canonical = record { flavor = posix_absolute; normalized = codes "/a/c" }

canonical_path_idempotent_example : canonical_path ascii_lower (codes "/a/c") ≡ ok canonical
unfolding path_run
canonical_path_idempotent_example =
    canonical_path_idempotent ascii_lower (codes "/a/./b/../c") {c = canonical} refl refl

abbrev share : CanonicalPath
share = record { flavor = windows_unc; normalized = codes "//a/c" }
