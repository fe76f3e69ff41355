-- ===== src/Runtime/Paths/Identity.antt =====
-- The canonical form as an identity: it is a fixed point for absolute POSIX paths, and paths have
-- one identity exactly when they have one flavor and one normalised form.
use agent_experience_agentic.Common.{
  Text, List, [], ◌∷◌, ◌++◌, true, false, ◌≡◌, refl, ◌↔◌, ◌∙◌, ap, arith, Bool-cases, inl, inr,
  nat_eq, All, join, ok, trim, trim_start, is_space, includes_unit, includes_unit-Lacks, All-join,
}
use mathlib.Core.List.{reverse, reverse-cons, reverse-append}
use agent_experience_agentic.Runtime.Paths.{
  slash, backslash, PathFlavor, posix_absolute, posix_relative, windows_drive_absolute, windows_unc,
  CanonicalPath, canonical_path, by_flavor, is_windows_looking, is_drive_relative,
  normalize_segments, posix_path, drive_path, unc_path, path_identity, flavor_name, has_drive,
  is_unc,
}
use agent_experience_agentic.Runtime.Paths.Segments.{
  IsPlain, normalize_segments-IsPlain_sensitive, normalize_segments-join, All-normalize_segments,
}

reverse-concat {ℓ} : {A : Type ℓ} (xs : List A) (x : A) → reverse (xs ++ x ∷ []) ≡ x ∷ reverse xs
reverse-concat xs x = reverse-append xs (x ∷ [])

trim_start-concat : (s : Text) → (t : Text) × (trim_start (s ++ slash ∷ []) ≡ t ++ slash ∷ [])
unfolding trim_start
trim_start-concat [] = ([], refl)
trim_start-concat (c ∷ s) = elim (Bool-cases (is_space c)) [
  | inl t ↦ rw t (trim_start-concat s)
  | inr f ↦ rw f (c ∷ s, refl)
]

-- `trim` leaves a leading slash.
trim-slash : (s : Text) → (t : Text) × (trim (slash ∷ s) ≡ slash ∷ t)
unfolding trim
trim-slash s =
    let (t, e) = trim_start-concat (reverse s) in
    (reverse t, rw (reverse-cons slash s, e) (reverse-concat t slash))

slash_not_windows : (s : Text) → is_windows_looking (slash ∷ s) ≡ false
unfolding is_windows_looking
slash_not_windows [] = refl
slash_not_windows (c ∷ s) = refl

slash_has_no_drive :
    (s : Text)
    → (has_drive (slash ∷ s) ≡ false)
      × (is_unc (slash ∷ s) ≡ false)
      × (is_drive_relative (slash ∷ s) ≡ false)
unfolding is_drive_relative is_unc
slash_has_no_drive [] = (refl, refl, refl)
slash_has_no_drive (c ∷ s) = (refl, refl, refl)

module _ (lower : Text → Text) where
  -- A path that starts with a slash and has no backslash is read as a POSIX path.
  canonical_path-slash :
      (s : Text)
      → includes_unit backslash s ≡ false
      → canonical_path lower (slash ∷ s) ≡ ok (posix_path lower (slash ∷ s))
  unfolding canonical_path by_flavor
  canonical_path-slash s h =
      let (t, e) = trim-slash s in
      let quiet = slash_not_windows t in
      let (no_drive, no_unc, whole) = slash_has_no_drive s in
      rw (e, quiet, whole, no_drive, no_unc) (ground arith)

  canonical_path-posix :
      (path : Text) {c : CanonicalPath}
      → canonical_path lower path ≡ ok c
      → c.flavor ≡ posix_absolute
      → (includes_unit backslash path ≡ false)
        × (c ≡ record {
          flavor = posix_absolute;
          normalized = slash ∷ join slash (normalize_segments lower path true false);
        })
  unfolding canonical_path by_flavor posix_path drive_path unc_path
  canonical_path-posix path {c} h flavor = ground arith

  posix_path-join :
      (segments : List Text)
      → All IsPlain segments
      → posix_path lower (slash ∷ join slash segments)
        ≡ record { flavor = posix_absolute; normalized = slash ∷ join slash segments }
  unfolding posix_path
  posix_path-join segments h = rw (normalize_segments-join lower segments h)

  -- The normalised form of an absolute POSIX path is its own canonical form.
  pub canonical_path_idempotent :
      (path : Text) {c : CanonicalPath}
      → canonical_path lower path ≡ ok c
      → c.flavor ≡ posix_absolute
      → canonical_path lower c.normalized ≡ ok c
  canonical_path_idempotent path {c} h flavor =
      let (clean, e) = canonical_path-posix path h flavor in
      let segments = normalize_segments lower path true false in
      let plain = normalize_segments-IsPlain_sensitive lower path in
      let quiet : includes_unit backslash (join slash segments) ≡ false =
        (includes_unit-Lacks backslash (join slash segments)).1 (
          All-join _ slash segments refl (
            All-normalize_segments lower (λ u. nat_eq backslash u ≡ false) path true
              ((includes_unit-Lacks backslash path).0 clean))) in
      rw e
        (canonical_path-slash (join slash segments) quiet ∙ ap ok (posix_path-join segments plain))

abbrev LacksNul : Text → Type 0
LacksNul s = All (λ c. nat_eq 0 c ≡ false) s

flavor_name-LacksNul : (f : PathFlavor) → LacksNul (flavor_name f)
unfolding flavor_name
flavor_name-LacksNul posix_absolute = (includes_unit-Lacks 0 (flavor_name posix_absolute)).0 refl
flavor_name-LacksNul posix_relative = (includes_unit-Lacks 0 (flavor_name posix_relative)).0 refl
flavor_name-LacksNul windows_drive_absolute =
    (includes_unit-Lacks 0 (flavor_name windows_drive_absolute)).0 refl
flavor_name-LacksNul windows_unc = (includes_unit-Lacks 0 (flavor_name windows_unc)).0 refl

-- A text before the first NUL is determined.
split_at_nul :
    (s t a b : Text) → LacksNul s → LacksNul t → s ++ 0 ∷ a ≡ t ++ 0 ∷ b → (s ≡ t) × (a ≡ b)
split_at_nul [] [] a b h k e = (refl, cc)
split_at_nul [] (c ∷ t) a b h k e = absurd (ground arith)
split_at_nul (c ∷ s) [] a b h k e = absurd (ground arith)
split_at_nul (c ∷ s) (d ∷ t) a b h k e =
    let same : c ≡ d = cc in let (rest, after) = split_at_nul s t a b h.1 k.1 (cc) in (cc, after)

flavor_name-injective : (f g : PathFlavor) → flavor_name f ≡ flavor_name g → f ≡ g
unfolding flavor_name
flavor_name-injective f g h = ground arith

-- Two canonical paths have the same identity exactly when they are the same: the flavor is part
-- of it.
pub path_identity_iff : (c d : CanonicalPath) → (path_identity c ≡ path_identity d) ↔ (c ≡ d)
path_identity_iff c d = (there, λ e. ap path_identity e)
  where
    there : path_identity c ≡ path_identity d → c ≡ d
    there e =
        let (names, forms) =
          split_at_nul (flavor_name c.flavor) (flavor_name d.flavor) c.normalized d.normalized
            (flavor_name-LacksNul c.flavor) (flavor_name-LacksNul d.flavor)
            (unfold path_identity in e) in
        let flavors = flavor_name-injective c.flavor d.flavor names in
        λ i. record { flavor = flavors i; normalized = forms i }
