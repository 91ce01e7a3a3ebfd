-- ===== src/DbVersion/Guard.antt =====
-- src/db_version.rs: what `evaluate` accepts, spares and destroys.
use vpsiner.Prelude.{
  ◌≡◌, refl, sym, ◌∙◌, subst, inl, inr, ◌≢◌, Bool, true, false, not, ◌&&◌, ◌||◌, List, [], ◌∷◌,
  Option, none, some, ◌⊎◌, if◌then◌else◌, arith, Bool-cases,
}
use vpsiner.DbVersion.{
  DbKind, metadata, logs, metrics, DbVersions, current, DataPath, Writing, complete, unopened,
  cut_short, Refusals, Verdict, accepted, refused, remove_failed, exists, without, remove_dir,
  write_versions, wipe, is_stale, stale_kinds,
}

unfoldable pub same : DbKind → DbKind → Bool
same metadata metadata = true
same logs logs = true
same metrics metrics = true
same _ _ = false

unfoldable pub holds : DbKind → List DbKind → Bool
holds kind [] = false
holds kind (k ∷ rest) = same k kind || holds kind rest

without-exists :
    (k j : DbKind) (path : DataPath)
    → exists j (without k path) ≡ (if same k j then false else exists j path)
unfolding exists without same
without-exists metadata metadata path = refl
without-exists metadata logs path = refl
without-exists metadata metrics path = refl
without-exists logs metadata path = refl
without-exists logs logs path = refl
without-exists logs metrics path = refl
without-exists metrics metadata path = refl
without-exists metrics logs path = refl
without-exists metrics metrics path = refl

abbrev is_accepted : Verdict → Bool
is_accepted accepted = true
is_accepted (refused f) = false

-- Wiping: an accepted one leaves the directories outside the list and the current versions; any
-- other leaves the manifest or has emptied it, and no directory outside the list is touched.
pub record IsWiped (kinds : List DbKind) (path : DataPath) (result : Verdict × DataPath)
    : Type 0 where
  pub spared : (kind : DbKind) → holds kind kinds ≡ false → exists kind result.1 ≡ exists kind path
  pub gone :
      result.0 ≡ accepted
      → (kind : DbKind) → exists kind result.1 ≡ (exists kind path && not (holds kind kinds))
  pub written : result.0 ≡ accepted → result.1.manifest ≡ some current
  pub unwritten :
      result.0 ≢ accepted → (result.1.manifest ≡ path.manifest) ⊎ (result.1.manifest ≡ none)
  pub subset : (kind : DbKind) → exists kind result.1 ≡ true → exists kind path ≡ true

pub exists-manifest :
    (kind : DbKind) (path : DataPath) (m : Option DbVersions)
    → exists kind (record path { manifest = m }) ≡ exists kind path
unfolding exists
exists-manifest metadata path m = refl
exists-manifest logs path m = refl
exists-manifest metrics path m = refl

without-manifest : (k : DbKind) (path : DataPath) → (without k path).manifest ≡ path.manifest
unfolding without
without-manifest metadata path = refl
without-manifest logs path = refl
without-manifest metrics path = refl

wipe_stops :
    (fs : Refusals) (kind : DbKind) (rest : List DbKind) (path : DataPath)
    → fs.remove kind ≡ true
    → wipe fs (kind ∷ rest) path ≡ (refused (remove_failed kind), path)
unfolding wipe remove_dir
wipe_stops fs kind rest path e = ground arith

pub wipe_goes_on :
    (fs : Refusals) (kind : DbKind) (rest : List DbKind) (path : DataPath)
    → fs.remove kind ≡ false
    → wipe fs (kind ∷ rest) path ≡ wipe fs rest (without kind path)
unfolding wipe remove_dir
wipe_goes_on fs kind rest path e = ground arith

Writing-cases : (w : Writing) → (w ≡ complete) ⊎ ((w ≡ unopened) ⊎ (w ≡ cut_short))
Writing-cases complete = inl refl
Writing-cases unopened = inr (inl refl)
Writing-cases cut_short = inr (inr refl)

pub wipe-IsWiped :
    (fs : Refusals) (kinds : List DbKind) (path : DataPath)
    → IsWiped kinds path (wipe fs kinds path)
unfolding wipe write_versions remove_dir holds
wipe-IsWiped fs [] path = elim (Writing-cases fs.write) [
  | inl e ↦
      rw (e, wipe, write_versions)
        (record {
          spared = λ k h. exists-manifest k path (some current);
          gone = λ h k. ground (arith, exists-manifest k path (some current));
          written = λ h. refl;
          unwritten = λ h. absurd (h refl);
          subset = λ k h. sym (exists-manifest k path (some current)) ∙ h;
        })
  | inr (inl e) ↦
      rw (e, wipe, write_versions)
        (record {
          spared = λ k h. refl;
          gone = λ h. cc h;
          written = λ h. cc h;
          unwritten = λ h. inl refl;
          subset = λ k h. h;
        })
  | inr (inr e) ↦
      rw (e, wipe, write_versions)
        (record {
          spared = λ k h. exists-manifest k path none;
          gone = λ h. cc h;
          written = λ h. cc h;
          unwritten = λ h. inr refl;
          subset = λ k h. sym (exists-manifest k path none) ∙ h;
        })
]
wipe-IsWiped fs (kind ∷ rest) path = elim (Bool-cases (fs.remove kind)) [
  | inl e ↦
      subst (λ r. IsWiped (kind ∷ rest) path r) (sym (wipe_stops fs kind rest path e))
        (record {
          spared = λ k h. refl;
          gone = λ h. cc h;
          written = λ h. cc h;
          unwritten = λ h. inl refl;
          subset = λ k h. h;
        })
  | inr e ↦
      subst (λ r. IsWiped (kind ∷ rest) path r) (sym (wipe_goes_on fs kind rest path e))
        (let more = wipe-IsWiped fs rest (without kind path) in
          record {
            spared = λ k h. ground (arith, more.spared k, without-exists kind k path);
            gone = λ h k. ground (arith, more.gone h k, without-exists kind k path);
            written = more.written;
            unwritten = λ h. elim (more.unwritten h) [
              | inl same_manifest ↦ inl (same_manifest ∙ without-manifest kind path)
              | inr emptied ↦ inr emptied
            ];
            subset = λ k h. ground (arith, more.subset k, without-exists kind k path);
          })
]

pub stale_kinds-holds :
    (versions : DbVersions) (path : DataPath) (kind : DbKind)
    → holds kind (stale_kinds versions path) ≡ is_stale versions path kind
unfolding stale_kinds holds same
stale_kinds-holds versions path metadata = ground arith
stale_kinds-holds versions path logs = ground arith
stale_kinds-holds versions path metrics = ground arith
