-- ===== src/DbVersion/Evaluate.antt =====
-- src/db_version.rs: what `evaluate` accepts, spares and destroys.
use vpsiner.Prelude.{
  ◌≡◌, refl, sym, ap, ◌∙◌, subst, ◌⊎◌, inl, inr, ◌≢◌, Bool, true, false, not, ◌&&◌, List, [], ◌∷◌,
  none, some, arith, Bool-cases, Option-cases,
}
use vpsiner.DbVersion.{
  DbKind, metadata, logs, metrics, all_kinds, DbVersions, expected, recorded, current, is_current,
  DataPath, Refusals, Verdict, accepted, refused, create_failed, exists, wipe, is_stale,
  stale_kinds, upgrade, evaluate,
}
use vpsiner.DbVersion.Guard.{holds, wipe-IsWiped, stale_kinds-holds, same}

pub record IsUpgraded (force : Bool) (stale : List DbKind) (path : DataPath)
    (result : Verdict × DataPath) : Type 0 where
  pub spared : (kind : DbKind) → holds kind stale ≡ false → exists kind result.1 ≡ exists kind path
  pub unforced : force ≡ false → (kind : DbKind) → exists kind result.1 ≡ exists kind path
  pub gone :
      result.0 ≡ accepted
      → (kind : DbKind) → exists kind result.1 ≡ (exists kind path && not (holds kind stale))
  pub written : result.0 ≡ accepted → result.1.manifest ≡ some current
  pub unwritten :
      result.0 ≢ accepted → (result.1.manifest ≡ path.manifest) ⊎ (result.1.manifest ≡ none)

is_current-eq : (v : DbVersions) → is_current v ≡ true → v ≡ current
unfolding is_current
is_current-eq v h = ground arith

pub upgrade-IsUpgraded :
    (fs : Refusals) (force : Bool) (v : DbVersions) (stale : List DbKind) (path : DataPath)
    → path.manifest ≡ some v
    → IsUpgraded force stale path (upgrade fs force v stale path)
unfolding upgrade holds wipe
upgrade-IsUpgraded fs force v [] path m = elim (Bool-cases (is_current v)) [
  | inl e ↦
      rw (e, upgrade)
        (record {
          spared = λ k h. refl;
          unforced = λ h k. refl;
          gone = λ h k. ground arith;
          written = λ h. m ∙ ap some (is_current-eq v e);
          unwritten = λ h. inl refl;
        })
  | inr e ↦
      rw (e, upgrade)
        (let w = wipe-IsWiped fs [] path in
          record {
            spared = w.spared;
            unforced = λ h k. w.spared k refl;
            gone = w.gone;
            written = w.written;
            unwritten = w.unwritten;
          })
]
upgrade-IsUpgraded fs false v (k ∷ rest) path m = record {
  spared = λ k h. refl;
  unforced = λ h k. refl;
  gone = λ h. cc h;
  written = λ h. cc h;
  unwritten = λ h. inl refl;
}
upgrade-IsUpgraded fs true v (k ∷ rest) path m =
    let w = wipe-IsWiped fs (k ∷ rest) path in
    record {
      spared = w.spared;
      unforced = λ h. cc h;
      gone = w.gone;
      written = w.written;
      unwritten = w.unwritten;
    }

pub evaluate_upgrades :
    (fs : Refusals) (force : Bool) (path : DataPath) (v : DbVersions)
    → fs.create_dir ≡ false
    → path.manifest ≡ some v
    → evaluate fs force path ≡ upgrade fs force v (stale_kinds v path) path
unfolding evaluate
evaluate_upgrades fs force path v e m = ground (arith, e, m)

pub evaluate_wipes :
    (fs : Refusals) (force : Bool) (path : DataPath)
    → fs.create_dir ≡ false
    → path.manifest ≡ none
    → evaluate fs force path ≡ wipe fs all_kinds path
unfolding evaluate
evaluate_wipes fs force path e m = ground (arith, e, m)

pub evaluate_stops :
    (fs : Refusals) (force : Bool) (path : DataPath)
    → fs.create_dir ≡ true
    → evaluate fs force path ≡ (refused create_failed, path)
unfolding evaluate
evaluate_stops fs force path e = ground (arith, e)

pub holds_all : (kind : DbKind) → holds kind all_kinds ≡ true
unfolding holds same
holds_all metadata = refl
holds_all logs = refl
holds_all metrics = refl

-- A data directory that a start may go on with: the manifest names this build's versions, and a
-- directory that exists was there before, under a manifest that recorded this build's version for it.
pub record IsServed (path : DataPath) (after : DataPath) : Type 0 where
  pub manifest : after.manifest ≡ some current
  pub written_here :
      (kind : DbKind)
      → exists kind after ≡ true
      → (exists kind path ≡ true)
        × ((v : DbVersions) × ((path.manifest ≡ some v) × (recorded kind v ≡ expected kind)))

served :
    (v : DbVersions) (path : DataPath) (kind : DbKind)
    → path.manifest ≡ some v
    → (exists kind path && not (holds kind (stale_kinds v path))) ≡ true
    → (exists kind path ≡ true)
      × ((v : DbVersions) × ((path.manifest ≡ some v) × (recorded kind v ≡ expected kind)))
unfolding is_stale
served v path kind m h =
    let there : exists kind path ≡ true = ground arith in
    let same_version : recorded kind v ≡ expected kind =
      ground (arith, stale_kinds-holds v path kind) in
    (there, (v, (m, same_version)))

-- If the guard accepts, whatever the file system refuses and whether forced or not, the manifest
-- names the versions of this build, and each database directory that exists was there before under
-- a manifest that recorded this build's version for it.
pub evaluate-IsServed :
    (fs : Refusals) (force : Bool) (path : DataPath)
    → (evaluate fs force path).0 ≡ accepted
    → IsServed path (evaluate fs force path).1
evaluate-IsServed fs force path h = elim (Bool-cases fs.create_dir) [
  | inl e ↦ absurd (cc (sym (ap (λ r. r.0) (evaluate_stops fs force path e)) ∙ h))
  | inr e ↦ elim (Option-cases path.manifest) [
    | inl m ↦
        let eq = evaluate_wipes fs force path e m in
        let w = wipe-IsWiped fs all_kinds path in
        let ok = sym (ap (λ r. r.0) eq) ∙ h in
        subst (λ r. IsServed path r.1) (sym eq)
          (record {
            manifest = w.written ok;
            written_here = λ k x. absurd (ground (arith, w.gone ok k, holds_all k, x));
          })
    | inr (v, m) ↦
        let eq = evaluate_upgrades fs force path v e m in
        let u = upgrade-IsUpgraded fs force v (stale_kinds v path) path m in
        let ok = sym (ap (λ r. r.0) eq) ∙ h in
        subst (λ r. IsServed path r.1) (sym eq)
          (record {
            manifest = u.written ok;
            written_here = λ k x. served v path k m (sym (u.gone ok k) ∙ x);
          })
  ]
]

-- With a readable manifest, a database directory is neither removed nor made unless the force
-- switch is set and the manifest records another version for it than this build's, whatever the
-- file system refuses.
pub evaluate-spares :
    (fs : Refusals) (force : Bool) (path : DataPath) (v : DbVersions) (kind : DbKind)
    → path.manifest ≡ some v
    → (force ≡ false) ⊎ (recorded kind v ≡ expected kind)
    → exists kind (evaluate fs force path).1 ≡ exists kind path
unfolding is_stale
evaluate-spares fs force path v kind m why = elim (Bool-cases fs.create_dir) [
  | inl e ↦ ap (λ r. exists kind r.1) (evaluate_stops fs force path e)
  | inr e ↦
      let u = upgrade-IsUpgraded fs force v (stale_kinds v path) path m in
      ap (λ r. exists kind r.1) (evaluate_upgrades fs force path v e m) ∙ elim why [
        | inl off ↦ u.unforced off kind
        | inr same_version ↦
            u.spared kind (ground (arith, stale_kinds-holds v path kind, same_version))
      ]
]
