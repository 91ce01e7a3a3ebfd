-- ===== src/DbVersion/Retry.antt =====
-- src/db_version.rs: a forced migration that failed half way is completed by a later one.
use vpsiner.Prelude.{
  ◌≡◌, refl, sym, ap, ◌∙◌, ◌⊎◌, inl, inr, ◌≢◌, Bool, true, false, ◌&&◌, List, [], ◌∷◌, Option, none,
  some, ◌==◌, arith, Bool-cases, Option-cases, is_some, subst,
}
use vpsiner.DbVersion.{
  DbKind, metadata, logs, metrics, all_kinds, DbVersions, expected, recorded, current, DataPath,
  complete, Refusals, Verdict, accepted, refused, exists, without, write_versions, wipe, is_stale,
  stale_kinds, upgrade, evaluate,
}
use vpsiner.DbVersion.Guard.{wipe-IsWiped, wipe_goes_on, stale_kinds-holds}
use vpsiner.DbVersion.Evaluate.{
  upgrade-IsUpgraded, evaluate_upgrades, evaluate_wipes, evaluate_stops, holds_all,
}

-- A file system that refuses nothing.
abbrev pub calm : Refusals
calm = record { create_dir = false; write = complete; remove = λ kind. false }

wipe-calm : (kinds : List DbKind) (path : DataPath) → (wipe calm kinds path).0 ≡ accepted
unfolding wipe write_versions
wipe-calm [] path = refl
wipe-calm (k ∷ rest) path =
    ap (λ r. r.0) (wipe_goes_on calm k rest path refl) ∙ wipe-calm rest (without k path)

upgrade-calm :
    (v : DbVersions) (stale : List DbKind) (path : DataPath)
    → (upgrade calm true v stale path).0 ≡ accepted
unfolding upgrade write_versions
upgrade-calm v [] path = ground arith
upgrade-calm v (k ∷ rest) path = wipe-calm (k ∷ rest) path

-- The directories that a forced migration leaves.
abbrev left : Option DbVersions → DbKind → Bool → Bool
left none kind there = false
left (some v) kind there = there && (recorded kind v == expected kind)

calm_run :
    (path : DataPath) (kind : DbKind)
    → ((evaluate calm true path).0 ≡ accepted)
      × (exists kind (evaluate calm true path).1 ≡ left path.manifest kind (exists kind path))
unfolding is_stale
calm_run path kind = elim (Option-cases path.manifest) [
  | inl m ↦
      let eq = evaluate_wipes calm true path refl m in
      let ok = wipe-calm all_kinds path in
      let w = wipe-IsWiped calm all_kinds path in
      (
        ap (λ r. r.0) eq ∙ ok,
        ap (λ r. exists kind r.1) eq ∙ (w.gone ok kind ∙ ground (arith, holds_all kind, m)),
      )
  | inr (v, m) ↦
      let eq = evaluate_upgrades calm true path v refl m in
      let ok = upgrade-calm v (stale_kinds v path) path in
      let u = upgrade-IsUpgraded calm true v (stale_kinds v path) path m in
      (
        ap (λ r. r.0) eq ∙ ok,
        ap (λ r. exists kind r.1) eq
            ∙ (u.gone ok kind ∙ ground (arith, stale_kinds-holds v path kind, m)),
      )
]

Verdict-cases : (v : Verdict) → (v ≡ accepted) ⊎ (v ≢ accepted)
Verdict-cases accepted = inl refl
Verdict-cases (refused f) = inr (λ h. cc h)

recorded-current : (kind : DbKind) → (recorded kind current == expected kind) ≡ true
unfolding recorded expected
recorded-current metadata = refl
recorded-current logs = refl
recorded-current metrics = refl

left_unwritten :
    (m before : Option DbVersions) (kind : DbKind) (there : Bool)
    → (m ≡ before) ⊎ (m ≡ none)
    → left m kind there ≡ (is_some m && left before kind there)
left_unwritten none before kind there h = refl
left_unwritten (some v) none kind there (inl e) = absurd (cc e)
left_unwritten (some v) none kind there (inr e) = absurd (cc e)
left_unwritten (some v) (some v') kind there (inl e) = ap (λ o. left o kind there) e
left_unwritten (some v) (some v') kind there (inr e) = absurd (cc e)

-- What any forced run leaves is on the way to what a calm one leaves, or the manifest is lost.
forced_run :
    (fs : Refusals) (path : DataPath) (kind : DbKind)
    → left (evaluate fs true path).1.manifest kind (exists kind (evaluate fs true path).1)
      ≡ (is_some (evaluate fs true path).1.manifest && left path.manifest kind (exists kind path))
unfolding is_stale
forced_run fs path kind = elim (Bool-cases fs.create_dir) [
  | inl e ↦
      subst
        (λ (r : Verdict × DataPath).
          left r.1.manifest kind (exists kind r.1)
          ≡ (is_some r.1.manifest && left path.manifest kind (exists kind path)))
        (sym (evaluate_stops fs true path e))
        (left_unwritten path.manifest path.manifest kind (exists kind path) (inl refl))
  | inr e ↦ elim (Option-cases path.manifest) [
    | inl m ↦
        let w = wipe-IsWiped fs all_kinds path in
        subst
          (λ (r : Verdict × DataPath).
            left r.1.manifest kind (exists kind r.1)
            ≡ (is_some r.1.manifest && left path.manifest kind (exists kind path)))
          (sym (evaluate_wipes fs true path e m))
          (elim (Verdict-cases (wipe fs all_kinds path).0) [
            | inl done ↦ ground (arith, m, w.written done, w.gone done kind, holds_all kind)
            | inr fails ↦ elim (w.unwritten fails) [
              | inl kept ↦ ground (arith, m, kept)
              | inr emptied ↦ ground (arith, m, emptied)
            ]
          ])
    | inr (v, m) ↦
        let u = upgrade-IsUpgraded fs true v (stale_kinds v path) path m in
        subst
          (λ (r : Verdict × DataPath).
            left r.1.manifest kind (exists kind r.1)
            ≡ (is_some r.1.manifest && left path.manifest kind (exists kind path)))
          (sym (evaluate_upgrades fs true path v e m))
          (elim (Verdict-cases (upgrade fs true v (stale_kinds v path) path).0) [
            | inl done ↦ ground (
              arith,
              m,
              u.written done,
              u.gone done kind,
              stale_kinds-holds v path kind,
              recorded-current kind,
            )
            | inr fails ↦ elim (u.unwritten fails) [
              | inl kept ↦ ground (arith, m, kept, u.spared kind, stale_kinds-holds v path kind)
              | inr emptied ↦ ground (arith, m, emptied)
            ]
          ])
  ]
]

-- After a forced run, whatever of it the file system refused and wherever it stopped, a forced run
-- that nothing hinders is accepted. Of the directories it leaves those that such a run would have
-- left at first, unless the first run ended with a manifest that is missing or cannot be parsed,
-- as a write that is cut short leaves it: then it leaves none.
pub evaluate-retried :
    (fs : Refusals) (path : DataPath) (kind : DbKind)
    → ((evaluate calm true (evaluate fs true path).1).0 ≡ accepted)
      × (exists kind (evaluate calm true (evaluate fs true path).1).1
          ≡ (is_some (evaluate fs true path).1.manifest && exists kind (evaluate calm true path).1))
evaluate-retried fs path kind =
    let after = evaluate fs true path in
    let again = calm_run after.1 kind in
    (
      again.0,
      again.1
          ∙ (forced_run fs path kind
              ∙ ap (λ b. is_some after.1.manifest && b) (sym (calm_run path kind).1)),
    )
