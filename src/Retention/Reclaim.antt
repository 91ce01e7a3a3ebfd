-- ===== src/Retention/Reclaim.antt =====
-- src/retention.rs: which services survive a pass.
use vpsiner.Prelude.{
  ◌≤◌, ◌^◌, ◌≡◌, sym, ap, ◌∙◌, subst, ◌≢◌, ◌⊎◌, inl, inr, String, Bool, true, false, ◌&&◌, List, [],
  ◌∷◌, some, ℤ, pos, ◌-ℤ◌, ◌≤ℤ◌, wrap_i64, wrap_i64-id, lookup, Eq-String, All, Bool-cases, arith,
  int_laws, one_part,
}
use vpsiner.Model.Metrics.{ServiceId, max_bucket_ms}
use vpsiner.Metadata.Store.{ServiceRow, expired}
use vpsiner.Metadata.Store.Table.{In}
use vpsiner.Metadata.Registry.{Registry, reclaim_before}
use vpsiner.Metadata.Registry.Coherent.{IsCoherent}
use vpsiner.Metadata.Registry.Reclaimed.{
  reclaim_before-IsReclaimed, reclaim_before-refused, reclaim_before-IsCoherent,
}
use vpsiner.Metrics.Bucket.Window.{IsTime}
use vpsiner.Retention.{Answers, Metadata, is_ok, reclaim_cutoff_ms, cleanup_once}

reclaim_cutoff_ms-lag :
    (cutoff : ℤ) → IsTime cutoff → reclaim_cutoff_ms cutoff ≡ cutoff -ℤ pos 3600000 -ℤ pos 3600000
unfolding reclaim_cutoff_ms max_bucket_ms
reclaim_cutoff_ms-lag cutoff t =
    let first : wrap_i64 (cutoff -ℤ pos 3600000) ≡ cutoff -ℤ pos 3600000 =
      wrap_i64-id (cutoff -ℤ pos 3600000)
        (omega (int_laws, one_part (cutoff -ℤ pos 3600000), t.above, t.below)) in
    rw first (
      wrap_i64-id (cutoff -ℤ pos 3600000 -ℤ pos 3600000) (
        omega (
          int_laws,
          one_part (cutoff -ℤ pos 3600000),
          one_part (cutoff -ℤ pos 3600000 -ℤ pos 3600000),
          t.above,
          t.below,
        )))

-- Every row of the id was seen at that time or later.
abbrev pub IsSeenSince : ℤ → ServiceId → List ServiceRow → Type 0
IsSeenSince time sid = All (λ row. (row.sid ≢ sid) ⊎ (time ≤ℤ row.last_seen_ms))

not_expired :
    (cutoff : ℤ) (sid : ServiceId) (rows : List ServiceRow)
    → IsSeenSince cutoff sid rows
    → ¬ In sid (expired cutoff rows)
unfolding expired
not_expired cutoff sid [] h = λ x. x
not_expired cutoff sid (row ∷ rest) h =
    let later = not_expired cutoff sid rest h.1 in λ held. ground (arith, h.0)

cleanup-cases :
    (P : Registry → Type 0) (answers : Answers) (cutoff : ℤ) (m : Metadata)
    → P m.registry
    → P (reclaim_before answers.services_refused (reclaim_cutoff_ms cutoff) m.registry).1
    → P (cleanup_once answers cutoff m).registry
unfolding cleanup_once
cleanup-cases P answers cutoff m a b =
    elim (Bool-cases (is_ok answers.metrics_cleaned && is_ok answers.logs_removed)) [
      | inl e ↦ rw (e, cleanup_once) b
      | inr e ↦ rw (e, cleanup_once) a
    ]

kept_by_reclaim :
    (refused : Bool) (cutoff : ℤ) (r : Registry) (n : String) (sid : ServiceId)
    → r.store.next_sid ≤ 2 ^ 32
    → IsCoherent r
    → IsSeenSince cutoff sid r.store.rows
    → lookup n r.inner.by_name ≡ some sid
    → lookup n (reclaim_before refused cutoff r).1.inner.by_name ≡ some sid
kept_by_reclaim true cutoff r n sid small c seen h =
    ap (λ x. lookup n x.1.inner.by_name) (reclaim_before-refused cutoff r) ∙ h
kept_by_reclaim false cutoff r n sid small c seen h =
    ((reclaim_before-IsReclaimed cutoff r small c).forgotten n sid).1
      (h, not_expired cutoff sid r.store.rows seen)

-- A pass of the retention, whatever the stores answer, keeps a coherent registry coherent, for ids
-- that fit 32 bits and a cutoff within 2^61 milliseconds of the epoch; and a cached service keeps
-- its id if every row of the id was seen at most two hours before the cutoff, one hour for the
-- widest bucket and one for the lag of the watermark.
pub cleanup_once-spares :
    (answers : Answers) (cutoff : ℤ) (m : Metadata) (n : String) (sid : ServiceId)
    → IsTime cutoff
    → m.registry.store.next_sid ≤ 2 ^ 32
    → IsCoherent m.registry
    → IsSeenSince (cutoff -ℤ pos 3600000 -ℤ pos 3600000) sid m.registry.store.rows
    → lookup n m.registry.inner.by_name ≡ some sid
    → IsCoherent (cleanup_once answers cutoff m).registry
      × (lookup n (cleanup_once answers cutoff m).registry.inner.by_name ≡ some sid)
cleanup_once-spares answers cutoff m n sid t small c seen h =
    let since =
      subst (λ x. IsSeenSince x sid m.registry.store.rows) (sym (reclaim_cutoff_ms-lag cutoff t))
        seen in
    cleanup-cases (λ r. IsCoherent r × (lookup n r.inner.by_name ≡ some sid)) answers cutoff m
      (c, h)
      (
        reclaim_before-IsCoherent answers.services_refused (reclaim_cutoff_ms cutoff) m.registry
            small c,
        kept_by_reclaim answers.services_refused (reclaim_cutoff_ms cutoff) m.registry n sid small c
            since h,
      )
