-- ===== src/Metadata/Checkpoints/Stored.antt =====
-- src/metadata/mod.rs: what is loaded after a checkpoint was advanced.
use vpsiner.Prelude.{
  ℕ, ◌^◌, ◌<◌, ◌≡◌, refl, ap, ◌∙◌, true, false, List, [], ◌∷◌, ◌&&◌, Option, none, some, wrap_i64,
  leb_ℤ, ◌==◌, is_eq, test_refl, if◌then◌else◌, arith, Bool-cases, inl, inr,
}
use vpsiner.Error.{ok}
use vpsiner.Model.ContainerId.{ContainerId, Eq-ContainerId}
use vpsiner.Model.Metrics.{ServiceId}
use vpsiner.Metadata.Checkpoints.{
  encode_hash, decode_hash, LogCheckpoint, CheckpointRow, upsert, advance_log_checkpoint, find_row,
  checkpoint_of, load_log_checkpoint,
}

decode_hash-encode_hash : (value : ℕ) → value < 2 ^ 64 → decode_hash (encode_hash value) ≡ value
unfolding decode_hash encode_hash wrap_i64
decode_hash-encode_hash value h = ground arith

same_row : (sid : ServiceId) (cid : ContainerId) → (sid == sid && is_eq cid cid) ≡ true
same_row sid cid = ground (arith, test_refl cid)

-- The row of the key after an upsert, and the rows of other keys.
abbrev upserted : Option CheckpointRow → CheckpointRow → CheckpointRow
upserted none new = new
upserted (some row) new =
    if leb_ℤ row.ts new.ts then record row { ts = new.ts; line_hash = new.line_hash } else row

find_row-upsert :
    (new : CheckpointRow) (rows : List CheckpointRow)
    → find_row new.sid new.cid (upsert new rows)
      ≡ some (upserted (find_row new.sid new.cid rows) new)
unfolding find_row upsert
find_row-upsert new [] = rw (same_row new.sid new.cid) refl
find_row-upsert new (row ∷ rest) = ground (arith, find_row-upsert new rest)

-- What the table says of a container before and after a checkpoint is advanced.
abbrev pub later_of : Option LogCheckpoint → LogCheckpoint → LogCheckpoint
later_of none new = new
later_of (some old) new = if leb_ℤ old.ts new.ts then new else old

later_of-upserted :
    (o : Option CheckpointRow) (sid : ServiceId) (cid : ContainerId) (c : LogCheckpoint)
    → c.line_hash < 2 ^ 64
    → checkpoint_of (
        some (
          upserted o
            (record { sid = sid; cid = cid; ts = c.ts; line_hash = encode_hash c.line_hash })))
      ≡ some (later_of (checkpoint_of o) c)
later_of-upserted none sid cid c h =
    ap (λ n. some (record { ts = c.ts; line_hash = n })) (decode_hash-encode_hash c.line_hash h)
later_of-upserted (some row) sid cid c h = elim (Bool-cases (leb_ℤ row.ts c.ts)) [
  | inl e ↦
      rw e (
        ap (λ n. some (record { ts = c.ts; line_hash = n }))
          (decode_hash-encode_hash c.line_hash h))
  | inr e ↦ rw e refl
]

-- After the checkpoint of a container is advanced to one whose hash fits 64 bits, the later of the
-- old and the new one is loaded, the new one where their times are equal, with its hash as it was.
pub load-advance_log_checkpoint :
    (sid : ServiceId) (cid : ContainerId) (c : LogCheckpoint) (rows : List CheckpointRow)
    → c.line_hash < 2 ^ 64
    → load_log_checkpoint false sid cid (advance_log_checkpoint false sid cid c rows).1
      ≡ ok (some (later_of (checkpoint_of (find_row sid cid rows)) c))
unfolding load_log_checkpoint advance_log_checkpoint
load-advance_log_checkpoint sid cid c rows h =
    let new : CheckpointRow = record {
      sid = sid;
      cid = cid;
      ts = c.ts;
      line_hash = encode_hash c.line_hash;
    } in
    ap (λ o. ok (checkpoint_of o)) (find_row-upsert new rows)
    ∙ ap ok (later_of-upserted (find_row sid cid rows) sid cid c h)
