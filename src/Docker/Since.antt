-- ===== src/Docker/Since.antt =====
-- src/docker/mod.rs: from when on the logs of a container are asked for.
use vpsiner.Prelude.{
  ◌-◌, ◌^◌, ◌≡◌, Option, none, some, ℤ, pos, negsuc, ltb_ℤ, leb_ℤ, max_ℤ, div_euclid, ◌&&◌,
  if◌then◌else◌, ◌≤ℤ◌, arith, Bool-cases, ◌⊎◌, false, inl, inr,
}
use vpsiner.Metadata.Checkpoints.{LogCheckpoint}

abbrev pub i32_min : ℤ
i32_min = negsuc (2 ^ 31 - 1)

abbrev pub i32_max : ℤ
i32_max = pos (2 ^ 31 - 1)

unfoldable pub clamp_to_i32 : ℤ → ℤ
clamp_to_i32 value =
    if leb_ℤ i32_min value && leb_ℤ value i32_max
    then value
    else if ltb_ℤ value (pos 0)
    then i32_min
    else i32_max

-- The cutoff is that of the retention, in milliseconds.
unfoldable pub log_since_secs : Option LogCheckpoint → ℤ → ℤ
unfolding clamp_to_i32
log_since_secs none cutoff_ms = clamp_to_i32 (div_euclid cutoff_ms 1000)
log_since_secs (some checkpoint) cutoff_ms =
    clamp_to_i32 (max_ℤ (div_euclid checkpoint.ts 1000) (div_euclid cutoff_ms 1000))

clamp_bounds : (v : ℤ) → (i32_min ≤ℤ clamp_to_i32 v) × (clamp_to_i32 v ≤ℤ i32_max)
unfolding clamp_to_i32
clamp_bounds v = (ground arith, ground arith)

-- The second that the logs are asked from fits 32 bits, and where the seconds of checkpoint and cutoff
-- do, it is the later of the two.
pub log_since_secs-bounds :
    (checkpoint : LogCheckpoint) (cutoff_ms : ℤ)
    → ((i32_min ≤ℤ log_since_secs (some checkpoint) cutoff_ms)
        × (log_since_secs (some checkpoint) cutoff_ms ≤ℤ i32_max))
      × ((leb_ℤ i32_min (max_ℤ (div_euclid checkpoint.ts 1000) (div_euclid cutoff_ms 1000))
              && leb_ℤ (max_ℤ (div_euclid checkpoint.ts 1000) (div_euclid cutoff_ms 1000)) i32_max)
            ≡ false
          ⊎ (log_since_secs (some checkpoint) cutoff_ms
              ≡ max_ℤ (div_euclid checkpoint.ts 1000) (div_euclid cutoff_ms 1000)))
unfolding log_since_secs clamp_to_i32
log_since_secs-bounds checkpoint cutoff_ms =
    let second = max_ℤ (div_euclid checkpoint.ts 1000) (div_euclid cutoff_ms 1000) in
    (
      clamp_bounds second,
      elim (Bool-cases (leb_ℤ i32_min second && leb_ℤ second i32_max)) [
        | inl e ↦ inr (ground (arith, e))
        | inr e ↦ inl e
      ],
    )
