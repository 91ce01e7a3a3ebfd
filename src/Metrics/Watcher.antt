-- ===== src/Metrics/Watcher.antt =====
-- src/metrics/bucket_watcher.rs: notifications about finished buckets, for each source and
-- resolution. A `watch` channel is its value and the number of times it was sent to, by which a
-- receiver sees a change.
pub mod Latest
use vpsiner.Prelude.{ℕ, suc, List, [], ◌∷◌, ℤ, pos, ltb_ℤ, if◌then◌else◌}
use vpsiner.Model.Metrics.{
  MetricsResolution, ten_seconds, one_minute, five_minutes, one_hour, bucket_ms,
}
use vpsiner.Metrics.Bucket.{bucket_end}

pub record Watch : Type 0 where
  pub value : ℤ
  pub version : ℕ

abbrev pub send : Watch → ℤ → Watch
send tx v = record { value = v; version = suc tx.version }

pub record ResolutionChannel : Type 0 where
  pub last_bucket_end : ℤ
  pub tx : Watch

abbrev pub ResolutionChannel_new : ResolutionChannel
ResolutionChannel_new = record {
  last_bucket_end = pos 0;
  tx = record { value = pos 0; version = 0 };
}

unfoldable pub observe : ResolutionChannel → ℤ → ℕ → ResolutionChannel
observe c ts bucket_ms =
    let end = bucket_end ts bucket_ms in
    if ltb_ℤ c.last_bucket_end end then record { last_bucket_end = end; tx = send c.tx end } else c

pub record ResolutionChannels : Type 0 where
  pub ten_seconds : ResolutionChannel
  pub one_minute : ResolutionChannel
  pub five_minutes : ResolutionChannel
  pub one_hour : ResolutionChannel

abbrev pub ResolutionChannels_new : ResolutionChannels
ResolutionChannels_new = record {
  ten_seconds = ResolutionChannel_new;
  one_minute = ResolutionChannel_new;
  five_minutes = ResolutionChannel_new;
  one_hour = ResolutionChannel_new;
}

unfoldable pub channel : ResolutionChannels → MetricsResolution → ResolutionChannel
channel cs MetricsResolution.ten_seconds = cs.ten_seconds
channel cs MetricsResolution.one_minute = cs.one_minute
channel cs MetricsResolution.five_minutes = cs.five_minutes
channel cs MetricsResolution.one_hour = cs.one_hour

-- A write through the reference that `channel` returns.
unfoldable pub with_channel :
    ResolutionChannels → MetricsResolution → ResolutionChannel → ResolutionChannels
with_channel cs MetricsResolution.ten_seconds c = record cs { ten_seconds = c }
with_channel cs MetricsResolution.one_minute c = record cs { one_minute = c }
with_channel cs MetricsResolution.five_minutes c = record cs { five_minutes = c }
with_channel cs MetricsResolution.one_hour c = record cs { one_hour = c }

pub data MetricsSource : Type 0 where
  host containers : MetricsSource

pub record BucketWatcher : Type 0 where
  pub host : ResolutionChannels
  pub containers : ResolutionChannels

unfoldable pub new : BucketWatcher
new = record { host = ResolutionChannels_new; containers = ResolutionChannels_new }

unfoldable pub channels : BucketWatcher → MetricsSource → ResolutionChannels
channels w MetricsSource.host = w.host
channels w MetricsSource.containers = w.containers

unfoldable pub with_channels : BucketWatcher → MetricsSource → ResolutionChannels → BucketWatcher
with_channels w MetricsSource.host cs = record w { host = cs }
with_channels w MetricsSource.containers cs = record w { containers = cs }

-- The body of the loop over the resolutions, and the loop.
unfoldable pub observe_all : ResolutionChannels → ℤ → List MetricsResolution → ResolutionChannels
unfolding channel with_channel
observe_all cs ts [] = cs
observe_all cs ts (r ∷ rest) =
    observe_all (with_channel cs r (observe (channel cs r) ts (bucket_ms r))) ts rest

abbrev pub all_resolutions : List MetricsResolution
all_resolutions = ten_seconds ∷ one_minute ∷ five_minutes ∷ one_hour ∷ []

unfoldable pub observe_sample : BucketWatcher → MetricsSource → ℤ → BucketWatcher
unfolding channels with_channels
observe_sample w source ts =
    with_channels w source (observe_all (channels w source) ts all_resolutions)

-- `subscribe`: the value and version that a receiver of the source and resolution sees.
unfoldable pub subscribe : BucketWatcher → MetricsSource → MetricsResolution → Watch
unfolding channels channel
subscribe w source resolution = (channel (channels w source) resolution).tx
