-- ===== src/Model/Logs/Codes.antt =====
-- src/model/logs.rs: the stored codes of streams and levels stand for exactly one value each.
use vpsiner.Prelude.{◌≡◌, some, ℤ, arith, ◌↔◌}
use vpsiner.Model.Logs.{
  LogStream, LogLevel, stream_storage_code, stream_from_storage_code, level_storage_code,
  level_from_storage_code,
}

-- A stored code reads back as a level exactly when it is the level's own code, and as a stream
-- exactly when it is the stream's own code.
pub from_storage_code_iff :
    (code : ℤ) (l : LogLevel) (s : LogStream)
    → ((level_from_storage_code code ≡ some l) ↔ (code ≡ level_storage_code l))
      × ((stream_from_storage_code code ≡ some s) ↔ (code ≡ stream_storage_code s))
unfolding stream_storage_code stream_from_storage_code level_storage_code level_from_storage_code
from_storage_code_iff code l s = ground arith
