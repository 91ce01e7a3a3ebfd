-- ===== src/Error.antt =====
-- src/error.rs: errors, the result type and the status of a response. The texts of the errors are
-- for the log and the reader, and are not modelled.
use vpsiner.Prelude.{ℕ}

pub data AppError : Type 0 where
  docker storage host not_found bad_request conflict forbidden unimplemented : AppError

pub data AppResult {ℓ} (A : Type ℓ) : Type ℓ where
  ok : A → AppResult A
  err : AppError → AppResult A

unfoldable pub status : AppError → ℕ
status not_found = 404
status bad_request = 400
status conflict = 409
status forbidden = 403
status unimplemented = 501
status docker = 502
status storage = 500
status host = 500
