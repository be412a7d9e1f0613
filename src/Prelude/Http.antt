-- ===== src/Prelude/Http.antt =====
-- FastAPI's HTTPException, as a value.
use Prim.Native.Nat.{ℕ}
use Prim.Native.String.{String}

pub record HttpException : Type 0 where
  pub status_code : ℕ
  pub detail : String

abbrev pub http : ℕ → String → HttpException
http status_code detail = record { status_code = status_code; detail = detail }
