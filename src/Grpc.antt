-- ===== src/Grpc.antt =====
-- What the gRPC handlers answer in place of a response: google.golang.org/grpc/status.
use agency_bot.Base.{String}

-- The codes of google.golang.org/grpc/codes that the program answers.
pub data Code : Type 0 where
  invalid_argument not_found_code already_exists permission_denied unauthenticated aborted : Code
  internal : Code

-- A gRPC status: its code and its message.
pub record Refusal : Type 0 where
  pub code : Code
  pub message : String

abbrev pub refusal : Code → String → Refusal
refusal c m = record { code = c; message = m }
