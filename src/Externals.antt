-- ===== src/Externals.antt =====
-- What the program takes from code outside the repository, as a parameter: the identifiers of
-- github.com/google/uuid, and two matters of PostgreSQL.
use agency_bot.Base.{ℕ, ◌≡◌, String, Bool, Option, some}

-- An identifier is a 128-bit number.
abbrev pub Uuid : Type 0
Uuid = ℕ

-- `uuid.Nil`
abbrev pub nil_uuid : Uuid
nil_uuid = 0

pub record Externals : Type 0 where
  -- `UUID.String` and `uuid.Parse`: the text of an identifier parses to it.
  pub to_string : Uuid → String
  pub parse : String → Option Uuid
  pub parse-to_string : (u : Uuid) → parse (to_string u) ≡ some u
  -- PostgreSQL's order on texts, in `id::text > $1`.
  pub text_above : String → String → Bool
  -- A text cast to NUMERIC(14,2), as a text again, and the test of CHECK (amount > 0) on it.
  pub cast_numeric : String → Option String
  pub is_positive : String → Bool
