-- ===== src/Order/Domain.antt =====
-- internal/order/domain/order.go
use agency_bot.Base.{
  ℕ, ℤ, pos, negsuc, ltb, ◌==◌, String, Bool, true, false, not, ◌&&◌, ◌||◌, Option, none, some,
  List, leb, length, is_empty, trim_space, split_on,
}
use agency_bot.Externals.{Uuid}

-- `Status` is a string type with three constants; any other string is `unknown`.
pub data Status : Type 0 where
  planned completed cancelled : Status
  unknown : String → Status

abbrev pub is_planned : Status → Bool
is_planned planned = true
is_planned _ = false

abbrev pub is_completed : Status → Bool
is_completed completed = true
is_completed _ = false

abbrev pub is_cancelled : Status → Bool
is_cancelled cancelled = true
is_cancelled _ = false

-- `string(status)`
abbrev pub status_text : Status → String
status_text planned = "PLANNED"
status_text completed = "COMPLETED"
status_text cancelled = "CANCELLED"
status_text (unknown s) = s

-- A time is a number of nanoseconds since the zero `time.Time`.
abbrev pub Time : Type 0
Time = ℕ

-- `Order`
pub record Order : Type 0 where
  pub id : Uuid
  pub order_date : Time
  pub location : String
  pub amount : String
  pub customer_name : String
  pub customer_phone : String
  pub customer_contact : String
  pub comment : String
  pub status : Status
  pub created_by : Uuid
  pub updated_by : Uuid
  pub version : ℤ
  pub performer_ids : List Uuid
  pub created_at : Time
  pub updated_at : Time

-- `Change`
pub record Change : Type 0 where
  pub old_value : String
  pub new_value : String

-- `map[string]Change`
abbrev pub Changes : Type 0
Changes = List (String × Change)

-- `History`
pub record History : Type 0 where
  pub id : Uuid
  pub order_id : Uuid
  pub actor_id : Uuid
  pub action : String
  pub changes : Changes
  pub created_at : Time

-- `(*big.Rat).SetString` of math/big followed by `Sign`: none where the text is no rational number,
-- else a number of the same sign.
abbrev pub RatSign : Type 0
RatSign = String → Option ℤ

-- `ok && r.Sign() > 0`
abbrev pub is_positive_rat : RatSign → String → Bool
is_positive_rat rat value = elim (rat value) [
  | none ↦ false
  | some (pos n) ↦ ltb 0 n
  | some (negsuc n) ↦ false
]

-- `ValidAmount`
unfoldable pub valid_amount : RatSign → String → Bool
valid_amount rat value =
    (is_positive_rat rat value && leb (length (split_on b'.' value)) 2) || is_positive_rat rat value

-- `Valid`
unfoldable pub valid : RatSign → Order → Bool
valid rat o =
    not (o.order_date == 0)
    && (not (is_empty (trim_space o.location))
        && (valid_amount rat o.amount && not (is_empty (trim_space o.customer_name))))

-- `CanTransition`
unfoldable pub can_transition : Status → Status → Bool
can_transition old next = is_planned old && (is_completed next || is_cancelled next)
