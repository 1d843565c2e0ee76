-- ===== src/Bot/Drafts.antt =====
-- `Draft` of internal/bot/draft.go: what the bot remembers of a conversation.
use agency_bot.Base.{ℤ, pos, String, List, []}

-- The strings of `Kind`: an order draft is any that is neither of a user nor of an edit.
pub data Kind : Type 0 where
  order_kind user_kind edit_kind : Kind
  other_kind : String → Kind

-- The strings of `Step`.
pub data Step : Type 0 where
  date location amount customer_name customer_phone customer_contact comment performers : Step
  confirm login name role : Step
  other_step : String → Step

-- `Draft`
pub record Draft : Type 0 where
  pub kind : Kind
  pub user_login : String
  pub user_full_name : String
  pub user_role : String
  pub order_id : String
  pub version : ℤ
  pub step : Step
  pub order_date : String
  pub location : String
  pub amount : String
  pub customer_name : String
  pub customer_phone : String
  pub customer_contact : String
  pub comment : String
  pub performer_ids : List String

-- `&Draft{Kind: k, Step: s}`
abbrev pub new_draft : Kind → Step → Draft
new_draft k s = record {
  kind = k;
  user_login = "";
  user_full_name = "";
  user_role = "";
  order_id = "";
  version = pos 0;
  step = s;
  order_date = "";
  location = "";
  amount = "";
  customer_name = "";
  customer_phone = "";
  customer_contact = "";
  comment = "";
  performer_ids = [];
}
