-- ===== src/Event.antt =====
-- pkg/event/event.go: the envelope of every event.
use agency_bot.Base.{ℕ, ◌≡◌, String, Option, none}
use agency_bot.Externals.{Uuid}
use agency_bot.Json.{Json}

-- `Envelope`
pub record Envelope : Type 0 where
  pub event_id : Uuid
  pub event_type : String
  pub event_version : ℕ
  pub aggregate_id : Uuid
  pub occurred_at : ℕ
  pub producer : String
  pub content : Json

-- A row of the table `outbox_events` of either service.
pub record OutboxRow : Type 0 where
  pub id : Uuid
  pub aggregate_id : Uuid
  pub event_type : String
  pub payload : Envelope
  pub created_at : ℕ
  pub published_at : Option ℕ
  pub attempts : ℕ

-- A pending event of the given aggregate, type and content.
abbrev pub IsEvent : Uuid → String → Json → OutboxRow → Type 0
IsEvent id typ content e =
    (e.aggregate_id ≡ id)
    × (e.event_type ≡ typ)
    × (e.payload.content ≡ content)
    × (e.published_at ≡ none)
