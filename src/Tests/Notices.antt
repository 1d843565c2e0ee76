-- ===== src/Tests/Notices.antt =====
-- A witness about sending, with one pending notification.
use agency_bot.Base.{[], ◌∷◌}
use agency_bot.Notification.{Notifier, new_notification, select_due, dispatch}
use agency_bot.Notification.Sending.{Sends, dispatch-Sends}
use agency_bot.Tests.Sample.{notifier}

abbrev waiting : Notifier
waiting = record notifier {
  db = record notifier.db { notifications = new_notification 1 21 5 3 ∷ [] };
}

dispatch-Sends_example : Sends (select_due waiting.db) waiting.ext (dispatch waiting).1.ext
dispatch-Sends_example = dispatch-Sends waiting
