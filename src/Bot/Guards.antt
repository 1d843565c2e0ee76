-- ===== src/Bot/Guards.antt =====
-- When the bot asks the services to write.
use agency_bot.Base.{
  ℤ, ◌≡◌, refl, String, Bool, true, false, ◌&&◌, Option, none, some, str_eq, trim_space, arith,
  List, ◌∷◌, [], fields, if◌then◌else◌,
}
use agency_bot.Effects.{Result, ok, err, Done, M, ◌>>=◌, attempt, throw}
use agency_bot.Auth.{Claims}
use agency_bot.User.Transport.{CreateUserRequest}
use agency_bot.Order.Transport.{OrderMessage, CreateOrderRequest, UpdateOrderRequest}
use agency_bot.Bot.Drafts.{Draft, Kind, order_kind, user_kind, edit_kind, other_kind, Step}
use agency_bot.Bot.Clients.{Clients, GoText, Message}
use agency_bot.Bot.Service.{
  has_permission, user_for_telegram, with_permission, save_and_send, cancel_draft,
}
use agency_bot.Bot.Orders.{
  start_draft, after_create, confirm_draft, resolve_performers, ask_performers, after_resolve,
  order_step, is_last, handle_order_draft,
}
use agency_bot.Bot.Users.{
  start_user_draft, role_step, user_step, handle_user_draft, confirm_user_draft, after_create_user,
  temporary_password,
}
use agency_bot.Bot.Edits.{
  start_edit_draft, edit_found, new_date, edit_step, handle_edit_draft, confirm_edit_draft,
  after_update,
}
use agency_bot.Bot.Commands.{
  handle_draft, run_words, handle, run_command, start_command, date_command, edit_command,
  send_orders, send_orders_for_date, send_order_lines, send_day_lines, bind_with_password,
  after_bind,
}

-- The kinds of draft that `handleDraft` tells apart.
abbrev pub is_order : Kind → Bool
is_order user_kind = false
is_order edit_kind = false
is_order order_kind = true
is_order (other_kind k) = true

abbrev pub is_user : Kind → Bool
is_user user_kind = true
is_user _ = false

abbrev pub is_edit : Kind → Bool
is_edit edit_kind = true
is_edit _ = false

-- The text confirms a draft of this kind, whose last question has been answered.
abbrev pub is_confirmed : (Kind → Bool) → String → Draft → Bool
is_confirmed is_kind text d = is_kind d.kind && (is_last d.step && str_eq text "/confirm")

module _ {S : Type 0} (c : Clients S) where
  -- The user service knows the Telegram account, and its user has the permission.
  abbrev pub is_permitted : ℤ → String → S → Bool
  is_permitted telegram permission s = elim (user_for_telegram c telegram s).0 [
    | ok (some u) ↦ has_permission u.permissions permission
    | ok none ↦ false
    | err e ↦ false
  ]

  abbrev allows : (Kind → Bool) → String → Message → Result String (Option Draft) → S → Bool
  allows is_kind permission m (ok (some d)) s =
      is_confirmed is_kind (trim_space m.text) d && is_permitted m.sender permission s
  allows is_kind permission m (ok none) s = false
  allows is_kind permission m (err e) s = false

  -- The sender of the message has a draft of this kind, which the message confirms, and the user of
  -- the sender's account has the permission now.
  abbrev pub is_allowed : (Kind → Bool) → String → Message → S → Bool
  is_allowed is_kind permission m s =
      allows is_kind permission m (c.load m.sender s).0 (c.load m.sender s).1

  -- The same calls, of which each of the three that write does something else unless its flag is set.
  abbrev pub limited :
      Bool
      → Bool
      → Bool
      → (Claims → CreateOrderRequest → M S String OrderMessage)
      → (Claims → CreateUserRequest → M S String Done)
      → (Claims → UpdateOrderRequest → M S String Done)
      → Clients S
  limited b b' b'' f g h = record c {
    create_order = λ claims r. if b then c.create_order claims r else f claims r;
    create_user = λ claims r. if b' then c.create_user claims r else g claims r;
    update_order = λ claims r. if b'' then c.update_order claims r else h claims r;
  }

-- What `handle` does when the store has answered.
abbrev go_on :
    {S : Type 0} → GoText → Clients S → Message → Result String (Option Draft) → M S String Done
go_on go c m (err e) = throw e
go_on go c m (ok (some d)) = handle_draft go c d.kind m.chat m.sender (trim_space m.text) d
go_on go c m (ok none) = run_words go c m.chat m.sender (fields (trim_space m.text))

module _ {S : Type 0} (go : GoText) (c : Clients S) (orders users edits : Bool)
    (f : Claims → CreateOrderRequest → M S String OrderMessage)
    (g : Claims → CreateUserRequest → M S String Done)
    (h : Claims → UpdateOrderRequest → M S String Done) where
  abbrev c' : Clients S
  c' = limited c orders users edits f g h

  module _ (chat telegram : ℤ) (d : Draft) (s : S) where
    confirm_draft-same :
        (is_permitted c telegram "ORDER_CREATE" s ≡ true → orders ≡ true)
        → confirm_draft go c chat telegram d s ≡ confirm_draft go c' chat telegram d s
    unfolding confirm_draft user_for_telegram with_permission attempt ◌>>=◌ after_create
    confirm_draft-same allowed = ground arith

    confirm_user_draft-same :
        (is_permitted c telegram "USER_CREATE" s ≡ true → users ≡ true)
        → confirm_user_draft go c chat telegram d s ≡ confirm_user_draft go c' chat telegram d s
    unfolding confirm_user_draft temporary_password user_for_telegram with_permission attempt ◌>>=◌
        after_create_user
    confirm_user_draft-same allowed = ground arith

    confirm_edit_draft-same :
        (is_permitted c telegram "ORDER_UPDATE" s ≡ true → edits ≡ true)
        → confirm_edit_draft go c chat telegram d s ≡ confirm_edit_draft go c' chat telegram d s
    unfolding confirm_edit_draft user_for_telegram with_permission attempt ◌>>=◌ after_update
    confirm_edit_draft-same allowed = ground arith

  module _ (chat telegram : ℤ) (text : String) (d : Draft) (s : S) where
    user_step-same :
        (st : Step)
        → (is_last st && str_eq text "/confirm" ≡ true
            → confirm_user_draft go c chat telegram d s
              ≡ confirm_user_draft go c' chat telegram d s)
        → user_step go c st chat telegram text d s ≡ user_step go c' st chat telegram text d s
    unfolding user_step save_and_send role_step
    user_step-same st confirmed = ground arith

    edit_step-same :
        (st : Step)
        → (is_last st && str_eq text "/confirm" ≡ true
            → confirm_edit_draft go c chat telegram d s
              ≡ confirm_edit_draft go c' chat telegram d s)
        → edit_step go c st chat telegram text d s ≡ edit_step go c' st chat telegram text d s
    unfolding edit_step save_and_send new_date
    edit_step-same st confirmed = ground arith

    order_step-same :
        (st : Step)
        → order_step go c st chat telegram text d s ≡ order_step go c' st chat telegram text d s
    unfolding order_step save_and_send ask_performers resolve_performers after_resolve attempt ◌>>=◌
    order_step-same st = ground arith

    order_draft-same :
        (is_last d.step && str_eq text "/confirm" ≡ true
          → confirm_draft go c chat telegram d s ≡ confirm_draft go c' chat telegram d s)
        → handle_order_draft go c chat telegram text d s
          ≡ handle_order_draft go c' chat telegram text d s
    unfolding handle_order_draft
    order_draft-same confirmed = ground (arith, order_step-same d.step)

  run_words-same :
      (chat telegram : ℤ) (ws : List String) (s : S)
      → run_words go c chat telegram ws s ≡ run_words go c' chat telegram ws s
  unfolding run_words run_command start_command date_command edit_command start_edit_draft
      start_user_draft start_draft send_orders send_orders_for_date bind_with_password
      user_for_telegram with_permission attempt ◌>>=◌ save_and_send edit_found send_order_lines
      send_day_lines after_bind
  run_words-same chat telegram [] s = refl
  run_words-same chat telegram (w ∷ []) s = refl
  run_words-same chat telegram (w ∷ v ∷ []) s = refl
  run_words-same chat telegram (w ∷ v ∷ u ∷ []) s = refl
  run_words-same chat telegram (w ∷ v ∷ u ∷ t ∷ ws) s = refl

  module _ (chat telegram : ℤ) (text : String) (d : Draft) (s : S) where
    abbrev Sets : (Kind → Bool) → String → Bool → Type 0
    Sets is_kind permission flag =
        is_confirmed is_kind text d && is_permitted c telegram permission s ≡ true → flag ≡ true

    handle_draft-same :
        (k : Kind)
        → d.kind ≡ k
        → Sets is_order "ORDER_CREATE" orders
        → Sets is_user "USER_CREATE" users
        → Sets is_edit "ORDER_UPDATE" edits
        → handle_draft go c k chat telegram text d s ≡ handle_draft go c' k chat telegram text d s
    unfolding handle_draft handle_order_draft handle_user_draft handle_edit_draft
    handle_draft-same user_kind e a a' a'' =
        user_step-same chat telegram text d s d.step
          λ last. confirm_user_draft-same chat telegram d s λ permitted. ground arith
    handle_draft-same edit_kind e a a' a'' =
        edit_step-same chat telegram text d s d.step
          λ last. confirm_edit_draft-same chat telegram d s λ permitted. ground arith
    handle_draft-same order_kind e a a' a'' =
        order_draft-same chat telegram text d s
          λ last. confirm_draft-same chat telegram d s λ permitted. ground arith
    handle_draft-same (other_kind k) e a a' a'' =
        order_draft-same chat telegram text d s
          λ last. confirm_draft-same chat telegram d s λ permitted. ground arith

  module _ (m : Message) where
    abbrev Flags : Result String (Option Draft) → S → Type 0
    Flags r s =
        (allows c is_order "ORDER_CREATE" m r s ≡ true → orders ≡ true)
        × (allows c is_user "USER_CREATE" m r s ≡ true → users ≡ true)
        × (allows c is_edit "ORDER_UPDATE" m r s ≡ true → edits ≡ true)

    go_on-same :
        (r : Result String (Option Draft)) (s : S)
        → Flags r s
        → go_on go c m r s ≡ go_on go c' m r s
    go_on-same (ok (some d)) s (a, a', a'') =
        handle_draft-same m.chat m.sender (trim_space m.text) d s d.kind refl a a' a''
    go_on-same (ok none) s a = run_words-same m.chat m.sender (fields (trim_space m.text)) s
    go_on-same (err e) s a = refl

    handle-same :
        (s : S)
        → Flags (c.load m.sender s).0 (c.load m.sender s).1
        → handle go c m s ≡ handle go c' m s
    unfolding handle cancel_draft ◌>>=◌
    handle-same s a = ground (arith, go_on-same (c.load m.sender s).0 (c.load m.sender s).1 a)

module _ {S : Type 0} (go : GoText) (c : Clients S)
    (f : Claims → CreateOrderRequest → M S String OrderMessage)
    (g : Claims → CreateUserRequest → M S String Done)
    (h : Claims → UpdateOrderRequest → M S String Done) where
  -- A message makes the bot ask for a new order, a new user or a change of an order only if its
  -- sender has a draft of that kind at its last step, the text is /confirm, and the user service
  -- answers for the sender's account a user with the permission: with calls that do anything else
  -- where this does not hold, the message ends the same, in the same state.
  pub handle-IsAllowed :
      (m : Message) (s : S)
      → handle go c m s
        ≡ handle go
            (limited c
              (is_allowed c is_order "ORDER_CREATE" m s)
              (is_allowed c is_user "USER_CREATE" m s)
              (is_allowed c is_edit "ORDER_UPDATE" m s)
              f
              g
              h)
            m
            s
  handle-IsAllowed m s = handle-same go c _ _ _ f g h m s (λ e. e, λ e. e, λ e. e)
