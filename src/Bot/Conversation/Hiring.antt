-- ===== src/Bot/Conversation/Hiring.antt =====
-- The conversation of /newuser in internal/bot/service.go, from the command to /confirm.
use agency_bot.Base.{
  ℤ, ◌≡◌, refl, ◌∙◌, subst, fields, split_on, String, true, Option, none, some, List, [], ◌∷◌,
  str_eq, trim_space, if◌then◌else◌, arith,
}
use mathlib.Core.Path.{fun_ext}
use agency_bot.Effects.{Result, ok, err, Done, M, ◌>>=◌, ◌>>◌, attempt}
use agency_bot.User.Transport.{
  UserMessage, RoleMessage, role_admin, role_performer, CreateUserRequest,
}
use agency_bot.Bot.Drafts.{Draft, new_draft, user_kind, login, name, role, confirm}
use agency_bot.Bot.Clients.{Clients, GoText}
use agency_bot.Bot.Service.{
  bot_claims, claims_of, concat, save_and_send, has_permission, user_for_telegram, with_permission,
}
use agency_bot.Bot.Users.{
  start_user_draft, temporary_password, after_create_user, confirm_user_draft, role_step, user_step,
  handle_user_draft,
}
use agency_bot.Bot.Commands.{handle_draft, handle, run_words, run_command}
use agency_bot.Bot.Conversation.{
  Reliable, IsAnswer, tell, LeadsTo, LeadsTo-end, LeadsTo-next, handle-draft, handle-words,
  LeadsTo-command, confirm-IsAnswer,
}

-- The roles that the conversation knows, by the text in lower case.
abbrev pub role_of : String → Option RoleMessage
role_of text =
    if str_eq text "admin"
    then some role_admin
    else (if str_eq text "performer" then some role_performer else none)

-- The drafts behind the first step.
abbrev at_name : String → Draft
at_name x = record (new_draft user_kind name) { user_login = trim_space x }

abbrev at_role : String → String → Draft
at_role x y = record (at_name x) { user_full_name = trim_space y; step = role }

abbrev at_confirm : String → String → String → Draft
at_confirm x y r = record (at_role x y) { user_role = r; step = confirm }

-- The user that the answers describe.
abbrev pub wanted : String → String → RoleMessage → String → CreateUserRequest
wanted x y r password = record {
  login = trim_space x;
  password = password;
  full_name = trim_space y;
  role = r;
}

-- What the account is told: the password of the user that was created, or that there is none.
abbrev pub told : {S : Type 0} → Clients S → ℤ → ℤ → String → Result String Done → M S String Done
told c chat telegram password (ok created) =
    c.delete telegram
    >> c.send chat (
        concat (
          "Пользователь создан. Временный пароль: " ∷ password
          ∷ "\nПередайте его пользователю безопасным способом." ∷ []))
told c chat telegram password (err e) =
    c.send chat "Не удалось создать пользователя. Проверьте логин."

-- The creation of the user with the text of eighteen random bytes for a password, and the reply.
abbrev pub created :
    {S : Type 0}
    → GoText
    → Clients S
    → ℤ
    → ℤ
    → UserMessage
    → (String → CreateUserRequest)
    → M S String Done
created go c chat telegram u request = c.random_bytes 18 >>= λ raw.
    attempt (c.create_user (claims_of u) (request (go.encode_url raw)))
    >>= told c chat telegram (go.encode_url raw)

after_create_user-told :
    {S : Type 0} (go : GoText) (c : Clients S) (chat telegram : ℤ) (password : String)
    → after_create_user go c chat telegram password ≡ told c chat telegram password
unfolding after_create_user
after_create_user-told go c chat telegram password =
    fun_ext λ r. elim r [ ok a ↦ refl | err e ↦ refl ]

temporary_password-created :
    {S : Type 0} (go : GoText) (c : Clients S) (chat telegram : ℤ) (u : UserMessage)
    (request : String → CreateUserRequest) (s : S)
    → (temporary_password go c >>= λ password.
          attempt (c.create_user (claims_of u) (request password))
          >>= after_create_user go c chat telegram password)
        s
      ≡ created go c chat telegram u request s
unfolding temporary_password ◌>>=◌ attempt
temporary_password-created go c chat telegram u request s =
    rw (fun_ext (after_create_user-told go c chat telegram)) (ground arith)

module _ {S : Type 0} (go : GoText) (c : Clients S) (R : Reliable c) (chat telegram : ℤ) where
  next :
      (d d' d'' : Draft) (x q : String) (xs : List String) (s : S)
      → d.kind ≡ user_kind
      → IsAnswer x
      → R.view s telegram ≡ some d
      → user_step go c d.step chat telegram (trim_space x) d s
        ≡ save_and_send c chat telegram d' q s
      → ((t : S) → R.view t telegram ≡ some d' → LeadsTo go c chat telegram R xs d'' t)
      → LeadsTo go c chat telegram R (x ∷ xs) d'' s
  unfolding handle_draft handle_user_draft
  next d d' d'' x q xs s kind y seen step rest =
      LeadsTo-next go c chat telegram R d d' d'' x xs s seen y (q, ground (arith, step)) rest

  module _ (x y z : String) (r : RoleMessage)
      (known : role_of (go.to_lower (trim_space z)) ≡ some r) where
    abbrev asked : Draft
    asked = at_confirm x y (go.to_lower (trim_space z))

    roles :
        (s : S)
        → user_step go c role chat telegram (trim_space z) (at_role x y) s
          ≡ save_and_send c chat telegram asked
              (concat (
                "Создать пользователя "
                ∷ trim_space x
                ∷ " с ролью "
                ∷ go.to_lower (trim_space z)
                ∷ "? Отправьте /confirm или /cancel."
                ∷ []))
              s
    unfolding user_step role_step
    roles s = ground (arith, known)

    answers-LeadsTo :
        (s : S)
        → IsAnswer x × IsAnswer y × IsAnswer z
        → R.view s telegram ≡ some (new_draft user_kind login)
        → LeadsTo go c chat telegram R (x ∷ y ∷ z ∷ []) asked s
    unfolding user_step
    answers-LeadsTo s (a, a2, a3) seen = next _ (at_name x) _ _ _ _ s refl a seen refl λ s seen.
        next _ (at_role x y) _ _ _ _ s refl a2 seen refl λ s seen.
          next _ asked _ _ _ _ s refl a3 seen (roles s)
            λ s seen. LeadsTo-end go c chat telegram R _ s seen

    starts :
        (u : UserMessage) (s : S)
        → c.get_user_by_telegram_id bot_claims telegram s ≡ (ok (some u), s)
        → has_permission u.permissions "USER_CREATE" ≡ true
        → R.view s telegram ≡ none
        → handle go c (record { text = "/newuser"; chat = chat; sender = telegram }) s
          ≡ save_and_send c chat telegram
              (new_draft user_kind login)
              "Укажите логин нового пользователя."
              s
    unfolding run_words run_command start_user_draft user_for_telegram with_permission attempt ◌>>=◌
        trim_space fields split_on
    starts u s found permitted fresh =
        handle-words go c chat telegram R "/newuser" s fresh refl ∙ ground (arith, found)

    chosen :
        (if str_eq (go.to_lower (trim_space z)) "admin" then role_admin else role_performer) ≡ r
    chosen = ground (arith, known)

    confirmed :
        (u : UserMessage) (s : S)
        → c.get_user_by_telegram_id bot_claims telegram s ≡ (ok (some u), s)
        → has_permission u.permissions "USER_CREATE" ≡ true
        → R.view s telegram ≡ some asked
        → handle go c (record { text = "/confirm"; chat = chat; sender = telegram }) s
          ≡ (temporary_password go c >>= λ password.
                attempt (c.create_user (claims_of u) (wanted x y r password))
                >>= after_create_user go c chat telegram password)
              s
    unfolding handle_draft handle_user_draft user_step confirm_user_draft user_for_telegram
        with_permission attempt ◌>>=◌ trim_space
    confirmed u s found permitted seen =
        subst
          (λ q.
            handle go c (record { text = "/confirm"; chat = chat; sender = telegram }) s
            ≡ (temporary_password go c >>= λ password.
                  attempt (c.create_user (claims_of u) (wanted x y q password))
                  >>= after_create_user go c chat telegram password)
                s)
          chosen
          (ground
            (arith, handle-draft go c chat telegram R _ "/confirm" s seen confirm-IsAnswer, found))

  -- Where the account has no draft, /newuser and three answers lead without an error to a state in
  -- which /confirm asks the user service, under the user's own claims, for a user with the login and
  -- the full name that were answered, the role that was answered in any case of letters, and the text
  -- of eighteen random bytes for a password. If the service creates the user, the draft is deleted and
  -- the reply tells that password. It holds if the role is admin or performer, the user of the account
  -- may create users, and the questions about that user succeed.
  pub hiring_lem :
      (x y z : String) (r : RoleMessage) (u : UserMessage) (s : S)
      → role_of (go.to_lower (trim_space z)) ≡ some r
      → ((s : S) → c.get_user_by_telegram_id bot_claims telegram s ≡ (ok (some u), s))
      → has_permission u.permissions "USER_CREATE" ≡ true
      → IsAnswer x × IsAnswer y × IsAnswer z
      → R.view s telegram ≡ none
      → (s' : S) × (tell go c chat telegram ("/newuser" ∷ x ∷ y ∷ z ∷ []) s ≡ (ok tt, s'))
        × (handle go c (record { text = "/confirm"; chat = chat; sender = telegram }) s'
            ≡ created go c chat telegram u (wanted x y r) s')
  hiring_lem x y z r u s known found permitted answers fresh =
      let (s', run, at_end) =
        LeadsTo-command go c chat telegram R (new_draft user_kind login)
          (at_confirm x y (go.to_lower (trim_space z))) "/newuser" _ (x ∷ y ∷ z ∷ []) s
          (starts x y z r known u s (found s) permitted fresh)
          λ s seen. answers-LeadsTo x y z r known s answers seen in
      (
        s',
        run,
        confirmed x y z r known u s' (found s') permitted at_end
            ∙ temporary_password-created go c chat telegram u (wanted x y r) s',
      )
