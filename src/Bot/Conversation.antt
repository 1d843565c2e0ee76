-- ===== src/Bot/Conversation.antt =====
-- Conversations with the bot in which no call of the store of drafts or of Telegram fails.
use agency_bot.Base.{
  ℤ, ◌≡◌, refl, ap, ◌∙◌, String, Bool, true, false, Option, none, some, List, [], ◌∷◌, str_eq,
  trim_space, is_empty, fields, arith,
}
use agency_bot.Effects.{Result, ok, err, Done, M, ◌>>=◌, ◌>>◌, pure, for_each}
use agency_bot.Bot.Drafts.{Draft}
use agency_bot.Bot.Clients.{Clients, GoText, Message}
use agency_bot.Bot.Service.{save_and_send}
use agency_bot.Bot.Commands.{handle_draft, handle, run_words}
pub mod Creating
pub mod Editing
pub mod Hiring

-- A store that keeps the last draft of each account, as Redis does before the key expires, and a
-- Telegram that takes each message, both as seen in the state `S` of the world behind the calls.
pub record Reliable {S : Type 0} (c : Clients S) : Type 0 where
  pub view : S → ℤ → Option Draft
  pub saved : ℤ → Draft → S → S
  pub sent : ℤ → String → S → S
  pub load-ok : (t : ℤ) (s : S) → c.load t s ≡ (ok (view s t), s)
  pub save-ok : (t : ℤ) (d : Draft) (s : S) → c.save t d s ≡ (ok tt, saved t d s)
  pub send-ok : (chat : ℤ) (text : String) (s : S) → c.send chat text s ≡ (ok tt, sent chat text s)
  pub view-saved : (t : ℤ) (d : Draft) (s : S) → view (saved t d s) t ≡ some d
  pub view-sent : (t chat : ℤ) (text : String) (s : S) → view (sent chat text s) t ≡ view s t

-- A text that answers a question: it is not blank, and not the command /cancel.
abbrev pub IsAnswer : String → Type 0
IsAnswer x = (str_eq (trim_space x) "/cancel" ≡ false) × (is_empty (trim_space x) ≡ false)

module _ {S : Type 0} (go : GoText) (c : Clients S) (chat telegram : ℤ) where
  -- The texts of one account, handled one after the other.
  abbrev pub tell : List String → M S String Done
  tell texts = for_each texts λ x. handle go c (record { text = x; chat = chat; sender = telegram })

  -- In the conversation about `d` the bot answers `x` by keeping `d'` and asking the next question.
  abbrev pub Keeps : Draft → String → Draft → S → Type 0
  Keeps d x d' s =
      (question : String) × (handle_draft go c d.kind chat telegram (trim_space x) d s
        ≡ save_and_send c chat telegram d' question s)

  module _ (R : Reliable c) where
    -- The texts lead to the draft `d`, and no call fails on the way.
    abbrev pub LeadsTo : List String → Draft → S → Type 0
    LeadsTo texts d s = (s' : S) × (tell texts s ≡ (ok tt, s')) × (R.view s' telegram ≡ some d)

    pub handle-draft :
        (d : Draft) (x : String) (s : S)
        → R.view s telegram ≡ some d
        → IsAnswer x
        → handle go c (record { text = x; chat = chat; sender = telegram }) s
          ≡ handle_draft go c d.kind chat telegram (trim_space x) d s
    unfolding handle ◌>>=◌
    handle-draft d x s e (no_cancel, _) = ground (arith, R.load-ok telegram s)

    pub save_and_send-ok :
        (d : Draft) (text : String) (s : S)
        → save_and_send c chat telegram d text s ≡ (ok tt, R.sent chat text (R.saved telegram d s))
    unfolding save_and_send ◌>>=◌
    save_and_send-ok d text s =
        ground (arith, R.save-ok telegram d s, R.send-ok chat text (R.saved telegram d s))

    pub LeadsTo-end : (d : Draft) (s : S) → R.view s telegram ≡ some d → LeadsTo [] d s
    unfolding for_each
    LeadsTo-end d s e = (s, refl, e)

    pub LeadsTo-next :
        (d d' d'' : Draft) (x : String) (xs : List String) (s : S)
        → R.view s telegram ≡ some d
        → IsAnswer x
        → Keeps d x d' s
        → ((t : S) → R.view t telegram ≡ some d' → LeadsTo xs d'' t)
        → LeadsTo (x ∷ xs) d'' s
    unfolding for_each ◌>>=◌
    LeadsTo-next d d' d'' x xs s e answer (q, keeps) rest =
        let t = R.sent chat q (R.saved telegram d' s) in
        let (s', run, seen) = rest t (R.view-sent telegram chat q _ ∙ R.view-saved telegram d' s) in
        (s', ground (arith, handle-draft d x s e answer, keeps, save_and_send-ok d' q s, run), seen)

    -- A text outside every conversation is taken for its words.
    pub handle-words :
        (x : String) (s : S)
        → R.view s telegram ≡ none
        → str_eq (trim_space x) "/cancel" ≡ false
        → handle go c (record { text = x; chat = chat; sender = telegram }) s
          ≡ run_words go c chat telegram (fields (trim_space x)) s
    unfolding handle ◌>>=◌
    handle-words x s e no_cancel = ground (arith, R.load-ok telegram s)

    -- A first text that keeps the draft `d`, and what the texts behind it lead to.
    pub LeadsTo-command :
        (d d' : Draft) (x q : String) (xs : List String) (s : S)
        → handle go c (record { text = x; chat = chat; sender = telegram }) s
          ≡ save_and_send c chat telegram d q s
        → ((t : S) → R.view t telegram ≡ some d → LeadsTo xs d' t)
        → LeadsTo (x ∷ xs) d' s
    unfolding for_each ◌>>=◌
    LeadsTo-command d d' x q xs s keeps rest =
        let t = R.sent chat q (R.saved telegram d s) in
        let (s', run, seen) = rest t (R.view-sent telegram chat q _ ∙ R.view-saved telegram d s) in
        (s', ground (arith, keeps, save_and_send-ok d q s, run), seen)

pub confirm-IsAnswer : IsAnswer "/confirm"
unfolding trim_space
confirm-IsAnswer = (refl, refl)
