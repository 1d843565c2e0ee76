-- ===== src/User/Domain.antt =====
-- internal/user/domain/user.go. A string is a sequence of code points; the sentinel errors are those
-- of `Err`.
use Prim.Native.Char.{code}
use agency_bot.Base.{
  ℕ, ◌+◌, suc, ℤ, ltb, leb, ◌==◌, String, Bool, true, false, ◌&&◌, ◌||◌, Option, List, [], ◌∷◌, any,
  every, str_eq, if◌then◌else◌,
}
use agency_bot.Externals.{Uuid}

-- `Role` is a string type with two constants; any other string is `unknown_role`.
pub data Role : Type 0 where
  admin performer : Role
  unknown_role : String → Role

abbrev pub is_admin : Role → Bool
is_admin admin = true
is_admin _ = false

abbrev pub is_performer : Role → Bool
is_performer performer = true
is_performer _ = false

-- `User`
pub record User : Type 0 where
  pub id : Uuid
  pub login : String
  pub password_hash : String
  pub full_name : String
  pub role : Role
  pub is_active : Bool
  pub telegram_id : Option ℤ
  pub permissions : List String
  pub created_at : ℕ
  pub updated_at : ℕ

-- `permissions`
abbrev pub all_permissions : List String
all_permissions =
    "USER_READ" ∷ "USER_CREATE" ∷ "USER_UPDATE" ∷ "USER_DISABLE" ∷ "ORDER_READ_ASSIGNED"
    ∷ "ORDER_READ_ALL" ∷ "ORDER_CREATE" ∷ "ORDER_UPDATE" ∷ "ORDER_CHANGE_STATUS"
    ∷ "ORDER_HISTORY_READ" ∷ []

-- `ValidPermissions`
unfoldable pub valid_permissions : List String → Bool
valid_permissions items = every (λ p. any (λ q. str_eq q p) all_permissions) items

-- `DefaultPermissions`
unfoldable pub default_permissions : Role → List String
default_permissions role = if is_admin role then all_permissions else "ORDER_READ_ASSIGNED" ∷ []

-- `[a-zA-Z0-9]`
abbrev is_alphanumeric : ℕ → Bool
is_alphanumeric c =
    (leb b'a' c && leb c b'z') || (leb b'A' c && leb c b'Z') || (leb b'0' c && leb c b'9')

-- `[a-zA-Z0-9._-]`
abbrev is_login_char : ℕ → Bool
is_login_char c = is_alphanumeric c || c == b'.' || c == b'_' || c == b'-'

abbrev every_char : (ℕ → Bool) → String → Bool
every_char p String.[] = true
every_char p (String.◌∷◌ c s) = p (code c) && every_char p s

abbrev pub rune_count : String → ℕ
rune_count String.[] = 0
rune_count (String.◌∷◌ c s) = suc (rune_count s)

-- `ValidLogin`, the pattern `^[a-zA-Z0-9][a-zA-Z0-9._-]{2,63}$`
unfoldable pub valid_login : String → Bool
valid_login String.[] = false
valid_login (String.◌∷◌ c s) =
    is_alphanumeric (code c)
    && (every_char is_login_char s && (leb 2 (rune_count s) && leb (rune_count s) 63))

-- The number of bytes of a code point in UTF-8.
abbrev rune_size : ℕ → ℕ
rune_size c =
    if ltb c 0x80 then 1 else (if ltb c 0x800 then 2 else (if ltb c 0x10000 then 3 else 4))

-- `len` of a string
abbrev pub byte_length : String → ℕ
byte_length String.[] = 0
byte_length (String.◌∷◌ c s) = rune_size (code c) + byte_length s
