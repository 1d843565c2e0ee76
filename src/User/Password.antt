-- ===== src/User/Password.antt =====
-- internal/user/password/argon2id.go: hashes of passwords, over golang.org/x/crypto/argon2 and
-- encoding/base64. Bytes are a list of numbers.
pub mod RoundTrip
use Prim.Native.Char.{Char, code}
use agency_bot.Base.{
  ℕ, ◌≡◌, String, Bool, true, false, not, ◌&&◌, Option, none, some, List, [], ◌∷◌, length, list_eq,
  str_eq, has_code, split_on, join,
}
use agency_bot.Effects.{Err, Done, M, ◌>>=◌, pure}
use agency_bot.User.App.{Passwords}

abbrev pub Bytes : Type 0
Bytes = List ℕ

-- The cost parameters of a hash: memory, iterations, parallelism.
abbrev pub Costs : Type 0
Costs = ℕ × ℕ × ℕ

-- The text that the constants of the file make of "m=%d,t=%d,p=%d".
abbrev pub costs_text : String
costs_text = "m=65536,t=3,p=2"

abbrev pub costs : Costs
costs = (65536, 3, 2)

-- What the package takes from outside: `argon2.IDKey` of a password, a salt, costs and a length,
-- which answers as many bytes; base64 without padding, whose texts decode to what they were made of
-- and have no `$`; and `fmt.Sscanf` with the format of the costs.
pub record Argon : Type 0 where
  pub id_key : String → Bytes → Costs → ℕ → Bytes
  pub length-id_key :
      (p : String) (salt : Bytes) (c : Costs) (n : ℕ) → length (id_key p salt c n) ≡ n
  pub encode : Bytes → String
  pub decode : String → Option Bytes
  pub decode-encode : (b : Bytes) → decode (encode b) ≡ some b
  pub has_code-encode : (b : Bytes) → has_code b'$' (encode b) ≡ false
  pub scan_costs : String → Option Costs
  pub scan_costs-text : scan_costs costs_text ≡ some costs

module _ (lib : Argon) where
  -- The text that `Hash` answers for a salt, "$argon2id$v=19$m=%d,t=%d,p=%d$%s$%s".
  unfoldable pub hash_with : String → Bytes → String
  hash_with value salt = join "$" (
      ""
      ∷ "argon2id"
      ∷ "v=19"
      ∷ costs_text
      ∷ lib.encode salt
      ∷ lib.encode (lib.id_key value salt costs 32)
      ∷ [])

  -- The end of `Verify`, where the costs, the salt and the key have been read.
  unfoldable pub verify_key : String → Option Costs → Option Bytes → Option Bytes → Bool
  verify_key value none salt key = false
  verify_key value (some c) none key = false
  verify_key value (some c) (some salt) none = false
  verify_key value (some c) (some salt) (some key) =
      list_eq (lib.id_key value salt c (length key)) key

  -- The parts between the signs `$`: there have to be six, the second of which is "argon2id".
  unfoldable pub verify_parts : String → List String → Bool
  verify_parts value (p ∷ name ∷ v ∷ c ∷ salt ∷ key ∷ []) =
      str_eq name "argon2id"
      && verify_key value (lib.scan_costs c) (lib.decode salt) (lib.decode key)
  verify_parts value _ = false

  -- `Verify`
  unfoldable pub verify : String → String → Bool
  verify value encoded = verify_parts value (split_on b'$' encoded)

  -- `Hash`, where `read_salt` is `rand.Read` of 16 bytes.
  unfoldable pub hash : {S : Type 0} → M S Err Bytes → String → M S Err String
  hash read_salt value = read_salt >>= λ salt. pure (hash_with value salt)

  -- The package as the interface that the service uses.
  abbrev pub passwords : {S : Type 0} → M S Err Bytes → Passwords S
  passwords read_salt = record { hash = hash read_salt; verify = verify }
