-- ===== src/Bot/Redis.antt =====
-- internal/bot/draft.go: the client of Redis and the store of drafts over it. A Go string is a list of
-- bytes here. What the network does is a parameter: `exchange` dials, writes a request and answers
-- the bytes that the server sends back before the deadline.
pub mod Digits
pub mod Requests
pub mod Replies
pub mod Store
use Prim.Native.Char.{Char, code}
use agency_bot.Base.{
  ◌≡◌, ℕ, zero, suc, ◌+◌, ◌-◌, ◌*◌, ℤ, pos, negsuc, String, Bool, true, false, not, ◌&&◌, ◌||◌,
  Option, none, some, List, [], ◌∷◌, ◌++◌, map, length, take, ltb, leb, ◌==◌, if◌then◌else◌,
}
use Prim.Native.Nat.{◌/◌, ◌%◌, ◌^◌}
use agency_bot.Effects.{Result, ok, err, Done, M, ◌>>=◌, pure, throw}
use agency_bot.Bot.Drafts.{Draft}

abbrev pub Bytes : Type 0
Bytes = List ℕ

-- The bytes of a literal of ASCII characters.
abbrev pub bytes_of : String → Bytes
bytes_of String.[] = []
bytes_of (String.◌∷◌ c s) = code c ∷ bytes_of s

-- The digits of a number, on fuel: a number has no more digits than it is large.
unfoldable pub digits : ℕ → ℕ → Bytes
digits zero n = (48 + n) ∷ []
digits (suc f) n =
    let rest = digits f (n / 10) ++ ((48 + n % 10) ∷ []) in if ltb n 10 then (48 + n) ∷ [] else rest

-- `%d` of a length
abbrev pub format : ℕ → Bytes
format n = digits n n

-- `strconv.FormatInt` in base ten
unfoldable pub format_int : ℤ → Bytes
format_int (pos n) = format n
format_int (negsuc n) = b'-' ∷ format (suc n)

abbrev pub crlf : Bytes
crlf = 13 ∷ 10 ∷ []

-- "$%d\r\n%s\r\n"
unfoldable pub bulk : Bytes → Bytes
bulk v = b'$' ∷ (format (length v) ++ (13 ∷ 10 ∷ (v ++ crlf)))

unfoldable pub bulks : List Bytes → Bytes
bulks [] = []
bulks (v ∷ vs) = bulk v ++ bulks vs

-- The request that `command` writes.
unfoldable pub request : List Bytes → Bytes
request values = b'*' ∷ (format (length values) ++ (13 ∷ 10 ∷ bulks values))

-- `reader.ReadString('\n')`: the line without its end, and what is left to read. Without an end of
-- line there is an error.
unfoldable pub read_line : Bytes → Option (Bytes × Bytes)
read_line [] = none
read_line (c ∷ s) =
    let rest = read_line s in
    if c == 10 then some ([], s) else elim rest [ none ↦ none | some r ↦ some (c ∷ r.0, r.1) ]

-- `strings.TrimSuffix(line, "\r")`
unfoldable pub trim_cr : Bytes → Bytes
trim_cr [] = []
trim_cr (c ∷ []) = if c == 13 then [] else c ∷ []
trim_cr (c ∷ d ∷ s) = c ∷ trim_cr (d ∷ s)

-- The digits of `strconv.Atoi`, behind those that make `n`.
unfoldable pub read_digits : ℕ → Bytes → Option ℕ
read_digits n [] = some n
read_digits n (c ∷ s) =
    let rest = read_digits (n * 10 + (c - 48)) s in if leb 48 c && leb c 57 then rest else none

-- An `int` of 64 bits.
abbrev in_range : ℤ → Option ℤ
in_range (pos n) = if ltb n (2 ^ 63) then some (pos n) else none
in_range (negsuc n) = if ltb n (2 ^ 63) then some (negsuc n) else none

abbrev negated : ℕ → ℤ
negated zero = pos 0
negated (suc n) = negsuc n

-- Digits, of which there has to be one.
unfoldable pub read_some : (ℕ → ℤ) → Bytes → Option ℤ
read_some sign [] = none
read_some sign (c ∷ s) = elim (read_digits 0 (c ∷ s)) [ none ↦ none | some n ↦ in_range (sign n) ]

-- `strconv.Atoi`
unfoldable pub atoi : Bytes → Option ℤ
atoi [] = none
atoi (c ∷ s) =
    if c == b'-'
    then read_some negated s
    else (if c == b'+' then read_some pos s else read_some pos (c ∷ s))

-- The first bytes of a buffer of zeros into which some were read.
unfoldable pub filled : ℕ → Bytes → Bytes
filled zero got = []
filled (suc n) [] = 0 ∷ filled n []
filled (suc n) (c ∷ got) = c ∷ filled n got

-- One call of `reader.Read` with a buffer of `n` bytes, of which it fills what is at hand, by `chunk`;
-- then the first `size` bytes of the buffer.
unfoldable pub read_bulk : (ℕ → Bytes → ℕ) → ℕ → Bytes → Result String (Bytes × Bool)
read_bulk chunk size [] = err "EOF"
read_bulk chunk size (c ∷ rest) =
    ok (filled size (take (size + 2) (take (chunk (size + 2) (c ∷ rest)) (c ∷ rest))), true)

-- The reply with the prefix `$`; a size below -1, which the server does not send, stops the program.
unfoldable pub bulk_reply : (ℕ → Bytes → ℕ) → Option ℤ → Bytes → Result String (Bytes × Bool)
bulk_reply chunk none rest = err "strconv.Atoi: invalid syntax"
bulk_reply chunk (some (negsuc zero)) rest = ok ([], false)
bulk_reply chunk (some (negsuc (suc n))) rest = err "panic: makeslice"
bulk_reply chunk (some (pos size)) rest = read_bulk chunk size rest

-- The switch of `command` on the prefix; the texts of the errors are shorter.
unfoldable pub reply : (ℕ → Bytes → ℕ) → ℕ → Bytes → Bytes → Result String (Bytes × Bool)
reply chunk prefix line rest =
    if prefix == b'+' || prefix == b':'
    then ok (line, true)
    else (if prefix == b'-'
        then err "redis: error"
        else (if prefix == b'$'
            then bulk_reply chunk (atoi line) rest
            else err "unexpected redis response"))

-- What `command` makes of the bytes of the reply.
unfoldable pub receive : (ℕ → Bytes → ℕ) → Bytes → Result String (Bytes × Bool)
receive chunk [] = err "EOF"
receive chunk (prefix ∷ rest) = elim (read_line rest) [
  | none ↦ err "EOF"
  | some r ↦ reply chunk prefix (trim_cr r.0) r.1
]

-- The network, and encoding/json for drafts.
pub record Network (S : Type 0) : Type 0 where
  pub exchange : Bytes → M S String Bytes
  pub chunk : ℕ → Bytes → ℕ

pub record Codec : Type 0 where
  pub encode : Draft → Bytes
  pub decode : Bytes → Option Draft

-- `draftKey`
unfoldable pub draft_key : ℤ → Bytes
draft_key telegram = bytes_of "bot:order-draft:" ++ format_int telegram

module _ {S : Type 0} (net : Network S) where
  -- `command`
  unfoldable pub command : List Bytes → M S String (Bytes × Bool)
  command values = net.exchange (request values) >>= λ bytes s. (receive net.chunk bytes, s)

-- What `Load` makes of the value.
unfoldable pub loaded : Codec → Bytes × Bool → Result String (Option Draft)
loaded json (value, false) = ok none
loaded json (value, true) = elim (json.decode value) [
  | none ↦ err "json: cannot unmarshal"
  | some d ↦ ok (some d)
]

module _ {S : Type 0} (net : Network S) (json : Codec) where
  -- `Load`
  unfoldable pub load : ℤ → M S String (Option Draft)
  load telegram =
      command net (bytes_of "GET" ∷ draft_key telegram ∷ []) >>= λ r s. (loaded json r, s)

  -- `Save`, with `draftTTL` in seconds
  unfoldable pub save : ℤ → Draft → M S String Done
  save telegram d =
      command net
        (bytes_of "SET" ∷ draft_key telegram ∷ json.encode d ∷ bytes_of "EX" ∷ bytes_of "1800" ∷ [])
      >>= λ r. pure tt

  -- `Delete`
  unfoldable pub delete : ℤ → M S String Done
  delete telegram = command net (bytes_of "DEL" ∷ draft_key telegram ∷ []) >>= λ r. pure tt
