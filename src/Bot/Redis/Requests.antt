-- ===== src/Bot/Redis/Requests.antt =====
-- The requests of `command` against the protocol of Redis (RESP): an array of bulk strings.
use agency_bot.Base.{
  ◌≡◌, refl, ap, ◌∙◌, ◌<◌, ℕ, zero, suc, ◌+◌, ◌-◌, ◌*◌, ◌&&◌, Option, none, some, List, [], ◌∷◌,
  ◌++◌, length, ◌==◌, if◌then◌else◌, append_assoc, arith,
}
use agency_bot.Bot.Redis.Digits.{is_digit, digit-is_digit, read-format}
use agency_bot.Bot.Redis.{Bytes, format, crlf, bulk, bulks, request}

abbrev bind : {A B : Type 0} → Option A → (A → Option B) → Option B
bind none f = none
bind (some a) f = f a

-- How the protocol reads: the end of a line, a number with its line, and as many bytes.
abbrev line_end : Bytes → Option Bytes
line_end (c ∷ d ∷ s) = if c == 13 && d == 10 then some s else none
line_end _ = none

pub number : ℕ → Bytes → Option (ℕ × Bytes)
number n [] = none
number n (c ∷ s) =
    let rest = number (n * 10 + (c - 48)) s in
    if is_digit c then rest else bind (line_end (c ∷ s)) λ s. some (n, s)

pub split_at : ℕ → Bytes → Option (Bytes × Bytes)
split_at zero s = some ([], s)
split_at (suc n) [] = none
split_at (suc n) (c ∷ s) = bind (split_at n s) λ r. some (c ∷ r.0, r.1)

-- A bulk string: the sign `$`, its length, and that many bytes.
pub item : Bytes → Option (Bytes × Bytes)
unfolding number split_at
item [] = none
item (c ∷ s) =
    if c == b'$'
    then (bind (number 0 s)
        λ r. bind (split_at r.0 r.1) λ v. bind (line_end v.1) λ rest. some (v.0, rest))
    else none

-- So many bulk strings, and nothing behind them.
pub items : ℕ → Bytes → Option (List Bytes)
unfolding item
items zero [] = some []
items zero (c ∷ s) = none
items (suc n) s = bind (item s) λ r. bind (items n r.1) λ vs. some (r.0 ∷ vs)

-- An array of bulk strings: the sign `*`, their number, and the strings.
pub parse : Bytes → Option (List Bytes)
unfolding items
parse [] = none
parse (c ∷ s) = if c == b'*' then (bind (number 0 s) λ r. items r.0 r.1) else none

number-digit :
    (m n : ℕ) (rest : Bytes) → n < 10 → number m ((48 + n) ∷ rest) ≡ number (m * 10 + n) rest
unfolding number
number-digit m n rest h = rw (digit-is_digit n h) (ap (λ k. number k rest) (omega arith))

number-end : (n : ℕ) (rest : Bytes) → number n (13 ∷ 10 ∷ rest) ≡ some (n, rest)
unfolding number
number-end n rest = refl

number-format : (n : ℕ) (rest : Bytes) → number 0 (format n ++ (13 ∷ 10 ∷ rest)) ≡ some (n, rest)
number-format n rest = read-format number number-digit n (13 ∷ 10 ∷ rest) ∙ number-end n rest

split_at-append : (v rest : Bytes) → split_at (length v) (v ++ rest) ≡ some (v, rest)
unfolding split_at
split_at-append [] rest = refl
split_at-append (c ∷ v) rest = ground (arith, split_at-append v rest)

item-bulk : (v rest : Bytes) → item (bulk v ++ rest) ≡ some (v, rest)
unfolding item bulk
item-bulk v rest = ground (arith, line, split_at-append v (13 ∷ 10 ∷ rest))
  where
    line :
        number 0 ((format (length v) ++ (13 ∷ 10 ∷ (v ++ crlf))) ++ rest)
        ≡ some (length v, v ++ (13 ∷ 10 ∷ rest))
    line =
        ap (number 0) (append_assoc (format (length v)) (13 ∷ 10 ∷ (v ++ crlf)) rest)
        ∙ (number-format (length v) ((v ++ crlf) ++ rest)
            ∙ ap (λ k. some (length v, k)) (append_assoc v crlf rest))

items-bulks : (vs : List Bytes) → items (length vs) (bulks vs) ≡ some vs
unfolding items bulks
items-bulks [] = refl
items-bulks (v ∷ vs) = ground (arith, item-bulk v (bulks vs), items-bulks vs)

-- The bytes that `command` writes are, for the protocol, exactly its values, whatever bytes these have.
pub parse-request : (values : List Bytes) → parse (request values) ≡ some values
unfolding parse request
parse-request values =
    ground (arith, number-format (length values) (bulks values), items-bulks values)
