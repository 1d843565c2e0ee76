-- ===== src/Bot/Redis/Replies.antt =====
-- The replies of the protocol of Redis as `command` reads them.
use agency_bot.Base.{
  ◌≡◌, refl, sym, ap, ◌∙◌, ◌≤◌, ◌<◌, ℕ, zero, suc, ◌+◌, ◌*◌, ◌^◌, pos, String, Bool, true, false,
  Option, none, some, [], ◌∷◌, ◌++◌, length, take, every, ltb, append-nil, arith, Bool-cases, inl,
  inr,
}
use Prim.Native.Nat.{◌/◌, ◌%◌}
use agency_bot.Effects.{Result, ok, err}
use agency_bot.Bot.Redis.{
  Bytes, bytes_of, digits, format, crlf, bulk, read_line, trim_cr, read_digits, read_some, atoi,
  filled, read_bulk, bulk_reply, reply, receive,
}
use agency_bot.Bot.Redis.Digits.{is_digit, digit-is_digit, read-format, every-format}

read_line-append :
    (xs rest : Bytes)
    → every is_digit xs ≡ true
    → read_line (xs ++ (13 ∷ 10 ∷ rest)) ≡ some (xs ++ (13 ∷ []), rest)
unfolding read_line
read_line-append [] rest h = refl
read_line-append (c ∷ xs) rest h = ground (arith, read_line-append xs rest)

trim_cr-append : (xs : Bytes) → trim_cr (xs ++ (13 ∷ [])) ≡ xs
unfolding trim_cr
trim_cr-append [] = refl
trim_cr-append (c ∷ []) = refl
trim_cr-append (c ∷ d ∷ xs) = ap (λ (ys : Bytes). c ∷ ys) (trim_cr-append (d ∷ xs))

read_digits-digit :
    (m n : ℕ) (rest : Bytes)
    → n < 10
    → read_digits m ((48 + n) ∷ rest) ≡ read_digits (m * 10 + n) rest
unfolding read_digits
read_digits-digit m n rest h = rw (digit-is_digit n h) (ap (λ k. read_digits k rest) (omega arith))

pub read_digits-format : (n : ℕ) → read_digits 0 (format n) ≡ some n
unfolding read_digits
read_digits-format n =
    ap (read_digits 0) (sym (append-nil (format n)))
    ∙ read-format read_digits read_digits-digit n []

abbrev pub is_nil : Bytes → Bool
is_nil [] = true
is_nil (c ∷ s) = false

append-cons : (xs : Bytes) (c : ℕ) → is_nil (xs ++ (c ∷ [])) ≡ false
append-cons [] c = refl
append-cons (x ∷ xs) c = refl

pub format-cons : (n : ℕ) → is_nil (format n) ≡ false
unfolding digits
format-cons zero = refl
format-cons (suc n) = elim (Bool-cases (ltb (suc n) 10)) [
  | inl small ↦ rw small refl
  | inr large ↦ rw large (append-cons (digits n (suc n / 10)) (48 + suc n % 10))
]

atoi-digits :
    (n : ℕ) (xs : Bytes)
    → n < 2 ^ 63
    → every is_digit xs ≡ true
    → is_nil xs ≡ false
    → read_digits 0 xs ≡ some n
    → atoi xs ≡ some (pos n)
unfolding atoi read_some
atoi-digits n [] small h e r = absurd (ground (arith, e))
atoi-digits n (c ∷ xs) small h e r = ground (arith, small, h, r)

atoi-format : (n : ℕ) → n < 2 ^ 63 → atoi (format n) ≡ some (pos n)
atoi-format n h = atoi-digits n (format n) h (every-format n) (format-cons n) (read_digits-format n)

-- The end of the line behind the bytes does not matter for what the buffer gets of them.
filled-append :
    (v rest : Bytes) (m k : ℕ)
    → length v ≤ m
    → filled (length v) (take m (take k (v ++ rest))) ≡ filled (length v) (take k v)
unfolding filled
filled-append [] rest m k h = refl
filled-append (c ∷ v) rest zero k h = absurd (omega (arith, h))
filled-append (c ∷ v) rest (suc m) zero h = refl
filled-append (c ∷ v) rest (suc m) (suc k) h =
    ap (λ (xs : Bytes). c ∷ xs) (filled-append v rest m k (omega (arith, h)))

pub filled-whole : (v : Bytes) (k : ℕ) → length v ≤ k → filled (length v) (take k v) ≡ v
unfolding filled
filled-whole [] k h = refl
filled-whole (c ∷ v) zero h = absurd (omega (arith, h))
filled-whole (c ∷ v) (suc k) h = ap (λ (xs : Bytes). c ∷ xs) (filled-whole v k (omega (arith, h)))

read_bulk-eq :
    (chunk : ℕ → Bytes → ℕ) (size : ℕ) (v : Bytes)
    → read_bulk chunk size (v ++ crlf)
      ≡ ok (filled size (take (size + 2) (take (chunk (size + 2) (v ++ crlf)) (v ++ crlf))), true)
unfolding read_bulk
read_bulk-eq chunk size [] = refl
read_bulk-eq chunk size (c ∷ v) = refl

pub receive-line :
    (chunk : ℕ → Bytes → ℕ) (prefix : ℕ) (xs rest : Bytes)
    → every is_digit xs ≡ true
    → receive chunk (prefix ∷ (xs ++ (13 ∷ 10 ∷ rest))) ≡ reply chunk prefix xs rest
unfolding receive
receive-line chunk prefix xs rest h =
    ap
      (λ (o : Option (Bytes × Bytes)). elim o as (λ _. Result String (Bytes × Bool)) [
        | none ↦ err "EOF"
        | some r ↦ reply chunk prefix (trim_cr r.0) r.1
      ])
      (read_line-append xs rest h)
    ∙ ap (λ l. reply chunk prefix l rest) (trim_cr-append xs)

receive-bulk_eq :
    (chunk : ℕ → Bytes → ℕ) (v : Bytes)
    → length v < 2 ^ 63
    → receive chunk (bulk v) ≡ read_bulk chunk (length v) (v ++ crlf)
unfolding bulk reply bulk_reply
receive-bulk_eq chunk v small =
    receive-line chunk 36 (format (length v)) (v ++ crlf) (every-format (length v))
    ∙ ap (λ o. bulk_reply chunk o (v ++ crlf)) (atoi-format (length v) small)

module _ (chunk : ℕ → Bytes → ℕ) (v : Bytes) where
  -- How many bytes behind the first line of the reply one `Read` gives.
  abbrev pub given : ℕ
  given = chunk (length v + 2) (v ++ crlf)

  -- A bulk string that an int can measure is received with its length, and of its bytes with those
  -- that one Read gives, and zeros in place of the others: there is no error when Read gives fewer.
  pub receive-bulk :
      length v < 2 ^ 63 → receive chunk (bulk v) ≡ ok (filled (length v) (take given v), true)
  receive-bulk small =
      receive-bulk_eq chunk v small
      ∙ (read_bulk-eq chunk (length v) v
          ∙ ap (λ (xs : Bytes). ok (xs, true))
              (filled-append v crlf (length v + 2) given (omega arith)))

pub receive-ok :
    (chunk : ℕ → Bytes → ℕ) → receive chunk (bytes_of "+OK\r\n") ≡ ok (bytes_of "OK", true)
unfolding receive reply read_line trim_cr
receive-ok chunk = refl

pub receive-nil : (chunk : ℕ → Bytes → ℕ) → receive chunk (bytes_of "$-1\r\n") ≡ ok ([], false)
unfolding receive reply read_line trim_cr atoi read_some read_digits bulk_reply
receive-nil chunk = refl
