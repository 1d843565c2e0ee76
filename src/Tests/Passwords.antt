-- ===== src/Tests/Passwords.antt =====
-- A witness about passwords, with a key that repeats a password's length and a code of bytes in unary.
use Prim.Native.Char.{code}
use agency_bot.Base.{
  ℕ, zero, suc, ◌+◌, ◌==◌, ◌≡◌, refl, ap, ◌∙◌, ◌↔◌, String, true, false, none, some, [], ◌∷◌,
  length, has_code, str_eq, arith, if◌then◌else◌,
}
use agency_bot.User.Password.{Bytes, costs, costs_text, Argon, hash_with, verify}
use agency_bot.User.Password.RoundTrip.{verify-hash}

abbrev unary : ℕ → String → String
unary zero s = String.◌∷◌ "." s
unary (suc n) s = String.◌∷◌ "x" (unary n s)

abbrev encode : Bytes → String
encode [] = String.[]
encode (b ∷ bs) = unary b (encode bs)

abbrev decode_from : ℕ → String → Bytes
decode_from k String.[] = []
decode_from k (String.◌∷◌ c s) =
    if code c == b'x' then decode_from (suc k) s else k ∷ decode_from 0 s

decode-unary :
    (n k m : ℕ) (s : String) → k + n ≡ m → decode_from k (unary n s) ≡ m ∷ decode_from 0 s
decode-unary zero k m s e = ap (λ x. x ∷ decode_from 0 s) (omega (arith, e))
decode-unary (suc n) k m s e = decode-unary n (suc k) m s (omega (arith, e))

decode_from-encode : (b : Bytes) → decode_from 0 (encode b) ≡ b
decode_from-encode [] = refl
decode_from-encode (b ∷ bs) =
    decode-unary b 0 b (encode bs) (omega arith)
    ∙ ap (λ (xs : Bytes). b ∷ xs) (decode_from-encode bs)

pub decode-encode : (b : Bytes) → some (decode_from 0 (encode b)) ≡ some b
decode-encode b = ap some (decode_from-encode b)

has_code-unary : (n : ℕ) (s : String) → has_code b'$' s ≡ false → has_code b'$' (unary n s) ≡ false
has_code-unary zero s h = h
has_code-unary (suc n) s h = has_code-unary n s h

pub has_code-encode : (b : Bytes) → has_code b'$' (encode b) ≡ false
has_code-encode [] = refl
has_code-encode (b ∷ bs) = has_code-unary b (encode bs) (has_code-encode bs)

abbrev size : String → ℕ
size String.[] = 0
size (String.◌∷◌ c s) = suc (size s)

abbrev repeat : ℕ → ℕ → Bytes
repeat x zero = []
repeat x (suc n) = x ∷ repeat x n

pub length-repeat : (x n : ℕ) → length (repeat x n) ≡ n
length-repeat x zero = refl
length-repeat x (suc n) = ap suc (length-repeat x n)

abbrev pub argon : Argon
argon = record {
  id_key = λ p salt c n. repeat (size p) n;
  length-id_key = λ p salt c n. length-repeat (size p) n;
  encode = encode;
  decode = λ s. some (decode_from 0 s);
  decode-encode = decode-encode;
  has_code-encode = has_code-encode;
  scan_costs = λ s. if str_eq s costs_text then some costs else none;
  scan_costs-text = refl;
}

verify-hash_example :
    (verify argon "guess" (hash_with argon "secret" (1 ∷ 2 ∷ [])) ≡ true)
    ↔ (repeat (size "guess") 32 ≡ repeat (size "secret") 32)
verify-hash_example = verify-hash argon "secret" "guess" (1 ∷ 2 ∷ [])
