-- ===== src/Bot/Redis/Digits.antt =====
-- What a reader of digits makes of a formatted number.
use agency_bot.Base.{
  ◌≡◌, refl, sym, ap, ◌∙◌, ◌≤◌, ◌<◌, ℕ, zero, suc, ◌+◌, ◌*◌, Bool, true, ◌&&◌, [], ◌∷◌, ◌++◌, every,
  ltb, leb, append_assoc, append-nil, arith, Bool-cases, inl, inr,
}
use Prim.Native.Nat.{◌/◌, ◌%◌}
use agency_bot.Bot.Redis.{Bytes, digits, format}

abbrev pub is_digit : ℕ → Bool
is_digit c = leb 48 c && leb c 57

pub digit-is_digit : (n : ℕ) → n < 10 → is_digit (48 + n) ≡ true
digit-is_digit n h = ground (arith, h)

-- A reader that takes in a digit as the next one of its number.
module _ {B : Type 0} (read : ℕ → Bytes → B)
    (step : (m n : ℕ) (rest : Bytes)
      → n < 10
      → read m ((48 + n) ∷ rest) ≡ read (m * 10 + n) rest) where
  read-digits : (f n : ℕ) (rest : Bytes) → n ≤ f → read 0 (digits f n ++ rest) ≡ read n rest
  unfolding digits
  read-digits zero n rest h = step 0 n rest (omega (arith, h)) ∙ ap (λ k. read k rest) (omega arith)
  read-digits (suc f) n rest h = elim (Bool-cases (ltb n 10)) [
    | inl small ↦
        rw small (step 0 n rest (ground (arith, small)) ∙ ap (λ k. read k rest) (omega arith))
    | inr large ↦ rw large (
        ap (read 0) (append_assoc (digits f (n / 10)) ((48 + n % 10) ∷ []) rest)
        ∙ (read-digits f (n / 10) ((48 + n % 10) ∷ rest) (ground (arith, large))
            ∙ (step (n / 10) (n % 10) rest (omega arith) ∙ ap (λ k. read k rest) (omega arith))))
  ]

  pub read-format : (n : ℕ) (rest : Bytes) → read 0 (format n ++ rest) ≡ read n rest
  read-format n rest = read-digits n n rest (omega arith)

pub every-format : (n : ℕ) → every is_digit (format n) ≡ true
every-format n =
    ap (every is_digit) (sym (append-nil (format n)))
    ∙ read-format (λ _ s. every is_digit s) step n []
  where
    step :
        (m k : ℕ) (rest : Bytes) → k < 10 → every is_digit ((48 + k) ∷ rest) ≡ every is_digit rest
    step m k rest h = rw (digit-is_digit k h) refl
