-- ===== src/Base/Text.antt =====
-- What the program uses of Go's `strings`: `TrimSpace`, `Split` by one character, equality.
use Prim.Native.Nat.{ℕ, zero, suc, ◌/◌, ◌%◌}
use Prim.Native.Char.{Char, code}
use Prim.Native.String.{String, ◌++◌ as append}
use text.Mathlib.TextLemmas.{nil-append, cons-append}
use mathlib.Core.Path.{◌≡◌, refl, ap, ◌∙◌}
use mathlib.Core.Bool.{Bool, true, false, ◌&&◌, ◌||◌}
use mathlib.Core.List.{List, [], ◌∷◌}
use native.Mathlib.Omega.{arith}
use agency_bot.Base.Tests.{ltb, ◌==◌, leb, if◌then◌else◌}

-- `unicode.IsSpace` on a code point.
abbrev is_space : ℕ → Bool
is_space c =
    (leb 9 c && leb c 13)
    || c == 32
    || c == 0x85
    || c == 0xA0
    || c == 0x1680
    || (leb 0x2000 c && leb c 0x200A)
    || c == 0x2028
    || c == 0x2029
    || c == 0x202F
    || c == 0x205F
    || c == 0x3000

abbrev pub is_empty : String → Bool
is_empty String.[] = true
is_empty (String.◌∷◌ c s) = false

trim_left : String → String
trim_left String.[] = String.[]
trim_left (String.◌∷◌ c s) = if is_space (code c) then trim_left s else String.◌∷◌ c s

trim_right : String → String
trim_right String.[] = String.[]
trim_right (String.◌∷◌ c s) =
    let rest = trim_right s in
    if is_empty rest && is_space (code c) then String.[] else String.◌∷◌ c rest

-- `strings.TrimSpace`
unfoldable pub trim_space : String → String
unfolding trim_left trim_right
trim_space s = trim_right (trim_left s)

-- The first piece grows by one character.
abbrev push_front : Char → List String → List String
push_front c [] = String.◌∷◌ c String.[] ∷ []
push_front c (p ∷ ps) = String.◌∷◌ c p ∷ ps

-- `strings.Split(s, sep)` for a separator of one character, given by its code point.
unfoldable pub split_on : ℕ → String → List String
split_on sep String.[] = String.[] ∷ []
split_on sep (String.◌∷◌ c s) =
    let rest = split_on sep s in if code c == sep then String.[] ∷ rest else push_front c rest

-- `strings.Join`
unfoldable pub join : String → List String → String
join sep [] = ""
join sep (s ∷ []) = s
join sep (s ∷ t ∷ ts) = append s (append sep (join sep (t ∷ ts)))

-- The word that a text begins with, put in front of the words that follow it.
abbrev with_word : String → List String → List String
with_word w ws = if is_empty w then ws else w ∷ ws

-- The first word of a text and those after it.
fields_from : String → String × List String
fields_from String.[] = ("", [])
fields_from (String.◌∷◌ c s) =
    let (w, ws) = fields_from s in
    if is_space (code c) then ("", with_word w ws) else (String.◌∷◌ c w, ws)

-- `strings.Fields`
unfoldable pub fields : String → List String
unfolding fields_from
fields s = let (w, ws) = fields_from s in with_word w ws

abbrev digit : ℕ → String
digit zero = "0"
digit (suc zero) = "1"
digit (suc (suc zero)) = "2"
digit (suc (suc (suc zero))) = "3"
digit (suc (suc (suc (suc zero)))) = "4"
digit (suc (suc (suc (suc (suc zero))))) = "5"
digit (suc (suc (suc (suc (suc (suc zero)))))) = "6"
digit (suc (suc (suc (suc (suc (suc (suc zero))))))) = "7"
digit (suc (suc (suc (suc (suc (suc (suc (suc zero)))))))) = "8"
digit _ = "9"

-- The verb %d, on fuel: a number has no more digits than it is large.
decimal_from : ℕ → ℕ → String
decimal_from zero n = digit n
decimal_from (suc f) n =
    let rest = append (decimal_from f (n / 10)) (digit (n % 10)) in
    if ltb n 10 then digit n else rest

unfoldable pub decimal : ℕ → String
unfolding decimal_from
decimal n = decimal_from n n

-- Whether a character of the text has the code point.
abbrev pub has_code : ℕ → String → Bool
has_code n String.[] = false
has_code n (String.◌∷◌ c s) = code c == n || has_code n s

pub split_on-whole : (n : ℕ) (s : String) → has_code n s ≡ false → split_on n s ≡ s ∷ []
unfolding split_on
split_on-whole n String.[] h = refl
split_on-whole n (String.◌∷◌ c s) h = ground (arith, split_on-whole n s)

split_here : (c : Char) (t : String) → split_on (code c) (String.◌∷◌ c t) ≡ "" ∷ split_on (code c) t
unfolding split_on
split_here c t = ground arith

-- The first piece ends at the first separator.
pub split_on-append :
    (c : Char) (s t : String)
    → has_code (code c) s ≡ false
    → split_on (code c) (append s (String.◌∷◌ c t)) ≡ s ∷ split_on (code c) t
unfolding split_on
split_on-append c String.[] t h =
    ap (split_on (code c)) (nil-append (String.◌∷◌ c t)) ∙ split_here c t
split_on-append c (String.◌∷◌ d s) t h =
    ap (split_on (code c)) (cons-append d s (String.◌∷◌ c t))
    ∙ ground (arith, split_on-append c s t)

abbrev pub text_of : Char → String
text_of c = String.◌∷◌ c String.[]

abbrev pub AllLack : ℕ → List String → Type 0
AllLack n [] = Unit
AllLack n (s ∷ ss) = (has_code n s ≡ false) × AllLack n ss

-- Pieces without the separator are what a text is split into that they are joined to.
pub split_on-join :
    (c : Char) (s : String) (ss : List String)
    → AllLack (code c) (s ∷ ss)
    → split_on (code c) (join (text_of c) (s ∷ ss)) ≡ s ∷ ss
unfolding join
split_on-join c s [] (h, _) = split_on-whole (code c) s h
split_on-join c s (t ∷ ts) (h, hs) =
    ap (λ r. split_on (code c) (append s r))
      (cons-append c String.[] (join (text_of c) (t ∷ ts))
        ∙ ap (String.◌∷◌ c) (nil-append (join (text_of c) (t ∷ ts))))
    ∙ (split_on-append c s (join (text_of c) (t ∷ ts)) h
        ∙ ap (λ r. s ∷ r) (split_on-join c t ts hs))

trim_space_example : trim_space "  a b " ≡ "a b"
unfolding trim_space
trim_space_example = refl

split_on_example : split_on b'.' "1.2." ≡ "1" ∷ "2" ∷ "" ∷ []
unfolding split_on
split_on_example = refl

fields_example : fields "  /start  anna\tsecret " ≡ "/start" ∷ "anna" ∷ "secret" ∷ []
unfolding fields
fields_example = refl

decimal_example : decimal 1048 ≡ "1048"
unfolding decimal
decimal_example = refl
