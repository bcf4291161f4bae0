-- ===== src/Prelude/Encodings.antt =====
-- encoding/hex and base64.StdEncoding of encoding/base64, with their round trips.
use Prim.Native.Nat.{ℕ, ◌+◌, ◌-◌, ◌*◌, ◌/◌, ◌%◌, ◌<◌}
use mathlib.Core.Path.{◌≡◌, refl, ap, ap₂, ◌∙◌}
use mathlib.Core.Bool.{false, ◌&&◌, ◌||◌}
use mathlib.Core.List.{[], ◌∷◌}
use mathlib.Core.Option.{Option, none, some}
use native.Mathlib.Omega.{arith}
use ai_lab.Prelude.Tests.{ltb, leb, ◌==◌, if◌then◌else◌}
use ai_lab.Prelude.Lists.{All}
use ai_lab.Prelude.Texts.{Text}

abbrev pub IsBytes : Text → Type 0
IsBytes = All (λ c. c < 256)

-- A digit in either case.
unfoldable pub hex_digit : ℕ → Option ℕ
hex_digit c =
    if leb b'0' c && leb c b'9'
    then some (c - b'0')
    else if leb b'a' c && leb c b'f'
    then some (c - b'a' + 10)
    else if leb b'A' c && leb c b'F'
    then some (c - b'A' + 10)
    else none

abbrev pub hex_byte : Option ℕ → Option ℕ → Option Text → Option Text
hex_byte (some a) (some b) (some s) = some ((a * 16 + b) ∷ s)
hex_byte _ _ _ = none

-- hex.DecodeString
unfoldable pub hex_decode : Text → Option Text
unfolding hex_digit
hex_decode [] = some []
hex_decode (c ∷ []) = none
hex_decode (c ∷ d ∷ s) = hex_byte (hex_digit c) (hex_digit d) (hex_decode s)

unfoldable pub hex_char : ℕ → ℕ
hex_char n = if ltb n 10 then b'0' + n else b'a' + (n - 10)

-- hex.EncodeToString
unfoldable pub hex_encode : Text → Text
unfolding hex_char
hex_encode [] = []
hex_encode (c ∷ s) = hex_char (c / 16) ∷ hex_char (c % 16) ∷ hex_encode s

hex_digit-char : (n : ℕ) → n < 16 → hex_digit (hex_char n) ≡ some n
unfolding hex_digit hex_char
hex_digit-char n h = ground arith

pub hex_decode-encode : (s : Text) → IsBytes s → hex_decode (hex_encode s) ≡ some s
unfolding hex_decode hex_encode
hex_decode-encode [] h = refl
hex_decode-encode (c ∷ s) h =
    rw
      (
        hex_digit-char (c / 16) (omega (arith, h.0)),
        hex_digit-char (c % 16) (omega arith),
        hex_decode-encode s h.1,
      )
      (whole (omega arith))
  where
    whole : {n : ℕ} → n ≡ c → some (n ∷ s) ≡ some (c ∷ s)
    whole e = cc

unfoldable pub base64_char : ℕ → ℕ
base64_char n =
    if ltb n 26
    then b'A' + n
    else if ltb n 52
    then b'a' + (n - 26)
    else if ltb n 62
    then b'0' + (n - 52)
    else if n == 62
    then b'+'
    else b'/'

unfoldable pub base64_digit : ℕ → Option ℕ
base64_digit c =
    if leb b'A' c && leb c b'Z'
    then some (c - b'A')
    else if leb b'a' c && leb c b'z'
    then some (c - b'a' + 26)
    else if leb b'0' c && leb c b'9'
    then some (c - b'0' + 52)
    else if c == b'+'
    then some 62
    else if c == b'/'
    then some 63
    else none

-- StdEncoding.EncodeToString
unfoldable pub base64_encode : Text → Text
unfolding base64_char
base64_encode [] = []
base64_encode (a ∷ []) = base64_char (a / 4) ∷ base64_char (a % 4 * 16) ∷ b'=' ∷ b'=' ∷ []
base64_encode (a ∷ b ∷ []) =
    base64_char (a / 4) ∷ base64_char (a % 4 * 16 + b / 16) ∷ base64_char (b % 16 * 4) ∷ b'=' ∷ []
base64_encode (a ∷ b ∷ c ∷ s) =
    base64_char (a / 4)
    ∷ base64_char (a % 4 * 16 + b / 16)
    ∷ base64_char (b % 16 * 4 + c / 64)
    ∷ base64_char (c % 64)
    ∷ base64_encode s

-- A group of four: two, three or four digits, where padding ends the text.
abbrev pub one_byte : Option ℕ → Option ℕ → Option Text
one_byte (some w) (some x) = some ((w * 4 + x / 16) ∷ [])
one_byte _ _ = none

abbrev pub two_bytes : Option ℕ → Option ℕ → Option ℕ → Option Text
two_bytes (some w) (some x) (some y) = some ((w * 4 + x / 16) ∷ (x % 16 * 16 + y / 4) ∷ [])
two_bytes _ _ _ = none

abbrev pub three_bytes : Option ℕ → Option ℕ → Option ℕ → Option ℕ → Option Text → Option Text
three_bytes (some w) (some x) (some y) (some z) (some s) =
    some ((w * 4 + x / 16) ∷ (x % 16 * 16 + y / 4) ∷ (y % 4 * 64 + z) ∷ s)
three_bytes _ _ _ _ _ = none

abbrev pub ends_here : Text → Option Text → Option Text
ends_here [] out = out
ends_here (c ∷ s) out = none

unfoldable pub base64_groups : Text → Option Text
unfolding base64_digit
base64_groups [] = some []
base64_groups (w ∷ x ∷ y ∷ z ∷ s) =
    let rest = base64_groups s in
    if z == b'='
    then (if y == b'='
        then ends_here s (one_byte (base64_digit w) (base64_digit x))
        else ends_here s (two_bytes (base64_digit w) (base64_digit x) (base64_digit y)))
    else three_bytes (base64_digit w) (base64_digit x) (base64_digit y) (base64_digit z) rest
base64_groups _ = none

-- The decoder passes over the ends of lines.
abbrev pub without_newlines : Text → Text
without_newlines [] = []
without_newlines (c ∷ s) =
    let rest = without_newlines s in if (c == 10) || (c == 13) then rest else c ∷ rest

-- StdEncoding.DecodeString
unfoldable pub base64_decode : Text → Option Text
unfolding base64_groups
base64_decode s = base64_groups (without_newlines s)

base64_digit-char : (n : ℕ) → n < 64 → base64_digit (base64_char n) ≡ some n
unfolding base64_digit base64_char
base64_digit-char n h = ground arith

char_not_pad : (n : ℕ) → n < 64 → (base64_char n == b'=') ≡ false
unfolding base64_char
char_not_pad n h = ground arith

char_not_newline : (n : ℕ) → n < 64 → ((base64_char n == 10) || (base64_char n == 13)) ≡ false
unfolding base64_char
char_not_newline n h = ground arith

one_back : (a : ℕ) → some ((a / 4 * 4 + a % 4 * 16 / 16) ∷ []) ≡ some (a ∷ [])
one_back a = let e : a / 4 * 4 + a % 4 * 16 / 16 ≡ a = omega arith in ap (λ n. some (n ∷ [])) e

first_back : (a b : ℕ) → b < 256 → a / 4 * 4 + (a % 4 * 16 + b / 16) / 16 ≡ a
first_back a b h = omega (arith, h)

second_back :
    (a b c : ℕ)
    → b < 256
    → c < 256
    → (a % 4 * 16 + b / 16) % 16 * 16 + (b % 16 * 4 + c / 64) / 4 ≡ b
second_back a b c h k = omega (arith, h, k)

third_back : (b c : ℕ) → c < 256 → (b % 16 * 4 + c / 64) % 4 * 64 + c % 64 ≡ c
third_back b c h = omega (arith, h)

last_back : (a b : ℕ) → b < 256 → (a % 4 * 16 + b / 16) % 16 * 16 + b % 16 * 4 / 4 ≡ b
last_back a b h = omega (arith, h)

base64_groups-encode : (s : Text) → IsBytes s → base64_groups (base64_encode s) ≡ some s
unfolding base64_groups base64_encode
base64_groups-encode [] h = refl
base64_groups-encode (a ∷ []) h =
    rw
      (base64_digit-char (a / 4) (omega (arith, h.0)), base64_digit-char (a % 4 * 16) (omega arith))
      (one_back a)
base64_groups-encode (a ∷ b ∷ []) h =
    rw
      (
        char_not_pad (b % 16 * 4) (omega arith),
        base64_digit-char (a / 4) (omega (arith, h.0)),
        base64_digit-char (a % 4 * 16 + b / 16) (omega (arith, h.1.0)),
        base64_digit-char (b % 16 * 4) (omega arith),
      )
      (ap₂ (λ m n. some (m ∷ n ∷ [])) (first_back a b h.1.0) (last_back a b h.1.0))
base64_groups-encode (a ∷ b ∷ c ∷ s) h =
    rw
      (
        char_not_pad (c % 64) (omega arith),
        base64_groups-encode s h.1.1.1,
        base64_digit-char (a / 4) (omega (arith, h.0)),
        base64_digit-char (a % 4 * 16 + b / 16) (omega (arith, h.1.0)),
        base64_digit-char (b % 16 * 4 + c / 64) (omega (arith, h.1.1.0)),
        base64_digit-char (c % 64) (omega arith),
      )
      (λ i.
        some (
          first_back a b h.1.0 i
          ∷ second_back a b c h.1.0 h.1.1.0 i
          ∷ third_back b c h.1.1.0 i
          ∷ s))

without_newlines-encode :
    (s : Text) → IsBytes s → without_newlines (base64_encode s) ≡ base64_encode s
unfolding base64_encode
without_newlines-encode [] h = refl
without_newlines-encode (a ∷ []) h =
    rw (char_not_newline (a / 4) (omega (arith, h.0)), char_not_newline (a % 4 * 16) (omega arith))
      refl
without_newlines-encode (a ∷ b ∷ []) h =
    rw
      (
        char_not_newline (a / 4) (omega (arith, h.0)),
        char_not_newline (a % 4 * 16 + b / 16) (omega (arith, h.1.0)),
        char_not_newline (b % 16 * 4) (omega arith),
      )
      refl
without_newlines-encode (a ∷ b ∷ c ∷ s) h =
    rw
      (
        char_not_newline (a / 4) (omega (arith, h.0)),
        char_not_newline (a % 4 * 16 + b / 16) (omega (arith, h.1.0)),
        char_not_newline (b % 16 * 4 + c / 64) (omega (arith, h.1.1.0)),
        char_not_newline (c % 64) (omega arith),
        without_newlines-encode s h.1.1.1,
      )
      refl

pub base64_decode-encode : (s : Text) → IsBytes s → base64_decode (base64_encode s) ≡ some s
unfolding base64_decode
base64_decode-encode s h = ap base64_groups (without_newlines-encode s h) ∙ base64_groups-encode s h
