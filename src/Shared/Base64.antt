-- ===== src/Shared/Base64.antt =====
-- `base64.b64encode` and `base64.b64decode` on texts of code points. A text is decoded by groups of four
-- characters; `none` is a text that the encoding does not make, on which the decoder of Python is more lenient.
use edo_adapter_enterprise.Shared.Tests.{ltb, leb, ◌==◌, if◌then◌else◌}
use edo_adapter_enterprise.Shared.Lists.{All}
use Prim.Native.Nat.{ℕ, ◌+◌, ◌-◌, ◌*◌, ◌/◌, ◌%◌, ◌<◌}
use mathlib.Core.Path.{◌≡◌, refl}
use mathlib.Core.Bool.{Bool, true, false, not, ◌&&◌}
use mathlib.Core.Option.{Option, none, some}
use mathlib.Core.List.{List, [], ◌∷◌}
use native.Mathlib.Omega.{arith}

-- The character of six bits.
letter : ℕ → ℕ
letter n =
    if ltb n 26
    then n + b'A'
    else if ltb n 52
    then n - 26 + b'a'
    else if ltb n 62
    then n - 52 + b'0'
    else if n == 62
    then b'+'
    else b'/'

-- The six bits of a character.
bits : ℕ → Option ℕ
bits c =
    if leb b'A' c && leb c b'Z'
    then some (c - b'A')
    else if leb b'a' c && leb c b'z'
    then some (c - b'a' + 26)
    else if leb b'0' c && leb c b'9'
    then some (c - b'0' + 52)
    else if c == b'+'
    then some 62
    else if c == b'/'
    then some 63
    else none

unfoldable pub b64encode : List ℕ → List ℕ
unfolding letter
b64encode [] = []
b64encode (a ∷ []) = letter (a / 4) ∷ letter (a % 4 * 16) ∷ b'=' ∷ b'=' ∷ []
b64encode (a ∷ b ∷ []) =
    letter (a / 4) ∷ letter (a % 4 * 16 + b / 16) ∷ letter (b % 16 * 4) ∷ b'=' ∷ []
b64encode (a ∷ b ∷ c ∷ rest) =
    letter (a / 4)
    ∷ letter (a % 4 * 16 + b / 16)
    ∷ letter (b % 16 * 4 + c / 64)
    ∷ letter (c % 64)
    ∷ b64encode rest

one_byte : Option ℕ → Option ℕ → Option (List ℕ)
one_byte (some p) (some q) = some ((p * 4 + q / 16) ∷ [])
one_byte _ _ = none

two_bytes : Option ℕ → Option ℕ → Option ℕ → Option (List ℕ)
two_bytes (some p) (some q) (some r) = some ((p * 4 + q / 16) ∷ (q % 16 * 16 + r / 4) ∷ [])
two_bytes _ _ _ = none

three_bytes : Option ℕ → Option ℕ → Option ℕ → Option ℕ → Option (List ℕ) → Option (List ℕ)
three_bytes (some p) (some q) (some r) (some s) (some rest) =
    some ((p * 4 + q / 16) ∷ (q % 16 * 16 + r / 4) ∷ (r % 4 * 64 + s) ∷ rest)
three_bytes _ _ _ _ _ = none

-- A group of four characters before the rest: padding ends the text.
group : ℕ → ℕ → ℕ → ℕ → Bool → Option (List ℕ) → Option (List ℕ)
group c d e f ends rest =
    if f == b'='
    then if not ends
      then none
      else if e == b'='
      then one_byte (bits c) (bits d)
      else two_bytes (bits c) (bits d) (bits e)
    else three_bytes (bits c) (bits d) (bits e) (bits f) rest

is_end : List ℕ → Bool
is_end [] = true
is_end (_ ∷ _) = false

unfoldable pub b64decode : List ℕ → Option (List ℕ)
unfolding bits one_byte two_bytes three_bytes group is_end
b64decode [] = some []
b64decode (c ∷ d ∷ e ∷ f ∷ rest) = group c d e f (is_end rest) (b64decode rest)
b64decode _ = none

-- The character of six bits stands for them, and is not the padding.
bits-letter : (n : ℕ) → n < 64 → (bits (letter n) ≡ some n) × ((letter n == b'=') ≡ false)
unfolding bits letter
bits-letter n h = (ground arith, ground arith)

-- Bytes arrive as they were sent.
pub b64decode-b64encode : (bs : List ℕ) → All (λ b. b < 256) bs → b64decode (b64encode bs) ≡ some bs
unfolding b64decode b64encode group one_byte two_bytes three_bytes is_end
b64decode-b64encode [] h = refl
b64decode-b64encode (a ∷ []) h =
    ground (arith, bits-letter (a / 4) (omega arith), bits-letter (a % 4 * 16) (omega arith))
b64decode-b64encode (a ∷ b ∷ []) h = ground (
  arith,
  bits-letter (a / 4) (omega arith),
  bits-letter (a % 4 * 16 + b / 16) (omega arith),
  bits-letter (b % 16 * 4) (omega arith),
)
b64decode-b64encode (a ∷ b ∷ c ∷ rest) h = ground (
  arith,
  bits-letter (a / 4) (omega arith),
  bits-letter (a % 4 * 16 + b / 16) (omega arith),
  bits-letter (b % 16 * 4 + c / 64) (omega arith),
  bits-letter (c % 64) (omega arith),
  b64decode-b64encode rest (h.1.1.1),
)
