-- ===== src/Tasks/SendDocument/Hex.antt =====
-- `bytes.hex` and `bytes.fromhex` on texts of code points: how the bytes of a file travel in the
-- arguments of `send_document`.
use edo_adapter_enterprise.Shared.{
  ℕ, ◌+◌, ◌-◌, ◌*◌, ◌/◌, ◌%◌, ◌<◌, ◌≡◌, Bool, true, false, ◌&&◌, ◌||◌, Option, none, some, List, [],
  ◌∷◌, ltb, leb, ◌==◌, if◌then◌else◌, All, refl, arith,
}

unfoldable pub hex_digit : ℕ → ℕ
hex_digit n = if ltb n 10 then n + b'0' else n - 10 + b'a'

unfoldable pub hex : List ℕ → List ℕ
hex [] = []
hex (b ∷ bs) = hex_digit (b / 16) ∷ hex_digit (b % 16) ∷ hex bs

-- The value of a hexadecimal digit, of either case.
unfoldable pub hex_value : ℕ → Option ℕ
hex_value c =
    if leb b'0' c && leb c b'9'
    then some (c - b'0')
    else if leb b'a' c && leb c b'f'
    then some (c - b'a' + 10)
    else if leb b'A' c && leb c b'F'
    then some (c - b'A' + 10)
    else none

-- ASCII white space, which `fromhex` skips between two bytes.
unfoldable pub is_blank : ℕ → Bool
is_blank c = c == 32 || leb 9 c && leb c 13

abbrev join_byte : Option ℕ → Option ℕ → Option (List ℕ) → Option (List ℕ)
join_byte (some h) (some l) (some bs) = some ((h * 16 + l) ∷ bs)
join_byte _ _ _ = none

-- `none` is the `ValueError`.
unfoldable pub fromhex : List ℕ → Option (List ℕ)
fromhex [] = some []
fromhex (c ∷ []) = if is_blank c then some [] else none
fromhex (c ∷ d ∷ cs) = elim (is_blank c) [
  | true ↦ fromhex (d ∷ cs)
  | false ↦ join_byte (hex_value c) (hex_value d) (fromhex cs)
]

hex_digit-value :
    (n : ℕ) → n < 16 → (hex_value (hex_digit n) ≡ some n) × (is_blank (hex_digit n) ≡ false)
unfolding hex_value hex_digit is_blank
hex_digit-value n h = (ground arith, ground arith)

-- The bytes of a file arrive as they were sent.
pub fromhex-hex : (bs : List ℕ) → All (λ b. b < 256) bs → fromhex (hex bs) ≡ some bs
unfolding hex fromhex
fromhex-hex [] h = refl
fromhex-hex (b ∷ bs) h = ground (
  arith,
  hex_digit-value (b / 16) (omega arith),
  hex_digit-value (b % 16) (omega arith),
  fromhex-hex bs h.1,
)
