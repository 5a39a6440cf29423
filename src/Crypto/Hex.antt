-- ===== src/Crypto/Hex.antt =====
-- The hex of bytes is ASCII.
use syrotp.Prelude.{
  ℕ, zero, suc, ◌/◌, ◌%◌, ◌<◌, Text, chars, get_elem?, or_else, All, List, [], ◌∷◌, arith,
}
use syrotp.Crypto.{hex_digit, hex_text}

get-All : (n : ℕ) (s : Text) → All (λ c. c < 128) s → or_else (get_elem? s n) 0 < 128
get-All n [] h = omega arith
get-All zero (c ∷ s) (a, h) = a
get-All (suc n) (c ∷ s) (a, h) = get-All n s h

hex_digit-lt : (d : ℕ) → hex_digit d < 128
hex_digit-lt d = get-All d (chars "0123456789abcdef") (omega arith)

pub hex_text-ascii : (bytes : List ℕ) → All (λ c. c < 128) (hex_text bytes)
unfolding hex_text
hex_text-ascii [] = tt
hex_text-ascii (b ∷ bytes) = (hex_digit-lt (b / 16), (hex_digit-lt (b % 16), hex_text-ascii bytes))
