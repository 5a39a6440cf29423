-- ===== src/Address/Ranges.antt =====
-- The blocked ranges of IPv4 by their octets, however the address is written.
use mathlib.Core.List.{append-nil, append_assoc}
use syrotp.Prelude.{
  ℕ, ◌+◌, ◌*◌, ◌≤◌, ◌<◌, ◌≡◌, refl, sym, ◌∙◌, ap, Text, digits_value, is_digit, length, Bool, true,
  false, ◌&&◌, ◌||◌, ◌==◌, ltb, leb, List, [], ◌∷◌, ◌++◌, arith, All, some,
}
use syrotp.Address.{
  Network, octet, octets_value, split, split_from, ipv4_to_uint32, is_blocked_uint32, is_blocked_v4,
}

-- The ranges that the module's comment lists, on the first two octets
abbrev pub is_private : ℕ → ℕ → Bool
is_private a b =
    a == 0
    || a == 10
    || (a == 100 && leb 64 b && ltb b 128)
    || a == 127
    || (a == 169 && b == 254)
    || (a == 172 && leb 16 b && ltb b 32)
    || (a == 192 && b == 168)

abbrev pub uint32 : ℕ → ℕ → ℕ → ℕ → ℕ
uint32 a b c d = ((a * 256 + b) * 256 + c) * 256 + d

pub is_blocked_uint32-eq-is_private :
    (a b c d : ℕ)
    → a < 256
    → b < 256
    → c < 256
    → d < 256
    → is_blocked_uint32 (uint32 a b c d) ≡ is_private a b
is_blocked_uint32-eq-is_private a b c d ha hb hc hd = ground arith

-- An octet's text: 1 to 3 digits, of a value below 256, which `Number` reads in decimal
pub record IsOctet (net : Network) (p : Text) : Type 0 where
  pub digits : All (λ c. is_digit c ≡ true) p
  pub least : 1 ≤ length p
  pub most : length p ≤ 3
  pub small : digits_value 0 p < 256
  pub read : net.to_number p ≡ some (digits_value 0 p)

split_word :
    (cur p s : Text)
    → All (λ c. is_digit c ≡ true) p
    → split_from 46 cur (p ++ (46 ∷ s)) ≡ (cur ++ p) ∷ split_from 46 [] s
unfolding split_from
split_word cur [] s h = ap (λ (x : Text). x ∷ split_from 46 [] s) (sym (append-nil cur))
split_word cur (c ∷ p) s (h, hs) =
    let no : (c == 46) ≡ false = ground arith in
    rw (no, split_from)
      (split_word (cur ++ c ∷ []) p s hs
        ∙ ap (λ (x : Text). x ∷ split_from 46 [] s) (append_assoc cur (c ∷ []) p))

split_last : (cur p : Text) → All (λ c. is_digit c ≡ true) p → split_from 46 cur p ≡ (cur ++ p) ∷ []
unfolding split_from
split_last cur [] h = ap (λ (x : Text). x ∷ []) (sym (append-nil cur))
split_last cur (c ∷ p) (h, hs) =
    let no : (c == 46) ≡ false = ground arith in
    rw (no, split_from)
      (split_last (cur ++ c ∷ []) p hs ∙ ap (λ (x : Text). x ∷ []) (append_assoc cur (c ∷ []) p))

octet-IsOctet : (net : Network) (p : Text) → IsOctet net p → octet net p ≡ some (digits_value 0 p)
octet-IsOctet net p o =
    let some_ : (length p == 0) ≡ false = ground (arith, o.least) in
    let short : ltb 3 (length p) ≡ false = ground (arith, o.most) in
    let byte : ltb 255 (digits_value 0 p) ≡ false = ground (arith, o.small) in
    rw (some_, short, o.read, byte) refl

-- `a.b.c.d`
abbrev pub quad : Text → Text → Text → Text → Text
quad p q r s = p ++ (46 ∷ q ++ (46 ∷ r ++ (46 ∷ s)))

split-quad :
    (p q r s : Text)
    → All (λ c. is_digit c ≡ true) p
    → All (λ c. is_digit c ≡ true) q
    → All (λ c. is_digit c ≡ true) r
    → All (λ c. is_digit c ≡ true) s
    → split 46 (quad p q r s) ≡ p ∷ q ∷ r ∷ s ∷ []
unfolding split
split-quad p q r s hp hq hr hs =
    split_word [] p (q ++ (46 ∷ r ++ (46 ∷ s))) hp
    ∙ ap (λ (x : List Text). p ∷ x)
        (split_word [] q (r ++ (46 ∷ s)) hq
          ∙ ap (λ (x : List Text). q ∷ x)
              (split_word [] r s hr ∙ ap (λ (x : List Text). r ∷ x) (split_last [] s hs)))

octets_value-step :
    (net : Network) (n : ℕ) (p : Text) (ps : List Text)
    → IsOctet net p
    → octets_value net n (p ∷ ps) ≡ octets_value net (n * 256 + digits_value 0 p) ps
unfolding octets_value
octets_value-step net n p ps o = rw (octet-IsOctet net p o, octets_value) refl

octets_value-quad :
    (net : Network) (p q r s : Text)
    → IsOctet net p
    → IsOctet net q
    → IsOctet net r
    → IsOctet net s
    → octets_value net 0 (p ∷ q ∷ r ∷ s ∷ [])
      ≡ some (uint32 (digits_value 0 p) (digits_value 0 q) (digits_value 0 r) (digits_value 0 s))
unfolding octets_value
octets_value-quad net p q r s op oq or os =
    octets_value-step net 0 p (q ∷ r ∷ s ∷ []) op
    ∙ octets_value-step net (0 * 256 + digits_value 0 p) q (r ∷ s ∷ []) oq
    ∙ octets_value-step net ((0 * 256 + digits_value 0 p) * 256 + digits_value 0 q) r (s ∷ []) or
    ∙ octets_value-step net
        (((0 * 256 + digits_value 0 p) * 256 + digits_value 0 q) * 256 + digits_value 0 r) s [] os
    ∙ ap some (omega arith)

ipv4_to_uint32-quad :
    (net : Network) (p q r s : Text)
    → IsOctet net p
    → IsOctet net q
    → IsOctet net r
    → IsOctet net s
    → ipv4_to_uint32 net (quad p q r s)
      ≡ some (uint32 (digits_value 0 p) (digits_value 0 q) (digits_value 0 r) (digits_value 0 s))
unfolding ipv4_to_uint32
ipv4_to_uint32-quad net p q r s op oq or os =
    rw (split-quad p q r s op.digits oq.digits or.digits os.digits)
      (octets_value-quad net p q r s op oq or os)

-- A dotted quad of octets is blocked exactly where its first two octets lie in one of the ranges
-- 0/8, 10/8, 100.64/10, 127/8, 169.254/16, 172.16/12 and 192.168/16.
pub is_blocked_v4-eq-is_private :
    (net : Network) (p q r s : Text)
    → IsOctet net p
    → IsOctet net q
    → IsOctet net r
    → IsOctet net s
    → is_blocked_v4 net (quad p q r s) ≡ is_private (digits_value 0 p) (digits_value 0 q)
unfolding is_blocked_v4
is_blocked_v4-eq-is_private net p q r s op oq or os =
    rw (ipv4_to_uint32-quad net p q r s op oq or os) (
      is_blocked_uint32-eq-is_private (digits_value 0 p) (digits_value 0 q) (digits_value 0 r)
        (digits_value 0 s) op.small oq.small or.small os.small)
