-- ===== src/Address.antt =====
-- apps/server/src/lib/ssrfGuard.ts: which addresses and hosts a webhook may not reach.
pub mod Ranges
pub mod Blocked
pub mod Guard
pub mod Safe
use syrotp.Prelude.{
  ℕ, suc, ◌+◌, ◌-◌, ◌*◌, ◌/◌, ◌%◌, ◌^◌, Text, chars, same, length, take, drop, replicate, all, any,
  map, decimal, starts_with, is_digit, digits_value, Bool, true, false, not, ◌&&◌, ◌||◌, List, [],
  ◌∷◌, ◌++◌, Option, none, some, ltb, leb, ◌==◌, if◌then◌else◌, is_upper,
}
use syrotp.Gateway.{is_hex_char}

-- The parts of a `URL` in use
pub record ParsedUrl : Type 0 where
  pub protocol : Text
  pub username : Text
  pub password : Text
  pub hostname : Text

-- What the runtime answers, as the module uses it
pub record Network : Type 0 where
  -- `isIP`: 4, 6 or 0
  pub is_ip : Text → ℕ
  -- `Number(p)` where that is an integer and not negative
  pub to_number : Text → Option ℕ
  -- `toLowerCase`
  pub to_lower_case : Text → Text
  -- `dnsLookup(host, { all: true })`: the addresses, or `none` where it rejects
  pub lookup : Text → Option (List Text)
  -- `dnsLookup(host, { all: false })`
  pub lookup_one : Text → Option Text
  -- `new URL(value)`: `none` where it throws
  pub parse_url : Text → Option ParsedUrl
  -- NODE_ENV and WEBHOOK_ALLOW_PRIVATE_FOR_TESTS
  pub is_escape_hatch_active : Bool

-- `s.endsWith(t)`
abbrev pub ends_with : Text → Text → Bool
ends_with s t = leb (length t) (length s) && same (drop (length s - length t) s) t

unfoldable pub is_blocked_hostname : Network → Text → Bool
is_blocked_hostname net host =
    let h = net.to_lower_case host in
    same h (chars "localhost") || ends_with h (chars ".local") || ends_with h (chars ".internal")

-- `s.split(c)`
split_from : ℕ → Text → Text → List Text
split_from sep current [] = current ∷ []
split_from sep current (c ∷ s) = elim (c == sep) [
  | true ↦ current ∷ split_from sep [] s
  | false ↦ split_from sep (current ++ c ∷ []) s
]

unfoldable pub split : ℕ → Text → List Text
unfolding split_from
split sep s = split_from sep [] s

-- One octet of an address
abbrev pub octet : Network → Text → Option ℕ
octet net p =
    if length p == 0 || ltb 3 (length p)
    then none
    else elim (net.to_number p) [ none ↦ none | some n ↦ if ltb 255 n then none else some n ]

unfoldable pub octets_value : Network → ℕ → List Text → Option ℕ
octets_value net out [] = some out
octets_value net out (p ∷ ps) = elim (octet net p) [
  | none ↦ none
  | some n ↦ octets_value net (out * 256 + n) ps
]

unfoldable pub ipv4_to_uint32 : Network → Text → Option ℕ
unfolding octets_value split
ipv4_to_uint32 net ip =
    let parts = split b'.' ip in if not (length parts == 4) then none else octets_value net 0 parts

pub record V4Range : Type 0 where
  pub network : ℕ
  pub prefix : ℕ

-- `v4("a.b.c.d/p")` of a literal
abbrev pub v4 : ℕ → ℕ → ℕ → ℕ → ℕ → V4Range
v4 a b c d prefix = record { network = ((a * 256 + b) * 256 + c) * 256 + d; prefix = prefix }

abbrev pub blocked_v4_ranges : List V4Range
blocked_v4_ranges =
    v4 0 0 0 0 8
    ∷ v4 10 0 0 0 8
    ∷ v4 100 64 0 0 10
    ∷ v4 127 0 0 0 8
    ∷ v4 169 254 0 0 16
    ∷ v4 172 16 0 0 12
    ∷ v4 192 168 0 0 16
    ∷ []

-- The mask keeps the highest `prefix` bits of 32; both sides are compared after it.
abbrev pub v4_in_range : ℕ → V4Range → Bool
v4_in_range addr r = r.prefix == 0 || addr / 2 ^ (32 - r.prefix) == r.network / 2 ^ (32 - r.prefix)

abbrev pub is_blocked_uint32 : ℕ → Bool
is_blocked_uint32 n = any (v4_in_range n) blocked_v4_ranges

abbrev pub blocked_if_parsed : Option ℕ → Bool
blocked_if_parsed none = false
blocked_if_parsed (some n) = is_blocked_uint32 n

unfoldable pub is_blocked_v4 : Network → Text → Bool
is_blocked_v4 net ip = blocked_if_parsed (ipv4_to_uint32 net ip)

-- `parseInt(g, 16)` of hex digits
abbrev pub hex_digit : ℕ → ℕ
hex_digit c = if is_digit c then c - 48 else if is_upper c then c - 55 else c - 87

unfoldable pub hex_value : ℕ → Text → ℕ
hex_value n [] = n
hex_value n (c ∷ s) = hex_value (n * 16 + hex_digit c) s

-- `/^[0-9a-fA-F]{1,4}$/`
abbrev pub is_group : Text → Bool
is_group g = leb 1 (length g) && leb (length g) 4 && all is_hex_char g

-- `/^\d{1,3}\.\d{1,3}\.\d{1,3}\.\d{1,3}$/`
abbrev pub is_octet_text : Text → Bool
is_octet_text p = leb 1 (length p) && leb (length p) 3 && all is_digit p

unfoldable pub is_dotted_quad : Text → Bool
unfolding split
is_dotted_quad s = let parts = split b'.' s in length parts == 4 && all is_octet_text parts

-- The head up to and with the last colon, and what follows it
unfoldable pub split_last_colon : Text → Option (Text × Text)
split_last_colon [] = none
split_last_colon (c ∷ s) = elim (split_last_colon s) [
  | some (head, tail) ↦ some (c ∷ head, tail)
  | none ↦ if c == b':' then some (c ∷ [], s) else none
]

-- `ip.match(/(.*:)(…)$/)`: a quad holds no colon, so the head ends at the last one
abbrev pub v4_tail : Text → Option (Text × Text)
v4_tail ip = elim (split_last_colon ip) [
  | none ↦ none
  | some (head, tail) ↦ if is_dotted_quad tail then some (head, tail) else none
]

-- What stands before the first `::`, and after it
unfoldable pub cut_double_colon : Text → Option (Text × Text)
cut_double_colon [] = none
cut_double_colon (c ∷ s) =
    if starts_with (c ∷ s) (chars "::")
    then some ([], drop 1 s)
    else elim (cut_double_colon s) [ none ↦ none | some (left, right) ↦ some (c ∷ left, right) ]

abbrev pub raw_groups : Text → List Text
raw_groups [] = []
raw_groups (c ∷ s) = split b':' (c ∷ s)

-- The groups, from those on the left and on the right of `::` (if there is one) and the trailing ones
abbrev pub assembled : Bool → List Text → List Text → List ℕ → Option (List ℕ)
assembled has_double left right trailing =
    let explicit = length left + length right + length trailing in
    let zeros = if has_double then 8 - explicit else 0 in
    let out =
      map (hex_value 0) left ++ (replicate zeros 0 ++ (map (hex_value 0) right ++ trailing)) in
    if ltb 8 explicit
      || not (all is_group left)
      || not (all is_group right)
      || not (length out == 8)
    then none
    else some out

unfoldable pub head_groups : Text → List ℕ → Option (List ℕ)
unfolding split
head_groups head trailing = elim (cut_double_colon head) [
  | none ↦ assembled false (raw_groups head) [] trailing
  | some (left, right) ↦ assembled true (raw_groups left) (raw_groups right) trailing
]

-- `.replace(/:$/, "")` on a head that ends in a colon; the empty head becomes `::`
abbrev pub head_of_tail : Text → Text
head_of_tail head = elim (take (length head - 1) head) [ [] ↦ chars "::" | c ∷ s ↦ c ∷ s ]

abbrev pub groups_with_tail : Network → Text → Option (Text × Text) → Option (List ℕ)
groups_with_tail net ip none = head_groups ip []
groups_with_tail net ip (some (head, quad)) = elim (ipv4_to_uint32 net quad) [
  | none ↦ none
  | some n ↦ head_groups (head_of_tail head) (n / 65536 % 65536 ∷ n % 65536 ∷ [])
]

unfoldable pub ipv6_groups : Network → Text → Option (List ℕ)
ipv6_groups net ip = groups_with_tail net ip (v4_tail ip)

-- `a.b.c.d` of 32 bits
abbrev pub dotted : ℕ → Text
dotted n =
    decimal (n / 16777216 % 256)
    ++ (chars "."
        ++ (decimal (n / 65536 % 256)
            ++ (chars "." ++ (decimal (n / 256 % 256) ++ (chars "." ++ decimal (n % 256))))))

-- The tests on eight groups; a mask of the highest bits of 16 is a quotient.
unfoldable pub is_blocked_groups : Network → List ℕ → Bool
is_blocked_groups net (g0 ∷ g1 ∷ g2 ∷ g3 ∷ g4 ∷ g5 ∷ g6 ∷ g7 ∷ []) =
    let high_zero = g0 == 0 && g1 == 0 && g2 == 0 && g3 == 0 && g4 == 0 in
    (high_zero && g5 == 0 && g6 == 0 && (g7 == 0 || g7 == 1))
    || (g0 / 64 == 0xfe80 / 64)
    || (g0 / 512 == 0xfc00 / 512)
    || (high_zero && g5 == 0xffff && is_blocked_v4 net (dotted (g6 * 65536 + g7)))
is_blocked_groups net _ = false

-- `/^::ffff:(…)$/i`
abbrev pub mapped_tail : Network → Text → Option Text
mapped_tail net s =
    if same (map (λ c. if is_upper c then c + 32 else c) (take 7 s)) (chars "::ffff:")
      && is_dotted_quad (drop 7 s)
    then some (drop 7 s)
    else none

-- `ip.split("%")[0]`
abbrev pub before_zone : Text → Text
before_zone [] = []
before_zone (c ∷ s) = if c == b'%' then [] else c ∷ before_zone s

abbrev pub blocked_of_groups : Network → Option (List ℕ) → Bool
blocked_of_groups net none = false
blocked_of_groups net (some groups) = is_blocked_groups net groups

abbrev pub blocked_of_mapped : Network → Text → Option Text → Bool
blocked_of_mapped net stripped (some quad) = is_blocked_v4 net quad
blocked_of_mapped net stripped none = blocked_of_groups net (ipv6_groups net stripped)

unfoldable pub is_blocked_v6 : Network → Text → Bool
is_blocked_v6 net ip =
    let stripped = before_zone ip in blocked_of_mapped net stripped (mapped_tail net stripped)

unfoldable pub is_blocked_ip : Network → Text → Bool
is_blocked_ip net ip =
    if net.is_ip ip == 4
    then is_blocked_v4 net ip
    else if net.is_ip ip == 6
    then is_blocked_v6 net ip
    else false
