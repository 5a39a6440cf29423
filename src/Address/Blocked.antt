-- ===== src/Address/Blocked.antt =====
-- The addresses that lib/ssrfGuard.ts lists as blocked, told apart by their numbers.
use syrotp.Prelude.{
  ℕ, ◌≤◌, ◌<◌, ◌≡◌, refl, ◌∙◌, ap, Text, digits_value, true, false, List, [], ◌∷◌, some, none,
  arith,
}
use syrotp.Address.{
  Network, is_blocked_v4, is_blocked_v6, is_blocked_ip, is_blocked_groups, ipv6_groups, mapped_tail,
  before_zone,
}
use syrotp.Address.Ranges.{IsOctet, quad, is_private, is_blocked_v4-eq-is_private}

-- A dotted quad of octets in a private range
pub data IsPrivateQuad (net : Network) (text : Text) : Type 0 where
  private_quad :
      (p q r s : Text)
      → text ≡ quad p q r s
      → IsOctet net p
      → IsOctet net q
      → IsOctet net r
      → IsOctet net s
      → is_private (digits_value 0 p) (digits_value 0 q) ≡ true
      → IsPrivateQuad net text

-- The eight groups of ::, ::1, fe80::/10 and fc00::/7
pub data IsLocal : List ℕ → Type 0 where
  unspecified : {groups : List ℕ} → groups ≡ 0 ∷ 0 ∷ 0 ∷ 0 ∷ 0 ∷ 0 ∷ 0 ∷ 0 ∷ [] → IsLocal groups
  loopback : {groups : List ℕ} → groups ≡ 0 ∷ 0 ∷ 0 ∷ 0 ∷ 0 ∷ 0 ∷ 0 ∷ 1 ∷ [] → IsLocal groups
  link_local :
      {groups : List ℕ} (a b c d e f g h : ℕ)
      → groups ≡ a ∷ b ∷ c ∷ d ∷ e ∷ f ∷ g ∷ h ∷ []
      → 0xfe80 ≤ a
      → a < 0xfec0
      → IsLocal groups
  unique_local :
      {groups : List ℕ} (a b c d e f g h : ℕ)
      → groups ≡ a ∷ b ∷ c ∷ d ∷ e ∷ f ∷ g ∷ h ∷ []
      → 0xfc00 ≤ a
      → a < 0xfe00
      → IsLocal groups

-- An address in a blocked range: of IPv4, of IPv4 within IPv6 (`::ffff:a.b.c.d`), or of IPv6 with the
-- groups that `ipv6Groups` reads
pub data IsInBlockedRange (net : Network) (address : Text) : Type 0 where
  v4 : net.is_ip address ≡ 4 → IsPrivateQuad net address → IsInBlockedRange net address
  v4_mapped :
      (text : Text)
      → net.is_ip address ≡ 6
      → mapped_tail net (before_zone address) ≡ some text
      → IsPrivateQuad net text
      → IsInBlockedRange net address
  v6 :
      (groups : List ℕ)
      → net.is_ip address ≡ 6
      → mapped_tail net (before_zone address) ≡ none
      → ipv6_groups net (before_zone address) ≡ some groups
      → IsLocal groups
      → IsInBlockedRange net address

quad_blocked :
    (net : Network) (text : Text) → IsPrivateQuad net text → is_blocked_v4 net text ≡ true
quad_blocked net text (private_quad p q r s e op oq or os h) =
    ap (is_blocked_v4 net) e ∙ is_blocked_v4-eq-is_private net p q r s op oq or os ∙ h

local_blocked :
    (net : Network) (groups : List ℕ) → IsLocal groups → is_blocked_groups net groups ≡ true
unfolding is_blocked_groups
local_blocked net groups (unspecified e) = rw e refl
local_blocked net groups (loopback e) = rw e refl
local_blocked net groups (link_local a b c d i f g h e lo hi) = rw e (ground arith)
local_blocked net groups (unique_local a b c d i f g h e lo hi) = rw e (ground arith)

-- Every address of these ranges is one that `isBlockedIp` blocks.
pub is_blocked_ip_complete :
    (net : Network) (address : Text)
    → IsInBlockedRange net address
    → is_blocked_ip net address ≡ true
unfolding is_blocked_ip is_blocked_v6
is_blocked_ip_complete net address (v4 k h) = rw k (quad_blocked net address h)
is_blocked_ip_complete net address (v4_mapped text k m h) = rw (k, m) (quad_blocked net text h)
is_blocked_ip_complete net address (v6 groups k m r h) = rw (k, m, r) (local_blocked net groups h)

pub not_blocked :
    (net : Network) (address : Text)
    → is_blocked_ip net address ≡ false
    → ¬ IsInBlockedRange net address
not_blocked net address e h = cc (is_blocked_ip_complete net address h, e)
