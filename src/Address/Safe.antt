-- ===== src/Address/Safe.antt =====
-- Where webhooks can go.
use syrotp.Prelude.{
  ◌≡◌, ◌≢◌, refl, sym, Text, chars, same, same_iff, true, false, not, List, [], ◌∷◌, arith, All,
  find, find_sound, Bool-cases, Option-cases, inl, inr, ◌⊎◌, Option, none, some, ◌==◌,
}
use mathlib.Core.List.{Mem}
use syrotp.Tables.{All-of_not_any, All-map, find-Mem}
use syrotp.Address.Blocked.{IsInBlockedRange, not_blocked}
use syrotp.Errors.{ok}
use syrotp.Address.{Network, ParsedUrl, is_blocked_hostname, is_blocked_ip}
use syrotp.Address.Guard.{
  connect, of_resolved, agent_lookup, bare_host, check_host, check_addresses,
  assert_webhook_url_safe, is_http, validate_url,
}

resolved_safe :
    (net : Network) (o : Option (List Text)) (address : Text)
    → of_resolved net o ≡ connect address
    → (is_blocked_ip net address ≡ false)
      × ((addresses : List Text) × (o ≡ some addresses) × Mem address addresses)
resolved_safe net none address e = cc
resolved_safe net (some addresses) address e =
    elim (Option-cases (find (λ a. not (is_blocked_ip net a)) addresses)) [
      | inl n ↦ cc (rw n at e)
      | inr (a, found) ↦
          let hit = find_sound (λ a. not (is_blocked_ip net a)) addresses found in
          let there = find-Mem (λ a. not (is_blocked_ip net a)) addresses found in
          let chosen : a ≡ address = ground arith in
          (rw (← chosen) (ground arith), (addresses, refl, rw (← chosen) there))
    ]

-- While the tests' escape hatch is off, the lookup of the agent hands on no address of the blocked
-- ranges of `IsInBlockedRange`, nor any other that `isBlockedIp` blocks, whatever the resolver
-- answers at the time of a delivery: what it hands on is a literal as it is, or one of the addresses
-- of a name that is not blocked. (For a literal in a URL the connection does not ask the lookup.)
pub agent_lookup_safe :
    (net : Network) (hostname address : Text)
    → net.is_escape_hatch_active ≡ false
    → agent_lookup net hostname ≡ connect address
    → (¬ IsInBlockedRange net address)
      × (is_blocked_ip net address ≡ false)
      × (((net.is_ip hostname ≢ 0) × (address ≡ hostname))
          ⊎ ((is_blocked_hostname net hostname ≡ false)
              × ((addresses : List Text) × (net.lookup hostname ≡ some addresses)
                  × Mem address addresses)))
unfolding agent_lookup
agent_lookup_safe net hostname address closed e = elim (Bool-cases (net.is_ip hostname == 0)) [
  | inl name ↦ elim (Bool-cases (is_blocked_hostname net hostname)) [
    | inl y ↦ absurd (ground arith)
    | inr n ↦
        let (passed, from) = resolved_safe net (net.lookup hostname) address (ground arith) in
        (not_blocked net address passed, passed, inr (n, from))
  ]
  | inr literal ↦ elim (Bool-cases (is_blocked_ip net hostname)) [
    | inl y ↦ absurd (ground arith)
    | inr n ↦
        let it : hostname ≡ address = ground arith in
        let passed : is_blocked_ip net address ≡ false = rw (← it) n in
        (not_blocked net address passed, passed, inl (ground arith, sym it))
  ]
]

-- An address that the guard lets through
abbrev pub IsOpen : Network → Text → Type 0
IsOpen net a = (is_blocked_ip net a ≡ false) × (¬ IsInBlockedRange net a)

IsOpen-address : (net : Network) (a : Text) → is_blocked_ip net a ≡ false → IsOpen net a
IsOpen-address net a e = (e, not_blocked net a e)

-- What the guard has found of the host of a URL
pub data IsSafeHost (net : Network) (host : Text) : Type 0 where
  literal : net.is_ip host ≢ 0 → IsOpen net host → IsSafeHost net host
  named :
      (addresses : List Text)
      → is_blocked_hostname net host ≡ false
      → net.lookup host ≡ some addresses
      → addresses ≢ []
      → All (IsOpen net) addresses
      → IsSafeHost net host

addresses_safe :
    (net : Network) (o : Option (List Text))
    → check_addresses net o ≡ ok tt
    → (addresses : List Text) × (o ≡ some addresses) × (addresses ≢ []) × All (IsOpen net) addresses
addresses_safe net none e = cc
addresses_safe net (some []) e = cc
addresses_safe net (some (a ∷ rest)) e = (
  a ∷ rest,
  refl,
  λ q. cc,
  All-map (λ b. is_blocked_ip net b ≡ false) (IsOpen net) (a ∷ rest) (IsOpen-address net)
      (All-of_not_any (is_blocked_ip net) (a ∷ rest) (ground arith)),
)

host_safe : (net : Network) (host : Text) → check_host net host ≡ ok tt → IsSafeHost net host
host_safe net host e = elim (Bool-cases (net.is_ip host == 0)) [
  | inl name ↦ elim (Bool-cases (is_blocked_hostname net host)) [
    | inl y ↦ absurd (ground arith)
    | inr n ↦
        let (addresses, found, some_, safe) = addresses_safe net (net.lookup host) (ground arith) in
        named addresses n found some_ safe
  ]
  | inr lit ↦ literal (ground arith) (IsOpen-address net host (ground arith))
]

http :
    (protocol : Text)
    → is_http protocol ≡ true
    → (protocol ≡ chars "http:") ⊎ (protocol ≡ chars "https:")
http protocol h = elim (Bool-cases (same protocol (chars "http:"))) [
  | inl y ↦ inl ((same_iff protocol (chars "http:")).0 y)
  | inr n ↦ inr ((same_iff protocol (chars "https:")).0 (rw n at h))
]

-- While the tests' escape hatch is off, a URL that may be stored parses as one of http or https,
-- without credentials, and its host is a literal that `isBlockedIp` does not block, or a name that
-- is not blocked, that resolves, and of whose addresses `isBlockedIp` blocks none; so the literal or
-- these addresses are outside the ranges of `IsInBlockedRange`.
pub validate_url_safe :
    (net : Network) (value : Text)
    → net.is_escape_hatch_active ≡ false
    → validate_url net value ≡ ok tt
    → (parsed : ParsedUrl) × (net.parse_url value ≡ some parsed)
      × ((parsed.protocol ≡ chars "http:") ⊎ (parsed.protocol ≡ chars "https:"))
      × (parsed.username ≡ [])
      × (parsed.password ≡ [])
      × IsSafeHost net (bare_host parsed.hostname)
unfolding validate_url assert_webhook_url_safe
validate_url_safe net value closed e = elim (Option-cases (net.parse_url value)) [
  | inl n ↦ absurd (ground arith)
  | inr (parsed, found) ↦
      let passed : check_host net (bare_host parsed.hostname) ≡ ok tt = ground arith in
      (
        parsed,
        found,
        http parsed.protocol (ground arith),
        ground arith,
        ground arith,
        host_safe net (bare_host parsed.hostname) passed,
      )
]
