-- ===== src/Tests/Addresses.antt =====
-- Addresses and hosts under one small network.
use syrotp.Prelude.{
  Text, List, ◌≡◌, ◌≢◌, ◌⊎◌, refl, arith, chars, same, all, any, is_digit, digits_value, decimal,
  true, false, [], ◌∷◌, some, none, if◌then◌else◌, ◌==◌,
}
use syrotp.Address.{
  Network, ParsedUrl, split, is_dotted_quad, octets_value, ipv4_to_uint32, is_blocked_hostname,
  is_blocked_ip, is_blocked_v4, is_blocked_v6, ipv6_groups, head_groups, split_last_colon,
  cut_double_colon, hex_value, is_blocked_groups,
}
use syrotp.Address.Ranges.{IsOctet, quad, is_private, is_blocked_v4-eq-is_private}
use mathlib.Core.List.{Mem}
use syrotp.Address.Blocked.{IsInBlockedRange}
use syrotp.Address.Guard.{agent_lookup, bare_host, validate_url, assert_webhook_url_safe}
use syrotp.Address.Safe.{IsSafeHost, agent_lookup_safe, validate_url_safe}

abbrev example_url : ParsedUrl
example_url = record {
  protocol = chars "https:";
  username = [];
  password = [];
  hostname = chars "example.com";
}

-- Every name resolves to one public address.
abbrev sample_network : Network
sample_network = record {
  is_ip = λ s. if is_dotted_quad s then 4 else if any (λ c. c == b':') s then 6 else 0;
  to_number = λ s. if all is_digit s then some (digits_value 0 s) else none;
  to_lower_case = λ s. s;
  lookup = λ host. some (chars "93.184.216.34" ∷ []);
  lookup_one = λ host. some (chars "93.184.216.34");
  parse_url = λ s. some example_url;
  is_escape_hatch_active = false;
}

IsOctet-10 : IsOctet sample_network (chars "10")
unfolding digits_value
IsOctet-10 = record {
  digits = (refl, (refl, tt));
  least = omega arith;
  most = omega arith;
  small = omega arith;
  read = refl;
}

is_blocked_v4-eq-is_private_example :
    is_blocked_v4 sample_network (quad (chars "10") (chars "10") (chars "10") (chars "10"))
    ≡ is_private (digits_value 0 (chars "10")) (digits_value 0 (chars "10"))
is_blocked_v4-eq-is_private_example =
    is_blocked_v4-eq-is_private sample_network (chars "10") (chars "10") (chars "10") (chars "10")
      IsOctet-10 IsOctet-10 IsOctet-10 IsOctet-10

agent_lookup_safe_example :
    (¬ IsInBlockedRange sample_network (chars "93.184.216.34"))
    × (is_blocked_ip sample_network (chars "93.184.216.34") ≡ false)
    × (((sample_network.is_ip (chars "example.com") ≢ 0)
          × (chars "93.184.216.34" ≡ chars "example.com"))
        ⊎ ((is_blocked_hostname sample_network (chars "example.com") ≡ false)
            × ((addresses : List Text) × (sample_network.lookup (chars "example.com")
                  ≡ some addresses)
                × Mem (chars "93.184.216.34") addresses)))
unfolding agent_lookup is_blocked_hostname is_blocked_ip is_blocked_v4 ipv4_to_uint32 octets_value
    split is_dotted_quad digits_value same
agent_lookup_safe_example =
    agent_lookup_safe sample_network (chars "example.com") (chars "93.184.216.34") refl refl

validate_url_safe_example :
    (parsed : ParsedUrl) × (sample_network.parse_url (chars "https://example.com") ≡ some parsed)
    × ((parsed.protocol ≡ chars "http:") ⊎ (parsed.protocol ≡ chars "https:"))
    × (parsed.username ≡ [])
    × (parsed.password ≡ [])
    × IsSafeHost sample_network (bare_host parsed.hostname)
unfolding validate_url assert_webhook_url_safe is_blocked_hostname is_blocked_ip is_blocked_v4
    ipv4_to_uint32 octets_value split is_dotted_quad digits_value same
validate_url_safe_example = validate_url_safe sample_network (chars "https://example.com") refl refl

-- The loopback address is blocked in its usual forms, and so is a link-local address, but not where
-- a dotted tail follows `::`.
blocked_forms :
    (is_blocked_v6 sample_network (chars "::1") ≡ true)
    × (is_blocked_v6 sample_network (chars "::ffff:127.0.0.1") ≡ true)
    × (is_blocked_v6 sample_network (chars "0:0:0:0:0:ffff:127.0.0.1") ≡ true)
    × (is_blocked_v6 sample_network (chars "fe80::1") ≡ true)
    × (is_blocked_v6 sample_network (chars "fe80::1.2.3.4") ≡ false)
unfolding is_blocked_v6 ipv6_groups head_groups split_last_colon cut_double_colon hex_value
    is_blocked_groups is_blocked_v4 ipv4_to_uint32 octets_value split is_dotted_quad digits_value
    decimal same
blocked_forms = (refl, refl, refl, refl, refl)
