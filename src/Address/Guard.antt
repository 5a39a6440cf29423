-- ===== src/Address/Guard.antt =====
-- The checks of a webhook's URL: `assertWebhookUrlSafe` and the lookup of `buildSafeAgent` in
-- lib/ssrfGuard.ts, `validateUrl` of services/webhooks.ts and `isUrlAllowedForDelivery` of
-- services/webhookWorker.ts.
use syrotp.Prelude.{
  ◌-◌, Text, chars, same, length, take, drop, any, starts_with, Bool, false, not, ◌&&◌, ◌||◌, List,
  [], ◌∷◌, Option, none, some, find, ltb, ◌==◌, if◌then◌else◌,
}
use syrotp.Errors.{
  Result, ok, err, Failure, webhook_validation_error, bad_request, or_throw, require, ◌>>=◌, ◌>>◌,
}
use syrotp.Address.{Network, ParsedUrl, ends_with, is_blocked_hostname, is_blocked_ip}

abbrev pub blocked_url : Failure
blocked_url =
    webhook_validation_error "webhook_url_blocked" "url targets a disallowed address range"

abbrev pub blocked_host : Failure
blocked_host = webhook_validation_error "webhook_url_blocked" "url targets a disallowed hostname"

abbrev pub unresolved : Failure
unresolved = webhook_validation_error "webhook_url_blocked" "url host could not be resolved"

abbrev pub blocked_resolution : Failure
blocked_resolution =
    webhook_validation_error "webhook_url_blocked" "url host resolves to a disallowed address"

-- Without the brackets of an IPv6 host
abbrev pub bare_host : Text → Text
bare_host h =
    if starts_with h (chars "[") && ends_with h (chars "]")
    then drop 1 (take (length h - 1) h)
    else h

abbrev pub check_addresses : Network → Option (List Text) → Result (Unit {0})
check_addresses net none = err unresolved
check_addresses net (some []) = err unresolved
check_addresses net (some (a ∷ addresses)) =
    require (not (any (is_blocked_ip net) (a ∷ addresses))) blocked_resolution

abbrev pub check_host : Network → Text → Result (Unit {0})
check_host net host =
    if not (net.is_ip host == 0)
    then require (not (is_blocked_ip net host)) blocked_url
    else if is_blocked_hostname net host
    then err blocked_host
    else check_addresses net (net.lookup host)

unfoldable pub assert_webhook_url_safe : Network → ParsedUrl → Result (Unit {0})
assert_webhook_url_safe net parsed =
    if net.is_escape_hatch_active
    then ok tt
    else if length parsed.hostname == 0
    then err (webhook_validation_error "webhook_url_invalid" "url has no host")
    else check_host net (bare_host parsed.hostname)

abbrev pub is_http : Text → Bool
is_http protocol = same protocol (chars "http:") || same protocol (chars "https:")

unfoldable pub validate_url : Network → Text → Result (Unit {0})
validate_url net value = do
  require (not (length value == 0)) (bad_request "validation_error" "url is required")
  require (not (ltb 2048 (length value))) (bad_request "validation_error" "url exceeds 2048 chars")
  parsed ← or_throw (net.parse_url value) (bad_request "validation_error" "url is not a valid URL")
  require (is_http parsed.protocol) (bad_request "validation_error" "url must be http(s)")
  require (length parsed.username == 0 && length parsed.password == 0)
      (bad_request "validation_error" "url must not include credentials")
  assert_webhook_url_safe net parsed

abbrev pub is_parsed_url_allowed : Network → ParsedUrl → Bool
is_parsed_url_allowed net parsed =
    is_http parsed.protocol
    && (net.is_escape_hatch_active
        || (not (length parsed.hostname == 0)
            && not (is_blocked_ip net (bare_host parsed.hostname))))

unfoldable pub is_url_allowed_for_delivery : Network → Text → Bool
is_url_allowed_for_delivery net raw_url = elim (net.parse_url raw_url) [
  | none ↦ false
  | some parsed ↦ is_parsed_url_allowed net parsed
]

-- What the agent's lookup hands to the connection
pub data AgentLookup : Type 0 where
  connect : (address : Text) → AgentLookup
  blocked_address blocked_hostname failed : AgentLookup

abbrev pub of_one : Option Text → AgentLookup
of_one none = failed
of_one (some address) = connect address

abbrev pub of_allowed : Option Text → AgentLookup
of_allowed none = blocked_address
of_allowed (some address) = connect address

abbrev pub of_resolved : Network → Option (List Text) → AgentLookup
of_resolved net none = failed
of_resolved net (some addresses) = of_allowed (find (λ a. not (is_blocked_ip net a)) addresses)

unfoldable pub agent_lookup : Network → Text → AgentLookup
agent_lookup net hostname =
    if net.is_escape_hatch_active
    then of_one (net.lookup_one hostname)
    else if not (net.is_ip hostname == 0)
    then if is_blocked_ip net hostname then blocked_address else connect hostname
    else if is_blocked_hostname net hostname
    then blocked_hostname
    else of_resolved net (net.lookup hostname)
