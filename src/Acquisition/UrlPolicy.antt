-- ===== src/Acquisition/UrlPolicy.antt =====
-- newz/acquisition/urlpolicy.py: what may be fetched, decided before anything is opened. What the
-- standard library reads of a URL and of an address is a parameter.
pub mod Laws
use Prim.Native.String.{◌++◌}
use new_z.Prelude.{
  ℕ, zero, suc, Bool, true, false, not, ◌&&◌, ◌||◌, Option, none, some, List, [], ◌∷◌, String, ◌==◌,
  string_eq, nat_eq, if◌then◌else◌, is_text, ltb, contains, get, is_filled, decimal,
}
use new_z.Domain.Operations.{FetchRefusal, fetch_refusal_eq}

-- `SplitResult.port`: none where the URL names no port, and a ValueError for one that is no port.
pub data PortOf : Type 0 where
  port_of : Option ℕ → PortOf
  port_error : PortOf

-- What the rules read of `urlsplit(url)`.
pub record Parts : Type 0 where
  pub scheme : String
  pub netloc : String
  pub username : Option String
  pub password : Option String
  pub hostname : Option String
  pub port : PortOf
  pub path : String
  pub query : String

pub record AddressFlags : Type 0 where
  pub is_private : Bool
  pub is_loopback : Bool
  pub is_link_local : Bool
  pub is_multicast : Bool
  pub is_reserved : Bool
  pub is_unspecified : Bool

-- An IPv4 address, or an IPv6 address with the IPv4 address that it maps.
pub data Address : Type 0 where
  ipv4 : AddressFlags → Address
  ipv6 : AddressFlags → (ipv4_mapped : Option AddressFlags) → Address

-- `urlsplit` and `ip_address`, none where they raise ValueError, `str.lower` and `urljoin`.
pub record Urls : Type 0 where
  pub urlsplit : String → Option Parts
  pub lower : String → String
  pub ip_address : String → Option Address
  pub urljoin : String → String → String

abbrev pub default_ports : List (String × ℕ)
default_ports = ("http", 80) ∷ ("https", 443) ∷ []

pub record UrlPolicy : Type 0 where
  pub allowed_schemes : List String
  pub allowed_ports : List ℕ
  pub max_redirects : ℕ
  pub allow_non_public_addresses : Bool
  pub allowed_hosts : List String

abbrev pub default_url_policy : UrlPolicy
default_url_policy = record {
  allowed_schemes = "https" ∷ "http" ∷ [];
  allowed_ports = 80 ∷ 443 ∷ [];
  max_redirects = 3;
  allow_non_public_addresses = false;
  allowed_hosts = [];
}

pub record UrlVerdict : Type 0 where
  pub allowed : Bool
  pub refusal : Option FetchRefusal
  pub scheme : String
  pub host : String
  pub port : ℕ
  pub path : String
  pub detail : String

abbrev pub no : FetchRefusal → String → UrlVerdict
no why detail = record {
  allowed = false;
  refusal = some why;
  scheme = "";
  host = "";
  port = 0;
  path = "/";
  detail = detail;
}

-- `bool(text)` of a text or None.
abbrev pub has_text : Option String → Bool
has_text none = false
has_text (some text) = is_text text

abbrev pub or_empty : Option String → String
or_empty none = ""
or_empty (some text) = text

-- `parts.port or DEFAULT_PORTS[scheme]`: none is the KeyError of a scheme without a default.
unfoldable pub port_or_default : Option ℕ → String → Option ℕ
port_or_default (some (suc n)) scheme = some (suc n)
port_or_default (some zero) scheme = get default_ports scheme
port_or_default none scheme = get default_ports scheme

-- `path or "/"`, with the query if there is one.
unfoldable pub path_with_query : Parts → String
path_with_query parts =
    let path = if is_text parts.path then parts.path else "/" in
    if is_text parts.query then path ++ ("?" ++ parts.query) else path

-- The checks on the port and the host, and the verdict.
unfoldable pub inspect_endpoint : Parts → UrlPolicy → (scheme host : String) → ℕ → UrlVerdict
inspect_endpoint parts policy scheme host port =
    if not (contains policy.allowed_ports port)
    then no FetchRefusal.port_not_allowed (decimal port)
    else if is_filled policy.allowed_hosts && not (contains policy.allowed_hosts host)
    then no FetchRefusal.host_not_in_catalog host
    else record {
      allowed = true;
      refusal = none;
      scheme = scheme;
      host = host;
      port = port;
      path = path_with_query parts;
      detail = "";
    }

-- `none` is a KeyError.
unfoldable pub inspect_port :
    String → Parts → UrlPolicy → (scheme host : String) → PortOf → Option UrlVerdict
inspect_port url parts policy scheme host PortOf.port_error =
    some (no FetchRefusal.port_not_allowed url)
inspect_port url parts policy scheme host (PortOf.port_of n) = elim (port_or_default n scheme) [
  | none ↦ none
  | some port ↦ some (inspect_endpoint parts policy scheme host port)
]

abbrev pub is_non_public : AddressFlags → Bool
is_non_public ip =
    ip.is_private
    || (ip.is_loopback
        || (ip.is_link_local || (ip.is_multicast || (ip.is_reserved || ip.is_unspecified))))

abbrev pub off_policy : Option FetchRefusal → Bool
off_policy none = false
off_policy (some why) = why == FetchRefusal.scheme_not_allowed || why == FetchRefusal.url_malformed

module _ (urls : Urls) where
  -- The checks from the scheme on: none is a KeyError.
  unfoldable pub inspect_parts : String → Parts → UrlPolicy → Option UrlVerdict
  inspect_parts url parts policy =
      let scheme = urls.lower parts.scheme in
      let host = urls.lower (or_empty parts.hostname) in
      if is_text scheme && not (contains policy.allowed_schemes scheme)
      then some (no FetchRefusal.scheme_not_allowed scheme)
      else if not (is_text scheme) || not (is_text parts.netloc)
      then some (no FetchRefusal.url_malformed url)
      else if has_text parts.username || has_text parts.password
      then some (no FetchRefusal.credentials_in_url url)
      else if not (is_text host)
      then some (no FetchRefusal.url_malformed url)
      else inspect_port url parts policy scheme host parts.port

  unfoldable pub inspect_url : String → UrlPolicy → Option UrlVerdict
  inspect_url url policy = elim (urls.urlsplit url) [
    | none ↦ some (no FetchRefusal.url_malformed url)
    | some parts ↦ inspect_parts url parts policy
  ]

  -- A mapped address is asked about again by its text, which reads as that address.
  unfoldable pub inspect_address : String → UrlPolicy → Option FetchRefusal
  inspect_address address policy =
      if policy.allow_non_public_addresses then none else elim (urls.ip_address address) [
        | none ↦ some FetchRefusal.host_not_resolvable
        | some (Address.ipv4 ip) ↦
            if is_non_public ip then some FetchRefusal.non_public_address else none
        | some (Address.ipv6 ip none) ↦
            if is_non_public ip then some FetchRefusal.non_public_address else none
        | some (Address.ipv6 ip (some mapped)) ↦
            if is_non_public ip || is_non_public mapped
            then some FetchRefusal.non_public_address
            else none
      ]

  -- What a redirect makes of the verdict on its target.
  unfoldable pub redirected : Parts → String → UrlVerdict → UrlVerdict
  redirected origin to_url verdict =
      if not verdict.allowed
      then if off_policy verdict.refusal
        then no FetchRefusal.redirect_off_policy to_url
        else verdict
      else if urls.lower origin.scheme == "https" && verdict.scheme == "http"
      then no FetchRefusal.redirect_scheme_downgrade to_url
      else verdict

  -- None is an exception: a KeyError, or the ValueError of an origin that is no URL.
  unfoldable pub inspect_redirect : (from_url to_url : String) → ℕ → UrlPolicy → Option UrlVerdict
  inspect_redirect from_url to_url hop policy =
      if ltb policy.max_redirects hop
      then some (no FetchRefusal.redirect_limit (decimal hop))
      else elim (urls.urlsplit from_url) [
        | none ↦ none
        | some origin ↦ elim (inspect_url to_url policy) [
          | none ↦ none
          | some verdict ↦ some (redirected origin to_url verdict)
        ]
      ]
