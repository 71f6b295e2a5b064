-- ===== src/Acquisition/Answers.antt =====
-- newz/acquisition/fetcher.py and transport.py: what is asked of a transport, what it answers, and
-- what a fetch makes of it.
use new_z.Prelude.{
  ℕ, zero, suc, Bool, true, false, ◌&&◌, ◌||◌, Option, none, some, List, [], ◌∷◌, String, ◌==◌,
  string_eq, nat_eq, if◌then◌else◌, leb, contains, get,
}
use new_z.Domain.Operations.{FetchRefusal, AttemptOutcome}
use new_z.Acquisition.UrlPolicy.{Urls, UrlPolicy, inspect_address}
use new_z.Acquisition.Robots.{RobotsCache, before}
use new_z.Acquisition.Body.{Bytes, RawResponse, Headers}

abbrev pub mime_normalization : List (String × String)
mime_normalization =
    ("text/html", "text/html")
    ∷ ("application/xhtml+xml", "text/html")
    ∷ ("text/plain", "text/plain")
    ∷ ("text/csv", "text/csv")
    ∷ ("application/pdf", "application/pdf")
    ∷ ("application/json", "application/json")
    ∷ ("application/ld+json", "application/json")
    ∷ ("text/xml", "application/xml")
    ∷ ("application/xml", "application/xml")
    ∷ ("application/rss+xml", "application/xml")
    ∷ ("application/atom+xml", "application/xml")
    ∷ []

-- `normalize_mime`
unfoldable pub normalize_mime : Headers → String → String
normalize_mime texts content_type =
    elim (get mime_normalization (texts.lower (texts.strip (before 59 content_type)))) [
      | none ↦ ""
      | some normalized ↦ normalized
    ]

-- `MAGIC.get(normalized)`, in bytes, with no entry as the empty list.
unfoldable pub magic : String → List Bytes
magic normalized =
    if normalized == "application/pdf"
    then (37 ∷ 80 ∷ 68 ∷ 70 ∷ 45 ∷ []) ∷ []
    else if normalized == "application/json"
    then (123 ∷ []) ∷ (91 ∷ []) ∷ []
    else []

-- `body.startswith(prefix)`
unfoldable pub begins_with : Bytes → Bytes → Bool
begins_with body [] = true
begins_with [] (b ∷ prefix) = false
begins_with (a ∷ body) (b ∷ prefix) = a == b && begins_with body prefix

-- `body.lstrip()`, of bytes.
unfoldable pub lstrip : Bytes → Bytes
lstrip [] = []
lstrip (b ∷ rest) =
    let more = lstrip rest in if b == 32 || leb 9 b && leb b 13 then more else b ∷ rest

abbrev pub take_bytes : ℕ → Bytes → Bytes
take_bytes zero body = []
take_bytes (suc n) [] = []
take_bytes (suc n) (b ∷ rest) = b ∷ take_bytes n rest

pub record Request : Type 0 where
  pub scheme : String
  pub host : String
  pub port : ℕ
  pub path : String
  pub address : String

-- What `transport.open` does. A TimeoutError or another OSError has the name of its type and a text.
pub data Opened : Type 0 where
  opened : RawResponse → Opened
  open_timeout : (kind message : String) → Opened
  open_os_error : (kind message : String) → Opened

pub record Transport (Net : Type 0) : Type 0 where
  pub user_agent : String
  pub open_request : Net → Request → Net × Opened
  pub resolve : Net → String → Net × List String

-- What else the fetcher takes from the standard library: `host.strip("[]")`, whether a host is
-- digits and dots or has a colon, the hash, and the decoding of bytes.
pub record Texts : Type 0 where
  pub strip_brackets : String → String
  pub is_literal_address : String → Bool
  pub sha256 : Bytes → String
  pub decode : Bytes → String

pub record FetchResult : Type 0 where
  pub outcome : AttemptOutcome
  pub url : String
  pub final_url : String
  pub status : Option ℕ
  pub declared_mime : String
  pub normalized_mime : String
  pub body : Bytes
  pub content_hash : String
  pub bytes_read : ℕ
  pub redirects : List String
  pub refusal : Option FetchRefusal
  pub detail : String
  pub headers : List (String × String)

-- A FetchResult with the fields that every result has, and the defaults.
abbrev pub result :
    AttemptOutcome → String → List String → Option FetchRefusal → String → FetchResult
result outcome url redirects refusal detail = record {
  outcome = outcome;
  url = url;
  final_url = "";
  status = none;
  declared_mime = "";
  normalized_mime = "";
  body = [];
  content_hash = "";
  bytes_read = 0;
  redirects = redirects;
  refusal = refusal;
  detail = detail;
  headers = [];
}

-- `_refuse`
abbrev pub refuse : String → List String → FetchRefusal → String → FetchResult
refuse url redirects why detail = result AttemptOutcome.refused url redirects (some why) detail

-- `_refuse(..., status=response.status)`
abbrev pub refuse_at : ℕ → String → List String → FetchRefusal → String → FetchResult
refuse_at status url redirects why detail = record (refuse url redirects why detail) {
  status = some status;
}

abbrev pub error_at : ℕ → String → List String → String → FetchResult
error_at status url redirects detail =
    record (result AttemptOutcome.error url redirects none detail) { status = some status }

-- The first address that is refused, with the reason.
unfoldable pub refused_address : Urls → UrlPolicy → List String → Option (String × FetchRefusal)
refused_address urls policy [] = none
refused_address urls policy (address ∷ rest) = elim (inspect_address urls address policy) [
  | none ↦ refused_address urls policy rest
  | some why ↦ some (address, why)
]

-- `redirects[-2] if len(redirects) > 1 else url`
unfoldable pub origin_of : String → List String → String
origin_of url [] = url
origin_of url (a ∷ []) = url
origin_of url (a ∷ b ∷ []) = a
origin_of url (a ∷ b ∷ c ∷ rest) = origin_of url (b ∷ c ∷ rest)

-- The state of a fetch, with what it opened so far.
pub record Session (Net : Type 0) : Type 0 where
  pub net : Net
  pub cache : RobotsCache
  pub requests : List Request

-- How one hop ends: with a result, at a redirect to a location, or in an exception.
pub data Hop : Type 0 where
  done : FetchResult → Hop
  redirect : String → Hop
  raised : Hop

abbrev pub is_redirect : ℕ → Bool
is_redirect status = contains (301 ∷ 302 ∷ 303 ∷ 307 ∷ 308 ∷ []) status
