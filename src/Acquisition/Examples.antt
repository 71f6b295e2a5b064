-- ===== src/Acquisition/Examples.antt =====
-- newz/acquisition, a page that redirects to another one, and a transport that serves both.
use new_z.Prelude.{
  ℕ, ◌≤◌, ◌≡◌, ◌↔◌, refl, true, false, none, some, List, [], ◌∷◌, String, ◌==◌, string_eq, nat_eq,
  if◌then◌else◌, every, length,
}
use new_z.Prelude.Search.{text_len, take_text, drop_text, starts_with, find_text}
use new_z.Domain.Operations.{fetch_refusal_eq}
use new_z.Acquisition.UrlPolicy.{Urls, Parts, PortOf, Address, AddressFlags, default_url_policy}
use new_z.Acquisition.Robots.{
  Robots, is_anchored, split_stars, match_first, match_parts, matches, allows,
}
use new_z.Acquisition.Robots.Laws.{allows_lem}
use new_z.Acquisition.Robots.Patterns.{Globs, matches_iff}
use new_z.Acquisition.Body.{Read, RawResponse}
use new_z.Acquisition.Answers.{Request, Opened}
use new_z.Acquisition.Fetcher.{Context}
use new_z.Acquisition.Fetcher.Hops.{fetch}
use new_z.Acquisition.Fetcher.Hops.Opens.{is_safe, fetch-Adds}

abbrev parts : String → String → Parts
parts scheme path = record {
  scheme = scheme;
  netloc = "news.test";
  username = none;
  password = none;
  hostname = some "news.test";
  port = PortOf.port_of none;
  path = path;
  query = "";
}

abbrev public_address : AddressFlags
public_address = record {
  is_private = false;
  is_loopback = false;
  is_link_local = false;
  is_multicast = false;
  is_reserved = false;
  is_unspecified = false;
}

abbrev urls : Urls
urls = record {
  urlsplit = λ url.
      if url == "https://news.test/old"
      then some (parts "https" "/old")
      else if url == "https://news.test/new"
      then some (parts "https" "/new")
      else none;
  lower = λ text. text;
  ip_address =
      λ address. if address == "93.184.216.34" then some (Address.ipv4 public_address) else none;
  urljoin = λ base location. location;
}

abbrev robots : Robots
robots = record {
  host = "news.test";
  rules =
      record { allow = false; path = "/news*.pdf" } ∷ record { allow = true; path = "/news" } ∷ [];
  crawl_delay = none;
  fetched = true;
  detail = "group *";
}

allows_lem_example : allows robots "/news/a.pdf" ≡ false
unfolding matches match_first match_parts split_stars is_anchored find_text starts_with drop_text
    take_text text_len
allows_lem_example = allows_lem robots "/news/a.pdf"

matches_iff_example :
    (matches record { allow = false; path = "/news*.pdf" } "/news/a.pdf" ≡ true)
    ↔ Globs ("/news" ∷ ".pdf" ∷ []) "/news/a.pdf"
unfolding matches match_first match_parts split_stars is_anchored find_text starts_with drop_text
    take_text text_len
matches_iff_example =
    matches_iff record { allow = false; path = "/news*.pdf" } "/news/a.pdf" refl refl

-- A rule that ends in "$" is compared with the first place where its last part stands.
matches_anchored_twice : matches record { allow = false; path = "/*.pdf$" } "/a.pdf" ≡ true
unfolding matches match_first match_parts split_stars is_anchored find_text starts_with drop_text
    take_text text_len
matches_anchored_twice = refl

matches_first_place : matches record { allow = false; path = "/*.pdf$" } "/a.pdf/b.pdf" ≡ false
unfolding matches match_first match_parts split_stars is_anchored find_text starts_with drop_text
    take_text text_len
matches_first_place = refl

abbrev response : ℕ → List (String × String) → RawResponse
response status headers = record {
  status = status;
  headers = headers;
  body = Read.chunk (104 ∷ 105 ∷ []) ∷ [];
}

abbrev serve : Request → Opened
serve q =
    if q.path == "/old"
    then Opened.opened (response 301 (("Location", "https://news.test/new") ∷ []))
    else if q.path == "/new"
    then Opened.opened (response 200 (("Content-Type", "text/html") ∷ []))
    else Opened.opened (response 404 [])

abbrev web : Context Unit Unit
web = record {
  urls = urls;
  lines = record {
    splitlines = λ text. [];
    directive = λ line. none;
    strip = λ text. text;
    lower = λ text. text;
    unquote = λ text. text;
    is_number = λ text. false;
    repr = λ text. text;
  };
  headers = record { strip = λ text. text; lower = λ text. text; digits = λ text. none };
  texts = record {
    strip_brackets = λ host. host;
    is_literal_address = λ host. false;
    sha256 = λ body. "";
    decode = λ body. "";
  };
  zlib = record {
    gzip = tt;
    deflate = tt;
    decompress = λ d body most. some (tt, body);
    flush = λ d. some [];
  };
  transport = record {
    user_agent = "newz";
    open_request = λ net q. (net, serve q);
    resolve = λ net host. (net, "93.184.216.34" ∷ []);
  };
  policy = record {
    max_bytes = 8388608;
    max_decompressed_bytes = 33554432;
    max_decompression_ratio = 100;
    url = default_url_policy;
    respect_robots = true;
  };
  now = 0;
  cache_hours = 24;
}

fetch-Adds_example :
    (every (is_safe urls default_url_policy) (fetch web tt [] "https://news.test/old").0.requests
      ≡ true)
    × (length (fetch web tt [] "https://news.test/old").0.requests ≤ 8)
fetch-Adds_example = fetch-Adds web tt [] "https://news.test/old"
