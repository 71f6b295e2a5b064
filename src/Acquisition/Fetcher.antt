-- ===== src/Acquisition/Fetcher.antt =====
-- newz/acquisition/fetcher.py: one URL read under policy, over the redirects that it may follow. The
-- transport, the parsing of texts and `zlib` are parameters; a run also lists what it opened.
pub mod Hops
use Prim.Native.String.{◌++◌ as text_append}
use new_z.Prelude.{
  ℕ, zero, suc, ◌+◌, ◌*◌, Bool, true, false, not, ◌&&◌, ◌||◌, Option, none, some, List, [], ◌∷◌,
  ◌++◌, String, ◌==◌, string_eq, nat_eq, if◌then◌else◌, ltb, leb, length, contains, get, is_text,
  is_filled, exists, decimal,
}
use new_z.Domain.Operations.{FetchRefusal, AttemptOutcome, fetch_refusal_value}
use new_z.Acquisition.UrlPolicy.{
  Urls, Parts, UrlPolicy, UrlVerdict, inspect_url, inspect_address, inspect_redirect,
}
use new_z.Acquisition.Robots.{
  Lines, Robots, RobotsCache, allows, cache_get, cache_put, path_of, parse, before,
}
use new_z.Acquisition.Body.{
  Bytes, RawResponse, header_in, FetchPolicy, Zlib, Headers, BodyRead, read_body,
}
use new_z.Acquisition.Answers.{
  normalize_mime, magic, begins_with, lstrip, take_bytes, Request, Opened, Transport, Texts,
  FetchResult, result, refuse, refuse_at, error_at, refused_address, origin_of, Session, Hop,
  is_redirect,
}

-- What a fetch is given beside its URL. A time is its number of seconds.
pub record Context (Net D : Type 0) : Type 0 where
  pub urls : Urls
  pub lines : Lines
  pub headers : Headers
  pub texts : Texts
  pub zlib : Zlib D
  pub transport : Transport Net
  pub policy : FetchPolicy
  pub now : ℕ
  pub cache_hours : ℕ

module _ {Net D : Type 0} (w : Context Net D) where
  -- `transport.open`, and the note of it.
  unfoldable pub open_at : Session Net → Request → Session Net × Opened
  open_at s request =
      let (net, answer) = w.transport.open_request s.net request in
      (record s { net = net; requests = s.requests ++ request ∷ [] }, answer)

  unfoldable pub unfetched : String → String → Robots
  unfetched host detail = record {
    host = host;
    rules = [];
    crawl_delay = none;
    fetched = false;
    detail = detail;
  }

  -- What a response to the request for robots.txt says: none is zlib.error.
  unfoldable pub read_robots : String → RawResponse → Option Robots
  read_robots host response =
      if leb 400 response.status && ltb response.status 500
      then some record {
        host = host;
        rules = [];
        crawl_delay = none;
        fetched = true;
        detail = text_append "no robots.txt (HTTP " (text_append (decimal response.status) ")");
      }
      else if leb 500 response.status
      then some (
          unfetched host
            (text_append "unreachable (HTTP " (text_append (decimal response.status) ")")))
      else elim (read_body w.zlib (record w.policy { max_bytes = 524288 }) w.headers response) [
        | BodyRead.zlib_error ↦ none
        | BodyRead.body_timeout message ↦ some (unfetched host "unreachable while reading")
        | BodyRead.body_os_error message ↦ some (unfetched host "unreachable while reading")
        | BodyRead.body_read body raw (some why) ↦
            some (unfetched host (text_append "unreadable: " (fetch_refusal_value why)))
        | BodyRead.body_read body raw none ↦
            some (parse w.lines (w.texts.decode body) w.transport.user_agent host)
      ]

  -- `robots_for`
  unfoldable pub robots_for : Session Net → UrlVerdict → String → Session Net × Option Robots
  robots_for s verdict address =
      let (after, answer) = open_at s record {
        scheme = verdict.scheme;
        host = verdict.host;
        port = verdict.port;
        path = "/robots.txt";
        address = address;
      } in
      (
        after,
        elim answer [
          | Opened.open_timeout kind message ↦
              some (unfetched verdict.host (text_append "unreachable: " kind))
          | Opened.open_os_error kind message ↦
              some (unfetched verdict.host (text_append "unreachable: " kind))
          | Opened.opened response ↦ read_robots verdict.host response
        ],
      )

  -- The cached rules of the host, or those that it is asked for: none is zlib.error.
  unfoldable pub cached_robots : Session Net → UrlVerdict → String → Session Net × Option Robots
  cached_robots s verdict address =
      let (kept, found) = cache_get s.cache verdict.host w.now in
      elim found [
        | some robots ↦ (record s { cache = kept }, some robots)
        | none ↦
            let (after, asked) = robots_for (record s { cache = kept }) verdict address in
            elim asked [
              | none ↦ (after, none)
              | some robots ↦ (
                record after {
                  cache = cache_put after.cache verdict.host robots w.now w.cache_hours;
                },
                some robots,
              )
            ]
      ]

  -- What is made of the body of a response.
  unfoldable pub retain :
      (url current : String)
      → List String
      → RawResponse
      → (declared normalized : String) → BodyRead
      → Hop
  retain url current redirects response declared normalized BodyRead.zlib_error = Hop.raised
  retain url current redirects response declared normalized (BodyRead.body_timeout message) =
      Hop.done (refuse_at response.status url redirects FetchRefusal.timeout message)
  retain url current redirects response declared normalized (BodyRead.body_os_error message) =
      Hop.done (error_at response.status url redirects message)
  retain url current redirects response declared normalized
        (BodyRead.body_read body raw_read (some why)) =
      Hop.done
        record (refuse_at response.status url redirects why
          (text_append (decimal raw_read) " bytes read")) { bytes_read = raw_read }
  retain url current redirects response declared normalized
        (BodyRead.body_read body raw_read none) =
      if is_filled (magic normalized)
        && not (exists (λ m. begins_with (take_bytes 8 (lstrip body)) m) (magic normalized))
      then Hop.done
          record (refuse_at response.status url redirects FetchRefusal.content_type_not_allowed
            (text_append "declared " (text_append normalized ", body does not begin like one"))) {
              bytes_read = raw_read;
            }
      else Hop.done record {
        outcome = AttemptOutcome.retained;
        url = url;
        final_url = current;
        status = some response.status;
        declared_mime = declared;
        normalized_mime = normalized;
        body = body;
        content_hash = w.texts.sha256 body;
        bytes_read = raw_read;
        redirects = redirects;
        refusal = none;
        detail = "";
        headers = response.headers;
      }

  -- What is made of a response to the read itself.
  unfoldable pub answer_of : (url current : String) → List String → RawResponse → Hop
  answer_of url current redirects response =
      let location = header_in w.headers.lower response.headers "Location" "" in
      let declared = header_in w.headers.lower response.headers "Content-Type" "" in
      let normalized = normalize_mime w.headers declared in
      if is_redirect response.status
      then (if is_text location
          then Hop.redirect location
          else Hop.done (error_at response.status url redirects "redirect without a location"))
      else if response.status == 429
      then Hop.done (
          refuse_at response.status url redirects FetchRefusal.rate_limited
            (header_in w.headers.lower response.headers "Retry-After" "unspecified"))
      else if leb 400 response.status
      then Hop.done
          (record (error_at response.status url redirects
            (text_append "HTTP " (decimal response.status))) { final_url = current })
      else if not (is_text normalized)
      then Hop.done (
          refuse_at response.status url redirects FetchRefusal.content_type_not_allowed
            (if is_text declared then declared else "absent"))
      else retain url current redirects response declared normalized
          (read_body w.zlib w.policy w.headers response)
