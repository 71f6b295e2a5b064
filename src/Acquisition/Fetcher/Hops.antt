-- ===== src/Acquisition/Fetcher/Hops.antt =====
-- newz/acquisition/fetcher.py, `fetch`: one hop, and the loop over the hops.
pub mod Opens
pub mod Results
use Prim.Native.String.{◌++◌ as text_append}
use new_z.Prelude.{
  ℕ, zero, suc, ◌+◌, ◌*◌, Bool, true, false, not, ◌&&◌, ◌||◌, Option, none, some, List, [], ◌∷◌,
  ◌++◌, String, ◌==◌, string_eq, nat_eq, if◌then◌else◌, ltb, leb, length, contains, get, is_text,
  is_filled, exists, decimal,
}
use new_z.Domain.Operations.{FetchRefusal, AttemptOutcome, fetch_refusal_value}
use new_z.Acquisition.UrlPolicy.{
  Urls, Parts, UrlPolicy, UrlVerdict, inspect_url, inspect_address, inspect_redirect,
}
use new_z.Acquisition.Robots.{
  Lines, Robots, RobotsCache, allows, cache_get, cache_put, path_of, parse, before,
}
use new_z.Acquisition.Body.{
  Bytes, RawResponse, header_in, FetchPolicy, Zlib, Headers, BodyRead, read_body,
}
use new_z.Acquisition.Answers.{
  normalize_mime, magic, begins_with, lstrip, take_bytes, Request, Opened, Transport, Texts,
  FetchResult, result, refuse, refuse_at, error_at, refused_address, origin_of, Session, Hop,
  is_redirect,
}
use new_z.Acquisition.Fetcher.{Context, open_at, cached_robots, answer_of}

module _ {Net D : Type 0} (w : Context Net D) where
  -- What is made of the answer to the read itself.
  unfoldable pub hop_of : (url current : String) → List String → Opened → Hop
  hop_of url current redirects (Opened.open_timeout kind message) =
      Hop.done (refuse url redirects FetchRefusal.timeout message)
  hop_of url current redirects (Opened.open_os_error kind message) =
      Hop.done (
        result AttemptOutcome.error url redirects none
          (text_append kind (text_append ": " message)))
  hop_of url current redirects (Opened.opened response) = answer_of w url current redirects response

  -- The read itself.
  unfoldable pub read_page :
      Session Net → UrlVerdict → (address url current : String) → List String → Session Net × Hop
  read_page s verdict address url current redirects =
      let (after, answer) = open_at w s record {
        scheme = verdict.scheme;
        host = verdict.host;
        port = verdict.port;
        path = verdict.path;
        address = address;
      } in
      (after, hop_of url current redirects answer)

  -- The read, if the rules that the host is asked for permit it.
  unfoldable pub read_permitted :
      Session Net → UrlVerdict → (address url current : String) → List String → Session Net × Hop
  read_permitted s verdict address url current redirects =
      if not w.policy.respect_robots
      then read_page s verdict address url current redirects
      else let (after, asked) = cached_robots w s verdict address in
        elim asked [
          | none ↦ (after, Hop.raised)
          | some robots ↦
              if not robots.fetched
              then (
                after,
                Hop.done (
                    refuse url redirects FetchRefusal.robots_unreachable
                      (text_append verdict.host (text_append ": " robots.detail))),
              )
              else elim (w.urls.urlsplit current) [
                | none ↦ (after, Hop.raised)
                | some parts ↦
                    if not (allows robots (path_of parts))
                    then (
                      after,
                      Hop.done (
                          refuse url redirects FetchRefusal.robots_disallowed (
                            text_append verdict.host (
                              text_append " disallows " (
                                text_append (path_of parts)
                                  (text_append " (" (text_append robots.detail ")")))))),
                    )
                    else read_page after verdict address url current redirects
              ]
        ]

  -- The addresses of the host: the host itself if it is one.
  unfoldable pub addresses_of : Session Net → String → Session Net × List String
  addresses_of s host =
      let literal = w.texts.strip_brackets host in
      let (net, found) = w.transport.resolve s.net host in
      if w.texts.is_literal_address literal
      then (s, literal ∷ [])
      else (record s { net = net }, found)

  -- The read at the first of the addresses if none of them is refused.
  unfoldable pub visit_addresses :
      Session Net
      → List String
      → UrlVerdict
      → (url current : String) → List String
      → Session Net × Hop
  visit_addresses s [] verdict url current redirects =
      (s, Hop.done (refuse url redirects FetchRefusal.host_not_resolvable verdict.host))
  visit_addresses s (first ∷ rest) verdict url current redirects =
      elim (refused_address w.urls w.policy.url (first ∷ rest)) [
        | some (address, why) ↦ (
          s,
          Hop.done
              (refuse url redirects why (text_append verdict.host (text_append " -> " address))),
        )
        | none ↦ read_permitted s verdict first url current redirects
      ]

  -- The read of an allowed URL.
  unfoldable pub visit :
      Session Net → UrlVerdict → (url current : String) → List String → Session Net × Hop
  visit s verdict url current redirects =
      let (after, addresses) = addresses_of s verdict.host in
      visit_addresses after addresses verdict url current redirects

  -- The verdict on the URL of a hop.
  unfoldable pub verdict_at : ℕ → (url current : String) → List String → Option UrlVerdict
  verdict_at zero url current redirects = inspect_url w.urls current w.policy.url
  verdict_at (suc n) url current redirects =
      inspect_redirect w.urls (origin_of url redirects) current (suc n) w.policy.url

  unfoldable pub hop : Session Net → ℕ → (url current : String) → List String → Session Net × Hop
  hop s n url current redirects = elim (verdict_at n url current redirects) [
    | none ↦ (s, Hop.raised)
    | some verdict ↦
        if not verdict.allowed
        then (
          s,
          Hop.done (result AttemptOutcome.refused url redirects verdict.refusal verdict.detail),
        )
        else visit s verdict url current redirects
  ]

  -- A result, an exception, or what `continue` leads to.
  unfoldable pub finish_hop :
      Session Net
      → Hop
      → (String → Session Net × Option FetchResult)
      → Session Net × Option FetchResult
  finish_hop s (Hop.done answer) next = (s, some answer)
  finish_hop s (Hop.redirect location) next = next location
  finish_hop s Hop.raised next = (s, none)

  -- The loop, from the hop `n` on, for `k` more hops: none is an exception.
  unfoldable pub fetch_from :
      (k : ℕ)
      → Session Net
      → (n : ℕ) → (url current : String) → List String
      → Session Net × Option FetchResult
  fetch_from zero s n url current redirects =
      (s, some (refuse url redirects FetchRefusal.redirect_limit (decimal (length redirects))))
  fetch_from (suc k) s n url current redirects =
      let (after, next) = hop s n url current redirects in
      finish_hop after next (λ location.
        let target = w.urls.urljoin current location in
        fetch_from k after (suc n) url target (redirects ++ target ∷ []))

  unfoldable pub fetch : Net → RobotsCache → String → Session Net × Option FetchResult
  fetch net cache url =
      fetch_from (w.policy.url.max_redirects + 2) record { net = net; cache = cache; requests = [] }
        0 url url []
