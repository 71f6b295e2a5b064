-- ===== src/Acquisition/Fetcher/Hops/Opens.antt =====
-- What a fetch opens.
use mathlib.Core.Path.{subst}
use new_z.Prelude.{
  ℕ, zero, suc, ◌+◌, ◌*◌, ◌-◌, ◌≤◌, ◌≡◌, refl, sym, ap, ◌∙◌, arith, Bool, true, not, ◌&&◌, ◌||◌,
  Option, none, some, List, [], ◌∷◌, ◌++◌, String, string_eq, nat_eq, if◌then◌else◌, contains,
  is_filled, is_some, every, length, ltb, every-append_one, if_elim, Bool-cases, Option-cases, inl,
  inr,
}
use new_z.Acquisition.UrlPolicy.{Urls, UrlPolicy, UrlVerdict, inspect_address}
use new_z.Acquisition.UrlPolicy.Laws.{
  is_permitted, is_sound, inspect_url-is_sound, inspect_redirect-allowed,
}
use new_z.Acquisition.Robots.{RobotsCache, allows, cache_get, path_of}
use new_z.Acquisition.Answers.{Request, Session, Hop, FetchResult, refused_address, origin_of}
use new_z.Acquisition.Fetcher.{Context, open_at, robots_for, cached_robots}
use new_z.Acquisition.Fetcher.Hops.{
  read_page, read_permitted, addresses_of, visit_addresses, visit, verdict_at, hop, finish_hop,
  fetch_from, fetch,
}

-- The request goes to an address that the policy accepts, by a scheme and a port of it, for a host
-- that it lists, if it lists any.
abbrev pub is_safe : Urls → UrlPolicy → Request → Bool
is_safe urls policy q =
    not (is_some (inspect_address urls q.address policy))
    && (contains policy.allowed_schemes q.scheme
        && (contains policy.allowed_ports q.port
            && (not (is_filled policy.allowed_hosts) || contains policy.allowed_hosts q.host)))

-- No address is refused, so none of them is.
refused_address-every :
    (urls : Urls) (policy : UrlPolicy) (addresses : List String)
    → refused_address urls policy addresses ≡ none
    → every (λ a. not (is_some (inspect_address urls a policy))) addresses ≡ true
unfolding refused_address
refused_address-every urls policy [] h = refl
refused_address-every urls policy (a ∷ rest) h =
    elim (Option-cases (inspect_address urls a policy)) [
      | inl fine ↦
          rw fine (refused_address-every urls policy rest (rw (fine, refused_address) at h))
      | inr (why, refused) ↦ some_none (rw (refused, refused_address) at h)
    ]
  where
    some_none : {A B : Type 0} {x : B} → some x ≡ none → A
    some_none k = cc

-- Some requests of which at most `most` were added, and that are safe if the earlier ones are.
record Adds {Net D : Type 0} (w : Context Net D) (most : ℕ) (before after : List Request)
    : Type 0 where
  safe :
      every (is_safe w.urls w.policy.url) before ≡ true
      → every (is_safe w.urls w.policy.url) after ≡ true
  few : length after ≤ length before + most

module _ {Net D : Type 0} (w : Context Net D) where
  abbrev is_safe_at : UrlVerdict → String → Bool
  is_safe_at v address =
      is_permitted w.policy.url v && not (is_some (inspect_address w.urls address w.policy.url))

  length-append_one : (qs : List Request) (q : Request) → length (qs ++ q ∷ []) ≡ length qs + 1
  length-append_one [] q = omega arith
  length-append_one (p ∷ qs) q = omega (arith, length-append_one qs q)

  open_at-Adds :
      (s : Session Net) (q : Request)
      → is_safe w.urls w.policy.url q ≡ true
      → Adds w 1 s.requests (open_at w s q).0.requests
  unfolding open_at
  open_at-Adds s q safe = record {
    safe = λ all.
        every-append_one (is_safe w.urls w.policy.url) s.requests q ∙ ground (arith, all, safe);
    few = omega (arith, length-append_one s.requests q);
  }

  robots_for-Adds :
      (s : Session Net) (v : UrlVerdict) (address : String)
      → is_safe_at v address ≡ true
      → Adds w 1 s.requests (robots_for w s v address).0.requests
  unfolding robots_for
  robots_for-Adds s v address safe =
      open_at-Adds s
        record {
          scheme = v.scheme;
          host = v.host;
          port = v.port;
          path = "/robots.txt";
          address = address;
        }
        (ground (arith, safe))

  read_page-Adds :
      (s : Session Net) (v : UrlVerdict) (address url current : String) (redirects : List String)
      → is_safe_at v address ≡ true
      → Adds w 1 s.requests (read_page w s v address url current redirects).0.requests
  unfolding read_page
  read_page-Adds s v address url current redirects safe =
      open_at-Adds s
        record { scheme = v.scheme; host = v.host; port = v.port; path = v.path; address = address }
        (ground (arith, safe))

  Adds-refl : {n : ℕ} (qs : List Request) → Adds w n qs qs
  Adds-refl qs = record { safe = λ all. all; few = omega arith }

  Adds-trans :
      {m n : ℕ} {qs rs ts : List Request} → Adds w m qs rs → Adds w n rs ts → Adds w (m + n) qs ts
  Adds-trans first next = record {
    safe = λ all. next.safe (first.safe all);
    few = omega (arith, first.few, next.few);
  }

  Adds-le : {m n : ℕ} {qs rs : List Request} → m ≤ n → Adds w m qs rs → Adds w n qs rs
  Adds-le h some_added = record { safe = some_added.safe; few = omega (arith, some_added.few, h) }

  cached_robots-Adds :
      (s : Session Net) (v : UrlVerdict) (address : String)
      → is_safe_at v address ≡ true
      → Adds w 1 s.requests (cached_robots w s v address).0.requests
  unfolding cached_robots
  cached_robots-Adds s v address safe =
      let kept = (cache_get s.cache v.host w.now).0 in
      let asked = robots_for w (record s { cache = kept }) v address in
      elim (Option-cases (cache_get s.cache v.host w.now).1) [
        | inr (robots, fresh) ↦ rw (fresh, cached_robots) (Adds-refl s.requests)
        | inl stale ↦ elim (Option-cases asked.1) [
          | inl broken ↦
              rw (stale, broken, cached_robots)
                (robots_for-Adds (record s { cache = kept }) v address safe)
          | inr (robots, read) ↦
              rw (stale, read, cached_robots)
                (robots_for-Adds (record s { cache = kept }) v address safe)
        ]
      ]

  read_permitted-Adds :
      (s : Session Net) (v : UrlVerdict) (address url current : String) (redirects : List String)
      → is_safe_at v address ≡ true
      → Adds w 2 s.requests (read_permitted w s v address url current redirects).0.requests
  unfolding read_permitted
  read_permitted-Adds s v address url current redirects safe =
      let (after, asked) = cached_robots w s v address in
      let first = cached_robots-Adds s v address safe in
      elim (Bool-cases (not w.policy.respect_robots)) [
        | inl ignored ↦
            rw (ignored, read_permitted)
              (Adds-le (omega arith) (read_page-Adds s v address url current redirects safe))
        | inr respected ↦ elim (Option-cases asked) [
          | inl broken ↦ rw (respected, broken, read_permitted) (Adds-le (omega arith) first)
          | inr (robots, got) ↦ elim (Bool-cases (not robots.fetched)) [
            | inl unread ↦ rw (respected, got, unread, read_permitted) (Adds-le (omega arith) first)
            | inr fetched ↦ elim (Option-cases (w.urls.urlsplit current)) [
              | inl lost ↦
                  rw (respected, got, fetched, lost, read_permitted) (Adds-le (omega arith) first)
              | inr (parts, split) ↦ elim (Bool-cases (not (allows robots (path_of parts)))) [
                | inl barred ↦
                    rw (respected, got, fetched, split, barred, read_permitted)
                      (Adds-le (omega arith) first)
                | inr free ↦
                    rw (respected, got, fetched, split, free, read_permitted)
                      (Adds-trans first (read_page-Adds after v address url current redirects safe))
              ]
            ]
          ]
        ]
      ]

  addresses_of-requests :
      (s : Session Net) (host : String) → (addresses_of w s host).0.requests ≡ s.requests
  unfolding addresses_of
  addresses_of-requests s host =
      elim (Bool-cases (w.texts.is_literal_address (w.texts.strip_brackets host))) [
        | inl literal ↦ rw (literal, addresses_of) refl
        | inr name ↦ rw (name, addresses_of) refl
      ]

  visit_addresses-Adds :
      (s : Session Net) (addresses : List String) (v : UrlVerdict) (url current : String)
      (redirects : List String)
      → is_permitted w.policy.url v ≡ true
      → Adds w 2 s.requests (visit_addresses w s addresses v url current redirects).0.requests
  unfolding visit_addresses
  visit_addresses-Adds s [] v url current redirects permitted = Adds-refl s.requests
  visit_addresses-Adds s (first ∷ rest) v url current redirects permitted =
      elim (Option-cases (refused_address w.urls w.policy.url (first ∷ rest))) [
        | inr ((address, why), refused) ↦ rw (refused, visit_addresses) (Adds-refl s.requests)
        | inl fine ↦
            let all = refused_address-every w.urls w.policy.url (first ∷ rest) fine in
            rw (fine, visit_addresses)
              (read_permitted-Adds s v first url current redirects (ground (arith, permitted, all)))
      ]

  visit-Adds :
      (s : Session Net) (v : UrlVerdict) (url current : String) (redirects : List String)
      → is_permitted w.policy.url v ≡ true
      → Adds w 2 s.requests (visit w s v url current redirects).0.requests
  unfolding visit
  visit-Adds s v url current redirects permitted =
      subst (λ qs. Adds w 2 qs (visit w s v url current redirects).0.requests)
        (addresses_of-requests s v.host)
        (visit_addresses-Adds (addresses_of w s v.host).0 (addresses_of w s v.host).1 v url current
          redirects permitted)

  -- An allowed URL of a hop is permitted, and the hop is within the limit.
  verdict_at-allowed :
      (n : ℕ) (url current : String) (redirects : List String) (v : UrlVerdict)
      → verdict_at w n url current redirects ≡ some v
      → v.allowed ≡ true
      → (is_permitted w.policy.url v ≡ true) × (n ≤ w.policy.url.max_redirects)
  unfolding verdict_at
  verdict_at-allowed zero url current redirects v made allowed =
      let sound =
        sym (ap (is_sound w.policy.url) made) ∙ inspect_url-is_sound w.urls current w.policy.url in
      (ground (arith, sound, allowed), omega arith)
  verdict_at-allowed (suc n) url current redirects v made allowed =
      let (near, (origin, split, sound)) =
        inspect_redirect-allowed w.urls (origin_of url redirects) current (suc n) w.policy.url v
          made allowed in
      (ground (arith, sound, allowed), near)

  -- The requests that a hop may open: two, and none beyond the limit of redirects.
  abbrev allowance : ℕ → ℕ
  allowance n = if ltb w.policy.url.max_redirects n then 0 else 2

  hop-Adds :
      (s : Session Net) (n : ℕ) (url current : String) (redirects : List String)
      → Adds w (allowance n) s.requests (hop w s n url current redirects).0.requests
  unfolding hop
  hop-Adds s n url current redirects = elim (Option-cases (verdict_at w n url current redirects)) [
    | inl raised ↦ rw (raised, hop) (Adds-refl s.requests)
    | inr (v, made) ↦
        rw (made, hop)
          (if_elim (λ (x : Session Net × Hop). Adds w (allowance n) s.requests x.0.requests)
            (not v.allowed) (λ refused. Adds-refl s.requests)
            (λ allowed.
              let (permitted, near) =
                verdict_at-allowed n url current redirects v made (ground (arith, allowed)) in
              Adds-le (ground (arith, near)) (visit-Adds s v url current redirects permitted)))
  ]

  finish_hop-Adds :
      {m n : ℕ} (qs : List Request) (s : Session Net) (end : Hop)
      (next : String → Session Net × Option FetchResult)
      → Adds w m qs s.requests
      → ((location : String) → Adds w n s.requests (next location).0.requests)
      → Adds w (m + n) qs (finish_hop w s end next).0.requests
  unfolding finish_hop
  finish_hop-Adds qs s (Hop.done answer) next first more = Adds-le (omega arith) first
  finish_hop-Adds qs s (Hop.redirect location) next first more = Adds-trans first (more location)
  finish_hop-Adds qs s Hop.raised next first more = Adds-le (omega arith) first

  fetch_from-Adds :
      (k : ℕ) (s : Session Net) (n : ℕ) (url current : String) (redirects : List String)
      → Adds w
          (2 * (w.policy.url.max_redirects + 1 - n))
          s.requests
          (fetch_from w k s n url current redirects).0.requests
  unfolding fetch_from
  fetch_from-Adds zero s n url current redirects = Adds-refl s.requests
  fetch_from-Adds (suc k) s n url current redirects =
      let (after, next) = hop w s n url current redirects in
      Adds-le (ground arith) (
        finish_hop-Adds s.requests after next
          (λ location.
            let target = w.urls.urljoin current location in
            fetch_from w k after (suc n) url target (redirects ++ target ∷ []))
          (hop-Adds s n url current redirects)
          (λ location.
            fetch_from-Adds k after (suc n) url (w.urls.urljoin current location)
              (redirects ++ w.urls.urljoin current location ∷ [])))

  -- At every hop, and for robots.txt too, a fetch opens nothing but addresses that the policy
  -- accepts, by its schemes and ports and for the hosts that it lists. It opens at most twice one
  -- more than the limit of redirects.
  pub fetch-Adds :
      (net : Net) (cache : RobotsCache) (url : String)
      → (every (is_safe w.urls w.policy.url) (fetch w net cache url).0.requests ≡ true)
        × (length (fetch w net cache url).0.requests ≤ 2 * (w.policy.url.max_redirects + 1))
  unfolding fetch
  fetch-Adds net cache url =
      let added =
        fetch_from-Adds (w.policy.url.max_redirects + 2)
          record { net = net; cache = cache; requests = [] } 0 url url [] in
      (added.safe refl, omega (arith, added.few))
