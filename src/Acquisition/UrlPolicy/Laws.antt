-- ===== src/Acquisition/UrlPolicy/Laws.antt =====
-- What an allowed URL, redirect or address is.
use new_z.Prelude.{
  ℕ, ◌≤◌, ◌≡◌, refl, sym, ap, ◌∙◌, arith, Bool, true, false, not, ◌&&◌, ◌||◌, Option, none, some,
  String, ◌==◌, string_eq, nat_eq, is_text, ltb, contains, is_filled, if_lem, Bool-cases,
  Option-cases, inl, inr,
}
use new_z.Domain.Operations.{FetchRefusal, fetch_refusal_eq}
use new_z.Acquisition.UrlPolicy.{
  Urls, Parts, PortOf, UrlPolicy, UrlVerdict, no, has_text, or_empty, port_or_default,
  inspect_endpoint, inspect_port, inspect_parts, inspect_url, redirected, inspect_redirect,
  off_policy,
}

-- The verdict is within the policy.
abbrev pub is_permitted : UrlPolicy → UrlVerdict → Bool
is_permitted policy v =
    is_text v.scheme
    && (is_text v.host
        && (contains policy.allowed_schemes v.scheme
            && (contains policy.allowed_ports v.port
                && (not (is_filled policy.allowed_hosts) || contains policy.allowed_hosts v.host))))

-- Only what is permitted is allowed.
abbrev pub is_sound : UrlPolicy → Option UrlVerdict → Bool
is_sound policy none = true
is_sound policy (some v) = not v.allowed || is_permitted policy v

inspect_endpoint-is_sound :
    (parts : Parts) (policy : UrlPolicy) (scheme host : String) (port : ℕ)
    → (is_text scheme && (is_text host && contains policy.allowed_schemes scheme)) ≡ true
    → is_sound policy (some (inspect_endpoint parts policy scheme host port)) ≡ true
unfolding inspect_endpoint
inspect_endpoint-is_sound parts policy scheme host port h = ground (arith, h)

inspect_port-is_sound :
    (url : String) (parts : Parts) (policy : UrlPolicy) (scheme host : String) (port : PortOf)
    → (is_text scheme && (is_text host && contains policy.allowed_schemes scheme)) ≡ true
    → is_sound policy (inspect_port url parts policy scheme host port) ≡ true
unfolding inspect_port
inspect_port-is_sound url parts policy scheme host PortOf.port_error h = refl
inspect_port-is_sound url parts policy scheme host (PortOf.port_of n) h =
    elim (Option-cases (port_or_default n scheme)) [
      | inl missing ↦ rw (missing, is_sound) refl
      | inr (port, there) ↦
          rw (there, is_sound) (inspect_endpoint-is_sound parts policy scheme host port h)
    ]

module _ (urls : Urls) where
  inspect_parts-is_sound :
      (url : String) (parts : Parts) (policy : UrlPolicy)
      → is_sound policy (inspect_parts urls url parts policy) ≡ true
  unfolding inspect_parts
  inspect_parts-is_sound url parts policy =
      let scheme = urls.lower parts.scheme in
      let host = urls.lower (or_empty parts.hostname) in
      if_lem (is_sound policy) (is_text scheme && not (contains policy.allowed_schemes scheme)) refl
        (λ listed.
          if_lem (is_sound policy) (not (is_text scheme) || not (is_text parts.netloc)) refl
            (λ formed.
              if_lem (is_sound policy) (has_text parts.username || has_text parts.password) refl
                (λ plain. if_lem (is_sound policy) (not (is_text host)) refl (λ named.
                  inspect_port-is_sound url parts policy scheme host parts.port
                    (ground (arith, listed, formed, named))))))

  -- An allowed URL has a scheme and a port of the policy, and a host of it, if it names any.
  pub inspect_url-is_sound :
      (url : String) (policy : UrlPolicy) → is_sound policy (inspect_url urls url policy) ≡ true
  unfolding inspect_url
  inspect_url-is_sound url policy = elim (Option-cases (urls.urlsplit url)) [
    | inl malformed ↦ rw (malformed, inspect_url) refl
    | inr (parts, split) ↦ rw (split, inspect_url) (inspect_parts-is_sound url parts policy)
  ]

  -- What an allowed redirect is.
  abbrev pub is_sound_redirect : UrlPolicy → Parts → Option UrlVerdict → Bool
  is_sound_redirect policy origin none = true
  is_sound_redirect policy origin (some v) =
      not v.allowed
      || is_permitted policy v && not (urls.lower origin.scheme == "https" && v.scheme == "http")

  redirected-is_sound_redirect :
      (policy : UrlPolicy) (origin : Parts) (to_url : String) (v : UrlVerdict)
      → is_sound policy (some v) ≡ true
      → is_sound_redirect policy origin (some (redirected urls origin to_url v)) ≡ true
  unfolding redirected
  redirected-is_sound_redirect policy origin to_url v h = elim (Bool-cases v.allowed) [
    | inl allowed ↦ elim (Bool-cases (urls.lower origin.scheme == "https" && v.scheme == "http")) [
      | inl lower ↦ rw (allowed, lower) refl
      | inr level ↦ rw (allowed, level) (ground (arith, h, level, allowed))
    ]
    | inr refused ↦ rw refused (
        if_lem (λ x. is_sound_redirect policy origin (some x)) (off_policy v.refusal) refl
          (λ other. ground (arith, refused)))
  ]

  -- An allowed redirect is within the limit of hops, goes to a URL that the policy permits, and
  -- never from https to http.
  pub inspect_redirect-allowed :
      (from_url to_url : String) (hop : ℕ) (policy : UrlPolicy) (v : UrlVerdict)
      → inspect_redirect urls from_url to_url hop policy ≡ some v
      → v.allowed ≡ true
      → (hop ≤ policy.max_redirects)
        × ((origin : Parts) × (urls.urlsplit from_url ≡ some origin)
            × (is_sound_redirect policy origin (some v) ≡ true))
  unfolding inspect_redirect
  inspect_redirect-allowed from_url to_url hop policy v h allowed =
      elim (Bool-cases (ltb policy.max_redirects hop)) [
        | inl far ↦ forbidden (rw (far, inspect_redirect) at h)
        | inr near ↦ elim (Option-cases (urls.urlsplit from_url)) [
          | inl lost ↦ absurd_some (rw (near, lost, inspect_redirect) at h)
          | inr (origin, split) ↦ elim (Option-cases (inspect_url urls to_url policy)) [
            | inl raised ↦ absurd_some (rw (near, split, raised, inspect_redirect) at h)
            | inr (target, made) ↦
                let same = some_inj (rw (near, split, made, inspect_redirect) at h) in
                let sound = ap (is_sound policy) (sym made) ∙ inspect_url-is_sound to_url policy in
                (
                  ground arith,
                  (
                    origin,
                    split,
                    ap (λ x. is_sound_redirect policy origin (some x)) (sym same)
                        ∙ redirected-is_sound_redirect policy origin to_url target sound,
                  ),
                )
          ]
        ]
      ]
    where
      some_inj : {x y : UrlVerdict} → some x ≡ some y → x ≡ y
      some_inj k = cc

      absurd_some : {A : Type 0} → none ≡ some v → A
      absurd_some k = cc

      impossible : {A : Type 0} → false ≡ true → A
      impossible k = cc

      forbidden : {A : Type 0} {why : FetchRefusal} {d : String} → some (no why d) ≡ some v → A
      forbidden k = impossible (ap (λ (x : UrlVerdict). x.allowed) (some_inj k) ∙ allowed)
