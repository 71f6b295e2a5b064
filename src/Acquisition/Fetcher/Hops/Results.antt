-- ===== src/Acquisition/Fetcher/Hops/Results.antt =====
-- What a fetch retains.
use new_z.Prelude.{
  ℕ, ◌≡◌, Bool, true, false, not, ◌&&◌, Option, none, some, string_eq, nat_eq, is_text, is_some,
  ltb,
}
use new_z.Domain.Operations.{AttemptOutcome}
use new_z.Acquisition.Body.{FetchPolicy, Zlib}
use new_z.Acquisition.Body.Laws.{Fits}
use new_z.Acquisition.Answers.{FetchResult, Hop, is_redirect}

abbrev pub is_good_status : Option ℕ → Bool
is_good_status none = false
is_good_status (some status) = ltb status 400 && not (is_redirect status)

-- A retained result has a MIME type that is known, a status that is neither an error nor a
-- redirect, no refusal, and a body that fits the policy.
abbrev IsKept : {D : Type 0} → Zlib D → FetchPolicy → AttemptOutcome → FetchResult → Type 0
IsKept zlib policy AttemptOutcome.retained r =
    ((is_text r.normalized_mime && (is_good_status r.status && not (is_some r.refusal))) ≡ true)
    × Fits zlib policy r.body r.bytes_read
IsKept zlib policy AttemptOutcome.refused r = Unit
IsKept zlib policy AttemptOutcome.error r = Unit

abbrev pub IsSoundResult : {D : Type 0} → Zlib D → FetchPolicy → FetchResult → Type 0
IsSoundResult zlib policy r = IsKept zlib policy r.outcome r

abbrev pub IsSoundHop : {D : Type 0} → Zlib D → FetchPolicy → Hop → Type 0
IsSoundHop zlib policy (Hop.done r) = IsSoundResult zlib policy r
IsSoundHop zlib policy (Hop.redirect location) = Unit
IsSoundHop zlib policy Hop.raised = Unit

abbrev pub IsSoundEnd : {D : Type 0} → Zlib D → FetchPolicy → Option FetchResult → Type 0
IsSoundEnd zlib policy none = Unit
IsSoundEnd zlib policy (some r) = IsSoundResult zlib policy r
