-- ===== src/Parse/Registry/Laws.antt =====
-- What is recorded of a parse.
use mathlib.Core.Path.{subst}
use new_z.Prelude.{
  ◌≡◌, refl, true, some, String, string_eq, is_filled, get, Bool-cases, Option-cases, inl, inr,
}
use new_z.Parse.Registry.{ParseResult, Parsed, Parse, Registry, text, parse}

module _ {Body : Type 0} (sha256 : String → String) (repr : String → String) where
  -- What a result says of its parse: the parser that is registered for the type gave the segments,
  -- of which there are some, and the hash is that of their texts.
  abbrev pub IsRecorded : Registry Body → String → Body → String → ParseResult → Type 0
  IsRecorded registry artifact_id body mime r =
      ((parser : Body → String → Parsed) × (get registry mime
          ≡ some (r.parser_name, r.parser_version, parser))
        × (parser body artifact_id ≡ Parsed.segmented r.segments r.failures))
      × (is_filled r.segments ≡ true)
      × (r.artifact_id ≡ artifact_id)
      × (r.text_hash ≡ sha256 (text r.segments))

  recorded :
      (registry : Registry Body) (artifact_id : String) (body : Body) (mime : String)
      (r : ParseResult) (name version : String) (parser : Body → String → Parsed) (made : Parsed)
      → get registry mime ≡ some (name, version, parser)
      → parser body artifact_id ≡ made
      → parse sha256 repr registry artifact_id body mime ≡ Parse.parsed r
      → IsRecorded registry artifact_id body mime r
  unfolding parse
  recorded registry artifact_id body mime r name version parser (Parsed.parser_failure message)
        there made h =
      not_parsed (rw (there, made, parse) at h)
    where
      not_parsed : {A : Type 0} {m : String} → Parse.failed m ≡ Parse.parsed r → A
      not_parsed k = cc
  recorded registry artifact_id body mime r name version parser (Parsed.raised kind message) there
        made h =
      not_parsed (rw (there, made, parse) at h)
    where
      not_parsed : {A : Type 0} {m : String} → Parse.failed m ≡ Parse.parsed r → A
      not_parsed k = cc
  recorded registry artifact_id body mime r name version parser (Parsed.segmented segments failures)
        there made h =
      elim (Bool-cases (is_filled segments)) [
        | inr empty ↦ not_parsed (rw (there, made, empty, parse) at h)
        | inl filled ↦
            subst (IsRecorded registry artifact_id body mime)
              (the_same (rw (there, made, filled, parse) at h))
              ((parser, there, made), filled, refl, refl)
      ]
    where
      not_parsed : {A : Type 0} {m : String} → Parse.failed m ≡ Parse.parsed r → A
      not_parsed k = cc

      the_same : {x : ParseResult} → Parse.parsed x ≡ Parse.parsed r → x ≡ r
      the_same k = cc

  -- A parse that gives a result has a parser for the type, whose name and version are recorded with
  -- the segments and failures that it gave; there is at least one segment, and the hash is that of
  -- the texts of the segments.
  parse-IsRecorded :
      (registry : Registry Body) (artifact_id : String) (body : Body) (mime : String)
      (r : ParseResult)
      → parse sha256 repr registry artifact_id body mime ≡ Parse.parsed r
      → IsRecorded registry artifact_id body mime r
  unfolding parse
  parse-IsRecorded registry artifact_id body mime r h = elim (Option-cases (get registry mime)) [
    | inl missing ↦ not_parsed (rw (missing, parse) at h)
    | inr ((name, version, parser), there) ↦
        recorded registry artifact_id body mime r name version parser (parser body artifact_id)
          there refl h
  ]
    where
      not_parsed : {A : Type 0} {m : String} → Parse.failed m ≡ Parse.parsed r → A
      not_parsed k = cc
