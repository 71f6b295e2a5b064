-- ===== src/Parse/Registry.antt =====
-- newz/parse/registry.py: a parser for each normalized MIME type, and what it makes of a body. The
-- parsers, the hash and the type of a body are parameters.
pub mod Laws
use new_z.Prelude.{
  ℕ, Bool, true, false, not, Option, none, some, List, [], ◌∷◌, map, String, ◌==◌, string_eq,
  if◌then◌else◌, is_filled, get,
}
use Prim.Native.String.{◌++◌}

pub record Segment : Type 0 where
  pub id : String
  pub artifact_id : String
  pub ordinal : ℕ
  pub kind : String
  pub locator : String
  pub text : String

pub record ParseResult : Type 0 where
  pub artifact_id : String
  pub parser_name : String
  pub parser_version : String
  pub normalized_mime : String
  pub segments : List Segment
  pub text_hash : String
  pub failures : List String

-- `ParseResult.ok`
abbrev pub is_ok : ParseResult → Bool
is_ok result = not (is_filled result.failures)

-- The first segment with the id, as in `ParseResult.segment` and `verify_span`.
unfoldable pub segment : List Segment → String → Option Segment
segment [] segment_id = none
segment (s ∷ rest) segment_id = if s.id == segment_id then some s else segment rest segment_id

-- `"\n\n".join(segment.text for segment in segments)`
unfoldable pub text : List Segment → String
text [] = ""
text (s ∷ []) = s.text
text (s ∷ r ∷ more) = s.text ++ ("\n\n" ++ text (r ∷ more))

-- What a parser does: segments with failures, a ParserFailure of its own, or another exception
-- with the name of its type and its message.
pub data Parsed : Type 0 where
  segmented : List Segment → List String → Parsed
  parser_failure : String → Parsed
  raised : (kind message : String) → Parsed

-- A ParseResult, or a ParserFailure with its message.
pub data Parse : Type 0 where
  parsed : ParseResult → Parse
  failed : String → Parse

-- `_REGISTRY`
abbrev pub Registry : Type 0 → Type 0
Registry Body = List (String × (String × String × (Body → String → Parsed)))

module _ {Body : Type 0} (sha256 : String → String) (repr : String → String) where
  unfoldable pub parse :
      Registry Body → (artifact_id : String) → Body → (normalized_mime : String) → Parse
  parse registry artifact_id body normalized_mime = elim (get registry normalized_mime) [
    | none ↦ Parse.failed ("no parser registered for " ++ repr normalized_mime)
    | some (name, version, parser) ↦ elim (parser body artifact_id) [
      | Parsed.parser_failure message ↦ Parse.failed message
      | Parsed.raised kind message ↦
          Parse.failed (name ++ (" " ++ (version ++ (" failed: " ++ (kind ++ (": " ++ message))))))
      | Parsed.segmented segments failures ↦
          if is_filled segments
          then Parse.parsed record {
            artifact_id = artifact_id;
            parser_name = name;
            parser_version = version;
            normalized_mime = normalized_mime;
            segments = segments;
            text_hash = sha256 (text segments);
            failures = failures;
          }
          else Parse.failed (name ++ (" " ++ (version ++ " found no addressable text")))
    ]
  ]
