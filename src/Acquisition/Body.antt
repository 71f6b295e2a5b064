-- ===== src/Acquisition/Body.antt =====
-- newz/acquisition/fetcher.py and transport.py: a response, and the read of its body up to the
-- ceilings. What is read of the wire comes as a list, and `zlib` is a parameter.
pub mod Laws
use Prim.Native.String.{◌++◌ as text_append}
use new_z.Prelude.{
  ℕ, zero, suc, ◌+◌, ◌*◌, Bool, true, false, not, ◌&&◌, ◌||◌, Option, none, some, List, [], ◌∷◌,
  ◌++◌, String, ◌==◌, string_eq, if◌then◌else◌, ltb, length, contains,
}
use new_z.Domain.Operations.{FetchRefusal}
use new_z.Acquisition.UrlPolicy.{UrlPolicy}

abbrev pub Bytes : Type 0
Bytes = List ℕ

-- What one `read` of a body does; the end of the list is the end of the body.
pub data Read : Type 0 where
  chunk : Bytes → Read
  timeout : String → Read
  os_error : String → Read

pub record RawResponse : Type 0 where
  pub status : ℕ
  pub headers : List (String × String)
  pub body : List Read

-- `RawResponse.header`, with `str.lower`.
unfoldable pub header_in :
    (String → String) → List (String × String) → (name default : String) → String
header_in lower [] name default = default
header_in lower ((key, value) ∷ rest) name default =
    if lower key == lower name then value else header_in lower rest name default

pub record FetchPolicy : Type 0 where
  pub max_bytes : ℕ
  pub max_decompressed_bytes : ℕ
  pub max_decompression_ratio : ℕ
  pub url : UrlPolicy
  pub respect_robots : Bool

-- A decompressor's two starts and its operations: none is zlib.error.
pub record Zlib (D : Type 0) : Type 0 where
  pub gzip : D
  pub deflate : D
  pub decompress : D → Bytes → (max_length : ℕ) → Option (D × Bytes)
  pub flush : D → Option Bytes

-- The texts of headers: `strip`, `lower`, and the number that a text of digits is.
pub record Headers : Type 0 where
  pub strip : String → String
  pub lower : String → String
  pub digits : String → Option ℕ

-- What `_read_body` returns, or the exception that leaves it.
pub data BodyRead : Type 0 where
  body_read : Bytes → ℕ → Option FetchRefusal → BodyRead
  body_timeout : String → BodyRead
  body_os_error : String → BodyRead
  zlib_error : BodyRead

module _ {D : Type 0} (zlib : Zlib D) (policy : FetchPolicy) where
  -- After the loop.
  unfoldable pub flush_body : ℕ → Bytes → Option D → BodyRead
  flush_body raw_read out none = BodyRead.body_read out raw_read none
  flush_body raw_read out (some d) = elim (zlib.flush d) [
    | none ↦ BodyRead.zlib_error
    | some more ↦
        if ltb policy.max_decompressed_bytes (length (out ++ more))
        then BodyRead.body_read (out ++ more) raw_read (some FetchRefusal.decompression_limit)
        else BodyRead.body_read (out ++ more) raw_read none
  ]

  abbrev pub is_bomb : ℕ → Bytes → Bool
  is_bomb raw_read out =
      ltb policy.max_decompressed_bytes (length out)
      || ltb 0 raw_read && ltb (raw_read * policy.max_decompression_ratio) (length out)

  unfoldable pub read_chunks : List Read → ℕ → Bytes → Option D → BodyRead
  read_chunks [] raw_read out d = flush_body raw_read out d
  read_chunks (Read.timeout message ∷ rest) raw_read out d = BodyRead.body_timeout message
  read_chunks (Read.os_error message ∷ rest) raw_read out d = BodyRead.body_os_error message
  read_chunks (Read.chunk [] ∷ rest) raw_read out d = flush_body raw_read out d
  read_chunks (Read.chunk (b ∷ more) ∷ rest) raw_read out none =
      let raw = raw_read + length (b ∷ more) in
      let next = read_chunks rest raw (out ++ b ∷ more) none in
      if ltb policy.max_bytes raw
      then BodyRead.body_read out raw (some FetchRefusal.response_too_large)
      else next
  read_chunks (Read.chunk (b ∷ more) ∷ rest) raw_read out (some d) =
      let raw = raw_read + length (b ∷ more) in
      if ltb policy.max_bytes raw
      then BodyRead.body_read out raw (some FetchRefusal.response_too_large)
      else elim (zlib.decompress d (b ∷ more) (policy.max_decompressed_bytes + 1)) [
        | none ↦ BodyRead.zlib_error
        | some (next, text) ↦
            let after = read_chunks rest raw (out ++ text) (some next) in
            if is_bomb raw (out ++ text)
            then BodyRead.body_read (out ++ text) raw (some FetchRefusal.decompression_limit)
            else after
      ]

  -- `int(declared_length) > policy.max_bytes`, of a text of digits.
  abbrev pub declares_more : Option ℕ → Bool
  declares_more none = false
  declares_more (some n) = ltb policy.max_bytes n

  abbrev pub or_zero : Option ℕ → ℕ
  or_zero none = 0
  or_zero (some n) = n

  -- `_read_body`
  unfoldable pub read_body : Headers → RawResponse → BodyRead
  read_body texts response =
      let encoding =
        texts.lower (texts.strip (header_in texts.lower response.headers "Content-Encoding" "")) in
      let declared =
        texts.digits (texts.strip (header_in texts.lower response.headers "Content-Length" "")) in
      if declares_more declared
      then BodyRead.body_read [] (or_zero declared) (some FetchRefusal.response_too_large)
      else if encoding == "gzip" || encoding == "x-gzip"
      then read_chunks response.body 0 [] (some zlib.gzip)
      else if encoding == "deflate"
      then read_chunks response.body 0 [] (some zlib.deflate)
      else if not (encoding == "" || encoding == "identity")
      then BodyRead.body_read [] 0 (some FetchRefusal.content_type_not_allowed)
      else read_chunks response.body 0 [] none
