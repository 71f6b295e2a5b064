-- ===== src/Acquisition/Body/Laws.antt =====
-- The sizes of a body that was read.
use new_z.Prelude.{
  ℕ, ◌+◌, ◌≤◌, ◌≡◌, refl, arith, true, not, ◌&&◌, ◌||◌, Option, none, some, List, [], ◌∷◌, ◌++◌,
  ◌==◌, string_eq, ltb, length, Bool-cases, Option-cases, inl, inr, if_elim, false, ◌*◌, ◌⊎◌,
}
use new_z.Acquisition.Body.{
  Bytes, Read, RawResponse, FetchPolicy, Zlib, Headers, BodyRead, flush_body, is_bomb, read_chunks,
  read_body, header_in, declares_more,
}

-- What a policy allows of a body: no more raw bytes than their ceiling, and either these bytes are
-- the body, or it was decompressed: to no more bytes than the ceiling, of which all but what the
-- decompressor held back to the end are within the ratio of the raw ones.
abbrev pub Fits : {D : Type 0} → Zlib D → FetchPolicy → Bytes → ℕ → Type 0
Fits {D} zlib policy body raw =
    (raw ≤ policy.max_bytes)
    × ((length body ≡ raw)
        ⊎ ((length body ≤ policy.max_decompressed_bytes)
            × ((out : Bytes) × (held_back : Bytes) × (d : D) × (body ≡ out ++ held_back)
                × (zlib.flush d ≡ some held_back)
                × (length out ≤ raw * policy.max_decompression_ratio))))

-- A body that is read without a refusal fits.
abbrev pub IsWithin : {D : Type 0} → Zlib D → FetchPolicy → BodyRead → Type 0
IsWithin zlib policy (BodyRead.body_read body raw none) = Fits zlib policy body raw
IsWithin zlib policy (BodyRead.body_read body raw (some why)) = Unit
IsWithin zlib policy (BodyRead.body_timeout message) = Unit
IsWithin zlib policy (BodyRead.body_os_error message) = Unit
IsWithin zlib policy BodyRead.zlib_error = Unit

within_ratio :
    (ceiling raw allowed size : ℕ)
    → ltb 0 raw ≡ true
    → (ltb ceiling size || ltb 0 raw && ltb allowed size) ≡ false
    → size ≤ allowed
within_ratio ceiling raw allowed size some_read fine = ground (arith, some_read, fine)

length-append : (xs ys : Bytes) → length (xs ++ ys) ≡ length xs + length ys
length-append [] ys = omega arith
length-append (x ∷ xs) ys = omega (arith, length-append xs ys)

module _ {D : Type 0} (zlib : Zlib D) (policy : FetchPolicy) where
  -- What the loop keeps: the raw bytes are within their ceiling, and without a decompressor they
  -- are the body, with one the bytes so far are within the ratio.
  abbrev Keeps : ℕ → Bytes → Option D → Type 0
  Keeps raw out none = (raw ≤ policy.max_bytes) × (length out ≡ raw)
  Keeps raw out (some d) =
      (raw ≤ policy.max_bytes) × (length out ≤ raw * policy.max_decompression_ratio)

  flush_body-IsWithin :
      (raw : ℕ) (out : Bytes) (d : Option D)
      → Keeps raw out d
      → IsWithin zlib policy (flush_body zlib policy raw out d)
  unfolding flush_body
  flush_body-IsWithin raw out none (within, same) = (within, inl same)
  flush_body-IsWithin raw out (some d) (within, ratio) = elim (Option-cases (zlib.flush d)) [
    | inl broken ↦ rw (broken, IsWithin) tt
    | inr (more, flushed) ↦
        elim (Bool-cases (ltb policy.max_decompressed_bytes (length (out ++ more)))) [
          | inl big ↦ rw (flushed, big, IsWithin) tt
          | inr fine ↦
              rw (flushed, fine, IsWithin)
                (within, inr (ground (arith, fine), (out, more, d, refl, flushed, ratio)))
        ]
  ]

  read_chunks-IsWithin :
      (reads : List Read) (raw : ℕ) (out : Bytes) (d : Option D)
      → Keeps raw out d
      → IsWithin zlib policy (read_chunks zlib policy reads raw out d)
  unfolding read_chunks
  read_chunks-IsWithin [] raw out d keeps = flush_body-IsWithin raw out d keeps
  read_chunks-IsWithin (Read.timeout message ∷ rest) raw out d keeps = tt
  read_chunks-IsWithin (Read.os_error message ∷ rest) raw out d keeps = tt
  read_chunks-IsWithin (Read.chunk [] ∷ rest) raw out d keeps = flush_body-IsWithin raw out d keeps
  read_chunks-IsWithin (Read.chunk (b ∷ more) ∷ rest) raw out none keeps =
      if_elim (IsWithin zlib policy) (ltb policy.max_bytes (raw + length (b ∷ more))) (λ big. tt)
        (λ fits.
          read_chunks-IsWithin rest (raw + length (b ∷ more)) (out ++ b ∷ more) none
            (ground (arith, fits), omega (arith, length-append out (b ∷ more), keeps.1)))
  read_chunks-IsWithin (Read.chunk (b ∷ more) ∷ rest) raw out (some d) keeps =
      if_elim (IsWithin zlib policy) (ltb policy.max_bytes (raw + length (b ∷ more))) (λ big. tt)
        (λ fits.
          elim (Option-cases (zlib.decompress d (b ∷ more) (policy.max_decompressed_bytes + 1))) [
            | inl broken ↦ rw (broken, IsWithin) tt
            | inr ((next, text), made) ↦
                rw (made, IsWithin)
                  (if_elim (IsWithin zlib policy)
                    (is_bomb zlib policy (raw + length (b ∷ more)) (out ++ text)) (λ bomb. tt)
                    (λ fine.
                      read_chunks-IsWithin rest (raw + length (b ∷ more)) (out ++ text) (some next)
                        (
                          ground (arith, fits),
                          within_ratio policy.max_decompressed_bytes (raw + length (b ∷ more))
                              ((raw + length (b ∷ more)) * policy.max_decompression_ratio)
                              (length (out ++ text)) (ground arith) fine,
                        )))
          ])

  -- A body that is read without a refusal fits the policy.
  pub read_body-IsWithin :
      (texts : Headers) (response : RawResponse)
      → IsWithin zlib policy (read_body zlib policy texts response)
  unfolding read_body
  read_body-IsWithin texts response =
      let encoding =
        texts.lower (texts.strip (header_in texts.lower response.headers "Content-Encoding" "")) in
      let declared =
        texts.digits (texts.strip (header_in texts.lower response.headers "Content-Length" "")) in
      let start = read_chunks-IsWithin response.body 0 [] in
      if_elim (IsWithin zlib policy) (declares_more zlib policy declared) (λ big. tt)
        (λ small.
          if_elim (IsWithin zlib policy) (encoding == "gzip" || encoding == "x-gzip")
            (λ gzip. start (some zlib.gzip) (omega arith, omega arith))
            (λ not_gzip.
              if_elim (IsWithin zlib policy) (encoding == "deflate")
                (λ deflate. start (some zlib.deflate) (omega arith, omega arith))
                (λ not_deflate.
                  if_elim (IsWithin zlib policy) (not (encoding == "" || encoding == "identity"))
                    (λ odd. tt) (λ plain. start none (omega arith, refl)))))
