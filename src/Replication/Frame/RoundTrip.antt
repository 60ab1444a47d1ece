-- ===== src/Replication/Frame/RoundTrip.antt =====
-- ecsdb/src/replication/delta_encoder.rs: frames and deltas, encoded and decoded.
use rodengine.Common.{
  ℕ, ◌+◌, ◌/◌, ◌%◌, ◌^◌, ◌≤◌, ◌<◌, ◌≡◌, refl, ==_refl, ltb, Bool, true, false, some, List, ◌++◌,
  length, length-append, take-append, drop-append, append_assoc, if◌then◌else◌, le→ltb, arith,
}
use rodengine.Error.{ok, ok_or, IfOk, IfOk-ok, IfOk-then, IfOk-map, ok_or-ok}
use rodengine.Storage.Delta.{Delta}
use rodengine.Replication.Frame.{
  Frame, u32_bytes, get_u32, equal_bytes, header, encode, check_frame, decode_rest, decode_fields,
  decode, Codecs, compress, decompress, encode_delta, decode_delta, new,
}

get_u32_lem :
    (n : ℕ)
    → n < 4294967296
    → get_u32 (n / 16777216 % 256) (n / 65536 % 256) (n / 256 % 256) (n % 256) ≡ n
unfolding get_u32
get_u32_lem n h = omega (arith, h)

four_bytes : (n : ℕ) (rest : List ℕ) → 4 ≤ length (u32_bytes n ++ rest)
unfolding u32_bytes
four_bytes n rest = omega arith

module _ (crc32 : List ℕ → ℕ) (crc32_lt : (bytes : List ℕ) → crc32 bytes < 2 ^ 32) where
  check_frame-checksum :
      (version flags n : ℕ) (payload rest : List ℕ)
      → check_frame crc32 version flags n payload
          (u32_bytes (crc32 (header crc32 version flags n ++ payload)) ++ rest)
        ≡ ok (record { version = version; flags = flags; payload = payload })
  unfolding check_frame u32_bytes
  check_frame-checksum version flags n payload rest =
      let sum = crc32 (header crc32 version flags n ++ payload) in
      rw (get_u32_lem sum (crc32_lt _), ==_refl sum) refl

  decode_rest-checksum :
      (version flags : ℕ) (payload rest : List ℕ)
      → decode_rest crc32 version flags (length payload) (
          payload
          ++ (u32_bytes (crc32 (header crc32 version flags (length payload) ++ payload)) ++ rest))
        ≡ ok (record { version = version; flags = flags; payload = payload })
  unfolding decode_rest
  decode_rest-checksum version flags payload rest =
      let tail =
        u32_bytes (crc32 (header crc32 version flags (length payload) ++ payload)) ++ rest in
      let long : ltb (length (payload ++ tail)) (length payload + 4) ≡ false =
        le→ltb _ _ (omega (arith, length-append payload tail, four_bytes _ rest)) in
      rw (long, take-append payload tail, drop-append payload tail)
        (check_frame-checksum version flags (length payload) payload rest)

  decode-header :
      (flags n : ℕ) (bytes : List ℕ)
      → n < 2 ^ 32
      → 4 ≤ length bytes
      → decode crc32 (header crc32 1 flags n ++ bytes) ≡ decode_rest crc32 1 flags n bytes
  unfolding decode decode_fields header u32_bytes equal_bytes
  decode-header flags n bytes h long =
      rw
        (
          le→ltb (length (header crc32 1 flags n ++ bytes)) 14 (omega (arith, long)),
          get_u32_lem n h,
        )
        refl

  -- A frame of the current version is read back from its bytes, whatever bytes follow them. (The
  -- payload must be shorter than 2^32 bytes, and the checksum is a 32-bit number.)
  pub decode-encode :
      (f : Frame) (rest : List ℕ)
      → f.version ≡ 1
      → length f.payload < 2 ^ 32
      → decode crc32 (encode crc32 f ++ rest) ≡ ok f
  unfolding encode
  decode-encode f rest v h =
      let tail =
        u32_bytes (crc32 (header crc32 1 f.flags (length f.payload) ++ f.payload)) ++ rest in
      let long : 4 ≤ length (f.payload ++ tail) =
        omega (arith, length-append f.payload tail, four_bytes _ rest) in
      let small : length f.payload % 2 ^ 32 ≡ length f.payload = omega (arith, h) in
      rw
        (
          small,
          v,
          append_assoc (header crc32 1 f.flags (length f.payload) ++ f.payload) (u32_bytes _) rest,
          append_assoc (header crc32 1 f.flags (length f.payload)) f.payload tail,
          decode-header f.flags (length f.payload) (f.payload ++ tail) h long,
          decode_rest-checksum 1 f.flags f.payload rest,
        )
        refl

-- What zstd and bincode document: each reads back what it wrote.
pub record IsInverse (codecs : Codecs) : Type 0 where
  pub decode_all-encode_all :
      (bytes : List ℕ) (level : ℕ) (out : List ℕ)
      → codecs.encode_all bytes level ≡ some out
      → codecs.decode_all out ≡ some bytes
  pub deserialize-serialize :
      (d : Delta) (bytes : List ℕ)
      → codecs.serialize d ≡ some bytes
      → codecs.deserialize bytes ≡ some d

module _ (codecs : Codecs) (inverse : IsInverse codecs) where
  abbrev Reads : List ℕ → Frame → Type 0
  Reads payload f = (f.version ≡ 1) × (decompress codecs f ≡ ok (new 8 payload))

  new-Reads : (payload : List ℕ) → Reads payload (new 8 payload)
  unfolding decompress new
  new-Reads payload = (refl, refl)

  compress-Reads :
      (payload : List ℕ) (level : ℕ) → IfOk (Reads payload) (compress codecs level (new 8 payload))
  unfolding compress decompress new
  compress-Reads payload level =
      IfOk-then (Reads payload) (ok_or (codecs.encode_all payload level) _) _ (λ out e. (
        refl,
        rw
            (inverse.decode_all-encode_all payload level out
              (ok_or-ok (codecs.encode_all payload level) _ out e))
            refl,
      ))

  framed_lem :
      (payload : List ℕ) (with_compression : Bool)
      → IfOk
          (Reads payload)
          (if with_compression then compress codecs 3 (new 8 payload) else ok (new 8 payload))
  framed_lem payload true = compress-Reads payload 3
  framed_lem payload false = new-Reads payload

  Reads-decode_delta :
      (d : Delta) (payload : List ℕ) (f : Frame)
      → codecs.serialize d ≡ some payload
      → Reads payload f
      → (f.version ≡ 1) × (decode_delta codecs f ≡ ok d)
  unfolding decode_delta new
  Reads-decode_delta d payload f e h =
      (h.0, rw (h.1, inverse.deserialize-serialize d payload e) refl)

  -- A delta that was encoded into a frame, compressed or not, is decoded from it, and the frame is
  -- one of the current version. (The compression and the serialization read back what they write.)
  pub decode_delta-encode_delta :
      (d : Delta) (with_compression : Bool) (f : Frame)
      → encode_delta codecs d with_compression ≡ ok f
      → (f.version ≡ 1) × (decode_delta codecs f ≡ ok d)
  unfolding encode_delta
  decode_delta-encode_delta d with_compression f h =
      IfOk-ok (λ g. (g.version ≡ 1) × (decode_delta codecs g ≡ ok d)) _ f
        (IfOk-then _ (ok_or (codecs.serialize d) _) _ (λ payload e.
          let known = ok_or-ok (codecs.serialize d) _ payload e in
          IfOk-map (Reads payload) _ _ (framed_lem payload with_compression)
            (λ g k. Reads-decode_delta d payload g known k)))
        h
