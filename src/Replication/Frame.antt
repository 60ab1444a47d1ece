-- ===== src/Replication/Frame.antt =====
-- ecsdb/src/replication/delta_encoder.rs: frames for the network. Bytes are numbers below 256; the
-- checksum (crc32fast), the compression (zstd) and the serialization of deltas (bincode) are
-- parameters.
pub mod RoundTrip
pub mod Sound
use rodengine.Common.{
  ℕ, ◌+◌, ◌-◌, ◌*◌, ◌/◌, ◌%◌, ◌^◌, ◌==◌, ltb, String, Bool, true, false, ◌&&◌, not, Option, none,
  some, List, [], ◌∷◌, ◌++◌, length, take, drop, if◌then◌else◌,
}
use rodengine.Error.{
  Result, ok, err, panic, ◌>>=◌, ok_or, EcsDbError, replication_error, compression_error,
  serialization_error,
}
use rodengine.Storage.Delta.{Delta}

abbrev pub magic : List ℕ
magic = 69 ∷ 67 ∷ 83 ∷ 68 ∷ []

abbrev pub protocol_version : ℕ
protocol_version = 1

pub data FrameFlag : Type 0 where
  compressed heartbeat snapshot delta : FrameFlag

abbrev pub to_bits : FrameFlag → ℕ
to_bits compressed = 1
to_bits heartbeat = 2
to_bits snapshot = 4
to_bits delta = 8

-- `bits & flag.to_bits() != 0`
unfoldable pub has_flag : ℕ → FrameFlag → Bool
has_flag bits flag = bits / to_bits flag % 2 == 1

unfoldable pub push_flag : ℕ → FrameFlag → List FrameFlag → List FrameFlag
push_flag bits flag flags = if has_flag bits flag then flags ++ flag ∷ [] else flags

unfoldable pub from_bits : ℕ → List FrameFlag
unfolding push_flag
from_bits bits =
    push_flag bits delta
      (push_flag bits snapshot (push_flag bits heartbeat (push_flag bits compressed [])))

pub record Frame : Type 0 where
  pub version : ℕ
  pub flags : ℕ
  pub payload : List ℕ

unfoldable pub new : ℕ → List ℕ → Frame
new flags payload = record { version = protocol_version; flags = flags; payload = payload }

-- `put_u32`, in big-endian order, and `n as u32`.
unfoldable pub u32_bytes : ℕ → List ℕ
u32_bytes n = n / 16777216 % 256 ∷ n / 65536 % 256 ∷ n / 256 % 256 ∷ n % 256 ∷ []

unfoldable pub get_u32 : ℕ → ℕ → ℕ → ℕ → ℕ
get_u32 a b c d = a * 16777216 + b * 65536 + c * 256 + d

unfoldable pub equal_bytes : List ℕ → List ℕ → Bool
equal_bytes [] [] = true
equal_bytes (x ∷ xs) (y ∷ ys) = x == y && equal_bytes xs ys
equal_bytes xs ys = false

module _ (crc32 : List ℕ → ℕ) where
  unfoldable pub header : ℕ → ℕ → ℕ → List ℕ
  header version flags payload_len = magic ++ version ∷ flags ∷ u32_bytes payload_len

  unfoldable pub encode : Frame → List ℕ
  encode f =
      let buf = header f.version f.flags (length f.payload % 2 ^ 32) ++ f.payload in
      buf ++ u32_bytes (crc32 buf)

  -- The last argument is what follows the payload, with the checksum received first.
  unfoldable pub check_frame : ℕ → ℕ → ℕ → List ℕ → List ℕ → Result Frame
  check_frame version flags payload_len payload (a ∷ b ∷ c ∷ d ∷ rest) =
      if get_u32 a b c d == crc32 (header version flags payload_len ++ payload)
      then ok (record { version = version; flags = flags; payload = payload })
      else err (replication_error "Checksum mismatch")
  check_frame version flags payload_len payload bytes = panic

  unfoldable pub decode_rest : ℕ → ℕ → ℕ → List ℕ → Result Frame
  decode_rest version flags payload_len bytes =
      if ltb (length bytes) (payload_len + 4)
      then err (replication_error "Incomplete frame")
      else check_frame version flags payload_len (take payload_len bytes) (drop payload_len bytes)

  unfoldable pub decode_fields : List ℕ → Result Frame
  decode_fields (version ∷ flags ∷ a ∷ b ∷ c ∷ d ∷ bytes) =
      if version == protocol_version
      then decode_rest version flags (get_u32 a b c d) bytes
      else err (replication_error "Unsupported protocol version")
  decode_fields bytes = panic

  unfoldable pub decode : List ℕ → Result Frame
  decode bytes =
      if ltb (length bytes) 14
      then err (replication_error "Frame too short")
      else if equal_bytes (take 4 bytes) magic
      then decode_fields (drop 4 bytes)
      else err (replication_error "Invalid magic")

unfoldable pub is_compressed : Frame → Bool
unfolding has_flag
is_compressed f = has_flag f.flags compressed

-- zstd, and bincode on deltas.
pub record Codecs : Type 0 where
  pub encode_all : List ℕ → ℕ → Option (List ℕ)
  pub decode_all : List ℕ → Option (List ℕ)
  pub serialize : Delta → Option (List ℕ)
  pub deserialize : List ℕ → Option Delta

module _ (codecs : Codecs) where
  -- `flags |= 1`, where the lowest bit is not set.
  unfoldable pub compress : ℕ → Frame → Result Frame
  unfolding is_compressed
  compress level f =
      if is_compressed f
      then ok f
      else ok_or (codecs.encode_all f.payload level) compression_error >>= λ bytes.
          ok (record f { payload = bytes; flags = f.flags + 1 })

  -- `flags &= !1`, where the lowest bit is set.
  unfoldable pub decompress : Frame → Result Frame
  unfolding is_compressed
  decompress f =
      if is_compressed f
      then (ok_or (codecs.decode_all f.payload) compression_error >>= λ bytes.
          ok (record f { payload = bytes; flags = f.flags - 1 }))
      else ok f

  unfoldable pub encode_delta : Delta → Bool → Result Frame
  unfolding compress new
  encode_delta d with_compression = ok_or (codecs.serialize d) serialization_error >>= λ payload.
      let frame = new (to_bits delta) payload in
      if with_compression then compress 3 frame else ok frame

  unfoldable pub decode_delta : Frame → Result Delta
  unfolding decompress
  decode_delta frame =
      decompress frame >>= λ f. ok_or (codecs.deserialize f.payload) serialization_error
