-- ===== src/Tests/FrameTests.antt =====
-- Frames of a delta with a checksum that counts bytes, a compression that adds a byte, and a
-- serialization of the version alone.
use rodengine.Common.{
  ℕ, ◌%◌, ◌^◌, ◌<◌, ◌≡◌, refl, subst, true, Option, none, some, some-injective, List, [], ◌∷◌, ◌++◌,
  length, arith,
}
use rodengine.Error.{ok}
use rodengine.Storage.Delta.{Delta, DeltaOp}
use rodengine.Replication.Frame.{
  Frame, Codecs, encode, decode, encode_delta, decode_delta, compress, header, u32_bytes,
  equal_bytes, decode_fields, decode_rest, check_frame, get_u32,
}
use rodengine.Replication.Frame.RoundTrip.{decode-encode, IsInverse, decode_delta-encode_delta}
use rodengine.Replication.Frame.Sound.{Begins, decode-Begins}

abbrev crc32 : List ℕ → ℕ
crc32 bytes = length bytes % 2 ^ 32

crc32_lt : (bytes : List ℕ) → crc32 bytes < 2 ^ 32
crc32_lt bytes = omega arith

abbrev frame : Frame
frame = record { version = 1; flags = 8; payload = 7 ∷ 9 ∷ [] }

decode-encode_example : decode crc32 (encode crc32 frame ++ 5 ∷ []) ≡ ok frame
decode-encode_example = decode-encode crc32 crc32_lt frame (5 ∷ []) refl (omega arith)

abbrev received : List ℕ
received = 69 ∷ 67 ∷ 83 ∷ 68 ∷ 1 ∷ 8 ∷ 0 ∷ 0 ∷ 0 ∷ 2 ∷ 7 ∷ 9 ∷ 0 ∷ 0 ∷ 0 ∷ 12 ∷ []

received_lem : decode crc32 received ≡ ok frame
unfolding decode decode_fields decode_rest check_frame get_u32 header u32_bytes equal_bytes
received_lem = refl

decode-Begins_example : Begins crc32 received frame
decode-Begins_example =
    decode-Begins crc32 received frame
      (
        omega arith,
        (
          omega arith,
          (
            omega arith,
            (
              omega arith,
              (
                omega arith,
                (
                  omega arith,
                  (
                    omega arith,
                    (
                      omega arith,
                      (
                        omega arith,
                        (
                          omega arith,
                          (
                            omega arith,
                            (
                              omega arith,
                              (omega arith, (omega arith, (omega arith, (omega arith, tt)))),
                            ),
                          ),
                        ),
                      ),
                    ),
                  ),
                ),
              ),
            ),
          ),
        ),
      )
      received_lem

abbrev drop_level : List ℕ → Option (List ℕ)
drop_level [] = none
drop_level (level ∷ bytes) = some bytes

abbrev write : List DeltaOp → ℕ → ℕ → Option (List ℕ)
write [] version timestamp = some (version ∷ timestamp ∷ [])
write (op ∷ ops) version timestamp = none

abbrev read : List ℕ → Option Delta
read (version ∷ timestamp ∷ bytes) =
    some (record { ops = []; version = version; timestamp = timestamp })
read bytes = none

abbrev codecs : Codecs
codecs = record {
  encode_all = λ bytes level. some (level ∷ bytes);
  decode_all = drop_level;
  serialize = λ (d : Delta). write d.ops d.version d.timestamp;
  deserialize = read;
}

read-write :
    (ops : List DeltaOp) (version timestamp : ℕ) (bytes : List ℕ)
    → write ops version timestamp ≡ some bytes
    → read bytes ≡ some (record { ops = ops; version = version; timestamp = timestamp })
read-write [] version timestamp bytes e =
    subst (λ o. read o ≡ some (record { ops = []; version = version; timestamp = timestamp }))
      (some-injective e) refl
read-write (op ∷ ops) version timestamp bytes e = absurd cc

codecs-IsInverse : IsInverse codecs
codecs-IsInverse = record {
  decode_all-encode_all =
      λ bytes level out e. subst (λ o. drop_level o ≡ some bytes) (some-injective e) refl;
  deserialize-serialize = λ (d : Delta) bytes e. read-write d.ops d.version d.timestamp bytes e;
}

abbrev version_seven : Delta
version_seven = record { ops = []; version = 7; timestamp = 100 }

abbrev compressed_seven : Frame
compressed_seven = record { version = 1; flags = 9; payload = 3 ∷ 7 ∷ 100 ∷ [] }

encoded : encode_delta codecs version_seven true ≡ ok compressed_seven
unfolding encode_delta compress
encoded = refl

decode_delta-encode_delta_example :
    (compressed_seven.version ≡ 1) × (decode_delta codecs compressed_seven ≡ ok version_seven)
decode_delta-encode_delta_example =
    decode_delta-encode_delta codecs codecs-IsInverse version_seven true compressed_seven encoded
