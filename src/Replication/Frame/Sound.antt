-- ===== src/Replication/Frame/Sound.antt =====
-- ecsdb/src/replication/delta_encoder.rs: what the decoder accepts.
use rodengine.Common.{
  ℕ, zero, suc, ◌+◌, ◌*◌, ◌/◌, ◌%◌, ◌^◌, ◌≤◌, ◌<◌, ◌==◌, ◌≡◌, refl, sym, ap, subst, ◌∙◌, ==_iff,
  ltb, Bool, true, false, ◌&&◌, true≢false, List, [], ◌∷◌, ◌++◌, length, take, drop,
  take-append-drop, length-take, append_assoc, if◌then◌else◌, Bool-cases, All, inl, inr, arith,
}
use rodengine.Error.{Result, ok, err, EcsDbError, IfOk, IfOk-ok}
use rodengine.Replication.Frame.{
  Frame, magic, u32_bytes, get_u32, equal_bytes, header, encode, check_frame, decode_rest,
  decode_fields, decode,
}

IfOk-if :
    {A : Type 0} (P : A → Type 0) (c : Bool) (r : Result A) (e : EcsDbError)
    → (c ≡ true → IfOk P r)
    → IfOk P (if c then r else err e)
IfOk-if P true r e h = h refl
IfOk-if P false r e h = tt

IfOk-unless :
    {A : Type 0} (P : A → Type 0) (c : Bool) (r : Result A) (e : EcsDbError)
    → (c ≡ false → IfOk P r)
    → IfOk P (if c then err e else r)
IfOk-unless P true r e h = tt
IfOk-unless P false r e h = h refl

u32_bytes-get_u32 :
    (a b c d : ℕ)
    → a < 256
    → b < 256
    → c < 256
    → d < 256
    → u32_bytes (get_u32 a b c d) ≡ a ∷ b ∷ c ∷ d ∷ []
unfolding u32_bytes get_u32
u32_bytes-get_u32 a b c d p q r s =
    let e0 : (a * 16777216 + b * 65536 + c * 256 + d) / 16777216 % 256 ≡ a =
      omega (arith, p, q, r, s) in
    let e1 : (a * 16777216 + b * 65536 + c * 256 + d) / 65536 % 256 ≡ b =
      omega (arith, p, q, r, s) in
    let e2 : (a * 16777216 + b * 65536 + c * 256 + d) / 256 % 256 ≡ c = omega (arith, p, q, r, s) in
    let e3 : (a * 16777216 + b * 65536 + c * 256 + d) % 256 ≡ d = omega (arith, p, q, r, s) in
    rw (e0, e1, e2, e3) refl

get_u32-lt : (a b c d : ℕ) → a < 256 → b < 256 → c < 256 → d < 256 → get_u32 a b c d < 4294967296
unfolding get_u32
get_u32-lt a b c d p q r s = omega (arith, p, q, r, s)

pub equal_bytes-equal : (xs ys : List ℕ) → equal_bytes xs ys ≡ true → xs ≡ ys
unfolding equal_bytes
equal_bytes-equal [] [] h = refl
equal_bytes-equal [] (y ∷ ys) h = absurd (true≢false (sym h))
equal_bytes-equal (x ∷ xs) [] h = absurd (true≢false (sym h))
equal_bytes-equal (x ∷ xs) (y ∷ ys) h = elim (Bool-cases (x == y)) [
  | inl e ↦
      rw ((==_iff x y).0 e, equal_bytes-equal xs ys (sym (ap (λ b. b && equal_bytes xs ys) e) ∙ h))
        refl
  | inr e ↦ absurd (true≢false (sym h ∙ ap (λ b. b && equal_bytes xs ys) e))
]

not_short : (m n : ℕ) → ltb m (n + 4) ≡ false → n ≤ m
not_short m n h = ground arith

Small-drop : (n : ℕ) (xs : List ℕ) → All (λ b. b < 256) xs → All (λ b. b < 256) (drop n xs)
Small-drop zero xs h = h
Small-drop (suc n) [] h = h
Small-drop (suc n) (x ∷ xs) h = Small-drop n xs h.1

module _ (crc32 : List ℕ → ℕ) where
  -- The bytes begin with the encoding of the frame.
  abbrev pub Begins : List ℕ → Frame → Type 0
  Begins bytes f = (f.version ≡ 1) × ((rest : List ℕ) × (bytes ≡ encode crc32 f ++ rest))

  header_first :
      (flags n : ℕ) (bytes : List ℕ) (r : Result Frame)
      → IfOk (Begins (header crc32 1 flags n ++ bytes)) r
      → IfOk (Begins (magic ++ 1 ∷ flags ∷ (u32_bytes n ++ bytes))) r
  unfolding header
  header_first flags n bytes r h = h

  check_frame-Begins :
      (flags : ℕ) (payload tail : List ℕ)
      → All (λ b. b < 256) tail
      → length payload < 2 ^ 32
      → IfOk
          (Begins (header crc32 1 flags (length payload) ++ (payload ++ tail)))
          (check_frame crc32 1 flags (length payload) payload tail)
  unfolding check_frame encode
  check_frame-Begins flags payload (a ∷ b ∷ c ∷ d ∷ rest) small h =
      IfOk-if _ (get_u32 a b c d == crc32 (header crc32 1 flags (length payload) ++ payload)) _ _
        (λ e.
          let sum : get_u32 a b c d ≡ crc32 (header crc32 1 flags (length payload) ++ payload) =
            (==_iff _ _).0 e in
          let bytes = u32_bytes-get_u32 a b c d small.0 small.1.0 small.1.1.0 small.1.1.1.0 in
          let low : length payload % 2 ^ 32 ≡ length payload = omega (arith, h) in
          let head = header crc32 1 flags (length payload) in
          let joined =
            append_assoc (head ++ payload) (a ∷ b ∷ c ∷ d ∷ []) rest
            ∙ append_assoc head payload (a ∷ b ∷ c ∷ d ∷ rest) in
          (refl, (rest, rw (low, sym sum, bytes) (sym joined))))
  check_frame-Begins flags payload tail small h = tt

  decode_rest-Begins :
      (flags n : ℕ) (bytes : List ℕ)
      → All (λ b. b < 256) bytes
      → n < 2 ^ 32
      → IfOk (Begins (header crc32 1 flags n ++ bytes)) (decode_rest crc32 1 flags n bytes)
  unfolding decode_rest
  decode_rest-Begins flags n bytes small h = IfOk-unless _ (ltb (length bytes) (n + 4)) _ _ (λ e.
      let long : n ≤ length bytes = not_short (length bytes) n e in
      let len : length (take n bytes) ≡ n = omega (arith, length-take n bytes, long) in
      let joined = take-append-drop n bytes in
      let whole =
        check_frame-Begins flags (take n bytes) (drop n bytes) (Small-drop n bytes small)
          (subst (λ k. k < 2 ^ 32) (sym len) h) in
      subst
        (λ bs.
          IfOk (Begins (header crc32 1 flags n ++ bs))
            (check_frame crc32 1 flags n (take n bytes) (drop n bytes)))
        joined
        (subst
          (λ k.
            IfOk (Begins (header crc32 1 flags k ++ (take n bytes ++ drop n bytes)))
              (check_frame crc32 1 flags k (take n bytes) (drop n bytes)))
          len whole))

  decode_fields-Begins :
      (bytes : List ℕ)
      → All (λ b. b < 256) bytes
      → IfOk (Begins (magic ++ bytes)) (decode_fields crc32 bytes)
  unfolding decode_fields
  decode_fields-Begins (version ∷ flags ∷ a ∷ b ∷ c ∷ d ∷ bytes) small =
      IfOk-if _ (version == 1) _ _ (λ e.
        let p = small.1.1.0 in
        let q = small.1.1.1.0 in
        let r = small.1.1.1.1.0 in
        let s = small.1.1.1.1.1.0 in
        let known = u32_bytes-get_u32 a b c d p q r s in
        let rest =
          decode_rest-Begins flags (get_u32 a b c d) bytes small.1.1.1.1.1.1
            (get_u32-lt a b c d p q r s) in
        rw ((==_iff version 1).0 e) (
          subst
            (λ xs.
              IfOk (Begins (magic ++ 1 ∷ flags ∷ (xs ++ bytes)))
                (decode_rest crc32 1 flags (get_u32 a b c d) bytes))
            known (header_first flags (get_u32 a b c d) bytes _ rest)))
  decode_fields-Begins bytes small = tt

-- Whatever `decode` accepts is a frame of the current version and begins with the bytes that
-- `encode` writes for that frame. (The input consists of bytes, numbers below 256.)
pub decode-Begins :
    (crc32 : List ℕ → ℕ) (bytes : List ℕ) (f : Frame)
    → All (λ b. b < 256) bytes
    → decode crc32 bytes ≡ ok f
    → Begins crc32 bytes f
unfolding decode
decode-Begins crc32 bytes f small h =
    IfOk-ok (Begins crc32 bytes) (decode crc32 bytes) f
      (IfOk-unless _ (ltb (length bytes) 14) _ _ (λ short.
        IfOk-if _ (equal_bytes (take 4 bytes) magic) _ _ (λ same.
          subst (λ bs. IfOk (Begins crc32 bs) (decode_fields crc32 (drop 4 bytes)))
            (ap (λ xs. xs ++ drop 4 bytes) (sym (equal_bytes-equal (take 4 bytes) magic same))
              ∙ take-append-drop 4 bytes)
            (decode_fields-Begins crc32 (drop 4 bytes) (Small-drop 4 bytes small)))))
      h
