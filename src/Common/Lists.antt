-- ===== src/Common/Lists.antt =====
-- Lists measured, cut and indexed by native numbers, and byte buffers with writes in place.
use Prim.Native.Nat.{ℕ, zero, suc, ◌+◌, ◌-◌, ◌≤◌, min}
use mathlib.Core.Path.{◌≡◌, refl, ap, subst}
use mathlib.Core.Logic.{◌⊎◌, inl, inr}
use mathlib.Core.Bool.{Bool, false, ◌||◌}
use mathlib.Core.List.{List, [], ◌∷◌, ◌++◌}
use mathlib.Core.Option.{Option, none, some}
use native.Mathlib.Omega.{arith}
use rodengine.Common.Bools.{◌==◌}

module _ {ℓ} {A : Type ℓ} where
  abbrev pub length : List A → ℕ
  length [] = 0
  length (x ∷ xs) = suc (length xs)

  abbrev pub get_elem? : List A → ℕ → Option A
  get_elem? [] i = none
  get_elem? (x ∷ xs) zero = some x
  get_elem? (x ∷ xs) (suc i) = get_elem? xs i

  -- A write out of bounds changes nothing.
  abbrev pub set : List A → ℕ → A → List A
  set [] i v = []
  set (x ∷ xs) zero v = v ∷ xs
  set (x ∷ xs) (suc i) v = x ∷ set xs i v

  abbrev pub take : ℕ → List A → List A
  take zero xs = []
  take (suc n) [] = []
  take (suc n) (x ∷ xs) = x ∷ take n xs

  abbrev pub drop : ℕ → List A → List A
  drop zero xs = xs
  drop (suc n) [] = []
  drop (suc n) (x ∷ xs) = drop n xs

  abbrev pub replicate : ℕ → A → List A
  replicate zero a = []
  replicate (suc n) a = a ∷ replicate n a

  pub length-append : (xs ys : List A) → length (xs ++ ys) ≡ length xs + length ys
  length-append [] ys = omega arith
  length-append (x ∷ xs) ys = omega (arith, length-append xs ys)

  pub length-set : (xs : List A) (i : ℕ) (v : A) → length (set xs i v) ≡ length xs
  length-set [] i v = refl
  length-set (x ∷ xs) zero v = refl
  length-set (x ∷ xs) (suc i) v = ap suc (length-set xs i v)

  pub length-take : (n : ℕ) (xs : List A) → length (take n xs) ≡ min n (length xs)
  length-take zero xs = omega arith
  length-take (suc n) [] = omega arith
  length-take (suc n) (x ∷ xs) = omega (arith, length-take n xs)

  pub length-drop : (n : ℕ) (xs : List A) → length (drop n xs) ≡ length xs - n
  length-drop zero xs = omega arith
  length-drop (suc n) [] = omega arith
  length-drop (suc n) (x ∷ xs) = omega (arith, length-drop n xs)

  pub length-replicate : (n : ℕ) (a : A) → length (replicate n a) ≡ n
  length-replicate zero a = refl
  length-replicate (suc n) a = ap suc (length-replicate n a)

  pub take-append-drop : (n : ℕ) (xs : List A) → take n xs ++ drop n xs ≡ xs
  take-append-drop zero xs = refl
  take-append-drop (suc n) [] = refl
  take-append-drop (suc n) (x ∷ xs) = ap (◌∷◌ x) (take-append-drop n xs)

  pub take-append : (xs ys : List A) → take (length xs) (xs ++ ys) ≡ xs
  take-append [] ys = refl
  take-append (x ∷ xs) ys = ap (◌∷◌ x) (take-append xs ys)

  pub drop-append : (xs ys : List A) → drop (length xs) (xs ++ ys) ≡ ys
  drop-append [] ys = refl
  drop-append (x ∷ xs) ys = drop-append xs ys

  pub take_all : (n : ℕ) (xs : List A) → length xs ≤ n → take n xs ≡ xs
  take_all zero [] h = refl
  take_all zero (x ∷ xs) h = absurd (omega arith)
  take_all (suc n) [] h = refl
  take_all (suc n) (x ∷ xs) h = ap (◌∷◌ x) (take_all n xs (omega arith))

module _ {ℓ} {A : Type ℓ} where
  -- `buf[off..off + len]`, where the bounds were checked.
  abbrev pub slice : ℕ → ℕ → List A → List A
  slice off len buf = take len (drop off buf)

  -- `buf[off..off + src.len()].copy_from_slice(src)`, where the bounds were checked.
  unfoldable pub splice : ℕ → List A → List A → List A
  splice zero [] buf = buf
  splice zero (x ∷ src) [] = []
  splice zero (x ∷ src) (b ∷ buf) = x ∷ splice zero src buf
  splice (suc off) src [] = []
  splice (suc off) src (b ∷ buf) = b ∷ splice off src buf

  -- `buf.resize(n, v)`, for growing and for shrinking.
  unfoldable pub resize : List A → ℕ → A → List A
  resize [] n v = replicate n v
  resize (b ∷ buf) zero v = []
  resize (b ∷ buf) (suc n) v = b ∷ resize buf n v

  pub length-splice : (off : ℕ) (src buf : List A) → length (splice off src buf) ≡ length buf
  unfolding splice
  length-splice zero [] buf = refl
  length-splice zero (x ∷ src) [] = refl
  length-splice zero (x ∷ src) (b ∷ buf) = ap suc (length-splice zero src buf)
  length-splice (suc off) src [] = refl
  length-splice (suc off) src (b ∷ buf) = ap suc (length-splice off src buf)

  pub length-resize : (buf : List A) (n : ℕ) (v : A) → length (resize buf n v) ≡ n
  unfolding resize
  length-resize [] n v = length-replicate n v
  length-resize (b ∷ buf) zero v = refl
  length-resize (b ∷ buf) (suc n) v = ap suc (length-resize buf n v)

  -- A write is read back.
  pub slice-splice_self :
      (off : ℕ) (src buf : List A)
      → off + length src ≤ length buf
      → slice off (length src) (splice off src buf) ≡ src
  unfolding splice
  slice-splice_self zero [] buf h = refl
  slice-splice_self zero (x ∷ src) [] h = absurd (omega arith)
  slice-splice_self zero (x ∷ src) (b ∷ buf) h =
      ap (◌∷◌ x) (slice-splice_self zero src buf (omega arith))
  slice-splice_self (suc off) src [] h = absurd (omega arith)
  slice-splice_self (suc off) src (b ∷ buf) h = slice-splice_self off src buf (omega arith)

  pub slice-splice_len :
      (off n : ℕ) (src buf : List A)
      → length src ≡ n
      → off + n ≤ length buf
      → slice off n (splice off src buf) ≡ src
  slice-splice_len off n src buf e h =
      subst (λ k. slice off k (splice off src buf) ≡ src) e
        (slice-splice_self off src buf (omega arith))

  drop-splice_after :
      (off at : ℕ) (src buf : List A)
      → off + length src ≤ at
      → drop at (splice off src buf) ≡ drop at buf
  unfolding splice
  drop-splice_after zero at [] buf h = refl
  drop-splice_after zero zero (x ∷ src) buf h = absurd (omega arith)
  drop-splice_after zero (suc at) (x ∷ src) [] h = refl
  drop-splice_after zero (suc at) (x ∷ src) (b ∷ buf) h =
      drop-splice_after zero at src buf (omega arith)
  drop-splice_after (suc off) zero src buf h = absurd (omega arith)
  drop-splice_after (suc off) (suc at) src [] h = refl
  drop-splice_after (suc off) (suc at) src (b ∷ buf) h =
      drop-splice_after off at src buf (omega arith)

  slice-splice_before :
      (off at len : ℕ) (src buf : List A)
      → at + len ≤ off
      → slice at len (splice off src buf) ≡ slice at len buf
  unfolding splice
  slice-splice_before off zero zero src buf h = refl
  slice-splice_before zero zero (suc len) src buf h = absurd (omega arith)
  slice-splice_before zero (suc at) len src buf h = absurd (omega arith)
  slice-splice_before (suc off) zero (suc len) src [] h = refl
  slice-splice_before (suc off) zero (suc len) src (b ∷ buf) h =
      ap (◌∷◌ b) (slice-splice_before off zero len src buf (omega arith))
  slice-splice_before (suc off) (suc at) len src [] h = refl
  slice-splice_before (suc off) (suc at) len src (b ∷ buf) h =
      slice-splice_before off at len src buf (omega arith)

  -- A write leaves what does not overlap it.
  pub slice-splice_ne :
      (off at len : ℕ) (src buf : List A)
      → (at + len ≤ off) ⊎ (off + length src ≤ at)
      → slice at len (splice off src buf) ≡ slice at len buf
  slice-splice_ne off at len src buf (inl h) = slice-splice_before off at len src buf h
  slice-splice_ne off at len src buf (inr h) = ap (take len) (drop-splice_after off at src buf h)

  -- Growing keeps what was there.
  pub slice-resize :
      (at len n : ℕ) (buf : List A) (v : A)
      → at + len ≤ length buf
      → length buf ≤ n
      → slice at len (resize buf n v) ≡ slice at len buf
  unfolding resize
  slice-resize zero zero n buf v h g = refl
  slice-resize zero (suc len) n [] v h g = absurd (omega arith)
  slice-resize (suc at) len n [] v h g = absurd (omega arith)
  slice-resize zero (suc len) zero (b ∷ buf) v h g = absurd (omega arith)
  slice-resize (suc at) len zero (b ∷ buf) v h g = absurd (omega arith)
  slice-resize zero (suc len) (suc n) (b ∷ buf) v h g =
      ap (◌∷◌ b) (slice-resize zero len n buf v (omega arith) (omega arith))
  slice-resize (suc at) len (suc n) (b ∷ buf) v h g =
      slice-resize at len n buf v (omega arith) (omega arith)

  pub length-slice :
      (at len : ℕ) (buf : List A) → at + len ≤ length buf → length (slice at len buf) ≡ len
  length-slice at len buf h = omega (arith, length-take len (drop at buf), length-drop at buf)

-- Membership of a number as a test, and the property that it decides.
abbrev pub contains : List ℕ → ℕ → Bool
contains [] a = false
contains (x ∷ xs) a = (x == a) || contains xs a

abbrev pub All {ℓ κ} : {A : Type ℓ} → (A → Type κ) → List A → Type κ
All P [] = Unit
All P (x ∷ xs) = P x × All P xs
