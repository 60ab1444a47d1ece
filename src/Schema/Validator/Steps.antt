-- ===== src/Schema/Validator/Steps.antt =====
-- ecsdb/src/schema/validator.rs: when the steps of the validator pass.
use text.Mathlib.Text.{◌==◌ as str_eq}
use text.Mathlib.TextEquality.{eq_iff}
use text.Mathlib.TextPositions.{eq_refl}
use rodengine.Common.{
  ◌==◌, ◌≡◌, ◌≢◌, ◌↔◌, refl, sym, ap, subst, ◌∙◌, ==_iff, ==_refl, String, Bool, true, false, ◌&&◌,
  ◌||◌, not, true≢false, Option, none, some, List, [], ◌∷◌, All, some-injective, Bool-cases, inl,
  inr,
}
use rodengine.Error.{
  Result, ok, err, panic, ◌>>=◌, ◌>>◌, ok_or, EcsDbError, SchemaReason, ok≢err, ok≢panic,
}
use rodengine.Schema.Types.{FieldType}
use rodengine.Schema.Validator.{
  are_types_compatible, require, for_each, contains_name, check_unique,
}

pub and_left : (a b : Bool) → (a && b) ≡ true → a ≡ true
and_left true b h = refl
and_left false b h = h

pub and_right : (a b : Bool) → (a && b) ≡ true → b ≡ true
and_right true b h = h
and_right false b h = absurd (true≢false (sym h))

pub compatible_same : (a b : FieldType) → are_types_compatible a b ≡ true → a ≡ b
unfolding are_types_compatible
compatible_same FieldType.u8 FieldType.u8 h = refl
compatible_same FieldType.u16 FieldType.u16 h = refl
compatible_same FieldType.u32 FieldType.u32 h = refl
compatible_same FieldType.u64 FieldType.u64 h = refl
compatible_same FieldType.i8 FieldType.i8 h = refl
compatible_same FieldType.i16 FieldType.i16 h = refl
compatible_same FieldType.i32 FieldType.i32 h = refl
compatible_same FieldType.i64 FieldType.i64 h = refl
compatible_same FieldType.f32 FieldType.f32 h = refl
compatible_same FieldType.f64 FieldType.f64 h = refl
compatible_same FieldType.bool FieldType.bool h = refl
compatible_same (FieldType.array a m) (FieldType.array b n) h =
    let e : m ≡ n = (==_iff m n).0 (and_left _ _ h) in
    rw (e, compatible_same a b (and_right (m == n) _ h)) refl
compatible_same (FieldType.enum a) (FieldType.enum b) h = ap FieldType.enum ((eq_iff a b).0 h)
compatible_same (FieldType.struct a) (FieldType.struct b) h = ap FieldType.struct ((eq_iff a b).0 h)
compatible_same (FieldType.custom a) (FieldType.custom b) h = ap FieldType.custom ((eq_iff a b).0 h)
compatible_same a b h = absurd (true≢false (sym h))

pub compatible_refl : (a : FieldType) → are_types_compatible a a ≡ true
unfolding are_types_compatible
compatible_refl (FieldType.array a m) = rw (==_refl m, compatible_refl a) refl
compatible_refl (FieldType.enum a) = eq_refl a
compatible_refl (FieldType.struct a) = eq_refl a
compatible_refl (FieldType.custom a) = eq_refl a
compatible_refl a = refl

-- Two types are compatible if and only if they are the same.
pub are_types_compatible_iff : (a b : FieldType) → (are_types_compatible a b ≡ true) ↔ (a ≡ b)
are_types_compatible_iff a b =
    (compatible_same a b, λ e. subst (λ c. are_types_compatible a c ≡ true) e (compatible_refl a))

abbrev pub Passes : Result (Unit {0}) → Type 0
Passes r = r ≡ ok tt

pub require_iff : (c : Bool) (reason : SchemaReason) → Passes (require c reason) ↔ (c ≡ true)
unfolding require
require_iff true reason = (λ h. refl, λ h. refl)
require_iff false reason = (λ h. cc, λ h. cc)

-- Both steps pass: what each passing means may be put for it.
pub then_iff :
    {P Q : Type 0} (r s : Result (Unit {0}))
    → (Passes r ↔ P)
    → (Passes s ↔ Q)
    → Passes (r >> s) ↔ (P × Q)
then_iff (ok tt) s p q = (λ h. (p.0 refl, q.0 h), λ h. q.1 h.1)
then_iff (err e) s p q = (λ h. cc, λ h. absurd (ok≢err (sym (p.1 h.0))))
then_iff panic s p q = (λ h. cc, λ h. absurd (ok≢panic (sym (p.1 h.0))))

pub for_each_iff :
    {A : Type 0} (P : A → Type 0) (body : A → Result (Unit {0}))
    → ((x : A) → Passes (body x) ↔ P x)
    → (xs : List A) → Passes (for_each body xs) ↔ All P xs
unfolding for_each
for_each_iff P body h [] = (λ k. tt, λ k. refl)
for_each_iff P body h (x ∷ xs) =
    then_iff (body x) (for_each body xs) (h x) (for_each_iff P body h xs)

pub lookup_iff :
    {A : Type 0} (P : A → Type 0) (o : Option A) (e : EcsDbError) (body : A → Result (Unit {0}))
    → ((x : A) → Passes (body x) ↔ P x)
    → Passes (ok_or o e >>= body) ↔ ((x : A) × (o ≡ some x) × P x)
lookup_iff P none e body h = (λ k. cc, λ k. cc)
lookup_iff P (some a) e body h =
    (λ k. (a, refl, (h a).0 k), λ k. (h a).1 (subst P (some-injective (sym k.1)) k.2))

abbrev pub NotIn : List String → String → Type 0
NotIn names name = All (λ x. x ≢ name) names

pub not_or_iff : (a b : Bool) → (not (a || b) ≡ true) ↔ ((a ≡ false) × (not b ≡ true))
not_or_iff true b = (λ h. cc, λ h. cc)
not_or_iff false b = (λ h. (refl, h), λ h. h.1)

pub iff_trans : {P Q R : Type 0} → P ↔ Q → Q ↔ R → P ↔ R
iff_trans f g = (λ p. g.0 (f.0 p), λ r. f.1 (g.1 r))

pub differs_iff : (x y : String) → (str_eq x y ≡ false) ↔ (x ≢ y)
differs_iff x y = elim (Bool-cases (str_eq x y)) [
  | inl e ↦ (λ h. absurd (true≢false (sym e ∙ h)), λ h. absurd (h ((eq_iff x y).0 e)))
  | inr e ↦ (λ h k. true≢false (sym ((eq_iff x y).1 k) ∙ e), λ h. e)
]

pub not_contains_iff :
    (names : List String) (name : String)
    → (not (contains_name names name) ≡ true) ↔ NotIn names name
unfolding contains_name
not_contains_iff [] name = (λ h. tt, λ h. refl)
not_contains_iff (x ∷ names) name =
    let split = not_or_iff (str_eq x name) (contains_name names name) in
    let differs = differs_iff x name in
    let rest = not_contains_iff names name in
    (λ h. (differs.0 (split.0 h).0, rest.0 (split.0 h).1), λ h. split.1 (differs.1 h.0, rest.1 h.1))

pub absent_iff :
    (names : List String) (name : String) (reason : SchemaReason)
    → Passes (require (not (contains_name names name)) reason) ↔ NotIn names name
absent_iff names name reason = iff_trans (require_iff _ reason) (not_contains_iff names name)

-- No two of the names are the same.
abbrev pub Distinct : List String → Type 0
Distinct [] = Unit {0}
Distinct (n ∷ names) = All (λ m. n ≢ m) names × Distinct names

pub All-both :
    {A : Type 0} (P Q R : A → Type 0) (xs : List A)
    → ((x : A) → P x → Q x → R x)
    → All P xs
    → All Q xs
    → All R xs
All-both P Q R [] f h k = tt
All-both P Q R (x ∷ xs) f (p, h) (q, k) = (f x p q, All-both P Q R xs f h k)

pub All-map :
    {A : Type 0} (P Q : A → Type 0) (xs : List A) → ((x : A) → P x → Q x) → All P xs → All Q xs
All-map P Q [] f h = tt
All-map P Q (x ∷ xs) f (p, h) = (f x p, All-map P Q xs f h)

pub All-trivial : {A : Type 0} (P : A → Type 0) (xs : List A) → ((x : A) → P x) → All P xs
All-trivial P [] f = tt
All-trivial P (x ∷ xs) f = (f x, All-trivial P xs f)

pub check_unique_iff :
    (reason : String → SchemaReason) (seen names : List String)
    → Passes (check_unique reason seen names) ↔ (All (NotIn seen) names × Distinct names)
unfolding check_unique
check_unique_iff reason seen [] = (λ h. (tt, tt), λ h. refl)
check_unique_iff reason seen (n ∷ names) =
    let both =
      then_iff (require (not (contains_name seen n)) (reason n))
        (check_unique reason (n ∷ seen) names) (absent_iff seen n (reason n))
        (check_unique_iff reason (n ∷ seen) names) in
    (
      λ h.
          let p = both.0 h in
          (
            (p.0, All-map (NotIn (n ∷ seen)) (NotIn seen) names (λ x k. k.1) p.1.0),
            (All-map (NotIn (n ∷ seen)) _ names (λ x k. k.0) p.1.0, p.1.1),
          ),
      λ h. both.1 (
        h.0.0,
        (All-both _ (NotIn seen) (NotIn (n ∷ seen)) names (λ x p q. (p, q)) h.1.0 h.0.1, h.1.1),
      ),
    )

pub unique_iff :
    (reason : String → SchemaReason) (names : List String)
    → Passes (check_unique reason [] names) ↔ Distinct names
unique_iff reason names =
    iff_trans (check_unique_iff reason [] names)
      (λ h. h.1, λ h. (All-trivial (NotIn []) names (λ x. tt), h))
