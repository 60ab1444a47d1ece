-- ===== src/Schema/Layout/Tiling.antt =====
-- ecsdb/src/storage/layout.rs: fields that lie one after another.
use rodengine.Common.{
  ℕ, ◌+◌, ◌%◌, ◌≤◌, ◌<◌, max, ◌≡◌, refl, sym, subst, ◌⊎◌, inl, inr, List, [], ◌∷◌, ◌++◌, All, arith,
}
use rodengine.Schema.Layout.{FieldLayout, padding}

abbrev pub IsAlignment : ℕ → Type 0
IsAlignment a = (a ≡ 1) ⊎ ((a ≡ 2) ⊎ ((a ≡ 4) ⊎ (a ≡ 8)))

-- The padding is the least that aligns.
abbrev pub Padded : ℕ → ℕ → Type 0
Padded n a = ((n + padding a n) % a ≡ 0) × (padding a n < a)

pub padding-Padded : (a n : ℕ) → IsAlignment a → Padded n a
unfolding padding
padding-Padded a n (inl e) = subst (Padded n) (sym e) (omega arith, omega arith)
padding-Padded a n (inr (inl e)) = subst (Padded n) (sym e) (omega arith, omega arith)
padding-Padded a n (inr (inr (inl e))) = subst (Padded n) (sym e) (omega arith, omega arith)
padding-Padded a n (inr (inr (inr e))) = subst (Padded n) (sym e) (omega arith, omega arith)

-- A multiple of an alignment is one of every smaller alignment.
divided_smaller : (a b n : ℕ) → IsAlignment a → IsAlignment b → a ≤ b → n % b ≡ 0 → n % a ≡ 0
divided_smaller a b n p q le h = ground arith

pub IsAlignment-max : (a b : ℕ) → IsAlignment a → IsAlignment b → IsAlignment (max a b)
IsAlignment-max a b p q = ground arith

-- How a field lies after the offset `start`, in a record with this alignment.
pub record Lies (max_alignment start : ℕ) (l : FieldLayout) : Type 0 where
  pub after : start ≤ l.offset
  pub close : l.offset < start + l.alignment
  pub aligned : l.offset % l.alignment ≡ 0
  pub power : IsAlignment l.alignment
  pub within : l.alignment ≤ max_alignment

-- The fields lie one after another from `start`, the last ending at `stop`.
abbrev pub Tiled : ℕ → ℕ → List FieldLayout → ℕ → Type 0
Tiled most start [] stop = start ≡ stop
Tiled most start (l ∷ ls) stop = Lies most start l × Tiled most (l.offset + l.size) ls stop

pub Tiled-append :
    (most start mid : ℕ) (ls : List FieldLayout) (l : FieldLayout)
    → Tiled most start ls mid
    → Lies most mid l
    → Tiled most start (ls ++ l ∷ []) (l.offset + l.size)
Tiled-append most start mid [] l h k = (subst (λ a. Lies most a l) (sym h) k, refl)
Tiled-append most start mid (x ∷ ls) l (p, h) k =
    (p, Tiled-append most (x.offset + x.size) mid ls l h k)

pub Tiled-weaken :
    (a b start stop : ℕ) (ls : List FieldLayout)
    → a ≤ b
    → Tiled a start ls stop
    → Tiled b start ls stop
Tiled-weaken a b start stop [] le h = h
Tiled-weaken a b start stop (l ∷ ls) le (p, h) = (
  record {
    after = p.after;
    close = p.close;
    aligned = p.aligned;
    power = p.power;
    within = omega (arith, p.within, le);
  },
  Tiled-weaken a b (l.offset + l.size) stop ls le h,
)

pub Tiled-divided :
    (most start stop n : ℕ) (ls : List FieldLayout)
    → IsAlignment most
    → Tiled most start ls stop
    → n % most ≡ 0
    → All (λ (l : FieldLayout). n % l.alignment ≡ 0) ls
Tiled-divided most start stop n [] p h d = tt
Tiled-divided most start stop n (l ∷ ls) p (q, h) d = (
  divided_smaller l.alignment most n q.power p q.within d,
  Tiled-divided most (l.offset + l.size) stop n ls p h d,
)

-- Where the fields end, placed one after another from `start` without a wrap-around.
abbrev pub extent : ℕ → List FieldLayout → ℕ
extent start [] = start
extent start (l ∷ ls) = extent (start + padding l.alignment start + l.size) ls

pub extent-append :
    (start : ℕ) (ls : List FieldLayout) (l : FieldLayout)
    → extent start (ls ++ l ∷ []) ≡ extent start ls + padding l.alignment (extent start ls) + l.size
extent-append start [] l = refl
extent-append start (x ∷ ls) l = extent-append (start + padding x.alignment start + x.size) ls l
