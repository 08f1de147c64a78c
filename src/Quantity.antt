-- ===== src/Quantity.antt =====
-- Quantities and money of the trading modules. A JavaScript number or a DECIMAL column is an
-- integer of millionths: of a kilogram, or of a unit of currency. `EPSILON`, 1e-6, is one of them.
-- The columns are prisma/schema.prisma's: weights are DECIMAL(12, 3), prices DECIMAL(12, 4) and
-- amounts DECIMAL(14, 2), and PostgreSQL rounds what is written to them half away from zero.
use ceoma_api.Prelude.{
  ℕ, ◌+◌, ◌*◌, ◌/◌, ◌%◌, ◌≡◌, ℤ, pos, negsuc, pos_part, neg_part, sub_ℕ, ◌+ℤ◌, ◌-ℤ◌, ◌≤ℤ◌, suc,
  arith,
}

-- `EPSILON`
abbrev pub epsilon : ℤ
epsilon = pos 1

-- `-EPSILON`
abbrev pub minus_epsilon : ℤ
minus_epsilon = negsuc 0

-- A multiple of the unit, rounded half away from zero.
abbrev pub nearest : ℕ → ℕ → ℕ
nearest unit n = (n + unit / 2) / unit * unit

unfoldable pub numeric : ℕ → ℤ → ℤ
numeric unit (pos n) = pos (nearest unit n)
numeric unit (negsuc n) = sub_ℕ 0 (nearest unit (suc n))

-- A column DECIMAL(p, 3): kilograms, in whole grams.
unfoldable pub numeric_3 : ℤ → ℤ
unfolding numeric
numeric_3 x = numeric 1000 x

-- A column DECIMAL(p, 4)
unfoldable pub numeric_4 : ℤ → ℤ
unfolding numeric
numeric_4 x = numeric 100 x

-- A column DECIMAL(p, 2)
unfoldable pub numeric_2 : ℤ → ℤ
unfolding numeric
numeric_2 x = numeric 10000 x

-- A whole number of grams, which is what a weight column holds.
abbrev pub IsGrams : ℤ → Type 0
IsGrams x = (pos_part x % 1000 ≡ 0) × (neg_part x % 1000 ≡ 0)

pub numeric_3-IsGrams : (x : ℤ) → IsGrams (numeric_3 x)
unfolding numeric_3
numeric_3-IsGrams (pos n) = ground arith
numeric_3-IsGrams (negsuc n) = ground arith

-- A value that is in whole grams is stored as it is.
pub numeric_3_exact : (x : ℤ) → IsGrams x → numeric_3 x ≡ x
unfolding numeric_3
numeric_3_exact (pos n) h = ground arith
numeric_3_exact (negsuc n) h = ground arith

-- Half a gram at most is gained or lost.
pub numeric_3_near : (x : ℤ) → (numeric_3 x ≤ℤ x +ℤ pos 500) × (x ≤ℤ numeric_3 x +ℤ pos 500)
unfolding numeric_3 ◌+ℤ◌
numeric_3_near (pos n) = (ground arith, ground arith)
numeric_3_near (negsuc n) = (ground arith, ground arith)

pub numeric_3_mono : (x y : ℤ) → x ≤ℤ y → numeric_3 x ≤ℤ numeric_3 y
unfolding numeric_3
numeric_3_mono (pos n) (pos m) h = ground arith
numeric_3_mono (pos n) (negsuc m) h = ground arith
numeric_3_mono (negsuc n) (pos m) h = ground arith
numeric_3_mono (negsuc n) (negsuc m) h = ground arith

-- Slack of one millionth cannot push a stored value past a bound in whole grams.
pub numeric_3-le_grams : (x y : ℤ) → IsGrams y → x ≤ℤ y +ℤ epsilon → numeric_3 x ≤ℤ y
unfolding numeric_3 ◌+ℤ◌
numeric_3-le_grams (pos n) (pos m) g h = ground arith
numeric_3-le_grams (pos n) (negsuc m) g h = ground arith
numeric_3-le_grams (negsuc n) (pos m) g h = ground arith
numeric_3-le_grams (negsuc n) (negsuc m) g h = ground arith

pub numeric_3_nonneg : (x : ℤ) → minus_epsilon ≤ℤ x → pos 0 ≤ℤ numeric_3 x
unfolding numeric_3
numeric_3_nonneg (pos n) h = ground arith
numeric_3_nonneg (negsuc n) h = ground arith

pub +ℤ-IsGrams : (x y : ℤ) → IsGrams x → IsGrams y → IsGrams (x +ℤ y)
unfolding ◌+ℤ◌
+ℤ-IsGrams (pos n) (pos m) g h = ground arith
+ℤ-IsGrams (pos n) (negsuc m) g h = ground arith
+ℤ-IsGrams (negsuc n) (pos m) g h = ground arith
+ℤ-IsGrams (negsuc n) (negsuc m) g h = ground arith

pub -ℤ-IsGrams : (x y : ℤ) → IsGrams x → IsGrams y → IsGrams (x -ℤ y)
unfolding ◌-ℤ◌
-ℤ-IsGrams (pos n) (pos m) g h = ground arith
-ℤ-IsGrams (pos n) (negsuc m) g h = ground arith
-ℤ-IsGrams (negsuc n) (pos m) g h = ground arith
-ℤ-IsGrams (negsuc n) (negsuc m) g h = ground arith
