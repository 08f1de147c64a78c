-- ===== src/Prelude/Lists.antt =====
-- Lists over the native numbers, and predicates on all elements by recursion.
use Prim.Native.Nat.{ℕ, suc}
use mathlib.Core.Bool.{Bool, true, false, ◌||◌}
use mathlib.Core.List.{List, [], ◌∷◌, ◌++◌}

module _ {ℓ} {A : Type ℓ} where
  abbrev pub length : List A → ℕ
  length [] = 0
  length (x ∷ xs) = suc (length xs)

  abbrev pub any : (A → Bool) → List A → Bool
  any p [] = false
  any p (x ∷ xs) = p x || any p xs

module _ {ℓ κ} {A : Type ℓ} where
  abbrev pub All : (A → Type κ) → List A → Type κ
  All P [] = Unit
  All P (x ∷ xs) = P x × All P xs

module _ {ℓ κ} {A : Type ℓ} (P : A → Type κ) where
  pub All-append : (xs ys : List A) → All P xs → All P ys → All P (xs ++ ys)
  All-append [] ys _ k = k
  All-append (x ∷ xs) ys (p, h) k = (p, All-append xs ys h k)

module _ {ℓ} {A : Type ℓ} where
  -- Two facts about every element, turned into a third.
  pub All-map2 :
      (P Q S : A → Type 0) (xs : List A)
      → ((x : A) → P x → Q x → S x)
      → All P xs
      → All Q xs
      → All S xs
  All-map2 P Q S [] k _ _ = tt
  All-map2 P Q S (x ∷ xs) k (p, ps) (q, qs) = (k x p q, All-map2 P Q S xs k ps qs)

  pub All-map : (P S : A → Type 0) (xs : List A) → ((x : A) → P x → S x) → All P xs → All S xs
  All-map P S [] k _ = tt
  All-map P S (x ∷ xs) k (p, ps) = (k x p, All-map P S xs k ps)

-- `Array.from(new Set(xs))`: the first occurrence of each element, in order.
module _ {ℓ} {A : Type ℓ} (same : A → A → Bool) where
  unfoldable pub distinct_from : List A → List A → List A
  distinct_from seen [] = []
  distinct_from seen (x ∷ xs) = elim (any (same x) seen) [
    | true ↦ distinct_from seen xs
    | false ↦ x ∷ distinct_from (x ∷ seen) xs
  ]

  unfoldable pub distinct : List A → List A
  unfolding distinct_from
  distinct xs = distinct_from [] xs

module _ {ℓ} {A : Type ℓ} where
  pub All-unit : (xs : List A) → All (λ _. Unit {0}) xs
  All-unit [] = tt
  All-unit (x ∷ xs) = (tt, All-unit xs)
