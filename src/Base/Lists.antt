-- ===== src/Base/Lists.antt =====
-- Lists over the native numbers: length, counting, predicates, prefixes, removal of one element.
use Prim.Native.Nat.{ℕ, suc, ◌+◌}
use mathlib.Core.Path.{◌≡◌, refl}
use mathlib.Core.Bool.{Bool, true, false}
use mathlib.Core.List.{List, [], ◌∷◌, ◌++◌, map}
use native.Mathlib.Omega.{arith}
use pit_go.Base.Tests.{if◌then◌else◌}

module _ {ℓ} {A : Type ℓ} where
  abbrev pub length : List A → ℕ
  length [] = 0
  length (_ ∷ xs) = suc (length xs)

  abbrev pub is_empty : List A → Bool
  is_empty [] = true
  is_empty (_ ∷ _) = false

  -- How many elements pass a test.
  abbrev pub count : (A → Bool) → List A → ℕ
  count p [] = 0
  count p (x ∷ xs) = (if p x then 1 else 0) + count p xs

  abbrev pub All {κ} : (A → Type κ) → List A → Type κ
  All P [] = Unit
  All P (x ∷ xs) = P x × All P xs

  pub length-append : (xs ys : List A) → length (xs ++ ys) ≡ length xs + length ys
  length-append [] ys = omega arith
  length-append (_ ∷ xs) ys = omega (arith, length-append xs ys)

  pub All-append {κ} : (P : A → Type κ) (xs ys : List A) → All P xs → All P ys → All P (xs ++ ys)
  All-append P [] ys h k = k
  All-append P (x ∷ xs) ys h k = (h.0, All-append P xs ys h.1 k)

  -- `ys` is `xs` with one occurrence of `x` taken out.
  pub data Picks (x : A) : List A → List A → Type ℓ where
    here : {xs : List A} → Picks x (x ∷ xs) xs
    there : {y : A} {xs ys : List A} → Picks x xs ys → Picks x (y ∷ xs) (y ∷ ys)

  pub Picks-length : {x : A} {xs ys : List A} → Picks x xs ys → length xs ≡ suc (length ys)
  Picks-length here = omega arith
  Picks-length (there p) = omega (arith, Picks-length p)

  pub Picks-count :
      (p : A → Bool) {x : A} {xs ys : List A}
      → Picks x xs ys
      → count p xs ≡ (if p x then 1 else 0) + count p ys
  Picks-count p here = omega arith
  Picks-count p (there r) = omega (arith, Picks-count p r)

  pub Picks-All {κ} :
      (P : A → Type κ) {x : A} {xs ys : List A} → Picks x xs ys → All P xs → P x × All P ys
  Picks-All P here h = (h.0, h.1)
  Picks-All P (there r) h = let (q, rest) = Picks-All P r h.1 in (q, (h.0, rest))

pub length-map {ℓ κ} :
    {A : Type ℓ} {B : Type κ} (f : A → B) (xs : List A) → length (map f xs) ≡ length xs
length-map f [] = omega arith
length-map f (_ ∷ xs) = omega (arith, length-map f xs)

pub is_empty-map {ℓ κ} :
    {A : Type ℓ} {B : Type κ} (f : A → B) (xs : List A) → is_empty (map f xs) ≡ is_empty xs
is_empty-map f [] = refl
is_empty-map f (_ ∷ xs) = refl
