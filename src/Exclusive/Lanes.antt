-- ===== src/Exclusive/Lanes.antt =====
-- Lists in which one element is replaced, and tests on the lanes of asyncengine/exclusive.go.
use pit_go.Base.{
  ◌+◌, ◌≤◌, ◌≡◌, refl, Bool, true, not, ◌&&◌, ◌||◌, List, [], ◌∷◌, map, arith, count, if◌then◌else◌,
}

module _ {ℓ} {A : Type ℓ} where
  -- `ys` is `xs` with one element `x` replaced by `y`.
  pub data Replaces (x y : A) : List A → List A → Type ℓ where
    here : {xs : List A} → Replaces x y (x ∷ xs) (y ∷ xs)
    there : {z : A} {xs ys : List A} → Replaces x y xs ys → Replaces x y (z ∷ xs) (z ∷ ys)

  abbrev pub all : (A → Bool) → List A → Bool
  all p [] = true
  all p (x ∷ xs) = p x && all p xs

  pub Replaces-count :
      (p : A → Bool) {x y : A} {xs ys : List A}
      → Replaces x y xs ys
      → count p ys + (if p x then 1 else 0) ≡ count p xs + (if p y then 1 else 0)
  Replaces-count p here = omega arith
  Replaces-count p (there r) = omega (arith, Replaces-count p r)

  -- A test that all elements pass is passed by the replaced one, and after the replacement by all if
  -- by the new one.
  pub Replaces-old :
      (p : A → Bool) {x y : A} {xs ys : List A} → Replaces x y xs ys → all p xs ≡ true → p x ≡ true
  Replaces-old p {x} {xs = _ ∷ rest} here h = ground arith
  Replaces-old p (there r) h = Replaces-old p r (ground arith)

  pub Replaces-all :
      (p : A → Bool) {x y : A} {xs ys : List A}
      → Replaces x y xs ys
      → all p xs ≡ true
      → p y ≡ true
      → all p ys ≡ true
  Replaces-all p here h k = ground arith
  Replaces-all p (there r) h k = ground (arith, Replaces-all p r)

  pub all-impl :
      (p q : A → Bool) (xs : List A)
      → ((x : A) → p x ≡ true → q x ≡ true)
      → all p xs ≡ true
      → all q xs ≡ true
  all-impl p q [] f h = refl
  all-impl p q (x ∷ xs) f h = ground (arith, f x, all-impl p q xs f)

  pub all-and :
      (p q : A → Bool) (xs : List A)
      → all p xs ≡ true
      → all q xs ≡ true
      → all (λ x. p x && q x) xs ≡ true
  all-and p q [] h k = refl
  all-and p q (x ∷ xs) h k = ground (arith, all-and p q xs)

  pub all-map :
      (f : A → A) (p q : A → Bool) (xs : List A)
      → ((x : A) → p x ≡ true → q (f x) ≡ true)
      → all p xs ≡ true
      → all q (map f xs) ≡ true
  all-map f p q [] g h = refl
  all-map f p q (x ∷ xs) g h = ground (arith, g x, all-map f p q xs g)

  pub count-none : (p : A → Bool) (xs : List A) → all (λ x. not (p x)) xs ≡ true → count p xs ≡ 0
  count-none p [] h = refl
  count-none p (x ∷ xs) h = ground (arith, count-none p xs)

  pub count-eq_zero : (p : A → Bool) (xs : List A) → count p xs ≡ 0 → all (λ x. not (p x)) xs ≡ true
  count-eq_zero p [] h = refl
  count-eq_zero p (x ∷ xs) h = ground (arith, count-eq_zero p xs)

  pub count-le :
      (p q : A → Bool) (xs : List A) → ((x : A) → p x ≡ true → q x ≡ true) → count p xs ≤ count q xs
  count-le p q [] f = omega arith
  count-le p q (x ∷ xs) f = ground (arith, f x, count-le p q xs f)

  -- If all that pass `p` pass `q` and no fewer pass `p`, all that pass `q` pass `p`.
  pub count-full :
      (p q : A → Bool) (xs : List A)
      → ((x : A) → p x ≡ true → q x ≡ true)
      → count q xs ≤ count p xs
      → all (λ x. not (q x) || p x) xs ≡ true
  count-full p q [] f h = refl
  count-full p q (x ∷ xs) f h = ground (arith, f x, count-le p q xs f, count-full p q xs f)
