-- ===== src/Exclusive/Invariant/Cleanups.antt =====
-- The off-lane cleanups that a section of asyncengine/exclusive.go waits for: those in progress are
-- awaited, and none begins while the section is installed.
use pit_go.Base.{
  ℕ, ◌≡◌, refl, Bool, true, false, ◌||◌, Option, none, some, List, [], ◌∷◌, ◌++◌, map, arith, ◌==◌,
  Bool-cases, inl, inr, ap, if◌then◌else◌,
}
use pit_go.Exclusive.{contains, remove, running_cleanups, is_done}

abbrev pub same_cleanup : Option ℕ → Option ℕ → Bool
same_cleanup (some k) (some j) = k == j
same_cleanup none none = true
same_cleanup _ _ = false

abbrev pub awaits_end : Option ℕ → List (Option ℕ) → Bool
awaits_end k [] = false
awaits_end k (j ∷ js) = same_cleanup k j || awaits_end k js

pub contains-remove :
    (k j : ℕ) (js : List ℕ) → contains k js ≡ false → contains k (remove j js) ≡ false
contains-remove k j [] h = refl
contains-remove k j (i ∷ is) h = ground (arith, contains-remove k j is)

awaits_end-append :
    (k : Option ℕ) (xs ys : List (Option ℕ))
    → awaits_end k (xs ++ ys) ≡ awaits_end k xs || awaits_end k ys
awaits_end-append k [] ys = refl
awaits_end-append k (x ∷ xs) ys = ground (arith, awaits_end-append k xs ys)

awaits_end-map : (k : ℕ) (js : List ℕ) → awaits_end (some k) (map (λ j. some j) js) ≡ contains k js
awaits_end-map k [] = refl
awaits_end-map k (j ∷ js) = ground (arith, awaits_end-map k js)

-- What is in progress is in the snapshot.
pub running-awaited :
    (k : Option ℕ) (barriers : List ℕ) (lifecycle : ℕ)
    → is_done k barriers lifecycle ≡ false
    → awaits_end k (running_cleanups barriers lifecycle) ≡ true
running-awaited (some k) barriers lifecycle h = ground (
  arith,
  awaits_end-map k barriers,
  awaits_end-append (some k) (map (λ j. some j) barriers)
      (if lifecycle == 0 then [] else none ∷ []),
)
running-awaited none barriers lifecycle h = ground (
  arith,
  awaits_end-append none (map (λ j. some j) barriers) (if lifecycle == 0 then [] else none ∷ []),
)

==→eq : (k j : ℕ) → k == j ≡ true → k ≡ j
==→eq k j h = ground arith

-- What is not the cleanup at the head of the list is in its tail, if it has not ended.
pub awaited-tail :
    (k j : Option ℕ) (js : List (Option ℕ)) (barriers : List ℕ) (lifecycle : ℕ)
    → is_done j barriers lifecycle ≡ true
    → is_done k barriers lifecycle ≡ false
    → awaits_end k (j ∷ js) ≡ true
    → awaits_end k js ≡ true
awaited-tail (some k) (some j) js barriers lifecycle a b c = elim (Bool-cases (k == j)) [
  | inl e ↦ cc (a, b, ap (λ i. contains i barriers) (==→eq k j e))
  | inr e ↦ ground arith
]
awaited-tail (some k) none js barriers lifecycle a b c = ground arith
awaited-tail none (some j) js barriers lifecycle a b c = ground arith
awaited-tail none none js barriers lifecycle a b c = ground arith
