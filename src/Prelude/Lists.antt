-- ===== src/Prelude/Lists.antt =====
-- Lists under Boolean tests, and lists measured by native numbers.
use Prim.Native.Nat.{ℕ, zero, suc, ◌+◌, ◌≤◌}
use mathlib.Core.Path.{◌≡◌, refl, ap, ◌∙◌, sym, subst}
use mathlib.Core.Logic.{◌⊎◌, inl, inr}
use mathlib.Core.Bool.{Bool, true, false, ◌&&◌, ◌||◌}
use mathlib.Core.List.{List, [], ◌∷◌, ◌++◌}
use mathlib.Core.Option.{Option, none, some}
use native.Mathlib.Omega.{arith}
use invisible_backend.Prelude.Tests.{if◌then◌else◌}

module _ {ℓ} {A : Type ℓ} where
  abbrev pub length : List A → ℕ
  length [] = 0
  length (x ∷ xs) = suc (length xs)

  abbrev pub take : ℕ → List A → List A
  take zero xs = []
  take (suc n) [] = []
  take (suc n) (x ∷ xs) = x ∷ take n xs

  abbrev pub drop : ℕ → List A → List A
  drop zero xs = xs
  drop (suc n) [] = []
  drop (suc n) (x ∷ xs) = drop n xs

  abbrev pub retain : (A → Bool) → List A → List A
  retain p [] = []
  retain p (x ∷ xs) = if p x then x ∷ retain p xs else retain p xs

  abbrev pub any : (A → Bool) → List A → Bool
  any p [] = false
  any p (x ∷ xs) = p x || any p xs

  abbrev pub all : (A → Bool) → List A → Bool
  all p [] = true
  all p (x ∷ xs) = p x && all p xs

  abbrev pub find : (A → Bool) → List A → Option A
  find p [] = none
  find p (x ∷ xs) = if p x then some x else find p xs

  abbrev pub count : (A → Bool) → List A → ℕ
  count p [] = 0
  count p (x ∷ xs) = (if p x then 1 else 0) + count p xs

  pub length-append : (xs ys : List A) → length (xs ++ ys) ≡ length xs + length ys
  length-append [] ys = omega arith
  length-append (x ∷ xs) ys = omega (arith, length-append xs ys)

  pub count-append : (p : A → Bool) (xs ys : List A) → count p (xs ++ ys) ≡ count p xs + count p ys
  count-append p [] ys = omega arith
  count-append p (x ∷ xs) ys = omega (arith, count-append p xs ys)

  pub retain-append :
      (p : A → Bool) (xs ys : List A) → retain p (xs ++ ys) ≡ retain p xs ++ retain p ys
  retain-append p [] ys = refl
  retain-append p (x ∷ xs) ys = ground (arith, retain-append p xs ys)

  pub length-take-le : (n : ℕ) (xs : List A) → length (take n xs) ≤ n
  length-take-le zero xs = omega arith
  length-take-le (suc n) [] = omega arith
  length-take-le (suc n) (x ∷ xs) = omega (arith, length-take-le n xs)

  pub take-append-drop : (n : ℕ) (xs : List A) → take n xs ++ drop n xs ≡ xs
  take-append-drop zero xs = refl
  take-append-drop (suc n) [] = refl
  take-append-drop (suc n) (x ∷ xs) = ap (◌∷◌ x) (take-append-drop n xs)

  pub any-append : (p : A → Bool) (xs ys : List A) → any p (xs ++ ys) ≡ (any p xs || any p ys)
  any-append p [] ys = refl
  any-append p (x ∷ xs) ys = ground (arith, any-append p xs ys)

  abbrev pub All {κ} : (A → Type κ) → List A → Type κ
  All P [] = Unit
  All P (x ∷ xs) = P x × All P xs

-- Membership, as a type that computes.
abbrev pub In : {A : Type 0} → A → List A → Type 0
In a [] = ⊥
In a (x ∷ xs) = (a ≡ x) ⊎ In a xs

pub In-take : {A : Type 0} (a : A) (n : ℕ) (xs : List A) → In a (take n xs) → In a xs
In-take a zero xs h = elim h [ ]
In-take a (suc n) [] h = h
In-take a (suc n) (x ∷ xs) (inl p) = inl p
In-take a (suc n) (x ∷ xs) (inr p) = inr (In-take a n xs p)

In-if :
    {A : Type 0} (a x : A) (b : Bool) (ys : List A)
    → In a (if b then x ∷ ys else ys)
    → ((a ≡ x) × (b ≡ true)) ⊎ In a ys
In-if a x true ys (inl e) = inl (e, refl)
In-if a x true ys (inr h) = inr h
In-if a x false ys h = inr h

pub In-retain :
    {A : Type 0} (a : A) (p : A → Bool) (xs : List A) → In a (retain p xs) → In a xs × (p a ≡ true)
In-retain a p [] h = elim h [ ]
In-retain a p (x ∷ xs) h = elim (In-if a x (p x) (retain p xs) h) [
  | inl (e, q) ↦ (inl e, ap p e ∙ q)
  | inr here ↦ let (there, q) = In-retain a p xs here in (inr there, q)
]

pub retain-In :
    {A : Type 0} (a : A) (p : A → Bool) (xs : List A) → In a xs → p a ≡ true → In a (retain p xs)
retain-In a p [] h q = h
retain-In a p (x ∷ xs) (inl here) q = rw (sym (ap p here) ∙ q) (inl here)
retain-In a p (x ∷ xs) (inr there) q = keep (p x) (retain-In a p xs there q)
  where
    keep : (b : Bool) → In a (retain p xs) → In a (if b then x ∷ retain p xs else retain p xs)
    keep true h = inr h
    keep false h = h

pub All-In : {A : Type 0} (P : A → Type 0) (a : A) (xs : List A) → All P xs → In a xs → P a
All-In P a [] all h = elim h [ ]
All-In P a (x ∷ xs) all (inl here) = subst P (sym here) all.0
All-In P a (x ∷ xs) all (inr there) = All-In P a xs all.1 there

pub count-retain-le :
    {A : Type 0} (q r : A → Bool) (xs : List A) → count q (retain r xs) ≤ count q xs
count-retain-le q r [] = omega arith
count-retain-le q r (x ∷ xs) = ground (arith, count-retain-le q r xs)

pub All-append :
    {A : Type 0} (P : A → Type 0) (xs ys : List A) → All P xs → All P ys → All P (xs ++ ys)
All-append P [] ys all more = more
All-append P (x ∷ xs) ys all more = (all.0, All-append P xs ys all.1 more)

pub All-left : {A : Type 0} (P : A → Type 0) (xs ys : List A) → All P (xs ++ ys) → All P xs
All-left P [] ys all = tt
All-left P (x ∷ xs) ys all = (all.0, All-left P xs ys all.1)

pub All-right : {A : Type 0} (P : A → Type 0) (xs ys : List A) → All P (xs ++ ys) → All P ys
All-right P [] ys all = all
All-right P (x ∷ xs) ys all = All-right P xs ys all.1

pub All-map :
    {A : Type 0} (P Q : A → Type 0) (xs : List A) → ((x : A) → P x → Q x) → All P xs → All Q xs
All-map P Q [] f all = tt
All-map P Q (x ∷ xs) f all = (f x all.0, All-map P Q xs f all.1)

pub In-left : {A : Type 0} (a : A) (xs ys : List A) → In a xs → In a (xs ++ ys)
In-left a [] ys h = elim h [ ]
In-left a (x ∷ xs) ys (inl h) = inl h
In-left a (x ∷ xs) ys (inr h) = inr (In-left a xs ys h)

pub In-middle : {A : Type 0} (a : A) (xs ys : List A) → In a (xs ++ a ∷ ys)
In-middle a [] ys = inl refl
In-middle a (x ∷ xs) ys = inr (In-middle a xs ys)

pub In-right : {A : Type 0} (a : A) (xs ys : List A) → In a ys → In a (xs ++ ys)
In-right a [] ys h = h
In-right a (x ∷ xs) ys h = inr (In-right a xs ys h)
