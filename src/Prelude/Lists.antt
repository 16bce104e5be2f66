-- ===== src/Prelude/Lists.antt =====
-- Lists measured by native numbers, Boolean membership, and the quantifiers over a list.
use Prim.Native.Nat.{ℕ, suc, ◌+◌}
use mathlib.Core.Path.{◌≡◌, refl}
use mathlib.Core.Logic.{◌⊎◌, inl, inr}
use almighty_core.Prelude.Tests.{if◌then◌else◌, Bool-cases}
use mathlib.Core.Bool.{Bool, true, false, ◌&&◌, ◌||◌}
use mathlib.Core.List.{List, [], ◌∷◌, ◌++◌}
use native.Mathlib.Omega.{arith}

module _ {ℓ} {A : Type ℓ} where
  abbrev pub length : List A → ℕ
  length [] = 0
  length (x ∷ xs) = suc (length xs)

  pub length-append : (xs ys : List A) → length (xs ++ ys) ≡ length xs + length ys
  length-append [] ys = omega arith
  length-append (x ∷ xs) ys = omega (arith, length-append xs ys)

  abbrev pub All {κ} : (A → Type κ) → List A → Type κ
  All P [] = Unit
  All P (x ∷ xs) = P x × All P xs

  -- `any` and `all` of the library do not compute
  abbrev pub any : (A → Bool) → List A → Bool
  any p [] = false
  any p (x ∷ xs) = p x || any p xs

  abbrev pub all : (A → Bool) → List A → Bool
  all p [] = true
  all p (x ∷ xs) = p x && all p xs

-- `x` is an item of the list.
pub data Member {ℓ} {A : Type ℓ} (x : A) : List A → Type ℓ where
  here : (xs : List A) → Member x (x ∷ xs)
  there : (y : A) (xs : List A) → Member x xs → Member x (y ∷ xs)

module _ {ℓ} {A : Type ℓ} where
  pub Member-cons : {y z : A} {zs : List A} → Member y (z ∷ zs) → (y ≡ z) ⊎ Member y zs
  Member-cons (here xs) = inl refl
  Member-cons (there z xs m) = inr m

  pub Member-left : {x : A} {xs : List A} (ys : List A) → Member x xs → Member x (xs ++ ys)
  Member-left ys (here xs) = here (xs ++ ys)
  Member-left ys (there y xs m) = there y (xs ++ ys) (Member-left ys m)

  pub Member-right : {x : A} (xs : List A) {ys : List A} → Member x ys → Member x (xs ++ ys)
  Member-right [] m = m
  Member-right (x ∷ xs) m = there x (xs ++ _) (Member-right xs m)

  pub Member-append : {y : A} (xs ys : List A) → Member y (xs ++ ys) → Member y xs ⊎ Member y ys
  Member-append [] ys m = inr m
  Member-append (x ∷ xs) ys m = elim (Member-cons m) [
    | inl e ↦ inl (rw e (here xs))
    | inr n ↦ elim (Member-append xs ys n) [ inl i ↦ inl (there x xs i) | inr i ↦ inr i ]
  ]

module _ {ℓ κ} {A : Type ℓ} {B : Type κ} where
  -- SELECT f FROM xs WHERE p
  abbrev pub select : (A → Bool) → (A → B) → List A → List B
  select p f [] = []
  select p f (x ∷ xs) = let rest = select p f xs in if p x then f x ∷ rest else rest

  abbrev pub flat_map : (A → List B) → List A → List B
  flat_map f [] = []
  flat_map f (x ∷ xs) = f x ++ flat_map f xs

  pub select-Member :
      (p : A → Bool) (f : A → B) {x : A} (xs : List A)
      → Member x xs
      → p x ≡ true
      → Member (f x) (select p f xs)
  select-Member p f _ (here xs) h = rw h (here (select p f xs))
  select-Member p f _ (there y xs m) h = elim (Bool-cases (p y)) [
    | inl e ↦ rw e (there (f y) (select p f xs) (select-Member p f xs m h))
    | inr e ↦ rw e (select-Member p f xs m h)
  ]

  pub Member-select :
      (p : A → Bool) (f : A → B) {y : B} (xs : List A)
      → Member y (select p f xs)
      → (x : A) × Member x xs × (p x ≡ true) × (y ≡ f x)
  Member-select p f [] m = elim m [ ]
  Member-select p f (x ∷ xs) m = elim (Bool-cases (p x)) [
    | inl e ↦
        let n : Member _ (f x ∷ select p f xs) = rw e at m in
        elim (Member-cons n) [
          | inl q ↦ (x, here xs, e, q)
          | inr i ↦ let (z, o, a, b) = Member-select p f xs i in (z, there x xs o, a, b)
        ]
    | inr e ↦
        let n : Member _ (select p f xs) = rw e at m in
        let (z, o, a, b) = Member-select p f xs n in (z, there x xs o, a, b)
  ]

  pub flat_map-Member :
      (f : A → List B) {x : A} {y : B} (xs : List A)
      → Member x xs
      → Member y (f x)
      → Member y (flat_map f xs)
  flat_map-Member f _ (here xs) n = Member-left (flat_map f xs) n
  flat_map-Member f _ (there z xs m) n = Member-right (f z) (flat_map-Member f xs m n)

  pub Member-flat_map :
      (f : A → List B) {y : B} (xs : List A)
      → Member y (flat_map f xs)
      → (x : A) × Member x xs × Member y (f x)
  Member-flat_map f [] m = elim m [ ]
  Member-flat_map f (x ∷ xs) m = elim (Member-append (f x) (flat_map f xs) m) [
    | inl i ↦ (x, here xs, i)
    | inr i ↦ let (z, o, n) = Member-flat_map f xs i in (z, there x xs o, n)
  ]
