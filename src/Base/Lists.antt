-- ===== src/Base/Lists.antt =====
-- Lists with native lengths, and a Boolean membership test.
use Prim.Native.Nat.{ℕ, zero, suc, ◌+◌, ◌-◌, ◌≤◌, ◌<◌}
use mathlib.Core.Path.{◌≡◌, refl, sym, ap, ◌∙◌}
use mathlib.Core.Logic.{◌⊎◌, inl, inr}
use mathlib.Core.Bool.{Bool, true, false}
use mathlib.Core.Option.{Option, none, some}
use mathlib.Core.List.{List, [], ◌∷◌, ◌++◌}
use native.Mathlib.Omega.{arith}
use mac_osx_network_sockets.Base.Tests.{ltb, ◌==◌, if◌then◌else◌}

module _ {ℓ} {A : Type ℓ} where
  abbrev pub length : List A → ℕ
  length [] = 0
  length (x ∷ xs) = suc (length xs)

  abbrev pub take : ℕ → List A → List A
  take zero xs = []
  take (suc n) [] = []
  take (suc n) (x ∷ xs) = x ∷ take n xs

  abbrev pub drop : ℕ → List A → List A
  drop zero xs = xs
  drop (suc n) [] = []
  drop (suc n) (x ∷ xs) = drop n xs

  pub length-append : (xs ys : List A) → length (xs ++ ys) ≡ length xs + length ys
  length-append [] ys = omega arith
  length-append (x ∷ xs) ys = omega (arith, length-append xs ys)

-- Does the list hold the number?
abbrev pub contains : List ℕ → ℕ → Bool
contains [] i = false
contains (x ∷ xs) i = if x == i then true else contains xs i

-- No number occurs twice.
abbrev pub Distinct : List ℕ → Type 0
Distinct [] = Unit
Distinct (x ∷ xs) = (contains xs x ≡ false) × Distinct xs

-- Every number is below the bound.
abbrev pub Below : ℕ → List ℕ → Type 0
Below n [] = Unit
Below n (x ∷ xs) = (x < n) × Below n xs

pub contains-append :
    (xs ys : List ℕ) (i : ℕ)
    → contains (xs ++ ys) i ≡ (if contains xs i then true else contains ys i)
contains-append [] ys i = refl
contains-append (x ∷ xs) ys i = ground (arith, contains-append xs ys i)

pub contains-Below : (n : ℕ) (xs : List ℕ) (i : ℕ) → Below n xs → contains xs i ≡ true → i < n
contains-Below n [] i b h = absurd (ground arith)
contains-Below n (x ∷ xs) i b h = ground (arith, contains-Below n xs i)

-- The two parts of a list with no number twice have no number in common.
pub Distinct-append_parts :
    (xs ys : List ℕ)
    → Distinct (xs ++ ys)
    → Distinct xs × Distinct ys × ((i : ℕ) → contains xs i ≡ true → contains ys i ≡ false)
Distinct-append_parts [] ys d = (tt, d, λ i h. absurd (ground arith))
Distinct-append_parts (x ∷ xs) ys (out, d) =
    let (d', e, apart) = Distinct-append_parts xs ys d in
    let outs = contains-append xs ys x in ((ground arith, d'), e, λ i h. ground (arith, apart i))

-- How many numbers below `n` the list holds.
count_below : ℕ → List ℕ → ℕ
count_below zero xs = 0
count_below (suc n) xs = count_below n xs + (if contains xs n then 1 else 0)

count_below-le : (n : ℕ) (xs : List ℕ) → count_below n xs ≤ n
unfolding count_below
count_below-le zero xs = omega arith
count_below-le (suc n) xs = ground (arith, count_below-le n xs)

count_below-nil : (n : ℕ) → count_below n [] ≡ 0
unfolding count_below
count_below-nil zero = refl
count_below-nil (suc n) = ground (arith, count_below-nil n)

count_below-cons :
    (n x : ℕ) (xs : List ℕ)
    → contains xs x ≡ false
    → count_below n (x ∷ xs) ≡ count_below n xs + (if ltb x n then 1 else 0)
unfolding count_below
count_below-cons zero x xs c = ground arith
count_below-cons (suc n) x xs c = ground (arith, count_below-cons n x xs c)

length-le-count_below :
    (n : ℕ) (xs : List ℕ) → Distinct xs → Below n xs → length xs ≤ count_below n xs
length-le-count_below n [] d b = omega arith
length-le-count_below n (x ∷ xs) d b =
    ground (arith, count_below-cons n x xs, length-le-count_below n xs)

-- Distinct numbers below `n` are at most `n`.
pub length-le_of_Distinct : (n : ℕ) (xs : List ℕ) → Distinct xs → Below n xs → length xs ≤ n
length-le_of_Distinct n xs d b = omega (arith, length-le-count_below n xs d b, count_below-le n xs)

module _ {ℓ} {A : Type ℓ} where
  pub length-take : (n : ℕ) (xs : List A) → n ≤ length xs → length (take n xs) ≡ n
  length-take zero xs h = refl
  length-take (suc n) [] h = absurd (omega arith)
  length-take (suc n) (x ∷ xs) h = omega (arith, length-take n xs)

  pub length-drop : (n : ℕ) (xs : List A) → length (drop n xs) ≡ length xs - n
  length-drop zero xs = omega arith
  length-drop (suc n) [] = omega arith
  length-drop (suc n) (x ∷ xs) = omega (arith, length-drop n xs)

  pub take-append_self : (xs ys : List A) → take (length xs) (xs ++ ys) ≡ xs
  take-append_self [] ys = refl
  take-append_self (x ∷ xs) ys = ap (◌∷◌ x) (take-append_self xs ys)

  pub take-append-drop : (n : ℕ) (xs : List A) → take n xs ++ drop n xs ≡ xs
  take-append-drop zero xs = refl
  take-append-drop (suc n) [] = refl
  take-append-drop (suc n) (x ∷ xs) = ap (◌∷◌ x) (take-append-drop n xs)

  pub drop-nil : (n : ℕ) → drop {A = A} n [] ≡ []
  drop-nil zero = refl
  drop-nil (suc n) = refl

  pub drop-drop : (n m : ℕ) (xs : List A) → drop n (drop m xs) ≡ drop (m + n) xs
  drop-drop n zero xs = ap (λ k. drop k xs) (omega arith)
  drop-drop n (suc m) [] = drop-nil n ∙ sym (drop-nil (suc m + n))
  drop-drop n (suc m) (x ∷ xs) =
      drop-drop n m xs ∙ ap (λ k. drop k (x ∷ xs)) {x = suc (m + n)} (omega arith)

  pub drop-length : (n : ℕ) (xs : List A) → length xs ≤ n → drop n xs ≡ []
  drop-length n [] h = drop-nil n
  drop-length zero (x ∷ xs) h = absurd (omega arith)
  drop-length (suc n) (x ∷ xs) h = drop-length n xs (omega arith)

  pub List-cases : (xs : List A) → (xs ≡ []) ⊎ ((y : A) × (ys : List A) × (xs ≡ y ∷ ys))
  List-cases [] = inl refl
  List-cases (y ∷ ys) = inr (y, ys, refl)

  pub length-take_le : (n : ℕ) (xs : List A) → length (take n xs) ≤ n
  length-take_le zero xs = omega arith
  length-take_le (suc n) [] = omega arith
  length-take_le (suc n) (x ∷ xs) = omega (arith, length-take_le n xs)

  pub Option-cases : (o : Option A) → (o ≡ none) ⊎ ((a : A) × (o ≡ some a))
  Option-cases none = inl refl
  Option-cases (some a) = inr (a, refl)
