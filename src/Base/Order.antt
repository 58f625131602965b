-- ===== src/Base/Order.antt =====
-- The order of Go strings, and lists in that order.
use Prim.Native.Nat.{ℕ, compare, Ordering}
use Prim.Native.Char.{code}
use Prim.Native.String.{String}
use mathlib.Core.Path.{◌≡◌, refl}
use text.Mathlib.TextEquality.{Char-path}
use mathlib.Core.Bool.{Bool, true, false}
use mathlib.Core.List.{List, [], ◌∷◌}
use native.Mathlib.Omega.{arith}
use csr.Base.Equality.{string_eq}
use csr.Base.Lists.{All, contains}

abbrev codes : String → List ℕ
codes String.[] = []
codes (String.◌∷◌ c s) = code c ∷ codes s

codes_before : List ℕ → List ℕ → Bool
codes_before [] [] = false
codes_before [] (_ ∷ _) = true
codes_before (_ ∷ _) [] = false
codes_before (a ∷ xs) (b ∷ ys) = elim (compare a b) [
  | Ordering.lt ↦ true
  | Ordering.eq ↦ codes_before xs ys
  | Ordering.gt ↦ false
]

-- `s < t` of Go: UTF-8 keeps the order of the code points.
unfoldable pub before : String → String → Bool
unfolding codes_before
before s t = codes_before (codes s) (codes t)

abbrev pub IsSorted : List String → Type 0
IsSorted [] = Unit
IsSorted (x ∷ xs) = All (λ y. before x y ≡ true) xs × IsSorted xs

codes_before_irrefl : (xs : List ℕ) → codes_before xs xs ≡ false
unfolding codes_before
codes_before_irrefl [] = refl
codes_before_irrefl (x ∷ xs) = ground (arith, codes_before_irrefl xs)

codes_before_asymm : (xs ys : List ℕ) → codes_before xs ys ≡ true → codes_before ys xs ≡ false
unfolding codes_before
codes_before_asymm [] [] h = cc
codes_before_asymm [] (_ ∷ _) h = refl
codes_before_asymm (_ ∷ _) [] h = cc
codes_before_asymm (a ∷ xs) (b ∷ ys) h = ground (arith, codes_before_asymm xs ys)

codes_before_trans :
    (xs ys zs : List ℕ)
    → codes_before xs ys ≡ true
    → codes_before ys zs ≡ true
    → codes_before xs zs ≡ true
unfolding codes_before
codes_before_trans [] [] zs h k = cc
codes_before_trans [] (_ ∷ _) [] h k = cc
codes_before_trans [] (_ ∷ _) (_ ∷ _) h k = refl
codes_before_trans (_ ∷ _) [] zs h k = cc
codes_before_trans (_ ∷ _) (_ ∷ _) [] h k = cc
codes_before_trans (a ∷ xs) (b ∷ ys) (c ∷ zs) h k = ground (arith, codes_before_trans xs ys zs)

codes_before_total :
    (xs ys : List ℕ) → codes_before xs ys ≡ false → codes_before ys xs ≡ false → xs ≡ ys
unfolding codes_before
codes_before_total [] [] h k = refl
codes_before_total [] (_ ∷ _) h k = cc
codes_before_total (_ ∷ _) [] h k = cc
codes_before_total (a ∷ xs) (b ∷ ys) h k = ground (arith, codes_before_total xs ys)

codes_injective : (s t : String) → codes s ≡ codes t → s ≡ t
codes_injective String.[] String.[] h = refl
codes_injective String.[] (String.◌∷◌ d t) h = cc
codes_injective (String.◌∷◌ c s) String.[] h = cc
codes_injective (String.◌∷◌ c s) (String.◌∷◌ d t) h =
    cc (codes_injective s t (cc), Char-path c d (cc))

before_irrefl : (s : String) → before s s ≡ false
unfolding before
before_irrefl s = codes_before_irrefl (codes s)

before_asymm : (s t : String) → before s t ≡ true → before t s ≡ false
unfolding before
before_asymm s t h = codes_before_asymm (codes s) (codes t) h

pub before_trans : (s t u : String) → before s t ≡ true → before t u ≡ true → before s u ≡ true
unfolding before
before_trans s t u h k = codes_before_trans (codes s) (codes t) (codes u) h k

pub before_total : (s t : String) → before s t ≡ false → before t s ≡ false → s ≡ t
unfolding before
before_total s t h k = codes_injective s t (codes_before_total (codes s) (codes t) h k)

before-contains :
    (x y : String) (xs : List String)
    → All (λ z. before x z ≡ true) xs
    → contains xs y ≡ true
    → before x y ≡ true
before-contains x y [] a h = cc
before-contains x y (z ∷ xs) (p, a) h = ground (arith, before-contains x y xs a)

head_unique :
    (x y : String) (xs ys : List String)
    → IsSorted (x ∷ xs)
    → IsSorted (y ∷ ys)
    → contains (y ∷ ys) x ≡ true
    → contains (x ∷ xs) y ≡ true
    → x ≡ y
head_unique x y xs ys (ax, _) (ay, _) h k =
    ground (arith, before-contains x y xs ax, before-contains y x ys ay, before_asymm x y)

contains-above :
    (x : String) (xs : List String) → All (λ z. before x z ≡ true) xs → contains xs x ≡ false
contains-above x xs a = ground (arith, before-contains x x xs a, before_irrefl x)

-- A sorted list is determined by its members.
pub sorted_ext :
    (xs ys : List String)
    → IsSorted xs
    → IsSorted ys
    → ((z : String) → contains xs z ≡ contains ys z)
    → xs ≡ ys
sorted_ext [] [] sx sy h = refl
sorted_ext [] (y ∷ ys) sx sy h = ground (arith, h y)
sorted_ext (x ∷ xs) [] sx sy h = ground (arith, h x)
sorted_ext (x ∷ xs) (y ∷ ys) sx sy h =
    let same : x ≡ y = head_unique x y xs ys sx sy (ground (arith, h x)) (ground (arith, h y)) in
    cc (same, sorted_ext xs ys sx.1 sy.1 (λ z. tails same z))
  where
    tails : x ≡ y → (z : String) → contains xs z ≡ contains ys z
    tails same z = ground (arith, h z, contains-above x xs sx.0, contains-above y ys sy.0)
