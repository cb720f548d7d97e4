-- ===== src/Common/Places.antt =====
-- Lists whose elements are changed in place, and that grow at their end.
use Prim.Native.Nat.{ℕ, zero, suc}
use mathlib.Core.Path.{◌≡◌, refl, ap}
use mathlib.Core.Bool.{false}
use mathlib.Core.List.{List, [], ◌∷◌, ◌++◌}
use mathlib.Core.Option.{Option, none, some}
use network_protocols.Common.Tests.{◌==◌}
use network_protocols.Common.Lists.{length, get_elem?}
use native.Mathlib.Omega.{arith}

module _ {A : Type 0} where
  abbrev pub update_at : (A → A) → ℕ → List A → List A
  update_at f i [] = []
  update_at f zero (x ∷ xs) = f x ∷ xs
  update_at f (suc i) (x ∷ xs) = x ∷ update_at f i xs

  abbrev map_option : (A → A) → Option A → Option A
  map_option f none = none
  map_option f (some x) = some (f x)

  pub update_at_here :
      (f : A → A) (i : ℕ) (xs : List A) (x : A)
      → get_elem? xs i ≡ some x
      → get_elem? (update_at f i xs) i ≡ some (f x)
  update_at_here f i [] x h = cc
  update_at_here f zero (y ∷ ys) x h = ap (map_option f) h
  update_at_here f (suc i) (y ∷ ys) x h = update_at_here f i ys x h

  pub update_at_elsewhere :
      (f : A → A) (i k : ℕ) (xs : List A)
      → (i == k) ≡ false
      → get_elem? (update_at f k xs) i ≡ get_elem? xs i
  update_at_elsewhere f i k [] ne = refl
  update_at_elsewhere f zero zero (x ∷ xs) ne = cc
  update_at_elsewhere f (suc i) zero (x ∷ xs) ne = refl
  update_at_elsewhere f zero (suc k) (x ∷ xs) ne = refl
  update_at_elsewhere f (suc i) (suc k) (x ∷ xs) ne =
      update_at_elsewhere f i k xs (ground (arith, ne))

  pub get_elem?-before :
      (i : ℕ) (xs ys : List A) (x : A) → get_elem? xs i ≡ some x → get_elem? (xs ++ ys) i ≡ some x
  get_elem?-before i [] ys x h = cc
  get_elem?-before zero (y ∷ xs) ys x h = h
  get_elem?-before (suc i) (y ∷ xs) ys x h = get_elem?-before i xs ys x h

  pub get_elem?-last : (xs : List A) (x : A) → get_elem? (xs ++ x ∷ []) (length xs) ≡ some x
  get_elem?-last [] x = refl
  get_elem?-last (y ∷ xs) x = get_elem?-last xs x

  pub length-update_at : (f : A → A) (i : ℕ) (xs : List A) → length (update_at f i xs) ≡ length xs
  length-update_at f i [] = refl
  length-update_at f zero (x ∷ xs) = refl
  length-update_at f (suc i) (x ∷ xs) = ap suc (length-update_at f i xs)
