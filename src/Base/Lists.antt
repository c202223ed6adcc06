-- ===== src/Base/Lists.antt =====
-- Lists measured by native numbers, under the library's names, and the comparison of byte strings.
use Prim.Native.String.{String}
use Prim.Native.Char.{code}
use Prim.Native.Nat.{ℕ, zero, suc, ◌+◌, ◌≤◌}
use mathlib.Core.Path.{◌≡◌, refl, ap, ap₂, subst}
use mathlib.Core.Logic.{◌↔◌, ◌≢◌, inl, inr}
use mathlib.Core.Bool.{Bool, true, false, ◌&&◌}
use mathlib.Core.List.{List, [], ◌∷◌, ◌++◌}
use native.Mathlib.Omega.{arith}
use sistemas_operarivos_fiub.Base.Tests.{◌==◌, ==_iff, ==-refl, Bool-cases}

module _ {ℓ} {A : Type ℓ} where
  abbrev pub length : List A → ℕ
  length [] = 0
  length (x ∷ xs) = suc (length xs)

  abbrev pub take : ℕ → List A → List A
  take zero xs = []
  take (suc n) [] = []
  take (suc n) (x ∷ xs) = x ∷ take n xs

  abbrev pub drop : ℕ → List A → List A
  drop zero xs = xs
  drop (suc n) [] = []
  drop (suc n) (x ∷ xs) = drop n xs

  abbrev pub get_or : List A → ℕ → A → A
  get_or [] i d = d
  get_or (x ∷ xs) zero d = x
  get_or (x ∷ xs) (suc i) d = get_or xs i d

  pub length-take : (n : ℕ) (xs : List A) → length (take n xs) ≤ n
  length-take zero xs = omega arith
  length-take (suc n) [] = omega arith
  length-take (suc n) (x ∷ xs) = omega (arith, length-take n xs)

  pub take-all : (n : ℕ) (xs : List A) → length xs ≤ n → take n xs ≡ xs
  take-all zero [] h = refl
  take-all zero (x ∷ xs) h = absurd (omega arith)
  take-all (suc n) [] h = refl
  take-all (suc n) (x ∷ xs) h = ap (λ r. x ∷ r) (take-all n xs (omega arith))

  pub length-append : (xs ys : List A) → length (xs ++ ys) ≡ length xs + length ys
  length-append [] ys = omega arith
  length-append (x ∷ xs) ys = omega (arith, length-append xs ys)

  pub append_assoc : (xs ys zs : List A) → (xs ++ ys) ++ zs ≡ xs ++ (ys ++ zs)
  append_assoc [] ys zs = refl
  append_assoc (x ∷ xs) ys zs = ap (λ r. x ∷ r) (append_assoc xs ys zs)

  pub append-nil : (xs : List A) → xs ++ [] ≡ xs
  append-nil [] = refl
  append-nil (x ∷ xs) = ap (λ r. x ∷ r) (append-nil xs)

-- a string literal of the source
abbrev pub bytes : String → List ℕ
bytes String.[] = []
bytes (String.◌∷◌ c s) = code c ∷ bytes s

-- `strcmp(a, b) == 0`
unfoldable pub strings_eq : List ℕ → List ℕ → Bool
strings_eq [] [] = true
strings_eq [] (y ∷ ys) = false
strings_eq (x ∷ xs) [] = false
strings_eq (x ∷ xs) (y ∷ ys) = (x == y) && strings_eq xs ys

and_true : (a b : Bool) → (a && b) ≡ true → (a ≡ true) × (b ≡ true)
and_true a b h = ground arith

strings_eq_sound : (xs ys : List ℕ) → strings_eq xs ys ≡ true → xs ≡ ys
unfolding strings_eq
strings_eq_sound [] [] h = refl
strings_eq_sound [] (y ∷ ys) h = cc
strings_eq_sound (x ∷ xs) [] h = cc
strings_eq_sound (x ∷ xs) (y ∷ ys) h =
    let p = and_true (x == y) (strings_eq xs ys) h in
    ap₂ (λ (a : ℕ) (r : List ℕ). a ∷ r) ((==_iff x y).0 p.0) (strings_eq_sound xs ys p.1)

pub strings_eq_refl : (xs : List ℕ) → strings_eq xs xs ≡ true
unfolding strings_eq
strings_eq_refl [] = refl
strings_eq_refl (x ∷ xs) = ground (arith, ==-refl x, strings_eq_refl xs)

pub strings_eq_iff : (xs ys : List ℕ) → (strings_eq xs ys ≡ true) ↔ (xs ≡ ys)
strings_eq_iff xs ys =
    (strings_eq_sound xs ys, λ e. subst (λ zs. strings_eq xs zs ≡ true) e (strings_eq_refl xs))

pub strings_eq-ne : (xs ys : List ℕ) → xs ≢ ys → strings_eq xs ys ≡ false
strings_eq-ne xs ys h = elim (Bool-cases (strings_eq xs ys)) [
  | inl e ↦ absurd (h (strings_eq_sound xs ys e))
  | inr e ↦ e
]
