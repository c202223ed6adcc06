-- ===== src/Base/Arrays.antt =====
-- Arrays as functions from the index, and the loop that looks for the first index that passes a test.
use Prim.Native.Nat.{ℕ, zero, suc, ◌+◌, ◌≤◌, ◌<◌}
use mathlib.Core.Path.{◌≡◌, subst, sym, ap, ◌∙◌}
use mathlib.Core.Logic.{◌≢◌, ◌⊎◌, inl, inr}
use mathlib.Core.Bool.{Bool, true, false}
use mathlib.Core.Option.{Option, none, some}
use native.Mathlib.Omega.{arith}
use sistemas_operarivos_fiub.Base.Tests.{
  ◌==◌, if◌then◌else◌, ==-refl, ==-ne, nat_eq_cases, Bool-cases,
}

module _ {ℓ} {A : Type ℓ} where
  -- `a[i] = v`
  unfoldable pub update : (ℕ → A) → ℕ → A → ℕ → A
  update a i v j = if j == i then v else a j

  pub update_same : (a : ℕ → A) (i : ℕ) (v : A) → update a i v i ≡ v
  unfolding update
  update_same a i v = rw (==-refl i)

  pub update_other : (a : ℕ → A) (i : ℕ) (v : A) (j : ℕ) → j ≢ i → update a i v j ≡ a j
  unfolding update
  update_other a i v j h = rw (==-ne j i h)

  -- A property of every cell survives a write that keeps it.
  pub update_all {κ} :
      (P : ℕ → A → Type κ) (a : ℕ → A) (i : ℕ) (v : A)
      → ((j : ℕ) → P j (a j))
      → P i v
      → (j : ℕ) → P j (update a i v j)
  update_all P a i v all new j = elim (nat_eq_cases j i) [
    | inl e ↦ subst (λ k. P k (update a i v k)) (sym e) (subst (P i) (sym (update_same a i v)) new)
    | inr n ↦ subst (P j) (sym (update_other a i v j n)) (all j)
  ]

-- A write that keeps a part of its cell keeps that part of every cell.
pub update_keep {ℓ κ} :
    {A : Type ℓ} {B : Type κ} (f : A → B) (a : ℕ → A) (i : ℕ) (v : A)
    → f v ≡ f (a i)
    → (j : ℕ) → f (update a i v j) ≡ f (a j)
update_keep f a i v e j = elim (nat_eq_cases j i) [
  | inl q ↦ subst (λ k. f (update a i v k) ≡ f (a k)) (sym q) (ap f (update_same a i v) ∙ e)
  | inr q ↦ ap f (update_other a i v j q)
]

-- `for (i = from; i < from + n; i++) if (p(i)) return i;`
unfoldable pub first_from : (ℕ → Bool) → ℕ → ℕ → Option ℕ
first_from p from zero = none
first_from p from (suc n) =
    let rest = first_from p (suc from) n in if p from then some from else rest

pub record IsFirst (p : ℕ → Bool) (from n i : ℕ) : Type 0 where
  pub lower : from ≤ i
  pub upper : i < from + n
  pub passes : p i ≡ true
  pub earlier_fail : (j : ℕ) → from ≤ j → j < i → p j ≡ false

le_cases : (a b : ℕ) → a ≤ b → (a ≡ b) ⊎ (suc a ≤ b)
le_cases a b h = grind arith

pub first_from-some :
    (p : ℕ → Bool) (from n : ℕ) {i : ℕ} → first_from p from n ≡ some i → IsFirst p from n i
unfolding first_from
first_from-some p from zero h = cc
first_from-some p from (suc n) {i} h = elim (Bool-cases (p from)) [
  | inl t ↦ now t (rw t at h)
  | inr f ↦ later f (first_from-some p (suc from) n (rw f at h))
]
  where
    now : p from ≡ true → some from ≡ some i → IsFirst p from (suc n) i
    now t e =
        let same : from ≡ i = cc in
        record {
          lower = omega arith;
          upper = omega arith;
          passes = subst (λ k. p k ≡ true) same t;
          earlier_fail = λ j a b. absurd (omega arith);
        }

    later : p from ≡ false → IsFirst p (suc from) n i → IsFirst p from (suc n) i
    later f r = record {
      lower = omega arith;
      upper = omega arith;
      passes = r.passes;
      earlier_fail = λ j a b. elim (le_cases from j a) [
        | inl e ↦ subst (λ k. p k ≡ false) e f
        | inr l ↦ r.earlier_fail j l b
      ];
    }

pub first_from-none :
    (p : ℕ → Bool) (from n : ℕ)
    → first_from p from n ≡ none
    → (j : ℕ) → from ≤ j
    → j < from + n
    → p j ≡ false
unfolding first_from
first_from-none p from zero h j a b = absurd (omega arith)
first_from-none p from (suc n) h j a b = elim (Bool-cases (p from)) [
  | inl t ↦ absurd (clash (rw t at h))
  | inr f ↦ elim (le_cases from j a) [
    | inl e ↦ subst (λ k. p k ≡ false) e f
    | inr l ↦ first_from-none p (suc from) n (rw f at h) j l (omega arith)
  ]
]
  where
    clash : some from ≡ none → ⊥
    clash e = cc

-- The first index that passes is what the loop finds.
pub first_from_unique :
    (p : ℕ → Bool) (from n i : ℕ) → IsFirst p from n i → first_from p from n ≡ some i
unfolding first_from
first_from_unique p from zero i r = absurd (omega arith)
first_from_unique p from (suc n) i r = elim (le_cases from i r.lower) [
  | inl e ↦ rw (subst (λ k. p k ≡ true) (sym e) r.passes) (ap_some e)
  | inr l ↦ rw (r.earlier_fail from (omega arith) l) (
      first_from_unique p (suc from) n i (record {
        lower = l;
        upper = omega arith;
        passes = r.passes;
        earlier_fail = λ j a b. r.earlier_fail j (omega arith) b;
      }))
]
  where
    ap_some : from ≡ i → some from ≡ some i
    ap_some e = cc
