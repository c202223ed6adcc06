-- ===== src/Shell/Lineas/Cortes.antt =====
-- Where `split_line` and the loop that looks for a byte, of TP1-shell/utils.c, cut a line.
use sistemas_operarivos_fiub.Base.{
  ℕ, ◌≤◌, ◌<◌, ◌≡◌, refl, none, List, [], ◌∷◌, ◌++◌, ==-refl, length, arith, Option-cases, inl, inr,
}
use sistemas_operarivos_fiub.Shell.Lineas.{block_contains, hasta, tras, saltar, split_line}

pub length-saltar : (xs : List ℕ) → length (saltar xs) ≤ length xs
unfolding saltar
length-saltar [] = omega arith
length-saltar (x ∷ xs) = ground (arith, length-saltar xs)

pub length-tras : (x : ℕ) (xs : List ℕ) (c : ℕ) → length (tras (x ∷ xs) c) < length (x ∷ xs)
unfolding tras
length-tras x [] c = ground arith
length-tras x (y ∷ xs) c = ground (arith, length-tras y xs c)

pub corte : (l r : List ℕ) (c : ℕ) → block_contains l c ≡ none → hasta (l ++ (c ∷ r)) c ≡ l
unfolding block_contains hasta
corte [] r c h = ground (arith, ==-refl c)
corte (x ∷ l) r c h = elim (Option-cases (block_contains l c)) [
  | inl q ↦ ground (arith, corte l r c q)
  | inr (i, q) ↦ ground arith
]

pub corte_tras : (l r : List ℕ) (c : ℕ) → block_contains l c ≡ none → tras (l ++ (c ∷ r)) c ≡ r
unfolding block_contains tras
corte_tras [] r c h = ground (arith, ==-refl c)
corte_tras (x ∷ l) r c h = elim (Option-cases (block_contains l c)) [
  | inl q ↦ ground (arith, corte_tras l r c q)
  | inr (i, q) ↦ ground arith
]

pub entero : (l : List ℕ) (c : ℕ) → block_contains l c ≡ none → hasta l c ≡ l
unfolding block_contains hasta
entero [] c h = refl
entero (x ∷ l) c h = elim (Option-cases (block_contains l c)) [
  | inl q ↦ ground (arith, entero l c q)
  | inr (i, q) ↦ ground arith
]

pub entero_tras : (l : List ℕ) (c : ℕ) → block_contains l c ≡ none → tras l c ≡ []
unfolding block_contains tras
entero_tras [] c h = refl
entero_tras (x ∷ l) c h = elim (Option-cases (block_contains l c)) [
  | inl q ↦ ground (arith, entero_tras l c q)
  | inr (i, q) ↦ ground arith
]

-- The two parts of a line that has the splitter are what lies before the first one, and what lies
-- behind it without the spaces at its start.
pub split_line-append :
    (l r : List ℕ) (c : ℕ) → block_contains l c ≡ none → split_line (l ++ (c ∷ r)) c ≡ (l, saltar r)
unfolding split_line
split_line-append l r c h i = (corte l r c h i, saltar (corte_tras l r c h i))

pub split_line-entero : (l : List ℕ) (c : ℕ) → block_contains l c ≡ none → split_line l c ≡ (l, [])
unfolding split_line saltar
split_line-entero l c h i = (entero l c h i, saltar (entero_tras l c h i))
