-- ===== src/Shell/Lineas.antt =====
-- `split_line` and `block_contains` of TP1-shell/utils.c.
pub mod Cortes
use sistemas_operarivos_fiub.Base.{ℕ, suc, Option, none, some, List, [], ◌∷◌, ◌==◌, if◌then◌else◌}
use sistemas_operarivos_fiub.Shell.Tipos.{espacio}

-- the index of the first `c`, `none` for -1
unfoldable pub block_contains : List ℕ → ℕ → Option ℕ
block_contains [] c = none
block_contains (x ∷ xs) c =
    if x == c then some 0 else elim (block_contains xs c) [ none ↦ none | some i ↦ some (suc i) ]

-- `while (buf[i] != splitter && buf[i] != END_STRING) i++;` and what lies before i
unfoldable pub hasta : List ℕ → ℕ → List ℕ
hasta [] c = []
hasta (x ∷ xs) c = let rest = hasta xs c in if x == c then [] else x ∷ rest

-- what lies behind the splitter; the buffer is cleared, so it is empty where there is none
unfoldable pub tras : List ℕ → ℕ → List ℕ
tras [] c = []
tras (x ∷ xs) c = let rest = tras xs c in if x == c then xs else rest

-- `while (buf[i] == SPACE) i++;`
unfoldable pub saltar : List ℕ → List ℕ
saltar [] = []
saltar (x ∷ xs) = let rest = saltar xs in if x == espacio then rest else x ∷ xs

-- what is left in `buf`, and the result
unfoldable pub split_line : List ℕ → ℕ → List ℕ × List ℕ
split_line buf splitter = (hasta buf splitter, saltar (tras buf splitter))
