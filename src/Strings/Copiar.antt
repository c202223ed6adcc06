-- ===== src/Strings/Copiar.antt =====
-- The copies of TP2-sched/lib/string.c: what is in memory afterwards.
use sistemas_operarivos_fiub.Base.{
  ℕ, zero, suc, ◌+◌, ◌<◌, ◌≡◌, ◌≢◌, ◌⊎◌, refl, ◌∙◌, subst, inl, inr, List, [], ◌∷◌, length, take,
  update, update_same, update_other, arith,
}
use sistemas_operarivos_fiub.Strings.Rutinas.{strcpy, strlcpy_desde, strlcpy}

-- the bytes in memory from an address on
unfoldable pub leer : (ℕ → ℕ) → ℕ → ℕ → List ℕ
leer m a zero = []
leer m a (suc n) = m a ∷ leer m (a + 1) n

-- `s` and a NUL have been written at `dst`, and nothing else.
pub record Copiado (m m' : ℕ → ℕ) (dst : ℕ) (s : List ℕ) : Type 0 where
  cuerpo : leer m' dst (length s) ≡ s
  final : m' (dst + length s) ≡ 0
  resto : (j : ℕ) → (j < dst) ⊎ (dst + length s < j) → m' j ≡ m j

Copiado-nul : (m : ℕ → ℕ) (dst : ℕ) → Copiado m (update m dst 0) dst []
unfolding leer
Copiado-nul m dst = record {
  cuerpo = refl;
  final = subst (λ j. update m dst 0 j ≡ 0) (omega arith) (update_same m dst 0);
  resto = λ j h. update_other m dst 0 j (fuera j h);
}
  where
    fuera : (j : ℕ) → (j < dst) ⊎ (dst + 0 < j) → j ≢ dst
    fuera j h = grind arith

Copiado-byte :
    {m m' : ℕ → ℕ} {dst x : ℕ} {s : List ℕ}
    → Copiado (update m dst x) m' (dst + 1) s
    → Copiado m m' dst (x ∷ s)
unfolding leer
Copiado-byte {m} {m'} {dst} {x} {s} c = record {
  cuerpo = λ i. primero i ∷ c.cuerpo i;
  final = subst (λ j. m' j ≡ 0) (omega arith) c.final;
  resto = λ j h. c.resto j (mas j h) ∙ update_other m dst x j (otro j h);
}
  where
    primero : m' dst ≡ x
    primero = c.resto dst (inl (omega arith)) ∙ update_same m dst x

    mas :
        (j : ℕ) → (j < dst) ⊎ (dst + suc (length s) < j) → (j < dst + 1) ⊎ (dst + 1 + length s < j)
    mas j (inl h) = inl (omega arith)
    mas j (inr h) = inr (omega arith)

    otro : (j : ℕ) → (j < dst) ⊎ (dst + suc (length s) < j) → j ≢ dst
    otro j h = grind arith

-- `strcpy` writes the string and a NUL at the destination, and nothing else.
pub strcpy-Copiado : (m : ℕ → ℕ) (dst : ℕ) (src : List ℕ) → Copiado m (strcpy m dst src) dst src
unfolding strcpy
strcpy-Copiado m dst [] = Copiado-nul m dst
strcpy-Copiado m dst (x ∷ src) = Copiado-byte (strcpy-Copiado (update m dst x) (dst + 1) src)

pub strlcpy_desde-Copiado :
    (m : ℕ → ℕ) (dst : ℕ) (src : List ℕ) (n : ℕ)
    → Copiado m (strlcpy_desde m dst src n).0 dst (take n src)
unfolding strlcpy_desde
strlcpy_desde-Copiado m dst src zero = Copiado-nul m dst
strlcpy_desde-Copiado m dst [] (suc n) = Copiado-nul m dst
strlcpy_desde-Copiado m dst (x ∷ src) (suc n) =
    Copiado-byte (strlcpy_desde-Copiado (update m dst x) (dst + 1) src n)

strlcpy_desde-fin :
    (m : ℕ → ℕ) (dst : ℕ) (src : List ℕ) (n : ℕ)
    → (strlcpy_desde m dst src n).1 ≡ dst + length (take n src)
unfolding strlcpy_desde
strlcpy_desde-fin m dst src zero = omega arith
strlcpy_desde-fin m dst [] (suc n) = omega arith
strlcpy_desde-fin m dst (x ∷ src) (suc n) =
    omega (arith, strlcpy_desde-fin (update m dst x) (dst + 1) src n)

-- With room for n bytes and the NUL, `strlcpy` writes at most the first n bytes of the string and a
-- NUL, and nothing else, and returns how many bytes it has copied.
pub strlcpy-Copiado :
    (m : ℕ → ℕ) (dst : ℕ) (src : List ℕ) (n : ℕ)
    → Copiado m (strlcpy m dst src (suc n)).0 dst (take n src)
      × ((strlcpy m dst src (suc n)).1 ≡ length (take n src))
unfolding strlcpy
strlcpy-Copiado m dst src n =
    (strlcpy_desde-Copiado m dst src n, omega (arith, strlcpy_desde-fin m dst src n))
