-- ===== src/Fisopfs/Entradas/Vista.antt =====
-- A directory as the list of its entries, and what the array operations do to that list.
use sistemas_operarivos_fiub.Base.{
  ℕ, zero, suc, ◌+◌, ◌-◌, ◌≤◌, ◌<◌, ◌≡◌, ◌≢◌, inl, inr, refl, sym, ap, ◌∙◌, subst, true, false,
  List, [], ◌∷◌, ◌++◌, ◌==◌, ==-ne, if◌then◌else◌, strings_eq, arith, nat_eq_cases, update,
  update_same, update_other,
}
use sistemas_operarivos_fiub.Fisopfs.Tipos.{Cadena, Entrada, Inodo, entrada_vacia, max_dir_entries}
use sistemas_operarivos_fiub.Fisopfs.Entradas.{quitar, desplazar}
use sistemas_operarivos_fiub.Fisopfs.Entradas.Contiguas.{
  Contiguas, desplazar-inside, desplazar-outside,
}

-- the entries in use among the cells from `from` to `from + n - 1`
unfoldable pub usadas_desde : (ℕ → Entrada) → ℕ → ℕ → List Entrada
usadas_desde e from zero = []
usadas_desde e from (suc n) =
    let rest = usadas_desde e (suc from) n in if (e from).inodo == 0 then rest else e from ∷ rest

-- What a directory holds.
unfoldable pub contenido : Inodo → List Entrada
contenido n = usadas_desde n.entradas 0 max_dir_entries

-- The list without its first entry of that name.
unfoldable pub borrar_primera : Cadena → List Entrada → List Entrada
borrar_primera nombre [] = []
borrar_primera nombre (x ∷ xs) =
    if strings_eq x.nombre nombre then xs else x ∷ borrar_primera nombre xs

-- all the cells from `from` to `from + n - 1`
pub celdas_desde : (ℕ → Entrada) → ℕ → ℕ → List Entrada
celdas_desde e from zero = []
celdas_desde e from (suc n) = e from ∷ celdas_desde e (suc from) n

usadas_desde-free :
    (e : ℕ → Entrada) (from n : ℕ)
    → ((j : ℕ) → from ≤ j → (e j).inodo ≡ 0)
    → usadas_desde e from n ≡ []
unfolding usadas_desde
usadas_desde-free e from zero z = refl
usadas_desde-free e from (suc n) z =
    ground
      (arith, z from (omega arith), usadas_desde-free e (suc from) n (λ j l. z j (omega arith)))

pub usadas_desde-celdas :
    (e : ℕ → Entrada) (from u n : ℕ)
    → ((j : ℕ) → from ≤ j → j < from + u → (e j).inodo ≢ 0)
    → ((j : ℕ) → from + u ≤ j → (e j).inodo ≡ 0)
    → u ≤ n
    → usadas_desde e from n ≡ celdas_desde e from u
unfolding usadas_desde celdas_desde
usadas_desde-celdas e from zero n f z l = usadas_desde-free e from n (λ j a. z j (omega arith))
usadas_desde-celdas e from (suc u) zero f z l = absurd (omega arith)
usadas_desde-celdas e from (suc u) (suc n) f z l =
    rw (==-ne (e from).inodo 0 (f from (omega arith) (omega arith))) (
      ap (λ r. e from ∷ r)
        (usadas_desde-celdas e (suc from) u n (λ j a b. f j (omega arith) (omega arith))
          (λ j a. z j (omega arith)) (omega arith)))

-- The entries in use are the first cells, however many free cells follow.
pub contenido-celdas :
    (e : ℕ → Entrada) (usadas n : ℕ)
    → Contiguas e usadas
    → usadas ≤ n
    → usadas_desde e 0 n ≡ celdas_desde e 0 usadas
contenido-celdas e usadas n c l =
    usadas_desde-celdas e 0 usadas n (λ j a b. c.llenas j (omega arith))
      (λ j a. c.vacias j (omega arith)) l

celdas_desde-ext :
    (d e : ℕ → Entrada) (from n : ℕ)
    → ((j : ℕ) → from ≤ j → j < from + n → d j ≡ e j)
    → celdas_desde d from n ≡ celdas_desde e from n
unfolding celdas_desde
celdas_desde-ext d e from zero h = refl
celdas_desde-ext d e from (suc n) h = rw (h from (omega arith) (omega arith)) (
    ap (λ r. e from ∷ r)
      (celdas_desde-ext d e (suc from) n (λ j a b. h j (omega arith) (omega arith))))

celdas_desde-shift :
    (d e : ℕ → Entrada) (from n : ℕ)
    → ((j : ℕ) → from ≤ j → j < from + n → d j ≡ e (suc j))
    → celdas_desde d from n ≡ celdas_desde e (suc from) n
unfolding celdas_desde
celdas_desde-shift d e from zero h = refl
celdas_desde-shift d e from (suc n) h = rw (h from (omega arith) (omega arith)) (
    ap (λ r. e (suc from) ∷ r)
      (celdas_desde-shift d e (suc from) n (λ j a b. h j (omega arith) (omega arith))))

celdas_desde-snoc :
    (e : ℕ → Entrada) (from n : ℕ)
    → celdas_desde e from (suc n) ≡ celdas_desde e from n ++ (e (from + n) ∷ [])
unfolding celdas_desde
celdas_desde-snoc e from zero = let z : from + 0 ≡ from = omega arith in ap (λ k. e k ∷ []) (sym z)
celdas_desde-snoc e from (suc n) =
    let z : suc from + n ≡ from + suc n = omega arith in
    ap (λ r. e from ∷ r)
      (celdas_desde-snoc e (suc from) n ∙ ap (λ k. celdas_desde e (suc from) n ++ (e k ∷ [])) z)

-- A new entry in the first free cell stands at the end of the list.
pub celdas_desde-update :
    (e : ℕ → Entrada) (u : ℕ) (x : Entrada)
    → celdas_desde (update e u x) 0 (suc u) ≡ celdas_desde e 0 u ++ (x ∷ [])
celdas_desde-update e u x =
    let z : 0 + u ≡ u = omega arith in
    celdas_desde-snoc (update e u x) 0 u
    ∙ ap (λ k. celdas_desde (update e u x) 0 u ++ (update e u x k ∷ [])) z
    ∙ ap (λ v. celdas_desde (update e u x) 0 u ++ (v ∷ [])) (update_same e u x)
    ∙ ap (λ r. r ++ (x ∷ []))
        (celdas_desde-ext (update e u x) e 0 u (λ j a b. update_other e u x j (omega arith)))

-- Moving the later cells down by one is taking the entry out of the list.
borrar_primera-celdas :
    (d e : ℕ → Entrada) (nombre : Cadena) (i from n : ℕ)
    → from ≤ i
    → i < from + suc n
    → strings_eq (e i).nombre nombre ≡ true
    → ((j : ℕ) → from ≤ j → j < i → strings_eq (e j).nombre nombre ≡ false)
    → ((j : ℕ) → j < i → d j ≡ e j)
    → ((j : ℕ) → i ≤ j → j < from + n → d j ≡ e (suc j))
    → celdas_desde d from n ≡ borrar_primera nombre (celdas_desde e from (suc n))
unfolding celdas_desde borrar_primera
borrar_primera-celdas d e nombre i from zero l u t f lo hi =
    let q : i ≡ from = omega arith in rw (subst (λ k. strings_eq (e k).nombre nombre ≡ true) q t)
borrar_primera-celdas d e nombre i from (suc n) l u t f lo hi = elim (nat_eq_cases i from) [
  | inl q ↦
      rw (subst (λ k. strings_eq (e k).nombre nombre ≡ true) q t)
        (celdas_desde-shift d e from (suc n) (λ j a b. hi j (omega arith) b))
  | inr q ↦ rw (f from (omega arith) (omega arith)) (
      rw (lo from (omega arith)) (
        ap (λ r. e from ∷ r)
          (borrar_primera-celdas d e nombre i (suc from) n (omega arith) (omega arith) t
            (λ j a b. f j (omega arith) b) lo (λ j a b. hi j a (omega arith)))))
]

-- Taking out the cell `i`, the first in use of that name, takes it out of the list.
pub quitar-celdas :
    (padre : Inodo) (nombre : Cadena) (u i n : ℕ)
    → i < suc u
    → suc u ≤ n
    → strings_eq (padre.entradas i).nombre nombre ≡ true
    → ((j : ℕ) → j < i → strings_eq (padre.entradas j).nombre nombre ≡ false)
    → celdas_desde (quitar padre i n).entradas 0 u
      ≡ borrar_primera nombre (celdas_desde padre.entradas 0 (suc u))
unfolding quitar
quitar-celdas padre nombre u i n li ln t f =
    borrar_primera-celdas d e nombre i 0 u (omega arith) (omega arith) t (λ j a b. f j b) lo hi
  where
    e : ℕ → Entrada
    e = padre.entradas

    d : ℕ → Entrada
    d = update (desplazar e i (n - 1 - i)) (n - 1) entrada_vacia

    lo : (j : ℕ) → j < i → d j ≡ e j
    lo j b =
        update_other (desplazar e i (n - 1 - i)) (n - 1) entrada_vacia j (omega arith)
        ∙ desplazar-outside e i (n - 1 - i) j (inl b)

    hi : (j : ℕ) → i ≤ j → j < 0 + u → d j ≡ e (suc j)
    hi j a b =
        update_other (desplazar e i (n - 1 - i)) (n - 1) entrada_vacia j (omega arith)
        ∙ desplazar-inside e i (n - 1 - i) j a (omega arith)

pub borrar_primera-absent :
    (e : ℕ → Entrada) (nombre : Cadena) (from n : ℕ)
    → ((j : ℕ) → from ≤ j → j < from + n → strings_eq (e j).nombre nombre ≡ false)
    → borrar_primera nombre (celdas_desde e from n) ≡ celdas_desde e from n
unfolding borrar_primera celdas_desde
borrar_primera-absent e nombre from zero h = refl
borrar_primera-absent e nombre from (suc n) h = rw (h from (omega arith) (omega arith)) (
    ap (λ r. e from ∷ r)
      (borrar_primera-absent e nombre (suc from) n (λ j a b. h j (omega arith) (omega arith))))
