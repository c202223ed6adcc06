-- ===== src/Memoria/Paginas/Libres.antt =====
-- The free list of TP2-sched/kern/pmap.c as a list of pages: page_init, page_alloc and page_free.
use sistemas_operarivos_fiub.Base.{
  ℕ, zero, suc, ◌+◌, ◌/◌, ◌<◌, ◌≤◌, ◌≡◌, ◌≢◌, ◌↔◌, inl, inr, refl, sym, ap, ◌∙◌, subst, Bool, true,
  false, Bool-cases, nat_eq_cases, Option, none, some, List, [], ◌∷◌, update, update_same,
  update_other, arith,
}
use sistemas_operarivos_fiub.Memoria.Tipos.{PageInfo, Memoria, borrar_pagina}
use sistemas_operarivos_fiub.Memoria.Paginas.{
  es_reservada, iniciar_pagina, iniciar_desde, page_init, sacar, page_alloc, devolver, page_free,
}

-- a page is not in a list
abbrev pub Fuera : ℕ → List ℕ → Type 0
Fuera p [] = Unit {0}
Fuera p (q ∷ l) = (p ≢ q) × Fuera p l

pub data Esta (p : ℕ) : List ℕ → Type 0 where
  aqui : {q : ℕ} {l : List ℕ} → p ≡ q → Esta p (q ∷ l)
  despues : {q : ℕ} {l : List ℕ} → Esta p l → Esta p (q ∷ l)

-- The links lead through the pages of the list, which have no references, and each stands there once.
pub data Enlaza (n : ℕ) (pages : ℕ → PageInfo) : Option ℕ → List ℕ → Type 0 where
  fin : Enlaza n pages none []
  eslabon :
      {p : ℕ} {l : List ℕ}
      → p < n
      → (pages p).pp_ref ≡ 0
      → Fuera p l
      → Enlaza n pages (pages p).pp_link l
      → Enlaza n pages (some p) (p ∷ l)

abbrev pub Libres : Memoria → List ℕ → Type 0
Libres m l = Enlaza m.npages m.pages m.page_free_list l

-- a write to a page that is not in the list
pub Enlaza-update :
    {n : ℕ} {pages : ℕ → PageInfo} (p : ℕ) (v : PageInfo) {o : Option ℕ} {l : List ℕ}
    → Fuera p l
    → Enlaza n pages o l
    → Enlaza n (update pages p v) o l
Enlaza-update p v f fin = fin
Enlaza-update {n} {pages} p v f (eslabon {p = q} {l = t} h r e c) =
    let same = sym (update_other pages p v q (λ w. f.0 (sym w))) in
    eslabon h (subst (λ (x : PageInfo). x.pp_ref ≡ 0) same r) e (
      subst (λ (x : PageInfo). Enlaza n (update pages p v) x.pp_link t) same
        (Enlaza-update p v f.1 c))

Enlaza-nil : {n : ℕ} {pages : ℕ → PageInfo} {o : Option ℕ} → Enlaza n pages o [] → o ≡ none
Enlaza-nil fin = refl

record Cabeza (n : ℕ) (pages : ℕ → PageInfo) (o : Option ℕ) (p : ℕ) (l : List ℕ) : Type 0 where
  cabeza : o ≡ some p
  existe : p < n
  sin_uso : (pages p).pp_ref ≡ 0
  fuera : Fuera p l
  cola : Enlaza n pages (pages p).pp_link l

Enlaza-cons :
    {n p : ℕ} {pages : ℕ → PageInfo} {o : Option ℕ} {l : List ℕ}
    → Enlaza n pages o (p ∷ l)
    → Cabeza n pages o p l
Enlaza-cons (eslabon h r f c) = record {
  cabeza = refl;
  existe = h;
  sin_uso = r;
  fuera = f;
  cola = c;
}

-- What `page_alloc` does where the page p stands at the head of the list.
pub record Sacada (m m' : Memoria) (p : ℕ) (l : List ℕ) : Type 0 where
  quedan : Libres m' l
  suelta : (m'.pages p).pp_link ≡ none
  sin_uso : (m'.pages p).pp_ref ≡ 0
  otras : (q : ℕ) → q ≢ p → m'.pages q ≡ m.pages q

sacar-Sacada :
    {m : Memoria} {p : ℕ} {l : List ℕ}
    → Cabeza m.npages m.pages m.page_free_list p l
    → Sacada m (sacar p m) p l
unfolding sacar
sacar-Sacada {m} {p} {l} c = record {
  quedan = Enlaza-update p _ c.fuera c.cola;
  suelta = ap (λ (x : PageInfo). x.pp_link) (update_same m.pages p _);
  sin_uso = ap (λ (x : PageInfo). x.pp_ref) (update_same m.pages p _) ∙ c.sin_uso;
  otras = λ q h. update_other m.pages p _ q h;
}

-- From an empty free list `page_alloc` gives no page and changes nothing.
pub page_alloc-vacia : (z : Bool) (m : Memoria) → Libres m [] → page_alloc z m ≡ some (none, m)
unfolding page_alloc
page_alloc-vacia z m h = let e = Enlaza-nil h in ground arith

-- Where the free list has a page at its head, `page_alloc` gives it, with no references and no link,
-- the rest of the list stays, and no other page's count or link changes.
pub page_alloc-Sacada :
    (z : Bool) (m : Memoria) (p : ℕ) (l : List ℕ)
    → Libres m (p ∷ l)
    → (m' : Memoria) × (page_alloc z m ≡ some (some p, m')) × Sacada m m' p l
unfolding page_alloc borrar_pagina
page_alloc-Sacada true m p l h =
    let c = Enlaza-cons h in
    let s = sacar-Sacada c in
    (
      borrar_pagina p (sacar p m),
      (let e = c.cabeza in let k = c.existe in ground arith),
      record { quedan = s.quedan; suelta = s.suelta; sin_uso = s.sin_uso; otras = s.otras },
    )
page_alloc-Sacada false m p l h =
    let c = Enlaza-cons h in (sacar p m, (let e = c.cabeza in ground arith), sacar-Sacada c)

devolver-Libres :
    (m : Memoria) (p : ℕ) (l : List ℕ)
    → Libres m l
    → Fuera p l
    → p < m.npages
    → (m.pages p).pp_ref ≡ 0
    → Libres (devolver p m) (p ∷ l)
unfolding devolver
devolver-Libres m p l h f k r =
    let v = record (m.pages p) { pp_link = m.page_free_list } in
    let same = sym (update_same m.pages p v) in
    eslabon k (subst (λ (x : PageInfo). x.pp_ref ≡ 0) same r) f (
      subst (λ (x : PageInfo). Enlaza m.npages (update m.pages p v) x.pp_link l) same
        (Enlaza-update p v f h))

-- A page that is not in the list, exists and has neither references nor a link goes to its head.
pub page_free-Libres :
    (m : Memoria) (p : ℕ) (l : List ℕ)
    → Libres m l
    → Fuera p l
    → p < m.npages
    → (m.pages p).pp_ref ≡ 0
    → (m.pages p).pp_link ≡ none
    → (m' : Memoria) × (page_free p m ≡ some m') × Libres m' (p ∷ l)
unfolding page_free
page_free-Libres m p l h f k r e = (devolver p m, ground arith, devolver-Libres m p l h f k r)

-- the pages of the list are those below `n` that are not reserved
record Hechas (final n : ℕ) (m : Memoria) : Type 0 where
  lista : List ℕ
  libres : Libres m lista
  exactas : (p : ℕ) → Esta p lista ↔ ((p < n) × (es_reservada final p ≡ false))

Esta-Fuera : {p n : ℕ} (l : List ℕ) → ((q : ℕ) → Esta q l → q < n) → n ≤ p → Fuera p l
Esta-Fuera [] f h = tt
Esta-Fuera {p} (q ∷ l) f h =
    (λ e. absurd (omega (arith, f q (aqui refl), e)), Esta-Fuera l (λ x m. f x (despues m)) h)

agregada_lem :
    (n : ℕ) (m : Memoria) {l : List ℕ}
    → n < m.npages
    → Fuera n l
    → Libres m l
    → Enlaza m.npages
        (update m.pages n (record { pp_link = m.page_free_list; pp_ref = 0 }))
        (some n)
        (n ∷ l)
agregada_lem n m {l} k f h =
    let v : PageInfo = record { pp_link = m.page_free_list; pp_ref = 0 } in
    let same = sym (update_same m.pages n v) in
    eslabon k (ap (λ (x : PageInfo). x.pp_ref) (sym same)) f (
      subst (λ (x : PageInfo). Enlaza m.npages (update m.pages n v) x.pp_link l) same
        (Enlaza-update n v f h))

-- a page that is passed over
saltada :
    (final n : ℕ) {l : List ℕ}
    → es_reservada final n ≡ true
    → (p : ℕ) → Esta p l ↔ ((p < n) × (es_reservada final p ≡ false))
    → Esta p l ↔ ((p < suc n) × (es_reservada final p ≡ false))
saltada final n r p h = (
  λ e. (omega (arith, (h.0 e).0), (h.0 e).1),
  λ c. elim (nat_eq_cases p n) [
    | inl e ↦ absurd (distintos (subst (λ k. es_reservada final k ≡ true) (sym e) r) c.1)
    | inr w ↦ h.1 (ground arith, c.1)
  ],
)
  where
    distintos : {b : Bool} → b ≡ true → b ≢ false
    distintos x y = cc

agregada :
    (final n : ℕ) {l : List ℕ}
    → es_reservada final n ≡ false
    → (p : ℕ) → Esta p l ↔ ((p < n) × (es_reservada final p ≡ false))
    → Esta p (n ∷ l) ↔ ((p < suc n) × (es_reservada final p ≡ false))
agregada final n {l} r p h = (
  ida,
  λ c. elim (nat_eq_cases p n) [ inl e ↦ aqui e | inr w ↦ despues (h.1 (ground arith, c.1)) ],
)
  where
    ida : Esta p (n ∷ l) → (p < suc n) × (es_reservada final p ≡ false)
    ida (aqui e) = (omega arith, subst (λ k. es_reservada final k ≡ false) (sym e) r)
    ida (despues e) = (omega (arith, (h.0 e).0), (h.0 e).1)

iniciar_pagina-Hechas :
    (final n : ℕ) (m : Memoria)
    → n < m.npages
    → Hechas final n m
    → Hechas final (suc n) (iniciar_pagina final n m)
unfolding iniciar_pagina
iniciar_pagina-Hechas final n m k h =
    let nuevas = Esta-Fuera h.lista (λ q e. ((h.exactas q).0 e).0) (omega arith) in
    elim (Bool-cases (es_reservada final n)) [
      | inl r ↦ rw r (record {
        lista = h.lista;
        libres = Enlaza-update n _ nuevas h.libres;
        exactas = λ p. saltada final n r p (h.exactas p);
      })
      | inr r ↦ rw r (record {
        lista = n ∷ h.lista;
        libres = agregada_lem n m k nuevas h.libres;
        exactas = λ p. agregada final n r p (h.exactas p);
      })
    ]

inicio : (final : ℕ) (m : Memoria) → m.page_free_list ≡ none → Hechas final 0 m
inicio final m e = record {
  lista = [];
  libres = subst (λ o. Enlaza m.npages m.pages o []) (sym e) fin;
  exactas = λ p. (vacia p, λ c. absurd (omega (arith, c.0)));
}
  where
    vacia : (p : ℕ) → Esta p [] → (p < 0) × (es_reservada final p ≡ false)
    vacia p c = elim c [ ]

npages-iniciar_pagina : (final n : ℕ) (m : Memoria) → (iniciar_pagina final n m).npages ≡ m.npages
unfolding iniciar_pagina
npages-iniciar_pagina final n m = ground arith

npages-iniciar_desde :
    (final desde n : ℕ) (m : Memoria) → (iniciar_desde final desde n m).npages ≡ m.npages
unfolding iniciar_desde
npages-iniciar_desde final desde zero m = refl
npages-iniciar_desde final desde (suc n) m =
    npages-iniciar_desde final (suc desde) n (iniciar_pagina final desde m)
    ∙ npages-iniciar_pagina final desde m

iniciar_desde-Hechas :
    (final desde n : ℕ) (m : Memoria)
    → desde + n ≡ m.npages
    → Hechas final desde m
    → Hechas final m.npages (iniciar_desde final desde n m)
unfolding iniciar_desde
iniciar_desde-Hechas final desde zero m e h = subst (λ k. Hechas final k m) (omega arith) h
iniciar_desde-Hechas final desde (suc n) m e h =
    let m' = iniciar_pagina final desde m in
    let v = npages-iniciar_pagina final desde m in
    subst (λ k. Hechas final k (iniciar_desde final (suc desde) n m')) v
      (iniciar_desde-Hechas final (suc desde) n m' (omega (arith, v))
        (iniciar_pagina-Hechas final desde m (omega arith) h))

-- A page that may be given out: not page 0, not the page at 0x7000 with the code that starts the other
-- processors, not in the hole for devices between 640 KB and 1 MB, and not among the kernel and its
-- first data from 1 MB to `final`.
pub record Disponible (final p : ℕ) : Type 0 where
  pub no_cero : p ≢ 0
  pub no_mpentry : p ≢ 7
  pub no_dispositivo : ¬ ((160 ≤ p) × (p < 256))
  pub no_kernel : ¬ ((256 ≤ p) × (p < final / 4096))

es_reservada-Disponible : (final p : ℕ) → es_reservada final p ≡ false ↔ Disponible final p
unfolding es_reservada
es_reservada-Disponible final p = (
  λ e. record {
    no_cero = λ q. ground arith;
    no_mpentry = λ q. ground arith;
    no_dispositivo = λ q. ground arith;
    no_kernel = λ q. ground arith;
  },
  λ d. ground (arith, d.no_cero, d.no_mpentry, d.no_dispositivo, d.no_kernel),
)

-- From an empty free list, `page_init` makes one that holds exactly the pages that exist and are
-- neither page 0, nor the page at 0x7000, nor in the hole for devices, nor between 1 MB and `final`;
-- each is there once, and none of them has references.
pub page_init-Libres :
    (final : ℕ) (m : Memoria)
    → m.page_free_list ≡ none
    → (l : List ℕ) × Enlaza m.npages (page_init final m).pages (page_init final m).page_free_list l
      × ((p : ℕ) → Esta p l ↔ ((p < m.npages) × Disponible final p))
unfolding page_init
page_init-Libres final m e =
    let m' = iniciar_desde final 0 m.npages m in
    let h = iniciar_desde-Hechas final 0 m.npages m (omega arith) (inicio final m e) in
    (
      h.lista,
      subst (λ k. Enlaza k m'.pages m'.page_free_list h.lista)
          (npages-iniciar_desde final 0 m.npages m) h.libres,
      λ p. (
        λ x. let y = (h.exactas p).0 x in (y.0, (es_reservada-Disponible final p).0 y.1),
        λ x. (h.exactas p).1 (x.0, (es_reservada-Disponible final p).1 x.1),
      ),
    )
