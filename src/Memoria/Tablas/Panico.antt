-- ===== src/Memoria/Tablas/Panico.antt =====
-- When page_remove and page_insert of TP2-sched/kern/pmap.c do not panic.
use sistemas_operarivos_fiub.Base.{
  ℕ, ◌+◌, ◌<◌, ◌≡◌, ◌≢◌, ◌⊎◌, sym, ◌∙◌, subst, true, Option-cases, nat_eq_cases, inl, inr, Option,
  none, some, update, arith,
}
use sistemas_operarivos_fiub.Memoria.Tipos.{
  ranura_uvpt, pgnum, pdx, ptx, Memoria, Respuesta, ok, err, e_no_mem, escribir_palabra,
  borrar_pagina, entrada_de,
}
use sistemas_operarivos_fiub.Memoria.Paginas.{
  sacar, page_alloc, poner_ref, page_incref, page_decref, devolver, page_free,
}
use sistemas_operarivos_fiub.Memoria.Tablas.{
  crear_tabla, ubicar, pgdir_walk, page_remove, page_insert,
}
use sistemas_operarivos_fiub.Memoria.Tablas.Entradas.{
  entrada, tabla, PgdirOk, LibreAjena, misma-Igual,
}
use sistemas_operarivos_fiub.Memoria.Tablas.Nuevas.{con_tabla, crear_tabla-Igual}
use sistemas_operarivos_fiub.Memoria.Tablas.Quitar.{page_lookup-entrada}
use sistemas_operarivos_fiub.Memoria.Tablas.Traduccion.{incref-mem}

-- The page of the entry of an address, where there is one, exists and has no link.
pub record Suelta (m : Memoria) (pd va : ℕ) : Type 0 where
  pub existe : entrada m pd va ≢ 0 → pgnum (entrada m pd va) < m.npages
  pub sin_link : entrada m pd va ≢ 0 → (m.pages (pgnum (entrada m pd va))).pp_link ≡ none

link_de : Memoria → ℕ → Option ℕ
link_de m q = (m.pages q).pp_link

link-poner_ref :
    (p r q : ℕ) (m : Memoria) → ((poner_ref p r m).pages q).pp_link ≡ (m.pages q).pp_link
unfolding poner_ref update
link-poner_ref p r q m = ground arith

page_free-existe :
    (p : ℕ) (m : Memoria)
    → (m.pages p).pp_ref ≡ 0
    → (m.pages p).pp_link ≡ none
    → (m' : Memoria) × (page_free p m ≡ some m')
unfolding page_free
page_free-existe p m r h = (devolver p m, ground arith)

page_decref-existe :
    (p : ℕ) (m : Memoria)
    → (m.pages p).pp_link ≡ none
    → (m' : Memoria) × (page_decref p m ≡ some m')
unfolding page_decref
page_decref-existe p m h =
    let m1 = poner_ref p ((m.pages p).pp_ref + 65535) m in
    let l = link-poner_ref p ((m.pages p).pp_ref + 65535) p m ∙ h in
    elim (nat_eq_cases (m1.pages p).pp_ref 0) [
      | inl e ↦ let (m2, f) = page_free-existe p m1 e l in (m2, ground arith)
      | inr e ↦ (m1, ground arith)
    ]

-- `page_remove` does not panic where the page of the entry exists and has no link.
page_remove-existe :
    (m : Memoria) (pd va : ℕ)
    → PgdirOk m pd
    → Suelta m pd va
    → (m' : Memoria) × (page_remove pd va m ≡ some m')
unfolding page_remove
page_remove-existe m pd va h s = elim (nat_eq_cases (entrada m pd va) 0) [
  | inl w ↦ (m, ground (arith, page_lookup-entrada m pd va h))
  | inr w ↦
      let (m1, e) = page_decref-existe (pgnum (entrada m pd va)) m (s.sin_link w) in
      (
        escribir_palabra (tabla m pd (pdx va)) (ptx va) 0 m1,
        ground (arith, page_lookup-entrada m pd va h, s.existe w),
      )
]

con_tabla-existe :
    (m : Memoria) (pd i p : ℕ)
    → m.page_free_list ≡ some p
    → p < m.npages
    → m.mem pd i ≡ 0
    → crear_tabla pd i true m ≡ some (con_tabla pd i p m)
unfolding crear_tabla page_alloc con_tabla
con_tabla-existe m pd i p l k z = ground arith

link-con_tabla :
    (m : Memoria) (pd i p q : ℕ)
    → (m.pages q).pp_link ≡ none
    → ((con_tabla pd i p m).pages q).pp_link ≡ none
unfolding con_tabla escribir_palabra borrar_pagina page_incref poner_ref sacar update
link-con_tabla m pd i p q h = ground arith

crear_tabla-igual :
    (m : Memoria) (pd i : ℕ)
    → (m.page_free_list ≡ none) ⊎ (m.mem pd i ≢ 0)
    → crear_tabla pd i true m ≡ some m
unfolding crear_tabla page_alloc
crear_tabla-igual m pd i (inl e) = ground arith
crear_tabla-igual m pd i (inr e) = ground arith

-- the first part of `pgdir_walk` does not panic, and gives a page no link
crear_tabla-existe :
    (m : Memoria) (pd i q : ℕ)
    → LibreAjena m pd
    → (con : Memoria) × (crear_tabla pd i true m ≡ some con)
      × ((m.pages q).pp_link ≡ none → (con.pages q).pp_link ≡ none)
crear_tabla-existe m pd i q a = elim (nat_eq_cases (m.mem pd i) 0) [
  | inr w ↦ (m, crear_tabla-igual m pd i (inr w), λ h. h)
  | inl w ↦ elim (Option-cases m.page_free_list) [
    | inl e ↦ (m, crear_tabla-igual m pd i (inl e), λ h. h)
    | inr (p, e) ↦ (
      con_tabla pd i p m,
      con_tabla-existe m pd i p e (a.existe p e) w,
      link-con_tabla m pd i p q,
    )
  ]
]

ubicar-existe :
    (m : Memoria) (pd va : ℕ)
    → PgdirOk m pd
    → (m.mem pd (pdx va) ≡ 0) × (ubicar pd va m ≡ some none)
      ⊎ (ubicar pd va m ≡ some (some (tabla m pd (pdx va), ptx va)))
unfolding ubicar
ubicar-existe m pd va h = elim (nat_eq_cases (m.mem pd (pdx va)) 0) [
  | inl w ↦ inl (w, ground arith)
  | inr w ↦ inr (ground (arith, h.existen (pdx va) w))
]

link-incref : (p q : ℕ) (m : Memoria) → ((page_incref p m).pages q).pp_link ≡ (m.pages q).pp_link
unfolding page_incref
link-incref p q m = link-poner_ref p ((m.pages p).pp_ref + 1) q m

-- the condition on the page of an address stays, where the entry and the links do
Suelta-igual :
    (m m' : Memoria) (pd va : ℕ)
    → entrada m' pd va ≡ entrada m pd va
    → m'.npages ≡ m.npages
    → ((m.pages (pgnum (entrada m pd va))).pp_link ≡ none
        → (m'.pages (pgnum (entrada m pd va))).pp_link ≡ none)
    → Suelta m pd va
    → Suelta m' pd va
Suelta-igual m m' pd va e n l s = record {
  existe = λ w.
      subst (λ x. pgnum x < m'.npages) (sym e)
        (subst (λ k. pgnum (entrada m pd va) < k) (sym n) (s.existe (λ z. w (e ∙ z))));
  sin_link = λ w.
      subst (λ x. (m'.pages (pgnum x)).pp_link ≡ none) (sym e) (l (s.sin_link (λ z. w (e ∙ z))));
}

-- `page_insert` at an address that is not one of UVPT does not panic where the directory is sound, the
-- head of the free list is a page apart from it, and the page that is mapped at the address, if any, exists and has no link.
pub page_insert-existe :
    (m : Memoria) (pd pp va perm : ℕ)
    → PgdirOk m pd
    → LibreAjena m pd
    → pdx va ≢ ranura_uvpt
    → Suelta m pd va
    → (r : Respuesta ℕ) × (m' : Memoria) × (page_insert pd pp va perm m ≡ some (r, m'))
unfolding page_insert pgdir_walk
page_insert-existe m pd pp va perm h a u s =
    let (con, e, l) = crear_tabla-existe m pd (pdx va) (pgnum (entrada m pd va)) a in
    let g = crear_tabla-Igual m con pd (pdx va) true h a e in
    elim (ubicar-existe con pd va g.sano) [
      | inl (w, n) ↦ (err e_no_mem, con, ground arith)
      | inr n ↦
          let inc = page_incref pp con in
          let i = misma-Igual con inc pd g.sano (incref-mem pp con) in
          let si =
            Suelta-igual m inc pd va (i.entradas va u ∙ g.entradas va u) (i.igual ∙ g.igual)
              (λ x. link-incref pp (pgnum (entrada m pd va)) con ∙ l x) s in
          let (sin, q) = page_remove-existe inc pd va i.sano si in
          (
            ok 0,
            escribir_palabra (tabla con pd (pdx va)) (ptx va) (entrada_de pp perm) sin,
            ground arith,
          )
    ]
