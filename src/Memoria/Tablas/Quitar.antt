-- ===== src/Memoria/Tablas/Quitar.antt =====
-- page_lookup and page_remove of TP2-sched/kern/pmap.c: what an address is translated to afterwards.
use sistemas_operarivos_fiub.Base.{
  ℕ, ◌≡◌, ◌≢◌, inl, inr, refl, sym, ap, ◌∙◌, subst, Option-cases, none, some, ltb, ◌==◌,
  if◌then◌else◌, arith, nat_eq_cases,
}
use sistemas_operarivos_fiub.Memoria.Tipos.{ranura_uvpt, pgnum, pdx, ptx, Memoria, escribir_palabra}
use sistemas_operarivos_fiub.Memoria.Paginas.{page_decref}
use sistemas_operarivos_fiub.Memoria.Tablas.{
  crear_tabla, ubicar, pgdir_walk, page_lookup, page_remove,
}
use sistemas_operarivos_fiub.Memoria.Tablas.Entradas.{
  tabla, leer_en, entrada, PgdirOk, MismaMemoria, page_decref-mem, escribir-pgdir, Cambio,
  escribir-Cambio, Igual, misma-Igual,
}

-- where a pointer to the entry comes back, it is that of the table
pub ubicar-some :
    (m : Memoria) (pd va t i : ℕ)
    → ubicar pd va m ≡ some (some (t, i))
    → (m.mem pd (pdx va) ≢ 0) × (t ≡ tabla m pd (pdx va)) × (i ≡ ptx va)
unfolding ubicar
ubicar-some m pd va t i e = (ground arith, ground arith, ground arith)

pub Igual-Cambio :
    (m m1 m' : Memoria) (pd va v : ℕ) → Igual m m1 pd → Cambio m1 m' pd va v → Cambio m m' pd va v
Igual-Cambio m m1 m' pd va v a c = record {
  puesta = c.puesta;
  otras = λ va' u d. c.otras va' u d ∙ a.entradas va' u;
  sano = c.sano;
  igual = c.igual ∙ a.igual;
}

pub Cambio-Cambio :
    (m m1 m' : Memoria) (pd va v w : ℕ)
    → Cambio m m1 pd va v
    → Cambio m1 m' pd va w
    → Cambio m m' pd va w
Cambio-Cambio m m1 m' pd va v w a c = record {
  puesta = c.puesta;
  otras = λ va' u d. c.otras va' u d ∙ a.otras va' u d;
  sano = c.sano;
  igual = c.igual ∙ a.igual;
}

pub entrada-tabla :
    (m : Memoria) (pd va : ℕ)
    → m.mem pd (pdx va) ≢ 0
    → entrada m pd va ≡ m.mem (tabla m pd (pdx va)) (ptx va)
unfolding leer_en
entrada-tabla m pd va h = ground arith

pub entrada-cero : (m : Memoria) (pd va : ℕ) → m.mem pd (pdx va) ≡ 0 → entrada m pd va ≡ 0
unfolding leer_en
entrada-cero m pd va h = ground arith

-- `page_lookup` gives the page of the entry, where that is not 0.
pub page_lookup-entrada :
    (m : Memoria) (pd va : ℕ)
    → PgdirOk m pd
    → page_lookup pd va m ≡ (
        if entrada m pd va == 0
        then some none
        else if ltb (pgnum (entrada m pd va)) m.npages
        then some (some (pgnum (entrada m pd va), tabla m pd (pdx va), ptx va))
        else none)
unfolding page_lookup pgdir_walk crear_tabla ubicar
page_lookup-entrada m pd va h = elim (nat_eq_cases (m.mem pd (pdx va)) 0) [
  | inl w ↦ ground (arith, entrada-cero m pd va w)
  | inr w ↦ ground (arith, entrada-tabla m pd va w, h.existen (pdx va) w)
]

-- what `page_remove` does: nothing, or one reference less and the entry cleared
pub data Quitada (m m' : Memoria) (pd va : ℕ) : Type 0 where
  nada : entrada m pd va ≡ 0 → m ≡ m' → Quitada m m' pd va
  quitada :
      (m1 : Memoria)
      → entrada m pd va ≢ 0
      → page_decref (pgnum (entrada m pd va)) m ≡ some m1
      → escribir_palabra (tabla m pd (pdx va)) (ptx va) 0 m1 ≡ m'
      → Quitada m m' pd va

pub page_remove-some :
    (m m' : Memoria) (pd va : ℕ) → PgdirOk m pd → page_remove pd va m ≡ some m' → Quitada m m' pd va
unfolding page_remove
page_remove-some m m' pd va h e = elim (nat_eq_cases (entrada m pd va) 0) [
  | inl w ↦ nada w (ground (arith, page_lookup-entrada m pd va h))
  | inr w ↦ elim (Option-cases (page_decref (pgnum (entrada m pd va)) m)) [
    | inl q ↦ absurd (ground (arith, page_lookup-entrada m pd va h))
    | inr (m1, q) ↦ quitada m1 w q (ground (arith, page_lookup-entrada m pd va h))
  ]
]

-- a write to the entry of an address, after changes that left the words
pub escribir_tras :
    (m m1 : Memoria) (pd va v : ℕ)
    → PgdirOk m pd
    → pdx va ≢ ranura_uvpt
    → m.mem pd (pdx va) ≢ 0
    → MismaMemoria m m1
    → Cambio m (escribir_palabra (tabla m pd (pdx va)) (ptx va) v m1) pd va v
escribir_tras m m1 pd va v h u w e =
    let a = misma-Igual m m1 pd h e in
    let f = λ (r : ℕ → ℕ → ℕ). r pd (pdx va) in
    Igual-Cambio m m1 (escribir_palabra (tabla m pd (pdx va)) (ptx va) v m1) pd va v a (
      subst (λ t. Cambio m1 (escribir_palabra t (ptx va) v m1) pd va v)
        (ap (λ (x : ℕ). pgnum x) (ap f e.0))
        (escribir-Cambio m1 pd va v a.sano u (λ z. w (sym (ap f e.0) ∙ z))))

-- Where `page_remove` of an address that is not one of UVPT does not panic, on a sound directory, the
-- address has no entry afterwards, the other addresses that are not those of UVPT have theirs, and the
-- directory is sound.
pub page_remove-Cambio :
    (m m' : Memoria) (pd va : ℕ)
    → PgdirOk m pd
    → pdx va ≢ ranura_uvpt
    → page_remove pd va m ≡ some m'
    → Cambio m m' pd va 0
page_remove-Cambio m m' pd va h u e = elim (page_remove-some m m' pd va h e) [
  | nada z q ↦
      subst (λ k. Cambio m k pd va 0) q
        (record { puesta = z; otras = λ va' k d. refl; sano = h; igual = refl })
  | quitada m1 z d q ↦
      subst (λ k. Cambio m k pd va 0) q
        (escribir_tras m m1 pd va 0 h u (λ c. z (entrada-cero m pd va c))
          (page_decref-mem (pgnum (entrada m pd va)) m m1 d))
]

pub page_remove-dir :
    (m m' : Memoria) (pd va : ℕ)
    → PgdirOk m pd
    → pdx va ≢ ranura_uvpt
    → page_remove pd va m ≡ some m'
    → m'.mem pd ≡ m.mem pd
page_remove-dir m m' pd va h u e = elim (page_remove-some m m' pd va h e) [
  | nada z q ↦ ap (λ (x : Memoria). x.mem pd) (sym q)
  | quitada m1 z d q ↦
      ap (λ (x : Memoria). x.mem pd) (sym q)
      ∙ escribir-pgdir (tabla m pd (pdx va)) (ptx va) 0 pd m1
          (h.ajenas (pdx va) u (λ c. z (entrada-cero m pd va c)))
      ∙ ap (λ (f : ℕ → ℕ → ℕ). f pd) (page_decref-mem (pgnum (entrada m pd va)) m m1 d).0
]
