-- ===== src/Memoria/Tablas/Traduccion.antt =====
-- page_insert of TP2-sched/kern/pmap.c: what an address is translated to afterwards.
use Prim.Native.Nat.{bit_or}
use sistemas_operarivos_fiub.Base.{
  ℕ, ◌*◌, ◌/◌, ◌<◌, ◌≡◌, ◌≢◌, ◌⊎◌, inl, inr, refl, sym, ap, ◌∙◌, subst, true, Option-cases, none,
  some, arith, bit_or-one, bit_or-zero, bit_or-pgnum,
}
use sistemas_operarivos_fiub.Memoria.Tipos.{
  ranura_uvpt, pgnum, pdx, ptx, Memoria, Error, ok, err, e_no_mem, escribir_palabra, entrada_de,
}
use sistemas_operarivos_fiub.Memoria.Paginas.{poner_ref, page_incref}
use sistemas_operarivos_fiub.Memoria.Tablas.{
  crear_tabla, ubicar, pgdir_walk, page_lookup, page_remove, page_insert,
}
use sistemas_operarivos_fiub.Memoria.Tablas.Entradas.{
  tabla, entrada, PgdirOk, LibreAjena, MismaMemoria, Cambio, escribir-Cambio, misma-Igual,
}
use sistemas_operarivos_fiub.Memoria.Tablas.Nuevas.{crear_tabla-Igual}
use sistemas_operarivos_fiub.Memoria.Tablas.Quitar.{
  ubicar-some, Igual-Cambio, Cambio-Cambio, page_lookup-entrada, page_remove-Cambio,
  page_remove-dir,
}

-- the steps of a `page_insert` that does not fail
pub record Insertada (m m' : Memoria) (pd pp va perm : ℕ) : Type 0 where
  pub con : Memoria
  pub sin : Memoria
  pub creada : crear_tabla pd (pdx va) true m ≡ some con
  pub hay : con.mem pd (pdx va) ≢ 0
  pub vaciada : page_remove pd va (page_incref pp con) ≡ some sin
  pub puesta : escribir_palabra (tabla con pd (pdx va)) (ptx va) (entrada_de pp perm) sin ≡ m'

pub page_insert-some :
    (m m' : Memoria) (pd pp va perm : ℕ)
    → page_insert pd pp va perm m ≡ some (ok 0, m')
    → Insertada m m' pd pp va perm
unfolding page_insert pgdir_walk
page_insert-some m m' pd pp va perm e = elim (Option-cases (crear_tabla pd (pdx va) true m)) [
  | inl a ↦ absurd (ground arith)
  | inr (con, a) ↦ elim (Option-cases (ubicar pd va con)) [
    | inl b ↦ absurd (ground arith)
    | inr (none, b) ↦ absurd (ground arith)
    | inr (some (t, i), b) ↦ elim (Option-cases (page_remove pd va (page_incref pp con))) [
      | inl c ↦ absurd (ground arith)
      | inr (sin, c) ↦ record {
        con = con;
        sin = sin;
        creada = a;
        hay = (ubicar-some con pd va t i b).0;
        vaciada = c;
        puesta = ground (arith, ubicar-some con pd va t i b);
      }
    ]
  ]
]

pub incref-mem : (p : ℕ) (m : Memoria) → MismaMemoria m (page_incref p m)
unfolding page_incref poner_ref
incref-mem p m = (refl, refl)

-- Where `page_insert` at an address that is not one of UVPT succeeds, the address has the entry of the
-- page and the permissions; the other addresses that are not those of UVPT have theirs.
pub page_insert-Cambio :
    (m m' : Memoria) (pd pp va perm : ℕ)
    → PgdirOk m pd
    → LibreAjena m pd
    → pdx va ≢ ranura_uvpt
    → page_insert pd pp va perm m ≡ some (ok 0, m')
    → Cambio m m' pd va (entrada_de pp perm)
page_insert-Cambio m m' pd pp va perm h a u e =
    let s = page_insert-some m m' pd pp va perm e in
    let g = crear_tabla-Igual m s.con pd (pdx va) true h a s.creada in
    let inc = page_incref pp s.con in
    let i = misma-Igual s.con inc pd g.sano (incref-mem pp s.con) in
    let r = page_remove-Cambio inc s.sin pd va i.sano u s.vaciada in
    let d =
      page_remove-dir inc s.sin pd va i.sano u s.vaciada
      ∙ ap (λ (f : ℕ → ℕ → ℕ). f pd) (incref-mem pp s.con).0 in
    let v = entrada_de pp perm in
    let f =
      subst (λ t. Cambio s.sin (escribir_palabra t (ptx va) v s.sin) pd va v)
        (ap (λ (x : ℕ → ℕ). pgnum (x (pdx va))) d)
        (escribir-Cambio s.sin pd va v r.sano u
          (λ z. s.hay (sym (ap (λ (x : ℕ → ℕ). x (pdx va)) d) ∙ z))) in
    Igual-Cambio m s.con m' pd va v g (
      Igual-Cambio s.con inc m' pd va v i
        (Cambio-Cambio inc s.sin m' pd va 0 v r (subst (λ k. Cambio s.sin k pd va v) s.puesta f)))

-- Where `page_insert` fails, it is for want of memory, and every address that is not one of
-- UVPT has the entry it had.
pub page_insert-err :
    (m m' : Memoria) (pd pp va perm : ℕ) (c : Error)
    → PgdirOk m pd
    → LibreAjena m pd
    → page_insert pd pp va perm m ≡ some (err c, m')
    → (c ≡ e_no_mem) × ((va' : ℕ) → pdx va' ≢ ranura_uvpt → entrada m' pd va' ≡ entrada m pd va')
unfolding page_insert pgdir_walk
page_insert-err m m' pd pp va perm c h a e = elim (Option-cases (crear_tabla pd (pdx va) true m)) [
  | inl q ↦ absurd (ground arith)
  | inr (con, q) ↦ elim (Option-cases (ubicar pd va con)) [
    | inl b ↦ absurd (ground arith)
    | inr (none, b) ↦ (ground arith, λ va' u. igual con va' u q (ground arith))
    | inr (some (t, i), b) ↦ elim (Option-cases (page_remove pd va (page_incref pp con))) [
      | inl d ↦ absurd (ground arith)
      | inr (sin, d) ↦ absurd (ground arith)
    ]
  ]
]
  where
    igual :
        (con : Memoria) (va' : ℕ)
        → pdx va' ≢ ranura_uvpt
        → crear_tabla pd (pdx va) true m ≡ some con
        → con ≡ m'
        → entrada m' pd va' ≡ entrada m pd va'
    igual con va' u q w =
        subst (λ k. entrada k pd va' ≡ entrada m pd va') w
          ((crear_tabla-Igual m con pd (pdx va) true h a q).entradas va' u)

pub pgnum-entrada_de : (pp perm : ℕ) → pgnum (entrada_de pp perm) ≡ bit_or pp (perm / 4096)
unfolding entrada_de
pgnum-entrada_de pp perm =
    bit_or-pgnum (bit_or (pp * 4096) perm) 1
    ∙ bit_or-zero (bit_or (pp * 4096) perm / 4096)
    ∙ bit_or-pgnum (pp * 4096) perm
    ∙ ap (λ (x : ℕ). bit_or x (perm / 4096)) (omega arith)

entrada_de-ne : (pp perm : ℕ) → entrada_de pp perm ≢ 0
unfolding entrada_de
entrada_de-ne pp perm z = omega (arith, bit_or-one (bit_or (pp * 4096) perm), z)

-- Where `page_insert` succeeds at an address that is not one of UVPT, on a directory that is sound and
-- apart from the first free page, `page_lookup` finds at the address the page whose number is that of
-- the page or'ed with the permissions beyond their 12 bits, if that page exists, and the other
-- addresses that are not those of UVPT have the entries they had.
pub page_lookup-page_insert :
    (m m' : Memoria) (pd pp va perm : ℕ)
    → PgdirOk m pd
    → LibreAjena m pd
    → pdx va ≢ ranura_uvpt
    → bit_or pp (perm / 4096) < m.npages
    → page_insert pd pp va perm m ≡ some (ok 0, m')
    → (page_lookup pd va m' ≡ some (some (bit_or pp (perm / 4096), tabla m' pd (pdx va), ptx va)))
      × ((va' : ℕ)
          → pdx va' ≢ ranura_uvpt
          → (pdx va' ≢ pdx va) ⊎ (ptx va' ≢ ptx va)
          → entrada m' pd va' ≡ entrada m pd va')
page_lookup-page_insert m m' pd pp va perm h a u k e =
    let c = page_insert-Cambio m m' pd pp va perm h a u e in
    let p = c.puesta in
    let n = c.igual in
    let d = pgnum-entrada_de pp perm in
    let z = entrada_de-ne pp perm in (ground (arith, page_lookup-entrada m' pd va c.sano), c.otras)
