-- ===== src/Memoria/Tablas/Referencias.antt =====
-- The reference counts around page_insert of TP2-sched/kern/pmap.c.
use sistemas_operarivos_fiub.Base.{
  ℕ, ◌+◌, ◌%◌, ◌<◌, ◌≡◌, ◌≢◌, refl, sym, ap, ◌∙◌, subst, true, inl, inr, some, update_same, arith,
}
use sistemas_operarivos_fiub.Memoria.Tipos.{
  ranura_uvpt, pgnum, pdx, ptx, PageInfo, Memoria, ok, escribir_palabra, entrada_de,
}
use sistemas_operarivos_fiub.Memoria.Paginas.{poner_ref, page_incref, page_decref}
use sistemas_operarivos_fiub.Memoria.Tablas.{crear_tabla, page_remove, page_insert}
use sistemas_operarivos_fiub.Memoria.Tablas.Entradas.{entrada, tabla, PgdirOk, misma-Igual}
use sistemas_operarivos_fiub.Memoria.Tablas.Nuevas.{crear_tabla-some}
use sistemas_operarivos_fiub.Memoria.Tablas.Quitar.{
  entrada-cero, Quitada, nada, quitada, page_remove-some,
}
use sistemas_operarivos_fiub.Memoria.Tablas.Traduccion.{incref-mem, page_insert-some}

ref-poner_ref : (p r : ℕ) (m : Memoria) → ((poner_ref p r m).pages p).pp_ref ≡ r % 65536
unfolding poner_ref
ref-poner_ref p r m =
    ap (λ (x : PageInfo). x.pp_ref)
      (update_same m.pages p (record (m.pages p) { pp_ref = r % 65536 }))

libre-poner_ref : (p r : ℕ) (m : Memoria) → (poner_ref p r m).page_free_list ≡ m.page_free_list
unfolding poner_ref
libre-poner_ref p r m = refl

-- a count that does not reach 0
decref-poner_ref :
    (p : ℕ) (m m1 : Memoria)
    → ((m.pages p).pp_ref + 65535) % 65536 ≢ 0
    → page_decref p m ≡ some m1
    → poner_ref p ((m.pages p).pp_ref + 65535) m ≡ m1
unfolding page_decref
decref-poner_ref p m m1 h e = ground (arith, ref-poner_ref p ((m.pages p).pp_ref + 65535) m)

vuelve :
    (p : ℕ) (m m1 : Memoria)
    → 0 < (m.pages p).pp_ref
    → (m.pages p).pp_ref < 65535
    → page_decref p (page_incref p m) ≡ some m1
    → ((m1.pages p).pp_ref ≡ (m.pages p).pp_ref) × (m1.page_free_list ≡ m.page_free_list)
unfolding page_incref
vuelve p m m1 h k e =
    let inc = page_incref p m in
    let r = ref-poner_ref p ((m.pages p).pp_ref + 1) m in
    let w = decref-poner_ref p inc m1 (ground (arith, r)) e in
    let v = ((inc.pages p).pp_ref + 65535) in
    (
      ap (λ (x : Memoria). (x.pages p).pp_ref) (sym w) ∙ ref-poner_ref p v inc ∙ omega (arith, r),
      ap (λ (x : Memoria). x.page_free_list) (sym w)
          ∙ libre-poner_ref p v inc
          ∙ libre-poner_ref p ((m.pages p).pp_ref + 1) m,
    )

ya_hay :
    (m con : Memoria) (pd i : ℕ) → m.mem pd i ≢ 0 → crear_tabla pd i true m ≡ some con → m ≡ con
ya_hay m con pd i w e = elim (crear_tabla-some m con pd i true e) [
  | inl q ↦ q
  | inr q ↦ absurd (w q.faltaba)
]

escribir-cuenta :
    (t i v p : ℕ) (m : Memoria)
    → (((escribir_palabra t i v m).pages p).pp_ref ≡ (m.pages p).pp_ref)
      × ((escribir_palabra t i v m).page_free_list ≡ m.page_free_list)
unfolding escribir_palabra
escribir-cuenta t i v p m = (refl, refl)

page_remove-cuenta :
    (m sin : Memoria) (pd pp va : ℕ)
    → PgdirOk (page_incref pp m) pd
    → entrada (page_incref pp m) pd va ≡ entrada m pd va
    → entrada m pd va ≢ 0
    → pgnum (entrada m pd va) ≡ pp
    → 0 < (m.pages pp).pp_ref
    → (m.pages pp).pp_ref < 65535
    → Quitada (page_incref pp m) sin pd va
    → ((sin.pages pp).pp_ref ≡ (m.pages pp).pp_ref) × (sin.page_free_list ≡ m.page_free_list)
page_remove-cuenta m sin pd pp va h i w q a b (nada z e) = absurd (w (sym i ∙ z))
page_remove-cuenta m sin pd pp va h i w q a b (quitada m1 z d e) =
    let inc = page_incref pp m in
    let c = escribir-cuenta (tabla inc pd (pdx va)) (ptx va) 0 pp m1 in
    let v =
      vuelve pp m m1 a b
        (subst (λ k. page_decref k inc ≡ some m1) (ap (λ (x : ℕ). pgnum x) i ∙ q) d) in
    (
      ap (λ (x : Memoria). (x.pages pp).pp_ref) (sym e) ∙ c.0 ∙ v.0,
      ap (λ (x : Memoria). x.page_free_list) (sym e) ∙ c.1 ∙ v.1,
    )

-- On a sound directory, a page that is inserted again where it is already mapped, at an address that
-- is not one of UVPT, keeps its count, if that is neither 0 nor the greatest, and the free list stays.
pub page_insert-repetida :
    (m m' : Memoria) (pd pp va perm : ℕ)
    → PgdirOk m pd
    → pdx va ≢ ranura_uvpt
    → entrada m pd va ≢ 0
    → pgnum (entrada m pd va) ≡ pp
    → 0 < (m.pages pp).pp_ref
    → (m.pages pp).pp_ref < 65535
    → page_insert pd pp va perm m ≡ some (ok 0, m')
    → ((m'.pages pp).pp_ref ≡ (m.pages pp).pp_ref) × (m'.page_free_list ≡ m.page_free_list)
page_insert-repetida m m' pd pp va perm h u w q a b e =
    let s = page_insert-some m m' pd pp va perm e in
    let c = ya_hay m s.con pd (pdx va) (λ z. w (entrada-cero m pd va z)) s.creada in
    let inc = page_incref pp m in
    let i = misma-Igual m inc pd h (incref-mem pp m) in
    let fin = escribir-cuenta (tabla s.con pd (pdx va)) (ptx va) (entrada_de pp perm) pp s.sin in
    let v = subst (λ k. page_remove pd va (page_incref pp k) ≡ some s.sin) (sym c) s.vaciada in
    let d =
      page_remove-cuenta m s.sin pd pp va i.sano (i.entradas va u) w q a b
        (page_remove-some inc s.sin pd va i.sano v) in
    (
      ap (λ (x : Memoria). (x.pages pp).pp_ref) (sym s.puesta) ∙ fin.0 ∙ d.0,
      ap (λ (x : Memoria). x.page_free_list) (sym s.puesta) ∙ fin.1 ∙ d.1,
    )
