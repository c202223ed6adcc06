-- ===== src/Memoria/Tablas/Nuevas.antt =====
-- The page table that pgdir_walk of TP2-sched/kern/pmap.c adds.
use Prim.Native.Nat.{bit_or}
use sistemas_operarivos_fiub.Base.{
  ℕ, ◌*◌, ◌<◌, ◌≡◌, ◌≢◌, ◌⊎◌, inl, inr, refl, sym, ap, ◌∙◌, subst, Bool, true, false, Option-cases,
  some, update, update_same, update_other, arith, nat_eq_cases, bit_or-pagina,
}
use sistemas_operarivos_fiub.Memoria.Tipos.{
  ranura_uvpt, pgnum, pdx, ptx, Memoria, escribir_palabra, borrar_pagina,
}
use sistemas_operarivos_fiub.Memoria.Paginas.{sacar, page_alloc, poner_ref, page_incref}
use sistemas_operarivos_fiub.Memoria.Tablas.{crear_tabla}
use sistemas_operarivos_fiub.Memoria.Tablas.Entradas.{
  leer_en, entrada, DirOk, PgdirOk, LibreAjena, Igual, misma-Igual,
}

-- what a directory has after a table has been added to it
pub nueva-DirOk :
    {n pd : ℕ} (d : ℕ → ℕ) (i p v : ℕ)
    → DirOk n pd d
    → p < n
    → p ≢ pd
    → pgnum v ≡ p
    → ((k : ℕ) → d k ≢ 0 → pgnum (d k) ≢ p)
    → DirOk n pd (update d i v)
unfolding update
nueva-DirOk d i p v h k a e s = record {
  existen = λ x w. ground (arith, h.existen x);
  ajenas = λ x u w. ground (arith, h.ajenas x u);
  distintas = λ x y u u' w w' q. ground (arith, h.distintas x y u u', s x, s y);
}

pub nueva-leer_en :
    {n pd : ℕ} (d : ℕ → ℕ) (f g : ℕ → ℕ → ℕ) (i p v x y : ℕ)
    → DirOk n pd d
    → x ≢ ranura_uvpt
    → d i ≡ 0
    → pgnum v ≡ p
    → ((k : ℕ) → d k ≢ 0 → pgnum (d k) ≢ p)
    → g p y ≡ 0
    → ((q : ℕ) → q ≢ pd → q ≢ p → g q ≡ f q)
    → leer_en (update d i v) g x y ≡ leer_en d f x y
unfolding leer_en update
nueva-leer_en d f g i p v x y h u z e s gz gq = elim (nat_eq_cases x i) [
  | inl w ↦ ground arith
  | inr w ↦ elim (nat_eq_cases (d x) 0) [
    | inl c ↦ ground arith
    | inr c ↦
        let same = ap (λ (r : ℕ → ℕ). r y) (gq (pgnum (d x)) (h.ajenas x u c) (s x c)) in
        ground arith
  ]
]

unfoldable pub con_tabla : ℕ → ℕ → ℕ → Memoria → Memoria
con_tabla pd i p m =
    escribir_palabra pd i (bit_or (p * 4096) 7) (page_incref p (borrar_pagina p (sacar p m)))

pub pgnum-tabla : (p : ℕ) → (pgnum (bit_or (p * 4096) 7) ≡ p) × (bit_or (p * 4096) 7 ≢ 0)
pgnum-tabla p = (
  omega (arith, bit_or-pagina p 7 (omega arith)),
  λ e. omega (arith, bit_or-pagina p 7 (omega arith), e),
)

pub con_tabla-dir :
    (m : Memoria) (pd i p : ℕ)
    → p ≢ pd
    → (con_tabla pd i p m).mem pd ≡ update (m.mem pd) i (bit_or (p * 4096) 7)
unfolding con_tabla escribir_palabra page_incref poner_ref borrar_pagina sacar
con_tabla-dir m pd i p h =
    let f = update m.mem p (λ (j : ℕ). 0) in
    update_same f pd (update (f pd) i (bit_or (p * 4096) 7))
    ∙ ap (λ (r : ℕ → ℕ). update r i (bit_or (p * 4096) 7))
        (update_other m.mem p (λ j. 0) pd (λ e. h (sym e)))

pub con_tabla-nueva : (m : Memoria) (pd i p y : ℕ) → p ≢ pd → (con_tabla pd i p m).mem p y ≡ 0
unfolding con_tabla escribir_palabra page_incref poner_ref borrar_pagina sacar
con_tabla-nueva m pd i p y h =
    let f = update m.mem p (λ (j : ℕ). 0) in
    ap (λ (r : ℕ → ℕ). r y)
      (update_other f pd (update (f pd) i (bit_or (p * 4096) 7)) p h ∙ update_same m.mem p (λ j. 0))

pub con_tabla-otras :
    (m : Memoria) (pd i p q : ℕ) → q ≢ pd → q ≢ p → (con_tabla pd i p m).mem q ≡ m.mem q
unfolding con_tabla escribir_palabra page_incref poner_ref borrar_pagina sacar
con_tabla-otras m pd i p q a b =
    let f = update m.mem p (λ (j : ℕ). 0) in
    update_other f pd (update (f pd) i (bit_or (p * 4096) 7)) q a
    ∙ update_other m.mem p (λ j. 0) q b

pub npages-con_tabla : (m : Memoria) (pd i p : ℕ) → (con_tabla pd i p m).npages ≡ m.npages
unfolding con_tabla escribir_palabra page_incref poner_ref borrar_pagina sacar
npages-con_tabla m pd i p = refl

pub con_tabla-Igual :
    (m : Memoria) (pd i p : ℕ)
    → PgdirOk m pd
    → LibreAjena m pd
    → m.page_free_list ≡ some p
    → m.mem pd i ≡ 0
    → Igual m (con_tabla pd i p m) pd
con_tabla-Igual m pd i p h a l z =
    let m' = con_tabla pd i p m in
    let v = bit_or (p * 4096) 7 in
    let ne = a.ajena p l in
    let s = λ (k : ℕ) (c : m.mem pd k ≢ 0). a.sin_tabla p k l c in
    let n = npages-con_tabla m pd i p in
    let dir = sym (con_tabla-dir m pd i p ne) in
    let pg = (pgnum-tabla p).0 in
    record {
      entradas = λ va u.
          subst (λ d. leer_en d m'.mem (pdx va) (ptx va) ≡ entrada m pd va) dir
            (nueva-leer_en (m.mem pd) m.mem m'.mem i p v (pdx va) (ptx va) h u z pg s
              (con_tabla-nueva m pd i p (ptx va) ne) (con_tabla-otras m pd i p));
      sano =
          subst (λ k. DirOk k pd (m'.mem pd)) (sym n)
            (subst (DirOk m.npages pd) dir (nueva-DirOk (m.mem pd) i p v h (a.existe p l) ne pg s));
      igual = n;
    }

-- a table has been added
pub record Agregada (m m' : Memoria) (pd i : ℕ) : Type 0 where
  pub pagina : ℕ
  pub primera : m.page_free_list ≡ some pagina
  pub faltaba : m.mem pd i ≡ 0
  pub hecho : con_tabla pd i pagina m ≡ m'

pub crear_tabla-some :
    (m m' : Memoria) (pd i : ℕ) (b : Bool)
    → crear_tabla pd i b m ≡ some m'
    → (m ≡ m') ⊎ Agregada m m' pd i
unfolding crear_tabla page_alloc con_tabla
crear_tabla-some m m' pd i false e = inl (ground arith)
crear_tabla-some m m' pd i true e = elim (nat_eq_cases (m.mem pd i) 0) [
  | inr w ↦ inl (ground arith)
  | inl w ↦ elim (Option-cases m.page_free_list) [
    | inl q ↦ inl (ground arith)
    | inr (p, q) ↦ inr (record { pagina = p; primera = q; faltaba = w; hecho = ground arith })
  ]
]

pub crear_tabla-Igual :
    (m m' : Memoria) (pd i : ℕ) (b : Bool)
    → PgdirOk m pd
    → LibreAjena m pd
    → crear_tabla pd i b m ≡ some m'
    → Igual m m' pd
crear_tabla-Igual m m' pd i b h a e = elim (crear_tabla-some m m' pd i b e) [
  | inl w ↦ subst (λ k. Igual m k pd) w (misma-Igual m m pd h (refl, refl))
  | inr w ↦
      subst (λ k. Igual m k pd) w.hecho (con_tabla-Igual m pd i w.pagina h a w.primera w.faltaba)
]
