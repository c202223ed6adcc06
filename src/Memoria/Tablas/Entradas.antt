-- ===== src/Memoria/Tablas/Entradas.antt =====
-- The entries that page tables of TP2-sched/kern/pmap.c hold, and a write to one of them.
use sistemas_operarivos_fiub.Base.{
  ℕ, ◌+◌, ◌<◌, ◌≡◌, ◌≢◌, ◌⊎◌, inl, inr, refl, sym, ap, subst, Bool-cases, some, ◌&&◌, ◌==◌,
  if◌then◌else◌, update, update_other, arith,
}
use sistemas_operarivos_fiub.Memoria.Tipos.{ranura_uvpt, pgnum, pdx, ptx, Memoria, escribir_palabra}
use sistemas_operarivos_fiub.Memoria.Paginas.{poner_ref, page_decref, devolver, page_free}

-- the page of the table that the entry i of the directory names
abbrev pub tabla : Memoria → ℕ → ℕ → ℕ
tabla m pd i = pgnum (m.mem pd i)

-- the entry j of the table that the entry i of a directory names, 0 where it names none
unfoldable pub leer_en : (ℕ → ℕ) → (ℕ → ℕ → ℕ) → ℕ → ℕ → ℕ
leer_en d mem i j = if d i == 0 then 0 else mem (pgnum (d i)) j

-- the entry of the page of an address, 0 where it has no table
abbrev pub entrada : Memoria → ℕ → ℕ → ℕ
entrada m pd va = leer_en (m.mem pd) m.mem (pdx va) (ptx va)

-- The tables that a directory names exist, and, apart from the entry with which the directory maps
-- itself at UVPT, they are other pages than the directory and than one another.
pub record DirOk (n pd : ℕ) (d : ℕ → ℕ) : Type 0 where
  pub existen : (i : ℕ) → d i ≢ 0 → pgnum (d i) < n
  pub ajenas : (i : ℕ) → i ≢ ranura_uvpt → d i ≢ 0 → pgnum (d i) ≢ pd
  pub distintas :
      (i j : ℕ)
      → i ≢ ranura_uvpt
      → j ≢ ranura_uvpt
      → d i ≢ 0
      → d j ≢ 0
      → pgnum (d i) ≡ pgnum (d j)
      → i ≡ j

abbrev pub PgdirOk : Memoria → ℕ → Type 0
PgdirOk m pd = DirOk m.npages pd (m.mem pd)

-- The page at the head of the free list exists, and is neither the directory nor one of its tables.
pub record LibreAjena (m : Memoria) (pd : ℕ) : Type 0 where
  pub existe : (p : ℕ) → m.page_free_list ≡ some p → p < m.npages
  pub ajena : (p : ℕ) → m.page_free_list ≡ some p → p ≢ pd
  pub sin_tabla : (p i : ℕ) → m.page_free_list ≡ some p → m.mem pd i ≢ 0 → tabla m pd i ≢ p

-- two memories with the same words
abbrev pub MismaMemoria : Memoria → Memoria → Type 0
MismaMemoria m m' = (m'.mem ≡ m.mem) × (m'.npages ≡ m.npages)

pub page_free-some : (p : ℕ) (m m' : Memoria) → page_free p m ≡ some m' → devolver p m ≡ m'
unfolding page_free
page_free-some p m m' h = ground arith

pub page_free-mem : (p : ℕ) (m m' : Memoria) → page_free p m ≡ some m' → MismaMemoria m m'
unfolding devolver
page_free-mem p m m' h =
    let e = page_free-some p m m' h in
    (ap (λ (x : Memoria). x.mem) (sym e), ap (λ (x : Memoria). x.npages) (sym e))

pub bajada : ℕ → Memoria → Memoria
bajada p m = poner_ref p ((m.pages p).pp_ref + 65535) m

pub page_decref-some :
    (p : ℕ) (m m' : Memoria)
    → page_decref p m ≡ some m'
    → (page_free p (bajada p m) ≡ some m') ⊎ (bajada p m ≡ m')
unfolding page_decref bajada
page_decref-some p m m' h = elim (Bool-cases (((bajada p m).pages p).pp_ref == 0)) [
  | inl e ↦ inl (rw e at h)
  | inr e ↦ inr (ground arith)
]

pub page_decref-mem : (p : ℕ) (m m' : Memoria) → page_decref p m ≡ some m' → MismaMemoria m m'
unfolding bajada poner_ref
page_decref-mem p m m' h = elim (page_decref-some p m m' h) [
  | inl e ↦ page_free-mem p (bajada p m) m' e
  | inr e ↦ (ap (λ (x : Memoria). x.mem) (sym e), ap (λ (x : Memoria). x.npages) (sym e))
]

-- what a word is after a write
pub leer_palabra :
    (p j v q k : ℕ) (m : Memoria)
    → (escribir_palabra p j v m).mem q k ≡ (if (q == p) && (k == j) then v else m.mem q k)
unfolding escribir_palabra update
leer_palabra p j v q k m = ground arith

pub npages-escribir : (p j v : ℕ) (m : Memoria) → (escribir_palabra p j v m).npages ≡ m.npages
unfolding escribir_palabra
npages-escribir p j v m = refl

-- A write to a page other than the directory leaves the directory.
pub escribir-pgdir :
    (p j v pd : ℕ) (m : Memoria) → p ≢ pd → (escribir_palabra p j v m).mem pd ≡ m.mem pd
unfolding escribir_palabra
escribir-pgdir p j v pd m h = update_other m.mem p (update (m.mem p) j v) pd (λ e. h (sym e))

-- the directory is sound wherever it has the same words
pub PgdirOk-igual :
    (m m' : Memoria) (pd : ℕ)
    → m'.mem pd ≡ m.mem pd
    → m'.npages ≡ m.npages
    → PgdirOk m pd
    → PgdirOk m' pd
PgdirOk-igual m m' pd e n h =
    subst (λ k. DirOk k pd (m'.mem pd)) (sym n) (subst (DirOk m.npages pd) (sym e) h)

-- The entry of one address is `v`; the other addresses that are not those of UVPT are as before, and
-- the directory is sound.
pub record Cambio (m m' : Memoria) (pd va v : ℕ) : Type 0 where
  pub puesta : entrada m' pd va ≡ v
  pub otras :
      (va' : ℕ)
      → pdx va' ≢ ranura_uvpt
      → (pdx va' ≢ pdx va) ⊎ (ptx va' ≢ ptx va)
      → entrada m' pd va' ≡ entrada m pd va'
  pub sano : PgdirOk m' pd
  pub igual : m'.npages ≡ m.npages

pub leer_en-aqui :
    (d : ℕ → ℕ) (m : Memoria) (i j v : ℕ)
    → d i ≢ 0
    → leer_en d (escribir_palabra (pgnum (d i)) j v m).mem i j ≡ v
unfolding leer_en
leer_en-aqui d m i j v h = ground (arith, leer_palabra (pgnum (d i)) j v (pgnum (d i)) j m)

pub leer_en-alla :
    {n pd : ℕ} (d : ℕ → ℕ) (m : Memoria) (i j v i' j' : ℕ)
    → DirOk n pd d
    → i ≢ ranura_uvpt
    → i' ≢ ranura_uvpt
    → d i ≢ 0
    → (i' ≢ i) ⊎ (j' ≢ j)
    → leer_en d (escribir_palabra (pgnum (d i)) j v m).mem i' j' ≡ leer_en d m.mem i' j'
unfolding leer_en
leer_en-alla d m i j v i' j' sano u u' h c =
    ground (arith, leer_palabra (pgnum (d i)) j v (pgnum (d i')) j' m, sano.distintas i' i u' u)

pub escribir-Cambio :
    (m : Memoria) (pd va v : ℕ)
    → PgdirOk m pd
    → pdx va ≢ ranura_uvpt
    → m.mem pd (pdx va) ≢ 0
    → Cambio m (escribir_palabra (tabla m pd (pdx va)) (ptx va) v m) pd va v
escribir-Cambio m pd va v h u w =
    let t = tabla m pd (pdx va) in
    let m' = escribir_palabra t (ptx va) v m in
    let d = m.mem pd in
    let same = sym (escribir-pgdir t (ptx va) v pd m (h.ajenas (pdx va) u w)) in
    record {
      puesta =
          subst (λ e. leer_en e m'.mem (pdx va) (ptx va) ≡ v) same
            (leer_en-aqui d m (pdx va) (ptx va) v w);
      otras = λ va' u' c.
          subst (λ e. leer_en e m'.mem (pdx va') (ptx va') ≡ entrada m pd va') same
            (leer_en-alla d m (pdx va) (ptx va) v (pdx va') (ptx va') h u u' w c);
      sano = PgdirOk-igual m m' pd (sym same) (npages-escribir t (ptx va) v m) h;
      igual = npages-escribir t (ptx va) v m;
    }

-- The translations of the addresses that are not those of UVPT are as before, and the directory is
-- sound.
pub record Igual (m m' : Memoria) (pd : ℕ) : Type 0 where
  pub entradas : (va : ℕ) → pdx va ≢ ranura_uvpt → entrada m' pd va ≡ entrada m pd va
  pub sano : PgdirOk m' pd
  pub igual : m'.npages ≡ m.npages

pub misma-Igual : (m m' : Memoria) (pd : ℕ) → PgdirOk m pd → MismaMemoria m m' → Igual m m' pd
misma-Igual m m' pd h (e, n) = record {
  entradas = λ va u i. leer_en (e i pd) (e i) (pdx va) (ptx va);
  sano = PgdirOk-igual m m' pd (λ i. e i pd) n h;
  igual = n;
}
