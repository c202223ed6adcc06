-- ===== src/Memoria/Tablas/Permisos.antt =====
-- user_mem_check of TP2-sched/kern/pmap.c: what it grants, and a range that it grants by overflow.
use Prim.Native.Nat.{bit_and, bit_or}
use sistemas_operarivos_fiub.Base.{
  ℕ, zero, suc, ◌+◌, ◌-◌, ◌*◌, ◌/◌, ◌%◌, ◌^◌, ◌<◌, ◌≤◌, ◌≡◌, ◌∙◌, subst, false, Bool-cases,
  Option-cases, inl, inr, Option, none, some, ◌==◌, ltb, if◌then◌else◌, arith,
}
use sistemas_operarivos_fiub.Memoria.Tipos.{
  pgsize, pte_p, utop, kernbase, pgnum, pdx, ptx, rounddown, roundup, Memoria,
}
use sistemas_operarivos_fiub.Memoria.Tablas.{ubicar, falta_permiso, revisar, user_mem_check}

-- the entry of an address is there with the permissions
pub record Permitida (m : Memoria) (pgdir perm a : ℕ) : Type 0 where
  pub tabla : ℕ
  pub indice : ℕ
  pub hallada : ubicar pgdir a m ≡ some (some (tabla, indice))
  pub permite : bit_and (m.mem tabla indice) (bit_or perm pte_p) ≡ bit_or perm pte_p

Permitida-entrada :
    (m : Memoria) (pgdir perm a : ℕ) (pte : Option (ℕ × ℕ))
    → ubicar pgdir a m ≡ some pte
    → falta_permiso pte perm m ≡ false
    → Permitida m pgdir perm a
unfolding falta_permiso
Permitida-entrada m pgdir perm a none q f = absurd (ground arith)
Permitida-entrada m pgdir perm a (some (t, i)) q f = record {
  tabla = t;
  indice = i;
  hallada = q;
  permite = ground arith;
}

revisar-paso :
    (pgdir lo act n perm : ℕ) (m : Memoria)
    → revisar pgdir lo act (suc n) perm m ≡ some none
    → Permitida m pgdir perm act × (revisar pgdir lo (act + pgsize) n perm m ≡ some none)
unfolding revisar
revisar-paso pgdir lo act n perm m e = elim (Option-cases (ubicar pgdir act m)) [
  | inl q ↦ absurd (ground arith)
  | inr (pte, q) ↦ elim (Bool-cases (falta_permiso pte perm m)) [
    | inl f ↦ absurd (ground arith)
    | inr f ↦ (Permitida-entrada m pgdir perm act pte q f, ground arith)
  ]
]

revisar-Permitida :
    (pgdir lo act n perm : ℕ) (m : Memoria)
    → revisar pgdir lo act n perm m ≡ some none
    → (k : ℕ) → k < n
    → Permitida m pgdir perm (act + k * 4096)
revisar-Permitida pgdir lo act zero perm m e k h = absurd (omega arith)
revisar-Permitida pgdir lo act (suc n) perm m e zero h =
    subst (Permitida m pgdir perm) (omega arith) (revisar-paso pgdir lo act n perm m e).0
revisar-Permitida pgdir lo act (suc n) perm m e (suc k) h =
    subst (Permitida m pgdir perm) (omega arith) (
      revisar-Permitida pgdir lo (act + pgsize) n perm m (revisar-paso pgdir lo act n perm m e).1 k
        (omega arith))

ubicar-pagina :
    (m : Memoria) (pgdir a b : ℕ) → pgnum a ≡ pgnum b → ubicar pgdir b m ≡ ubicar pgdir a m
unfolding ubicar
ubicar-pagina m pgdir a b e =
    let d : pdx b ≡ pdx a = omega arith in
    let t : ptx b ≡ ptx a = omega arith in
    λ k.
      if m.mem pgdir (d k) == 0
      then some none
      else if ltb (pgnum (m.mem pgdir (d k))) m.npages
      then some (some (pgnum (m.mem pgdir (d k)), t k))
      else none

-- the entry depends on the page of the address alone
Permitida-pagina :
    (m : Memoria) (pgdir perm a b : ℕ)
    → pgnum a ≡ pgnum b
    → Permitida m pgdir perm a
    → Permitida m pgdir perm b
Permitida-pagina m pgdir perm a b e p = record {
  tabla = p.tabla;
  indice = p.indice;
  hallada = ubicar-pagina m pgdir a b e ∙ p.hallada;
  permite = p.permite;
}

-- Where the range does not reach the end of the address space, `user_mem_check` grants it only if
-- each of its addresses is below UTOP and has an entry with the bits of the permissions and PTE_P.
pub user_mem_check-Permitida :
    (pgdir va len perm : ℕ) (m : Memoria)
    → va + len + 4095 < 2 ^ 32
    → user_mem_check pgdir va len perm m ≡ some none
    → (a : ℕ) → va ≤ a
    → a < va + len
    → (a < utop) × Permitida m pgdir perm a
unfolding user_mem_check
user_mem_check-Permitida pgdir va len perm m h e a l u =
    elim (Bool-cases (ltb utop (roundup ((va + len) % 4294967296)))) [
      | inl q ↦ absurd (ground arith)
      | inr q ↦
          let r : revisar pgdir va (rounddown va)
                ((roundup ((va + len) % 4294967296) - rounddown va) / pgsize) perm m
              ≡ some none =
            ground arith in
          let k = pgnum a - pgnum va in
          (
            ground arith,
            Permitida-pagina m pgdir perm (rounddown va + k * 4096) a (omega arith) (
                revisar-Permitida pgdir va (rounddown va)
                  ((roundup ((va + len) % 4294967296) - rounddown va) / pgsize) perm m r k
                  (omega arith)),
          )
    ]

-- A range of the kernel's addresses that passes the end of the address space by less than UTOP is
-- granted, whatever the page tables hold.
pub user_mem_check-desborde :
    (pgdir va len perm : ℕ) (m : Memoria)
    → kernbase ≤ va
    → va < 2 ^ 32
    → 2 ^ 32 ≤ va + len
    → va + len < 2 ^ 32 + utop
    → user_mem_check pgdir va len perm m ≡ some none
unfolding user_mem_check revisar
user_mem_check-desborde pgdir va len perm m a b c d =
    let z : (roundup ((va + len) % 4294967296) - rounddown va) / pgsize ≡ 0 = omega arith in
    let w : roundup ((va + len) % 4294967296) ≤ utop = omega arith in rw z (ground arith)
