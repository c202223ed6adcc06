-- ===== src/Memoria/Tablas.antt =====
-- The page tables of TP2-sched/kern/pmap.c. `none` is a panic of the kernel, or a write through a
-- null pointer. The TLB is not in the model.
pub mod Entradas
pub mod Nuevas
pub mod Quitar
pub mod Traduccion
pub mod Panico
pub mod Permisos
pub mod Referencias
use Prim.Native.Nat.{bit_and, bit_or}
use sistemas_operarivos_fiub.Base.{
  ℕ, zero, suc, ◌+◌, ◌-◌, ◌*◌, ◌/◌, ◌%◌, Bool, true, false, ◌&&◌, ◌||◌, not, Option, none, some,
  ◌==◌, ltb, leb, if◌then◌else◌,
}
use sistemas_operarivos_fiub.Memoria.Tipos.{
  pgsize, pte_p, pte_w, pte_u, utop, mmiolim, pgnum, pdx, ptx, rounddown, roundup, Memoria, Error,
  e_no_mem, e_fault, Respuesta, ok, err, escribir_palabra, entrada_de,
}
use sistemas_operarivos_fiub.Memoria.Paginas.{page_alloc, page_incref, page_decref}

-- the first part of `pgdir_walk`, which adds a page table
unfoldable pub crear_tabla : ℕ → ℕ → Bool → Memoria → Option Memoria
crear_tabla pgdir i create m =
    if (m.mem pgdir i == 0) && create
    then elim (page_alloc true m) [
      | none ↦ none
      | some (none, m') ↦ some m'
      | some (some p, m') ↦ some (escribir_palabra pgdir i (bit_or (p * 4096) 7) (page_incref p m'))
    ]
    else some m

-- A pointer to an entry is the page of its table and its index there.
unfoldable pub ubicar : ℕ → ℕ → Memoria → Option (Option (ℕ × ℕ))
ubicar pgdir va m =
    if m.mem pgdir (pdx va) == 0
    then some none
    else if ltb (pgnum (m.mem pgdir (pdx va))) m.npages
    then some (some (pgnum (m.mem pgdir (pdx va)), ptx va))
    else none

unfoldable pub pgdir_walk : ℕ → ℕ → Bool → Memoria → Option (Option (ℕ × ℕ) × Memoria)
pgdir_walk pgdir va create m = elim (crear_tabla pgdir (pdx va) create m) [
  | none ↦ none
  | some m' ↦ elim (ubicar pgdir va m') [ none ↦ none | some r ↦ some (r, m') ]
]

-- The page, and where its entry is. `*pte && PTE_P` holds for each entry that is not 0.
unfoldable pub page_lookup : ℕ → ℕ → Memoria → Option (Option (ℕ × ℕ × ℕ))
page_lookup pgdir va m = elim (pgdir_walk pgdir va false m) [
  | none ↦ none
  | some (none, _) ↦ some none
  | some (some (t, i), _) ↦
      if m.mem t i == 0
      then some none
      else if ltb (pgnum (m.mem t i)) m.npages
      then some (some (pgnum (m.mem t i), t, i))
      else none
]

unfoldable pub page_remove : ℕ → ℕ → Memoria → Option Memoria
page_remove pgdir va m = elim (page_lookup pgdir va m) [
  | none ↦ none
  | some none ↦ some m
  | some (some (p, t, i)) ↦ elim (page_decref p m) [
    | none ↦ none
    | some m' ↦ some (escribir_palabra t i 0 m')
  ]
]

unfoldable pub page_insert : ℕ → ℕ → ℕ → ℕ → Memoria → Option (Respuesta ℕ × Memoria)
page_insert pgdir pp va perm m = elim (pgdir_walk pgdir va true m) [
  | none ↦ none
  | some (none, m') ↦ some (err e_no_mem, m')
  | some (some (t, i), m') ↦ elim (page_remove pgdir va (page_incref pp m')) [
    | none ↦ none
    | some m'' ↦ some (ok 0, escribir_palabra t i (entrada_de pp perm) m'')
  ]
]

-- one turn of the loop of `boot_map_region`
unfoldable pub mapear : ℕ → ℕ → ℕ → ℕ → Memoria → Option Memoria
mapear pgdir va pa perm m = elim (pgdir_walk pgdir va true m) [
  | none ↦ none
  | some (none, m') ↦ none
  | some (some (t, i), m') ↦ elim (page_remove pgdir va m') [
    | none ↦ none
    | some m'' ↦ some (escribir_palabra t i (bit_or (bit_or pa perm) pte_p) m'')
  ]
]

-- the loop, with the pages that are left; the addresses wrap
unfoldable pub mapear_paginas : ℕ → ℕ → ℕ → ℕ → ℕ → Memoria → Option Memoria
mapear_paginas pgdir va zero pa perm m = some m
mapear_paginas pgdir va (suc n) pa perm m =
    elim (mapear pgdir (va % 4294967296) (pa % 4294967296) perm m) [
      | none ↦ none
      | some m' ↦ mapear_paginas pgdir (va + pgsize) n (pa + pgsize) perm m'
    ]

-- without TP1_PSE
unfoldable pub boot_map_region : ℕ → ℕ → ℕ → ℕ → ℕ → Memoria → Option Memoria
boot_map_region pgdir va size pa perm m = mapear_paginas pgdir va ((size + 4095) / 4096) pa perm m

-- The region, the next base and the memory; 0x1b is PTE_W | PTE_P | PTE_PCD | PTE_PWT.
unfoldable pub mmio_map_region : ℕ → ℕ → ℕ → ℕ → Memoria → Option (ℕ × ℕ × Memoria)
mmio_map_region kern_pgdir base pa size m =
    if leb mmiolim ((base + roundup size) % 4294967296)
    then none
    else elim (boot_map_region kern_pgdir base (roundup size) (rounddown pa) 0x1b m) [
      | none ↦ none
      | some m' ↦ some (base, base + roundup size, m')
    ]

-- `(*pte & (perm | PTE_P)) != (perm | PTE_P)`, or no entry
unfoldable pub falta_permiso : Option (ℕ × ℕ) → ℕ → Memoria → Bool
falta_permiso none perm m = true
falta_permiso (some (t, i)) perm m =
    not (bit_and (m.mem t i) (bit_or perm pte_p) == bit_or perm pte_p)

-- the loop of `user_mem_check`, with the pages that are left; the first bad address
unfoldable pub revisar : ℕ → ℕ → ℕ → ℕ → ℕ → Memoria → Option (Option ℕ)
revisar pgdir va_lo va_act zero perm m = some none
revisar pgdir va_lo va_act (suc n) perm m = elim (ubicar pgdir va_act m) [
  | none ↦ none
  | some pte ↦
      let rest = revisar pgdir va_lo (va_act + pgsize) n perm m in
      if falta_permiso pte perm m
      then some (some (if ltb va_lo va_act then va_act else va_lo))
      else rest
]

-- the error comes with `user_mem_check_addr`
unfoldable pub user_mem_check : ℕ → ℕ → ℕ → ℕ → Memoria → Option (Option ℕ)
user_mem_check pgdir va len perm m =
    let va_hi = roundup ((va + len) % 4294967296) in
    if ltb utop va_hi
    then some (some va)
    else revisar pgdir va (rounddown va) ((va_hi - rounddown va) / pgsize) perm m
