-- ===== src/Memoria/Tipos.antt =====
-- The constants of TP2-sched/inc/mmu.h and inc/memlayout.h, `struct PageInfo`, and physical memory.
use Prim.Native.Nat.{bit_or}
use sistemas_operarivos_fiub.Base.{ℕ, ◌+◌, ◌-◌, ◌*◌, ◌/◌, ◌%◌, Option, update}

abbrev pub pgsize : ℕ
pgsize = 4096

abbrev pub npdentries : ℕ
npdentries = 1024

abbrev pub pte_p : ℕ
pte_p = 1

abbrev pub pte_w : ℕ
pte_w = 2

abbrev pub pte_u : ℕ
pte_u = 4

abbrev pub utop : ℕ
utop = 0xeec00000

abbrev pub iophysmem : ℕ
iophysmem = 0x0a0000

abbrev pub extphysmem : ℕ
extphysmem = 0x100000

abbrev pub mpentry_paddr : ℕ
mpentry_paddr = 0x7000

abbrev pub kernbase : ℕ
kernbase = 0xf0000000

abbrev pub mmiolim : ℕ
mmiolim = 0xefc00000

-- `PDX(UVPT)`: the entry with which a directory maps itself as the virtual page table
abbrev pub ranura_uvpt : ℕ
ranura_uvpt = 957

-- the number of the page of an address, physical or virtual
abbrev pub pgnum : ℕ → ℕ
pgnum la = la / 4096

abbrev pub pdx : ℕ → ℕ
pdx la = la / 4194304 % 1024

abbrev pub ptx : ℕ → ℕ
ptx la = la / 4096 % 1024

abbrev pub rounddown : ℕ → ℕ
rounddown a = a - a % pgsize

-- The sum wraps as a `uint32_t`.
abbrev pub roundup : ℕ → ℕ
roundup a = rounddown ((a + 4095) % 4294967296)

pub record PageInfo : Type 0 where
  pub pp_link : Option ℕ
  pub pp_ref : ℕ

-- A page is its index in `pages`. `mem p j` is the 32-bit word j of the physical page p, of which a
-- page directory or a page table has 1024.
pub record Memoria : Type 0 where
  pub npages : ℕ
  pub pages : ℕ → PageInfo
  pub page_free_list : Option ℕ
  pub mem : ℕ → ℕ → ℕ

-- the codes of inc/error.h that the functions return, negated
pub data Error : Type 0 where
  e_bad_env e_inval e_no_mem e_no_free_env e_fault e_ipc_not_recv : Error

pub data Respuesta {ℓ} (A : Type ℓ) : Type ℓ where
  ok : A → Respuesta A
  err : Error → Respuesta A

-- a word is written
unfoldable pub escribir_palabra : ℕ → ℕ → ℕ → Memoria → Memoria
escribir_palabra p j v m = record m { mem = update m.mem p (update (m.mem p) j v) }

-- `memset(page2kva(pp), 0, PGSIZE)`
unfoldable pub borrar_pagina : ℕ → Memoria → Memoria
borrar_pagina p m = record m { mem = update m.mem p (λ j. 0) }

-- `page2pa(pp) | perm | PTE_P`
unfoldable pub entrada_de : ℕ → ℕ → ℕ
entrada_de pp perm = bit_or (bit_or (pp * 4096) perm) pte_p
