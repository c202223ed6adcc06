-- ===== src/Memoria/Paginas.antt =====
-- The allocator of physical pages of TP2-sched/kern/pmap.c. `none` is a panic of the kernel.
pub mod Libres
use sistemas_operarivos_fiub.Base.{
  ℕ, zero, suc, ◌+◌, ◌-◌, ◌*◌, ◌%◌, Bool, true, ◌&&◌, ◌||◌, not, Option, none, some, ◌==◌, ltb, leb,
  if◌then◌else◌, update,
}
use sistemas_operarivos_fiub.Memoria.Tipos.{
  pgsize, iophysmem, extphysmem, mpentry_paddr, kernbase, pgnum, roundup, PageInfo, Memoria,
  borrar_pagina,
}

-- `nextfree` is an address above KERNBASE; the result is the chunk and the next `nextfree`.
unfoldable pub boot_alloc : ℕ → ℕ → ℕ → Option (ℕ × ℕ)
boot_alloc npages nextfree n =
    let sig = (nextfree + n) % 4294967296 in
    if ltb sig kernbase || leb (pgsize * npages % 4294967296) (sig - kernbase)
    then none
    else some (nextfree, roundup sig)

-- the pages that the loop of `page_init` passes over; `fin` is `PADDR(boot_alloc(0))`
unfoldable pub es_reservada : ℕ → ℕ → Bool
es_reservada fin i =
    i == 0
    || (pgnum mpentry_paddr == i
        || ((leb (pgnum iophysmem) i && ltb i (pgnum extphysmem))
            || (leb (pgnum extphysmem) i && ltb i (pgnum fin))))

-- one turn of the loop
unfoldable pub iniciar_pagina : ℕ → ℕ → Memoria → Memoria
iniciar_pagina fin i m =
    if es_reservada fin i
    then record m { pages = update m.pages i (record (m.pages i) { pp_link = none }) }
    else record m {
      pages = update m.pages i (record { pp_link = m.page_free_list; pp_ref = 0 });
      page_free_list = some i;
    }

-- `for (i = from; i < from + n; i++)`
unfoldable pub iniciar_desde : ℕ → ℕ → ℕ → Memoria → Memoria
iniciar_desde fin from zero m = m
iniciar_desde fin from (suc n) m = iniciar_desde fin (suc from) n (iniciar_pagina fin from m)

unfoldable pub page_init : ℕ → Memoria → Memoria
page_init fin m = iniciar_desde fin 0 m.npages m

-- the page is taken from the list, and its link cleared
unfoldable pub sacar : ℕ → Memoria → Memoria
sacar p m = record m {
  page_free_list = (m.pages p).pp_link;
  pages = update m.pages p (record (m.pages p) { pp_link = none });
}

-- `zerar` is `alloc_flags & ALLOC_ZERO`; KADDR panics for a page that is not there.
unfoldable pub page_alloc : Bool → Memoria → Option (Option ℕ × Memoria)
page_alloc zerar m = elim m.page_free_list [
  | none ↦ some (none, m)
  | some p ↦
      if zerar
      then if ltb p m.npages then some (some p, borrar_pagina p (sacar p m)) else none
      else some (some p, sacar p m)
]

unfoldable pub devolver : ℕ → Memoria → Memoria
devolver p m = record m {
  pages = update m.pages p (record (m.pages p) { pp_link = m.page_free_list });
  page_free_list = some p;
}

unfoldable pub page_free : ℕ → Memoria → Option Memoria
page_free p m =
    if (m.pages p).pp_ref == 0
    then elim (m.pages p).pp_link [ some q ↦ none | none ↦ some (devolver p m) ]
    else none

-- `pp_ref` is a `uint16_t`.
unfoldable pub poner_ref : ℕ → ℕ → Memoria → Memoria
poner_ref p r m = record m { pages = update m.pages p (record (m.pages p) { pp_ref = r % 65536 }) }

unfoldable pub page_incref : ℕ → Memoria → Memoria
page_incref p m = poner_ref p ((m.pages p).pp_ref + 1) m

unfoldable pub page_decref : ℕ → Memoria → Option Memoria
page_decref p m =
    let m' = poner_ref p ((m.pages p).pp_ref + 65535) m in
    if (m'.pages p).pp_ref == 0 then page_free p m' else some m'
