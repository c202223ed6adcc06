-- ===== src/Sistema/Fork.antt =====
-- TP2-sched/lib/fork.c and lib/pgfault.c: how an environment c copies itself by system calls. `none` is
-- a panic of the environment or the kernel, or a page fault that no handler mends.
use Prim.Native.Nat.{bit_and, bit_or}
use sistemas_operarivos_fiub.Base.{
  ℕ, zero, suc, ◌*◌, ◌/◌, ◌%◌, Bool, ◌&&◌, ◌||◌, not, Option, none, some, ◌==◌, if◌then◌else◌,
  update,
}
use sistemas_operarivos_fiub.Memoria.Tipos.{utop, pgsize, pgnum, rounddown, ok, err}
use sistemas_operarivos_fiub.Sistema.Tipos.{
  Sistema, Fin, vuelve, cede, panico, indefinido, con_memoria,
}
use sistemas_operarivos_fiub.Sistema.Paginas.{sys_page_alloc, sys_page_map, sys_page_unmap}
use sistemas_operarivos_fiub.Sistema.Llamadas.{
  sys_exofork, sys_env_set_status, sys_env_set_pgfault_upcall,
}

abbrev pub pte_cow : ℕ
pte_cow = 0x800

abbrev pub pte_syscall : ℕ
pte_syscall = 0xe07

-- `PTE_PCD | PTE_PWT`
abbrev pub pte_io : ℕ
pte_io = 0x18

abbrev pub utemp : ℕ
utemp = 0x400000

abbrev pub pftemp : ℕ
pftemp = 0x7ff000

-- the page below UXSTACKTOP
abbrev pub exstk : ℕ
exstk = 0xeebff000

-- the tests of an entry on PTE_P, PTE_W, PTE_U, PTE_COW, and on one of PTE_PCD and PTE_PWT
abbrev pub presente : ℕ → Bool
presente v = v % 2 == 1

abbrev pub escribible : ℕ → Bool
escribible v = v / 2 % 2 == 1

abbrev pub de_usuario : ℕ → Bool
de_usuario v = v / 4 % 2 == 1

abbrev pub es_cow : ℕ → Bool
es_cow v = v / pte_cow % 2 == 1

abbrev pub de_io : ℕ → Bool
de_io v = not (bit_and v pte_io == 0)

-- `uvpd[pn >> 10]`
unfoldable pub uvpd : ℕ → ℕ → Sistema → Option ℕ
uvpd c pn s = elim (s.envs c).env_pgdir [
  | none ↦ none
  | some pd ↦ some (s.memoria.mem pd (pn / 1024))
]

-- `uvpt[pn]`, which faults where the table is not mapped for the user
unfoldable pub uvpt : ℕ → ℕ → Sistema → Option ℕ
uvpt c pn s = elim (uvpd c pn s) [
  | none ↦ none
  | some pde ↦
      if presente pde && de_usuario pde then some (s.memoria.mem (pgnum pde) (pn % 1024)) else none
]

-- `memmove` of a page, of which each end has to be mapped for the user
unfoldable pub mover_pagina : ℕ → ℕ → ℕ → Sistema → Option Sistema
mover_pagina c dst src s = elim (uvpt c (pgnum dst) s) [
  | none ↦ none
  | some d ↦ elim (uvpt c (pgnum src) s) [
    | none ↦ none
    | some o ↦
        if (presente d && (de_usuario d && escribible d)) && (presente o && de_usuario o)
        then some (
            con_memoria
              (record s.memoria { mem = update s.memoria.mem (pgnum d) (s.memoria.mem (pgnum o)) })
              s)
        else none
  ]
]

-- a call whose errors are a panic
unfoldable pub exigir : Fin → Option Sistema
exigir (vuelve (ok v) s) = some s
exigir (vuelve (err e) s) = none
exigir (cede o s) = none
exigir panico = none
exigir indefinido = none

unfoldable pub despues : Option Sistema → (Sistema → Option Sistema) → Option Sistema
despues none k = none
despues (some s) k = k s

-- `!(pte & PTE_COW)` is 0 or 1, and the `&` with it one of bits.
unfoldable pub falla_ajena : ℕ → ℕ → Bool
falla_ajena e pte = not (bit_and (bit_and e 2) (if es_cow pte then 0 else 1) == 0)

unfoldable pub pgfault : ℕ → ℕ → ℕ → Sistema → Option Sistema
pgfault c addr e s = elim (uvpt c (pgnum addr) s) [
  | none ↦ none
  | some pte ↦
      if falla_ajena e pte
      then none
      else despues (exigir (sys_page_alloc c 0 pftemp 7 s)) (λ s1.
        despues (mover_pagina c pftemp (rounddown addr) s1) (λ s2.
          despues (exigir (sys_page_map c 0 pftemp 0 (rounddown addr) 7 s2))
            (λ s3. exigir (sys_page_unmap c 0 pftemp s3))))
]

-- the permissions of the copy
abbrev pub perm_copia : ℕ → ℕ
perm_copia pte = if de_io pte then bit_or 5 pte_io else 5

unfoldable pub duppage : ℕ → ℕ → ℕ → Sistema → Option Sistema
duppage c envid pn s = elim (uvpt c pn s) [
  | none ↦ none
  | some pte ↦
      if not (presente pte) || not (de_usuario pte)
      then none
      else if escribible pte || es_cow pte
      then despues
          (exigir (
            sys_page_map c 0 (pn * pgsize) envid (pn * pgsize) (bit_or (perm_copia pte) pte_cow) s))
          (λ s1.
            exigir
              (sys_page_map c 0 (pn * pgsize) 0 (pn * pgsize) (bit_or (perm_copia pte) pte_cow) s1))
      else exigir (sys_page_map c 0 (pn * pgsize) envid (pn * pgsize) (perm_copia pte) s)
]

-- the permissions that `dup_or_share` is left with
unfoldable pub filtrar : ℕ → ℕ → ℕ
filtrar perm pte =
    let p = bit_and (bit_and perm (bit_and pte 2)) pte_syscall in
    if de_io pte then bit_or p pte_io else p

unfoldable pub dup_or_share : ℕ → ℕ → ℕ → ℕ → Sistema → Option Sistema
dup_or_share c envid pnum perm s = elim (uvpt c pnum s) [
  | none ↦ none
  | some pte ↦
      let addr = pnum * pgsize in
      let p = filtrar perm pte in
      if not (presente pte)
      then some s
      else if not (escribible pte) || de_io pte
      then exigir (sys_page_map c 0 addr envid addr p s)
      else despues (exigir (sys_page_alloc c envid addr p s)) (λ s1.
        despues (exigir (sys_page_map c envid addr 0 utemp p s1)) (λ s2.
          despues (mover_pagina c utemp addr s2) (λ s3. exigir (sys_page_unmap c 0 utemp s3))))
]

-- one turn of the loop of `fork_v0`
unfoldable pub turno_v0 : ℕ → ℕ → ℕ → Sistema → Option Sistema
turno_v0 c envid pnum s = elim (uvpd c pnum s) [
  | none ↦ none
  | some pde ↦
      if not (presente pde) || not (de_usuario pde) then some s else dup_or_share c envid pnum 7 s
]

-- one turn of the loop of `fork`
unfoldable pub turno : ℕ → ℕ → ℕ → Sistema → Option Sistema
turno c envid pnum s = if pnum == pgnum exstk then some s else elim (uvpd c pnum s) [
  | none ↦ none
  | some pde ↦ if not (presente pde) || not (de_usuario pde) then some s else elim (uvpt c pnum s) [
    | none ↦ none
    | some pte ↦
        if not (presente pte) || not (de_usuario pte) then some s else duppage c envid pnum s
  ]
]

-- `for (pnum = from; pnum < from + n; pnum++)`
unfoldable pub turnos : (ℕ → Sistema → Option Sistema) → ℕ → ℕ → Sistema → Option Sistema
turnos paso from zero s = some s
turnos paso from (suc n) s = despues (paso from s) (λ s'. turnos paso (suc from) n s')

-- the new id and the state of the parent; the child has the result 0 in its own registers
unfoldable pub con_hijo : Fin → (ℕ → Sistema → Option Sistema) → Option (ℕ × Sistema)
con_hijo (vuelve (ok envid) s) k = elim (k envid s) [ none ↦ none | some s' ↦ some (envid, s') ]
con_hijo (vuelve (err e) s) k = none
con_hijo (cede o s) k = none
con_hijo panico k = none
con_hijo indefinido k = none

unfoldable pub fork_v0 : ℕ → Sistema → Option (ℕ × Sistema)
fork_v0 c s = con_hijo (sys_exofork c s) (λ envid s1.
    despues (turnos (turno_v0 c envid) 0 (pgnum utop) s1)
      (λ s2. exigir (sys_env_set_status c envid 2 s2)))

-- The errors of `set_pgfault_handler` only cut it short.
unfoldable pub preparar_upcall : ℕ → ℕ → Fin → Option Sistema
preparar_upcall c upcall (vuelve (ok v) s) = elim (sys_env_set_pgfault_upcall c 0 upcall s) [
  | vuelve r s' ↦ some s'
  | cede o s' ↦ none
  | panico ↦ none
  | indefinido ↦ none
]
preparar_upcall c upcall (vuelve (err e) s) = some s
preparar_upcall c upcall (cede o s) = none
preparar_upcall c upcall panico = none
preparar_upcall c upcall indefinido = none

-- `puesto` tells whether there is a handler already
unfoldable pub set_pgfault_handler : ℕ → Bool → ℕ → Sistema → Option Sistema
set_pgfault_handler c puesto upcall s =
    if puesto then some s else preparar_upcall c upcall (sys_page_alloc c 0 exstk 7 s)

-- the child's stack for faults, its handler and its status
unfoldable pub completar : ℕ → ℕ → Sistema → Option Sistema
completar c envid s = despues (exigir (sys_page_alloc c envid exstk 7 s)) (λ s1.
    despues (exigir (sys_env_set_pgfault_upcall c envid (s1.envs c).env_pgfault_upcall s1))
      (λ s2. exigir (sys_env_set_status c envid 2 s2)))

unfoldable pub fork : ℕ → Bool → ℕ → Sistema → Option (ℕ × Sistema)
fork c puesto upcall s = elim (set_pgfault_handler c puesto upcall s) [
  | none ↦ none
  | some s1 ↦
      con_hijo (sys_exofork c s1) (λ envid s2.
        despues (turnos (turno c envid) 0 (pgnum utop) s2) (λ s3. completar c envid s3))
]
