-- ===== src/Sistema/Paginas.antt =====
-- The system calls of TP2-sched/kern/syscall.c on memory, by the environment c.
pub mod Mapa
use Prim.Native.Nat.{bit_and, bit_or}
use sistemas_operarivos_fiub.Base.{
  ℕ, ◌/◌, ◌%◌, Bool, true, false, ◌&&◌, ◌||◌, not, Option, none, some, ◌==◌, leb, if◌then◌else◌,
}
use sistemas_operarivos_fiub.Memoria.Tipos.{
  pgsize, utop, Memoria, Error, e_bad_env, e_inval, e_no_mem, Respuesta, ok, err,
}
use sistemas_operarivos_fiub.Memoria.Paginas.{page_alloc}
use sistemas_operarivos_fiub.Memoria.Tablas.{page_lookup, page_insert, page_remove}
use sistemas_operarivos_fiub.Sistema.Tipos.{
  Proceso, Sistema, Fin, vuelve, panico, buscar_env, con_memoria, responder,
}

-- 0xe07 is PTE_SYSCALL; the entry is `none` for the null pointer
unfoldable pub check_perm : ℕ → Option ℕ → Bool
check_perm perm pte =
    (bit_and perm 0xe07 == perm)
    && ((perm % 2 == 1)
        && ((perm / 4 % 2 == 1) && elim pte [
          | none ↦ true
          | some v ↦
              not (not (v == 0) && (v % 2 == 0)) && not ((perm / 2 % 2 == 1) && (v / 2 % 2 == 0))
        ]))

-- the page is not freed where it cannot be inserted
unfoldable pub env_page_alloc : Option ℕ → ℕ → ℕ → Memoria → Option (Respuesta ℕ × Memoria)
env_page_alloc pgdir va perm m =
    if check_perm perm none
    then elim (page_alloc true m) [
      | none ↦ none
      | some (none, m') ↦ some (err e_no_mem, m')
      | some (some p, m') ↦ elim pgdir [ none ↦ none | some pd ↦ page_insert pd p va perm m' ]
    ]
    else some (err e_inval, m)

-- `(perm & PTE_W) & ~(PTE_W & *srcpte)`
unfoldable pub sube_permiso : ℕ → ℕ → Bool
sube_permiso perm v = (perm / 2 % 2 == 1) && (v / 2 % 2 == 0)

unfoldable pub env_page_map :
    Option ℕ → ℕ → Option ℕ → ℕ → ℕ → Memoria → Option (Respuesta ℕ × Memoria)
env_page_map none srcva dst dstva perm m = none
env_page_map (some src) srcva dst dstva perm m = elim (page_lookup src srcva m) [
  | none ↦ none
  | some none ↦ some (err e_inval, m)
  | some (some (p, t, i)) ↦
      if sube_permiso perm (m.mem t i)
      then some (err e_inval, m)
      else elim dst [ none ↦ none | some pd ↦ page_insert pd p dstva perm m ]
]

-- `((uint32_t) va >= UTOP) || ((uint32_t) va % PGSIZE)`
unfoldable pub mala_va : ℕ → Bool
mala_va va = leb utop va || not (va % pgsize == 0)

unfoldable pub sys_page_alloc : ℕ → ℕ → ℕ → ℕ → Sistema → Fin
sys_page_alloc c envid va perm s =
    if mala_va va then vuelve (err e_inval) s else elim (buscar_env c envid true s) [
      | none ↦ vuelve (err e_bad_env) s
      | some e ↦ responder (env_page_alloc (s.envs e).env_pgdir va (bit_or perm 5) s.memoria) s
    ]

unfoldable pub sys_page_map : ℕ → ℕ → ℕ → ℕ → ℕ → ℕ → Sistema → Fin
sys_page_map c srcenvid srcva dstenvid dstva perm s =
    if mala_va srcva || mala_va dstva
    then vuelve (err e_inval) s
    else elim (buscar_env c srcenvid true s) [
      | none ↦ vuelve (err e_bad_env) s
      | some src ↦ elim (buscar_env c dstenvid true s) [
        | none ↦ vuelve (err e_bad_env) s
        | some dst ↦
            responder
              (env_page_map (s.envs src).env_pgdir srcva (s.envs dst).env_pgdir dstva
                (bit_or 5 perm) s.memoria)
              s
      ]
    ]

unfoldable pub sys_page_unmap : ℕ → ℕ → ℕ → Sistema → Fin
sys_page_unmap c envid va s =
    if mala_va va then vuelve (err e_inval) s else elim (buscar_env c envid true s) [
      | none ↦ vuelve (err e_bad_env) s
      | some e ↦ elim (s.envs e).env_pgdir [
        | none ↦ panico
        | some pd ↦ elim (page_remove pd va s.memoria) [
          | none ↦ panico
          | some m ↦ vuelve (ok 0) (con_memoria m s)
        ]
      ]
    ]
