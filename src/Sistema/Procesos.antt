-- ===== src/Sistema/Procesos.antt =====
-- TP2-sched/kern/env.c with memory: env_setup_vm, env_alloc, env_free and env_destroy; and
-- user_mem_assert of kern/pmap.c. `none` is a panic.
pub mod Directorio
use Prim.Native.Nat.{bit_or}
use sistemas_operarivos_fiub.Base.{
  ℕ, zero, suc, ◌+◌, ◌*◌, ◌%◌, true, false, ◌&&◌, not, Option, none, some, ◌==◌, ltb, if◌then◌else◌,
  update,
}
use sistemas_operarivos_fiub.Planificador.Tipos.{Estado, es_running}
use sistemas_operarivos_fiub.Entornos.Tabla.{nuevo_id}
use sistemas_operarivos_fiub.Memoria.Tipos.{
  Memoria, e_no_free_env, e_no_mem, Respuesta, ok, err, ranura_uvpt, pte_u, pgnum, escribir_palabra,
}
use sistemas_operarivos_fiub.Memoria.Paginas.{page_alloc, page_incref, page_decref}
use sistemas_operarivos_fiub.Memoria.Tablas.{page_remove, user_mem_check}
use sistemas_operarivos_fiub.Sistema.Tipos.{
  Proceso, Sistema, Fin, vuelve, cede, panico, poner_env, con_memoria,
}

-- `memcpy(e->env_pgdir, kern_pgdir, PGSIZE)`, and the entry of UVPT, with PTE_P | PTE_U
unfoldable pub copiar_kernel : ℕ → ℕ → Memoria → Memoria
copiar_kernel kern p m =
    escribir_palabra p ranura_uvpt (bit_or (p * 4096) 5)
      (page_incref p (record m { mem = update m.mem p (m.mem kern) }))

-- the page of the new directory
unfoldable pub env_setup_vm : ℕ → Memoria → Option (Respuesta ℕ × Memoria)
env_setup_vm kern m = elim (page_alloc true m) [
  | none ↦ none
  | some (none, m') ↦ some (err e_no_mem, m')
  | some (some p, m') ↦ some (ok p, copiar_kernel kern p m')
]

-- the new environment, whose directory is p
unfoldable pub nuevo_env : ℕ → ℕ → ℕ → Proceso → Proceso
nuevo_env e parent_id p v = record v {
  env_pgdir = some p;
  env_id = nuevo_id v.env_id e;
  env_parent_id = parent_id;
  env_status = Estado.env_runnable;
  env_runs = 0;
  env_priority = 0;
  reg_eax = 0;
  registros = 0;
  env_pgfault_upcall = 0;
  env_ipc_recving = false;
}

-- The registers that are set for user mode are the value 0 of `registros`.
unfoldable pub env_alloc : ℕ → Sistema → Option (Respuesta ℕ × Sistema)
env_alloc parent_id s = elim s.env_free_list [
  | none ↦ some (err e_no_free_env, s)
  | some e ↦ elim (env_setup_vm s.kern_pgdir s.memoria) [
    | none ↦ none
    | some (err c, m) ↦ some (err c, con_memoria m s)
    | some (ok p, m) ↦ some (
      ok e,
      record (poner_env e (nuevo_env e parent_id p (s.envs e)) s) {
        memoria = m;
        env_free_list = (s.envs e).env_link;
      },
    )
  ]
]

-- `if (pt[pteno] & PTE_P) page_remove(e->env_pgdir, PGADDR(pdeno, pteno, 0))` for n entries
unfoldable pub vaciar_tabla : ℕ → ℕ → ℕ → ℕ → ℕ → Memoria → Option Memoria
vaciar_tabla pgdir pt pdeno pteno zero m = some m
vaciar_tabla pgdir pt pdeno pteno (suc n) m =
    elim (if m.mem pt pteno % 2 == 1
      then page_remove pgdir (pdeno * 4194304 + pteno * 4096) m
      else some m) [ none ↦ none | some m' ↦ vaciar_tabla pgdir pt pdeno (suc pteno) n m' ]

-- one entry of the directory: KADDR and pa2page panic for a page that is not there
unfoldable pub vaciar_entrada : ℕ → ℕ → Memoria → Option Memoria
vaciar_entrada pgdir pdeno m =
    let pt = pgnum (m.mem pgdir pdeno) in
    if m.mem pgdir pdeno % 2 == 1
    then (if ltb pt m.npages
        then elim (vaciar_tabla pgdir pt pdeno 0 1024 m) [
          | none ↦ none
          | some m' ↦ page_decref pt (escribir_palabra pgdir pdeno 0 m')
        ]
        else none)
    else some m

unfoldable pub vaciar_desde : ℕ → ℕ → ℕ → Memoria → Option Memoria
vaciar_desde pgdir pdeno zero m = some m
vaciar_desde pgdir pdeno (suc n) m = elim (vaciar_entrada pgdir pdeno m) [
  | none ↦ none
  | some m' ↦ vaciar_desde pgdir (suc pdeno) n m'
]

-- the user's part of the directory, of 955 entries, and the directory itself
unfoldable pub liberar_pgdir : ℕ → Memoria → Option Memoria
liberar_pgdir pgdir m = elim (vaciar_desde pgdir 0 955 m) [
  | none ↦ none
  | some m' ↦ page_decref pgdir m'
]

unfoldable pub env_free : ℕ → Sistema → Option Sistema
env_free e s = elim (s.envs e).env_pgdir [
  | none ↦ none
  | some pgdir ↦ elim (liberar_pgdir pgdir s.memoria) [
    | none ↦ none
    | some m ↦
        some
          (record (poner_env e
            (record (s.envs e) {
              env_pgdir = none;
              env_status = Estado.env_free;
              env_link = s.env_free_list;
            })
            s) { memoria = m; env_free_list = some e })
  ]
]

-- by the environment c; where it returns, the result is 0
unfoldable pub env_destroy : ℕ → ℕ → Sistema → Fin
env_destroy c e s =
    if es_running (s.envs e).env_status && not (c == e)
    then vuelve (ok 0) (poner_env e (record (s.envs e) { env_status = Estado.env_dying }) s)
    else elim (env_free e s) [
      | none ↦ panico
      | some s' ↦ if c == e then cede none s' else vuelve (ok 0) s'
    ]

-- where it returns, the result is 0
unfoldable pub user_mem_assert : ℕ → ℕ → ℕ → ℕ → ℕ → Sistema → Fin
user_mem_assert c e va len perm s = elim (s.envs e).env_pgdir [
  | none ↦ panico
  | some pgdir ↦ elim (user_mem_check pgdir va len (bit_or perm pte_u) s.memoria) [
    | none ↦ panico
    | some none ↦ vuelve (ok 0) s
    | some (some a) ↦ env_destroy c e s
  ]
]
