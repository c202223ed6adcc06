-- ===== src/Sistema/Llamadas.antt =====
-- The other system calls of TP2-sched/kern/syscall.c, by the environment c, and the dispatch.
pub mod Permisos
use sistemas_operarivos_fiub.Base.{
  ℕ, ◌+◌, Bool, true, false, Option, none, some, ◌==◌, ◌||◌, if◌then◌else◌,
}
use sistemas_operarivos_fiub.Planificador.Tipos.{Estado}
use sistemas_operarivos_fiub.Memoria.Tipos.{pgsize, e_bad_env, e_inval, Respuesta, ok, err}
use sistemas_operarivos_fiub.Sistema.Tipos.{
  Proceso, Sistema, Fin, vuelve, cede, panico, indefinido, buscar_env, poner_env,
}
use sistemas_operarivos_fiub.Sistema.Procesos.{env_alloc, env_destroy, user_mem_assert}
use sistemas_operarivos_fiub.Sistema.Paginas.{sys_page_alloc, sys_page_map, sys_page_unmap}
use sistemas_operarivos_fiub.Sistema.Mensajes.{sys_ipc_try_send, sys_ipc_recv}

-- what is printed is left out
unfoldable pub sys_cputs : ℕ → ℕ → ℕ → Sistema → Fin
sys_cputs c va len s = user_mem_assert c c va len 7 s

unfoldable pub sys_getenvid : ℕ → Sistema → Fin
sys_getenvid c s = vuelve (ok (s.envs c).env_id) s

unfoldable pub sys_env_destroy : ℕ → ℕ → Sistema → Fin
sys_env_destroy c envid s = elim (buscar_env c envid true s) [
  | none ↦ vuelve (err e_bad_env) s
  | some e ↦ env_destroy c e s
]

unfoldable pub hijo_de : Proceso → Proceso → Proceso
hijo_de padre p = record p {
  env_status = Estado.env_not_runnable;
  registros = padre.registros;
  reg_eax = 0;
  env_priority = padre.env_priority;
}

unfoldable pub sys_exofork : ℕ → Sistema → Fin
sys_exofork c s = elim (env_alloc (s.envs c).env_id s) [
  | none ↦ panico
  | some (err e, s') ↦ vuelve (err e) s'
  | some (ok n, s') ↦
      vuelve (ok (s'.envs n).env_id) (poner_env n (hijo_de (s'.envs c) (s'.envs n)) s')
]

-- the status is the number of `enum`, of which two are allowed
unfoldable pub sys_env_set_status : ℕ → ℕ → ℕ → Sistema → Fin
sys_env_set_status c envid status s =
    if (status == 2) || (status == 4)
    then elim (buscar_env c envid true s) [
      | none ↦ vuelve (err e_bad_env) s
      | some e ↦ vuelve (ok 0) (
          poner_env e
            (record (s.envs e) {
              env_status = if status == 2 then Estado.env_runnable else Estado.env_not_runnable;
            })
            s)
    ]
    else vuelve (err e_inval) s

-- Where `user_mem_assert` destroys another environment it returns, and the field is written.
unfoldable pub sys_env_set_pgfault_upcall : ℕ → ℕ → ℕ → Sistema → Fin
sys_env_set_pgfault_upcall c envid func s = elim (buscar_env c envid true s) [
  | none ↦ vuelve (err e_bad_env) s
  | some e ↦ elim (user_mem_assert c e func pgsize 5 s) [
    | vuelve _ s' ↦
        vuelve (ok 0) (poner_env e (record (s'.envs e) { env_pgfault_upcall = func }) s')
    | cede o s' ↦ cede o s'
    | panico ↦ panico
    | indefinido ↦ indefinido
  ]
]

-- E_BAD_ENV, 2, is returned with no minus sign.
unfoldable pub sys_obtener_prioridad : ℕ → ℕ → Sistema → Fin
sys_obtener_prioridad c envid s = elim (buscar_env c envid false s) [
  | none ↦ vuelve (ok 2) s
  | some e ↦ vuelve (ok (s.envs e).env_priority) s
]

unfoldable pub subir_prioridad : ℕ → Sistema → Fin
subir_prioridad c s =
    vuelve (ok 0) (poner_env c (record (s.envs c) { env_priority = (s.envs c).env_priority + 1 }) s)

-- the numbers of inc/syscall.h with their arguments; `otra` is any other number
pub data Pedido : Type 0 where
  cputs : ℕ → ℕ → Pedido
  cgetc : Pedido
  getenvid : Pedido
  env_destruir : ℕ → Pedido
  page_alloc : ℕ → ℕ → ℕ → Pedido
  page_map : ℕ → ℕ → ℕ → ℕ → ℕ → Pedido
  page_unmap : ℕ → ℕ → Pedido
  exofork : Pedido
  env_set_status : ℕ → ℕ → Pedido
  env_set_pgfault_upcall : ℕ → ℕ → Pedido
  yield : Pedido
  ipc_try_send : ℕ → ℕ → ℕ → ℕ → Pedido
  ipc_recv : ℕ → Pedido
  obtener_prioridad : ℕ → Pedido
  modificar_prioridad : Pedido
  otra : Pedido

-- `tecla` is what `cons_getc` gives.
unfoldable pub syscall : ℕ → ℕ → Pedido → Sistema → Fin
syscall tecla c (cputs a1 a2) s = sys_cputs c a1 a2 s
syscall tecla c cgetc s = vuelve (ok tecla) s
syscall tecla c getenvid s = sys_getenvid c s
syscall tecla c (env_destruir a1) s = sys_env_destroy c a1 s
syscall tecla c (page_alloc a1 a2 a3) s = sys_page_alloc c a1 a2 a3 s
syscall tecla c (page_map a1 a2 a3 a4 a5) s = sys_page_map c a1 a2 a3 a4 a5 s
syscall tecla c (page_unmap a1 a2) s = sys_page_unmap c a1 a2 s
syscall tecla c exofork s = sys_exofork c s
syscall tecla c (env_set_status a1 a2) s = sys_env_set_status c a1 a2 s
syscall tecla c (env_set_pgfault_upcall a1 a2) s = sys_env_set_pgfault_upcall c a1 a2 s
syscall tecla c yield s = cede (some c) s
syscall tecla c (ipc_try_send a1 a2 a3 a4) s = sys_ipc_try_send c a1 a2 a3 a4 s
syscall tecla c (ipc_recv a1) s = sys_ipc_recv c a1 s
syscall tecla c (obtener_prioridad a1) s = sys_obtener_prioridad c a1 s
syscall tecla c modificar_prioridad s = subir_prioridad c s
syscall tecla c otra s = vuelve (err e_inval) s
