-- ===== src/Sistema/Mensajes.antt =====
-- sys_ipc_try_send and sys_ipc_recv of TP2-sched/kern/syscall.c, by the environment c.
pub mod Entrega
use Prim.Native.Nat.{bit_or}
use sistemas_operarivos_fiub.Base.{
  ℕ, ◌/◌, ◌%◌, Bool, true, false, ◌&&◌, not, Option, none, some, ◌==◌, leb, if◌then◌else◌,
}
use sistemas_operarivos_fiub.Planificador.Tipos.{Estado}
use sistemas_operarivos_fiub.Memoria.Tipos.{
  pgsize, utop, Memoria, e_bad_env, e_inval, e_ipc_not_recv, Respuesta, ok, err,
}
use sistemas_operarivos_fiub.Memoria.Tablas.{page_lookup}
use sistemas_operarivos_fiub.Sistema.Tipos.{
  Proceso, Sistema, Fin, vuelve, cede, panico, indefinido, buscar_env, poner_env, con_memoria,
}
use sistemas_operarivos_fiub.Sistema.Paginas.{env_page_alloc, env_page_map, mala_va, sube_permiso}

-- from `bail` on: the receiver has the value, and can run again
unfoldable pub recibido : ℕ → ℕ → Proceso → Proceso
recibido from value p = record p {
  env_ipc_from = from;
  env_ipc_recving = false;
  env_ipc_value = value;
  reg_eax = 0;
  env_status = Estado.env_runnable;
}

unfoldable pub entregar : ℕ → ℕ → ℕ → ℕ → Sistema → Sistema
entregar c dst value perm s =
    poner_env dst (recibido (s.envs c).env_id value (record (s.envs dst) { env_ipc_perm = perm })) s

-- a page is mapped for the receiver, over a new one, where it asks for a page
unfoldable pub enviar_pagina : ℕ → ℕ → ℕ → ℕ → ℕ → Sistema → Fin
enviar_pagina c dst value srcva perm s =
    if (s.envs dst).env_ipc_dstva == 0
    then vuelve (ok 0) (entregar c dst value (s.envs dst).env_ipc_perm s)
    else elim (env_page_alloc (s.envs dst).env_pgdir (s.envs dst).env_ipc_dstva perm s.memoria) [
      | none ↦ panico
      | some (err e, m) ↦ vuelve (err e) (con_memoria m s)
      | some (ok _, m) ↦
          elim (env_page_map (s.envs c).env_pgdir srcva (s.envs dst).env_pgdir
            (s.envs dst).env_ipc_dstva perm m) [
              | none ↦ panico
              | some (err e, m') ↦ vuelve (err e) (con_memoria m' s)
              | some (ok _, m') ↦ vuelve (ok 0) (entregar c dst value perm (con_memoria m' s))
            ]
    ]

-- the tests on the entry of `srcva`, which has no value where the page is not mapped
unfoldable pub revisar_pagina : ℕ → ℕ → ℕ → ℕ → ℕ → Sistema → Fin
revisar_pagina c dst value srcva perm s = elim (s.envs c).env_pgdir [
  | none ↦ panico
  | some pd ↦ elim (page_lookup pd srcva s.memoria) [
    | none ↦ panico
    | some none ↦ indefinido
    | some (some (p, t, i)) ↦
        let v = s.memoria.mem t i in
        if not (v == 0) && (v % 2 == 0)
        then vuelve (err e_inval) s
        else if sube_permiso perm v
        then vuelve (err e_inval) s
        else enviar_pagina c dst value srcva (bit_or perm 5) s
  ]
]

unfoldable pub sys_ipc_try_send : ℕ → ℕ → ℕ → ℕ → ℕ → Sistema → Fin
sys_ipc_try_send c envid value srcva perm s = elim (buscar_env c envid false s) [
  | none ↦ vuelve (err e_bad_env) s
  | some dst ↦
      if (s.envs dst).env_ipc_recving
      then if leb utop srcva
        then vuelve (ok 0) (entregar c dst value 0 s)
        else if srcva % pgsize == 0
        then revisar_pagina c dst value srcva perm s
        else vuelve (err e_inval) s
      else vuelve (err e_ipc_not_recv) s
]

unfoldable pub recibiendo : Proceso → Proceso
recibiendo p = record p { env_ipc_recving = true }

-- `env_ipc_recving` is set before the address is looked at.
unfoldable pub sys_ipc_recv : ℕ → ℕ → Sistema → Fin
sys_ipc_recv c dstva s =
    if mala_va dstva
    then vuelve (err e_inval) (poner_env c (recibiendo (s.envs c)) s)
    else cede (some c) (
        poner_env c
          (record (recibiendo (s.envs c)) {
            env_ipc_dstva = dstva;
            env_status = Estado.env_not_runnable;
          })
          s)
