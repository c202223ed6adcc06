-- ===== src/Sistema/Pruebas.antt =====
-- A system of two environments, runs of system calls of TP2-sched/kern/syscall.c, and the theorems there.
use Prim.Native.Nat.{bit_or}
use sistemas_operarivos_fiub.Base.{
  ℕ, ◌+◌, ◌*◌, ◌/◌, ◌≡◌, Option, refl, true, false, none, some, ◌==◌, if◌then◌else◌, update, arith,
}
use sistemas_operarivos_fiub.Planificador.Tipos.{Estado}
use sistemas_operarivos_fiub.Entornos.Tabla.{envid2env, generacion, nuevo_id}
use sistemas_operarivos_fiub.Memoria.Tipos.{
  pdx, ptx, Memoria, Error, e_inval, e_ipc_not_recv, Respuesta, ok, err, escribir_palabra,
  borrar_pagina, entrada_de,
}
use sistemas_operarivos_fiub.Memoria.Paginas.{
  sacar, page_alloc, devolver, page_free, poner_ref, page_incref, page_decref,
}
use sistemas_operarivos_fiub.Memoria.Tablas.{
  crear_tabla, ubicar, pgdir_walk, page_lookup, page_remove, page_insert, falta_permiso, revisar,
  user_mem_check,
}
use sistemas_operarivos_fiub.Memoria.Tablas.Entradas.{leer_en, tabla, PgdirOk}
use sistemas_operarivos_fiub.Sistema.Procesos.Directorio.{env_setup_vm-PgdirOk}
use sistemas_operarivos_fiub.Memoria.Pruebas.{chica, chica-PgdirOk, chica-LibreAjena}
use sistemas_operarivos_fiub.Sistema.Tipos.{
  Proceso, Sistema, Fin, vuelve, cede, buscar_env, poner_env, con_memoria, responder,
}
use sistemas_operarivos_fiub.Sistema.Procesos.{
  copiar_kernel, env_setup_vm, nuevo_env, env_alloc, vaciar_tabla, vaciar_entrada, vaciar_desde,
  liberar_pgdir, env_free, env_destroy, user_mem_assert,
}
use sistemas_operarivos_fiub.Sistema.Paginas.{
  check_perm, env_page_alloc, sube_permiso, env_page_map, mala_va, sys_page_alloc, sys_page_map,
  sys_page_unmap,
}
use sistemas_operarivos_fiub.Sistema.Paginas.Mapa.{sys_page_map-perm}
use sistemas_operarivos_fiub.Sistema.Mensajes.{
  recibido, entregar, enviar_pagina, revisar_pagina, sys_ipc_try_send, recibiendo, sys_ipc_recv,
}
use sistemas_operarivos_fiub.Sistema.Mensajes.Entrega.{
  Entregado, sys_ipc_try_send-Entregado, sys_ipc_recv-Entregado, sys_ipc_recv-rechazada,
}
use sistemas_operarivos_fiub.Sistema.Llamadas.{
  sys_cputs, sys_getenvid, sys_env_destroy, hijo_de, sys_exofork, sys_env_set_status,
  sys_env_set_pgfault_upcall, sys_obtener_prioridad, subir_prioridad, page_map, syscall,
}
use sistemas_operarivos_fiub.Sistema.Fork.{
  uvpd, uvpt, mover_pagina, exigir, despues, falla_ajena, pgfault, duppage, filtrar, dup_or_share,
  turno_v0, turno, turnos, preparar_upcall, set_pgfault_handler,
}
use sistemas_operarivos_fiub.Sistema.Llamadas.Permisos.{Ajeno, mapea_a, syscall-Ajeno}

-- all that a run computes with
abbrev llamadas : ℕ
unfolding update envid2env generacion nuevo_id escribir_palabra borrar_pagina entrada_de sacar
    page_alloc devolver page_free poner_ref page_incref page_decref crear_tabla ubicar pgdir_walk
    page_lookup page_remove page_insert falta_permiso revisar user_mem_check leer_en poner_env
    con_memoria responder copiar_kernel env_setup_vm nuevo_env env_alloc vaciar_tabla vaciar_entrada
    vaciar_desde liberar_pgdir env_free env_destroy user_mem_assert check_perm env_page_alloc
    sube_permiso env_page_map mala_va sys_page_alloc sys_page_map sys_page_unmap recibido entregar
    enviar_pagina revisar_pagina sys_ipc_try_send recibiendo sys_ipc_recv sys_cputs sys_getenvid
    sys_env_destroy hijo_de sys_exofork sys_env_set_status sys_env_set_pgfault_upcall
    sys_obtener_prioridad subir_prioridad syscall uvpd uvpt mover_pagina exigir despues falla_ajena
    pgfault duppage filtrar dup_or_share turno_v0 turno turnos preparar_upcall set_pgfault_handler
llamadas = 0

-- The environments 0, 1 and 2 are running, with the ids 4096, 4097 and 4098; 0 has the directory of
-- the small memory, and the parent of each is the environment of the id 1.
abbrev proceso : ℕ → Proceso
proceso i = record {
  env_id = if i == 0 then 4096 else if i == 1 then 4097 else 4098;
  env_parent_id = 1;
  env_status = if i == 3 then Estado.env_free else Estado.env_running;
  env_link = none;
  env_pgdir = some 1;
  env_pgfault_upcall = 0;
  env_ipc_recving = i == 2;
  env_ipc_dstva = 0;
  env_ipc_value = 0;
  env_ipc_from = 0;
  env_ipc_perm = 0;
  env_priority = i;
  env_runs = 0;
  reg_eax = 9;
  registros = 0;
}

abbrev sistema : Sistema
sistema = record { envs = proceso; env_free_list = some 3; kern_pgdir = 1; memoria = chica }

abbrev respuesta_de : Fin → Respuesta ℕ
respuesta_de (vuelve r s) = r
respuesta_de _ = err e_inval

hijo_run : respuesta_de (sys_exofork 0 sistema) ≡ ok 8195
unfolding llamadas
hijo_run = refl

hallado : buscar_env 0 4097 false sistema ≡ some 1
unfolding llamadas
hallado = refl

hallado_que_espera : buscar_env 0 4098 false sistema ≡ some 2
unfolding llamadas
hallado_que_espera = refl

buena : mala_va 4096 ≡ false
unfolding llamadas
buena = refl

mala : mala_va 4097 ≡ true
unfolding llamadas
mala = refl

sys_ipc_try_send-Entregado_example :
    (s' : Sistema) × (sys_ipc_try_send 0 4098 77 0xf0000000 0 sistema ≡ vuelve (ok 0) s')
    × Entregado sistema s' 0 2 77
    × ((c' id v va p : ℕ)
        → buscar_env c' id false sistema ≡ some 2
        → sys_ipc_try_send c' id v va p s' ≡ vuelve (err e_ipc_not_recv) s')
sys_ipc_try_send-Entregado_example =
    sys_ipc_try_send-Entregado 0 2 4098 77 0xf0000000 0 sistema hallado_que_espera refl refl
      (omega arith)

sys_ipc_recv-Entregado_example :
    (s1 s2 : Sistema) × (sys_ipc_recv 1 4096 sistema ≡ cede (some 1) s1)
    × ((s1.envs 1).env_status ≡ Estado.env_not_runnable)
    × (sys_ipc_try_send 0 4097 5 0xf0000000 0 s1 ≡ vuelve (ok 0) s2)
    × Entregado s1 s2 0 1 5
sys_ipc_recv-Entregado_example =
    sys_ipc_recv-Entregado 0 1 4097 5 4096 0xf0000000 0 sistema buena refl hallado (omega arith)

sys_ipc_recv-rechazada_example :
    (s1 s2 : Sistema) × (sys_ipc_recv 1 4097 sistema ≡ vuelve (err e_inval) s1)
    × (sys_ipc_try_send 0 4097 5 0xf0000000 0 s1 ≡ vuelve (ok 0) s2)
    × Entregado s1 s2 0 1 5
sys_ipc_recv-rechazada_example =
    sys_ipc_recv-rechazada 0 1 4097 5 4097 0xf0000000 0 sistema mala refl hallado (omega arith)

ajeno : Ajeno 0 4097 sistema
ajeno = record { nombrado = ground arith; no_es = ground arith; no_hijo = ground arith }

syscall-Ajeno_example :
    (e : Error) × (syscall 0 0 (page_map 0 0 4097 4096 7) sistema ≡ vuelve (err e) sistema)
syscall-Ajeno_example =
    syscall-Ajeno 0 0 4097 (page_map 0 0 4097 4096 7) sistema ajeno (mapea_a 0 0 4096 7)

-- page 5 is asked for with the bits of page 8 in the permissions
abbrev desviada : Memoria
desviada = elim (page_insert 1 5 4096 (bit_or 5 0x8007) chica) [ none ↦ chica | some (r, m) ↦ m ]

desviada_run : page_insert 1 5 4096 (bit_or 5 0x8007) chica ≡ some (ok 0, desviada)
unfolding llamadas
desviada_run = refl

propia : page_lookup 1 0 chica ≡ some (some (5, 2, 0))
unfolding llamadas
propia = refl

escribible : sube_permiso (bit_or 5 0x8007) (chica.mem 2 0) ≡ false
unfolding llamadas
escribible = refl

cero_buena : mala_va 0 ≡ false
unfolding llamadas
cero_buena = refl

sys_page_map-perm_example :
    (sys_page_map 0 0 0 0 4096 0x8007 sistema ≡ vuelve (ok 0) (con_memoria desviada sistema))
    × (page_lookup 1 4096 desviada
        ≡ some (some (bit_or 5 (0x8007 / 4096), tabla desviada 1 (pdx 4096), ptx 4096)))
sys_page_map-perm_example =
    sys_page_map-perm 0 0 4096 0x8007 1 5 2 0 sistema desviada chica-PgdirOk chica-LibreAjena
      cero_buena buena refl propia escribible desviada_run (omega arith)

-- the memory with the directory that `env_setup_vm` makes from that of the kernel
abbrev preparada : Memoria
preparada = elim (env_setup_vm 1 chica) [ none ↦ chica | some (r, m) ↦ m ]

preparada_run : env_setup_vm 1 chica ≡ some (ok 3, preparada)
unfolding llamadas
preparada_run = refl

preparada_sana : PgdirOk preparada 3
preparada_sana =
    env_setup_vm-PgdirOk 1 3 chica preparada chica-PgdirOk chica-LibreAjena preparada_run

abbrev tras_paso : Option Sistema → Sistema
tras_paso none = sistema
tras_paso (some s) = s

-- `duppage` marks the page at 0, which is writable, as copy-on-write and read-only
cow_run : uvpt 0 0 (tras_paso (duppage 0 0 0 sistema)) ≡ some (5 * 4096 + 0x800 + 5)
unfolding llamadas
cow_run = refl

-- a fault at the page then has it copied to a page of its own, with its words
copia_run :
    (uvpt 0 0 (tras_paso (pgfault 0 100 2 (tras_paso (duppage 0 0 0 sistema))))
      ≡ some (3 * 4096 + 7))
    × (uvpt 0 0x7ff (tras_paso (pgfault 0 100 2 (tras_paso (duppage 0 0 0 sistema)))) ≡ some 0)
unfolding llamadas
copia_run = (refl, refl)

-- a write fault at a page that is not copy-on-write passes the guard
guarda_run : falla_ajena 2 (5 * 4096 + 5) ≡ false
unfolding llamadas
guarda_run = refl

-- the first four pages, of which one is mapped
vuelta_run : uvpt 0 0 (tras_paso (turnos (turno 0 0) 0 4 sistema)) ≡ some (5 * 4096 + 0x800 + 5)
unfolding llamadas
vuelta_run = refl
