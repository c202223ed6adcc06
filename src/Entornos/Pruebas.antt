-- ===== src/Entornos/Pruebas.antt =====
-- The table of environments of TP2-sched/kern/env.c after some calls, and the theorems there.
use sistemas_operarivos_fiub.Base.{
  ℕ, ◌%◌, ◌^◌, ◌<◌, ◌≡◌, ◌≢◌, refl, true, false, none, some, update, arith,
}
use sistemas_operarivos_fiub.Planificador.Tipos.{nenv}
use sistemas_operarivos_fiub.Memoria.Tipos.{ok, err, e_no_mem, e_no_free_env}
use sistemas_operarivos_fiub.Entornos.Tabla.{
  Ranura, Tabla, env_init, generacion, nuevo_id, ocupar, env_alloc, env_free, envid2env,
}
use sistemas_operarivos_fiub.Entornos.Ids.{env_alloc-envid2env}

-- all that a run computes with
abbrev tabla_de_entornos : ℕ
unfolding update env_init generacion nuevo_id ocupar env_alloc env_free envid2env
tabla_de_entornos = 0

abbrev vacia : ℕ → Ranura
vacia i = record { env_id = 0; env_parent_id = 0; libre = true; env_link = none }

-- one environment has been created and freed
abbrev usada : Tabla
usada = env_free 0 (ocupar 0 0 (env_init vacia))

primero_run : env_alloc true 0 (env_init vacia) ≡ (ok 0, ocupar 0 0 (env_init vacia))
unfolding tabla_de_entornos
primero_run = refl

-- the two errors, which leave the table
error_run :
    (env_alloc false 0 usada ≡ (err e_no_mem, usada))
    × (env_alloc true 0 (record usada { env_free_list = none })
        ≡ (err e_no_free_env, record usada { env_free_list = none }))
unfolding tabla_de_entornos
error_run = (refl, refl)

usada_id : (usada.envs 0).env_id ≡ 4096
unfolding tabla_de_entornos
usada_id = refl

cabeza : usada.env_free_list ≡ some 0
unfolding tabla_de_entornos
cabeza = refl

corto : (usada.envs 0).env_id < 2 ^ 31
unfolding tabla_de_entornos
corto = omega arith

positivo : 0 < (usada.envs 0).env_id
unfolding tabla_de_entornos
positivo = omega arith

indice : (usada.envs 0).env_id % nenv ≡ 0
unfolding tabla_de_entornos
indice = refl

env_alloc-envid2env_example :
    (t' : Tabla) × (env_alloc true 9 usada ≡ (ok 0, t'))
    × (t'.env_free_list ≡ (usada.envs 0).env_link)
    × ((t'.envs 0).libre ≡ false)
    × ((j : ℕ) → j ≢ 0 → t'.envs j ≡ usada.envs j)
    × (envid2env 3 (t'.envs 0).env_id false t' ≡ some 0)
    × (envid2env 3 (usada.envs 0).env_id true t' ≡ none)
env_alloc-envid2env_example =
    env_alloc-envid2env 9 3 0 true usada cabeza (omega arith) corto positivo indice
