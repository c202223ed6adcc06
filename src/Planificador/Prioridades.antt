-- ===== src/Planificador/Prioridades.antt =====
-- `sched_prioridades` of TP2-sched/kern/sched.c.
pub mod Eleccion
use sistemas_operarivos_fiub.Base.{
  ℕ, zero, suc, ◌+◌, ◌%◌, Bool, true, false, ◌&&◌, Option, none, some, ◌==◌, ltb, if◌then◌else◌,
  update,
}
use sistemas_operarivos_fiub.Planificador.Tipos.{
  Env, Nucleo, Salida, nenv, prioridad_min, prioridad_max, es_runnable, es_running,
}
use sistemas_operarivos_fiub.Planificador.Correr.{
  env_run, sched_halt, actualizar_stats_proceso, anotar_fin,
}

-- the test of the loop: `ind` is runnable and of a lower number than the best so far
unfoldable pub mejora : (ℕ → Env) → ℕ → ℕ → Bool
mejora envs ind prioridad_actual =
    es_runnable (envs ind).env_status && ltb (envs ind).env_priority prioridad_actual

-- `for (i = from; i < from + n; i++)`, with `elegido` and `prioridad_actual`
unfoldable pub elegir : (ℕ → Env) → ℕ → ℕ → ℕ → Option ℕ → ℕ → Option ℕ
elegir envs next from zero elegido actual = elegido
elegir envs next from (suc n) elegido actual =
    let ind = (from + next) % nenv in
    let b = mejora envs ind actual in
    elegir envs next (suc from) n (if b then some ind else elegido)
      (if b then (envs ind).env_priority else actual)

-- `ENVX(curenv->env_id) + 1`, or 0
unfoldable pub siguiente : Nucleo → ℕ
siguiente k = elim k.curenv [ none ↦ 0 | some c ↦ (k.envs c).env_id % nenv + 1 ]

-- all the runnable environments, at the best priority
unfoldable pub reponer : (ℕ → Env) → ℕ → Env
reponer envs i =
    if ltb i nenv && es_runnable (envs i).env_status
    then record (envs i) { env_priority = prioridad_min }
    else envs i

-- the priorities after `e` has been chosen
unfoldable pub ajustar : ℕ → (ℕ → Env) → ℕ → Env
ajustar e envs =
    if (envs e).env_priority == prioridad_max
    then reponer envs
    else if ltb 0 (envs e).env_runs
    then update envs e (record (envs e) { env_priority = (envs e).env_priority + 1 })
    else envs

unfoldable pub correr_elegido : ℕ → ℕ → Nucleo → Salida
correr_elegido cpu e k =
    let k' = actualizar_stats_proceso e (record k { envs = ajustar e k.envs }) in
    env_run cpu e (record k' { last_env = some e })

-- no environment has been chosen
unfoldable pub correr_actual : ℕ → Nucleo → Salida
correr_actual cpu k = elim k.curenv [
  | none ↦ sched_halt k
  | some c ↦
      if es_running (k.envs c).env_status && (k.envs c).env_cpunum == cpu
      then env_run cpu c (record k { last_env = some c })
      else sched_halt k
]

unfoldable pub sched_prioridades : ℕ → Nucleo → Salida
sched_prioridades cpu k =
    let k' = anotar_fin (record k { time = k.time + 1 }) in
    elim (elegir k'.envs (siguiente k) 0 nenv none (prioridad_max + 1)) [
      | none ↦ correr_actual cpu k'
      | some e ↦ correr_elegido cpu e k'
    ]
