-- ===== src/Planificador/Correr.antt =====
-- `env_run` of TP2-sched/kern/env.c; `sched_halt`, `actualizar_stats_proceso` and the choice of
-- policy of kern/sched.c.
use sistemas_operarivos_fiub.Base.{
  ℕ, ◌+◌, ◌%◌, ◌^◌, Bool, false, ◌&&◌, ◌||◌, not, Option, none, some, ◌==◌, if◌then◌else◌, update,
  first_from,
}
use sistemas_operarivos_fiub.Planificador.Tipos.{
  env_runnable, env_running, Env, Nucleo, Salida, corre, parada, monitor, nenv, es_runnable,
  es_running, es_dying,
}

-- two `struct Env *` are the same
abbrev pub es_el : Option ℕ → ℕ → Bool
es_el none e = false
es_el (some c) e = c == e

-- The previous environment of this CPU goes back to the runnable ones.
unfoldable pub soltar : Nucleo → ℕ → ℕ → Env
soltar k e = elim k.curenv [
  | none ↦ k.envs
  | some c ↦
      if es_running (k.envs c).env_status && not (c == e)
      then update k.envs c (record (k.envs c) { env_status = env_runnable })
      else k.envs
]

-- `cpu` is `cpunum()`. The page directory is loaded, the lock given up and the context switched
-- outside the model.
unfoldable pub env_run : ℕ → ℕ → Nucleo → Salida
env_run cpu e k =
    let sueltos = soltar k e in
    corre e (record k {
      envs = update sueltos e (record (sueltos e) {
        env_status = env_running;
        env_runs = ((sueltos e).env_runs + 1) % 2 ^ 32;
        env_cpunum = cpu;
      });
      curenv = some e;
    })

unfoldable pub esta_vivo : (ℕ → Env) → ℕ → Bool
esta_vivo envs i =
    es_runnable (envs i).env_status
    || (es_running (envs i).env_status || es_dying (envs i).env_status)

-- With no environment alive the kernel monitor is entered for good.
unfoldable pub sched_halt : Nucleo → Salida
sched_halt k = elim (first_from (esta_vivo k.envs) 0 nenv) [
  | none ↦ monitor k
  | some _ ↦ parada (record k { curenv = none; last_env = none })
]

unfoldable pub actualizar_stats_proceso : ℕ → Nucleo → Nucleo
actualizar_stats_proceso e k =
    let p = k.envs e in
    let primera = p.env_runs == 0 in
    record k {
      envs = update k.envs e (record p {
        env_count = p.env_count + 1;
        env_start_time = if primera then k.time else p.env_start_time;
        env_runs = (p.env_runs + 1) % 2 ^ 32;
      });
      env_executed = if primera then k.env_executed + 1 else k.env_executed;
    }

-- `if (last_env && last_env != curenv && last_env->env_status != ENV_RUNNING) …`
unfoldable pub anotar_fin : Nucleo → Nucleo
anotar_fin k = elim k.last_env [
  | none ↦ k
  | some l ↦
      if not (es_el k.curenv l) && not (es_running (k.envs l).env_status)
      then record k { envs = update k.envs l (record (k.envs l) { env_finish_time = k.time }) }
      else k
]
