-- ===== src/Planificador/Tipos.antt =====
-- TP2-sched/inc/env.h: the environments, and the variables of kern/sched.c and kern/env.c that the
-- scheduler reads and writes. A pointer into `envs` is an index. The saved registers, the page
-- directory, the free list and the IPC fields are left out: nothing here depends on them.
use sistemas_operarivos_fiub.Base.{ℕ, Bool, true, false, Option}

pub data Estado : Type 0 where
  env_free env_dying env_runnable env_running env_not_runnable : Estado

pub record Env : Type 0 where
  pub env_id : ℕ
  pub env_status : Estado
  pub env_runs : ℕ
  pub env_cpunum : ℕ
  pub env_priority : ℕ
  pub env_start_time : ℕ
  pub env_finish_time : ℕ
  pub env_count : ℕ

-- `NENV`
abbrev pub nenv : ℕ
nenv = 1024

abbrev pub prioridad_min : ℕ
prioridad_min = 1

abbrev pub prioridad_max : ℕ
prioridad_max = 10

-- `sched_stats` is the last three fields.
pub record Nucleo : Type 0 where
  pub envs : ℕ → Env
  pub curenv : Option ℕ
  pub last_env : Option ℕ
  pub sched_calls : ℕ
  pub env_executed : ℕ
  pub time : ℕ

-- The scheduler does not return: it goes on in an environment, halts the CPU until an interrupt, or
-- stays in the kernel monitor.
pub data Salida : Type 0 where
  corre : ℕ → Nucleo → Salida
  parada : Nucleo → Salida
  monitor : Nucleo → Salida

abbrev pub es_runnable : Estado → Bool
es_runnable env_runnable = true
es_runnable _ = false

abbrev pub es_running : Estado → Bool
es_running env_running = true
es_running _ = false

abbrev pub es_dying : Estado → Bool
es_dying env_dying = true
es_dying _ = false
