-- ===== src/Planificador/RoundRobin.antt =====
-- `sched_yield` of TP2-sched/kern/sched.c, under each of the policies that the build chooses from.
use sistemas_operarivos_fiub.Base.{ℕ, ◌+◌, ◌%◌, Bool, none, some, if◌then◌else◌, first_from}
use sistemas_operarivos_fiub.Planificador.Tipos.{Nucleo, Salida, nenv, es_runnable, es_running}
use sistemas_operarivos_fiub.Planificador.Correr.{env_run, sched_halt, anotar_fin}
use sistemas_operarivos_fiub.Planificador.Prioridades.{sched_prioridades}

-- SCHED_ROUND_ROBIN, SCHED_PRIORITIES, or neither
pub data Politica : Type 0 where
  round_robin prioridades ninguna : Politica

-- `(curenv ? curenv - envs : 0) % NENV`
unfoldable pub env_anterior : Nucleo → ℕ
env_anterior k = elim k.curenv [ none ↦ 0 | some c ↦ c % nenv ]

unfoldable pub en_turno : Nucleo → ℕ → Bool
en_turno k i = es_runnable (k.envs ((env_anterior k + i) % nenv)).env_status

unfoldable pub sched_round_robin : ℕ → Nucleo → Salida
sched_round_robin cpu k =
    let k' = anotar_fin k in
    elim (first_from (en_turno k') 0 nenv) [
      | some i ↦
          let e = (env_anterior k' + i) % nenv in env_run cpu e (record k' { last_env = some e })
      | none ↦ elim k'.curenv [
        | none ↦ sched_halt (record k' { last_env = none })
        | some c ↦
            if es_running (k'.envs c).env_status
            then env_run cpu c (record k' { last_env = some c })
            else sched_halt (record k' { last_env = none })
      ]
    ]

-- the code below both policies
unfoldable pub sin_politica : ℕ → Nucleo → Salida
sin_politica cpu k = elim k.curenv [
  | none ↦ sched_halt k
  | some c ↦ env_run cpu c (record k { last_env = some c })
]

unfoldable pub sched_yield : Politica → ℕ → Nucleo → Salida
sched_yield politica cpu k =
    let k' = record k { sched_calls = k.sched_calls + 1; time = k.time + 1 } in
    elim politica [
      | round_robin ↦ sched_round_robin cpu k'
      | prioridades ↦ sched_prioridades cpu k'
      | ninguna ↦ sin_politica cpu k'
    ]
