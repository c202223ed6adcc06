-- ===== src/Planificador/Pruebas.antt =====
-- Runs of the scheduler on small tables, and the theorems at concrete kernels.
use sistemas_operarivos_fiub.Base.{
  ℕ, ◌+◌, ◌≡◌, inr, refl, false, none, some, ◌==◌, if◌then◌else◌, arith, update, first_from,
}
use sistemas_operarivos_fiub.Planificador.Tipos.{
  Env, Estado, Nucleo, corre, parada, monitor, es_runnable,
}
use sistemas_operarivos_fiub.Planificador.Correr.{
  soltar, env_run, esta_vivo, sched_halt, actualizar_stats_proceso, anotar_fin,
}
use sistemas_operarivos_fiub.Planificador.Prioridades.{
  mejora, elegir, siguiente, reponer, ajustar, correr_elegido, correr_actual, sched_prioridades,
}
use sistemas_operarivos_fiub.Planificador.RoundRobin.{
  round_robin, env_anterior, en_turno, sched_round_robin, sin_politica, sched_yield,
}
use sistemas_operarivos_fiub.Planificador.Contrato.Eleccion.{sched_prioridades-ocioso}
use sistemas_operarivos_fiub.Planificador.Contrato.Estados.{Exclusivo, sched_yield-Exclusivo}
use sistemas_operarivos_fiub.Planificador.Contrato.Rango.{nucleo_de}
use sistemas_operarivos_fiub.Planificador.Contrato.Atasco.{
  Atascado, sched_prioridades-Atascado, sys_modificar_prioridad,
}

-- all that a run computes with
abbrev planificador : ℕ
unfolding update first_from soltar env_run esta_vivo sched_halt actualizar_stats_proceso anotar_fin
    mejora elegir siguiente reponer ajustar correr_elegido correr_actual sched_prioridades
    env_anterior en_turno sched_round_robin sin_politica sched_yield sys_modificar_prioridad
planificador = 0

abbrev proceso : ℕ → Estado → ℕ → Env
proceso id estado prioridad = record {
  env_id = 4096 + id;
  env_status = estado;
  env_runs = 1;
  env_cpunum = 0;
  env_priority = prioridad;
  env_start_time = 0;
  env_finish_time = 0;
  env_count = 1;
}

-- 0 is running, 1 and 2 wait with the priorities 5 and 2
abbrev tres : Nucleo
tres = record {
  envs = λ i.
      if i == 0
      then proceso 0 Estado.env_running 3
      else if i == 1
      then proceso 1 Estado.env_runnable 5
      else if i == 2
      then proceso 2 Estado.env_runnable 2
      else proceso i Estado.env_free 0;
  curenv = some 0;
  last_env = none;
  sched_calls = 0;
  env_executed = 0;
  time = 0;
}

abbrev todos : Estado → ℕ → Nucleo
todos estado prioridad = record {
  envs = λ i. proceso i estado prioridad;
  curenv = none;
  last_env = none;
  sched_calls = 0;
  env_executed = 0;
  time = 0;
}

rinde_uno : sched_yield round_robin 0 tres ≡ corre 1 (nucleo_de (sched_yield round_robin 0 tres))
unfolding planificador
rinde_uno = refl

vacio_para :
    sched_prioridades 0 (todos Estado.env_not_runnable 3)
    ≡ monitor (nucleo_de (sched_prioridades 0 (todos Estado.env_not_runnable 3)))
unfolding planificador
vacio_para = refl

todos_corre :
    sched_prioridades 0 (todos Estado.env_runnable 5)
    ≡ corre 0 (nucleo_de (sched_prioridades 0 (todos Estado.env_runnable 5)))
unfolding planificador
todos_corre = refl

sched_prioridades-ocioso_example :
    es_runnable ((todos Estado.env_not_runnable 3).envs 7).env_status ≡ false
sched_prioridades-ocioso_example =
    sched_prioridades-ocioso 0 (todos Estado.env_not_runnable 3) (λ j l. omega arith)
      (inr vacio_para) 7 (omega arith)

sched_yield-Exclusivo_example : Exclusivo 0 1 tres (nucleo_de (sched_yield round_robin 0 tres))
sched_yield-Exclusivo_example = sched_yield-Exclusivo round_robin 0 tres rinde_uno

once : Atascado 4 (todos Estado.env_runnable 11)
once = record {
  en_tabla = omega arith;
  espera = refl;
  sin_actual = refl;
  fuera = λ j l t. omega arith;
}

sched_prioridades-Atascado_example :
    (k' : Nucleo) × (sched_prioridades 0 (todos Estado.env_runnable 11) ≡ parada k') × Atascado 4 k'
sched_prioridades-Atascado_example =
    sched_prioridades-Atascado 0 4 (todos Estado.env_runnable 11) once

-- The system call takes a priority of 10 out of the range.
sale_del_rango :
    ((sys_modificar_prioridad (record (todos Estado.env_running 10) { curenv = some 0 })).envs
      0).env_priority
    ≡ 11
unfolding planificador
sale_del_rango = refl
