-- ===== src/Planificador.antt =====
-- TP2-sched/kern/sched.c and `env_run` of kern/env.c: which environment a CPU runs next.
pub mod Tipos
pub mod Correr
pub mod Prioridades
pub mod RoundRobin
pub mod Campos
pub mod Contrato
mod Pruebas
