-- ===== src/Entornos.antt =====
-- The table of environments of TP2-sched/kern/env.c, what its ids promise and runs of it.
pub mod Tabla
pub mod Ids
mod Pruebas
