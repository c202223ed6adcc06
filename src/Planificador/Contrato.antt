-- ===== src/Planificador/Contrato.antt =====
-- What the scheduler of TP2-sched promises.
pub mod Eleccion
pub mod Estados
pub mod Rango
pub mod Atasco
