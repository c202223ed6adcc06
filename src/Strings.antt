-- ===== src/Strings.antt =====
-- The string routines of TP2-sched/lib/string.c, what they promise and runs of them.
pub mod Rutinas
pub mod Comparar
pub mod Copiar
pub mod Numeros
pub mod Formato
mod Pruebas
