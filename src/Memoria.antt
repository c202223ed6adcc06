-- ===== src/Memoria.antt =====
-- The memory of TP2-sched/kern/pmap.c: the physical pages, the page tables, what they promise.
pub mod Tipos
pub mod Paginas
pub mod Tablas
pub mod Pruebas
