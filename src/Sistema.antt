-- ===== src/Sistema.antt =====
-- The system calls of TP2-sched/kern/syscall.c over environments with memory, and what they promise.
pub mod Tipos
pub mod Procesos
pub mod Paginas
pub mod Mensajes
pub mod Llamadas
pub mod Fork
mod Pruebas
