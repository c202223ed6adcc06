-- ===== src/Shell.antt =====
-- TP1-shell: what it reads and how it is run, what the operations promise and runs of them.
pub mod Tipos
pub mod Lineas
pub mod Parsing
pub mod Ejecucion
mod Pruebas
