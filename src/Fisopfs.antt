-- ===== src/Fisopfs.antt =====
-- TP3-fisopfs: a file system in memory served through FUSE.
pub mod Tipos
pub mod Rutas
pub mod Inodos
pub mod Entradas
pub mod Archivos
pub mod Directorios
pub mod Montaje
pub mod Llamadas
pub mod Invariante
pub mod Contrato
mod Pruebas
