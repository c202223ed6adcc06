-- ===== src/Fisopfs/Contrato.antt =====
-- What the operations of TP3-fisopfs promise, stated on files as bytes and directories as lists.
pub mod Listas
pub mod Bytes
pub mod Borrado
pub mod Creado
pub mod Errores
pub mod Sanidad
