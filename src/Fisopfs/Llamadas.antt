-- ===== src/Fisopfs/Llamadas.antt =====
-- `operations` of TP3-fisopfs/fisopfs.c: the callbacks that FUSE may make, and runs of them.
use sistemas_operarivos_fiub.Base.{ℕ, ◌+◌, ◌^◌, ◌<◌, List, [], ◌∷◌, length}
use sistemas_operarivos_fiub.Fisopfs.Tipos.{Cadena, Superbloque, Contexto, Retorno, ok, err}
use sistemas_operarivos_fiub.Fisopfs.Archivos.{read, write, truncate, utimens}
use sistemas_operarivos_fiub.Fisopfs.Directorios.{create, unlink, mkdir, rmdir}

-- the callbacks that may change the superblock
pub data Llamada : Type 0 where
  llama_read : Cadena → ℕ → ℕ → Llamada
  llama_write : Cadena → List ℕ → ℕ → Llamada
  llama_create : Cadena → ℕ → Llamada
  llama_truncate : Cadena → ℕ → Llamada
  llama_unlink : Cadena → Llamada
  llama_mkdir : Cadena → ℕ → Llamada
  llama_rmdir : Cadena → Llamada
  llama_utimens : Cadena → ℕ → ℕ → Llamada

sin_bytes : Retorno (List ℕ) × Superbloque → Retorno ℕ × Superbloque
sin_bytes r = (elim r.0 [ ok bs ↦ ok (length bs) | err e ↦ err e ], r.1)

-- What the callback returns, and the superblock after it.
unfoldable pub ejecutar : Contexto → Llamada → Superbloque → Retorno ℕ × Superbloque
unfolding sin_bytes
ejecutar ctx (llama_read path size offset) sb = sin_bytes (read ctx path size offset sb)
ejecutar ctx (llama_write path buffer offset) sb = write ctx path buffer offset sb
ejecutar ctx (llama_create path mode) sb = create ctx path mode sb
ejecutar ctx (llama_truncate path size) sb = truncate ctx path size sb
ejecutar ctx (llama_unlink path) sb = unlink path sb
ejecutar ctx (llama_mkdir path mode) sb = mkdir ctx path mode sb
ejecutar ctx (llama_rmdir path) sb = rmdir path sb
ejecutar ctx (llama_utimens path acceso modificacion) sb = utimens path acceso modificacion sb

-- A run of callbacks, each with the system's answers to it.
unfoldable pub ejecutar_todas : List (Contexto × Llamada) → Superbloque → Superbloque
ejecutar_todas [] sb = sb
ejecutar_todas ((ctx, c) ∷ r) sb = ejecutar_todas r (ejecutar ctx c sb).1

-- Offsets and sizes as the kernel hands them on: not negative, and with an end that does not wrap.
abbrev pub Normal : Llamada → Type 0
Normal (llama_write path buffer offset) = offset + length buffer < 2 ^ 64
Normal (llama_truncate path size) = size < 2 ^ 63
Normal _ = Unit

abbrev pub TodasNormales : List (Contexto × Llamada) → Type 0
TodasNormales [] = Unit
TodasNormales ((ctx, c) ∷ r) = Normal c × TodasNormales r
