-- ===== src/Fisopfs/Contrato/Errores.antt =====
-- What the callbacks leave behind when they fail.
use sistemas_operarivos_fiub.Base.{ℕ, ◌≡◌, ◌⊎◌, inl, inr, List, length, arith}
use sistemas_operarivos_fiub.Fisopfs.Tipos.{
  Cadena, Superbloque, Contexto, Errno, Retorno, ok, err, eperm, enospc,
}
use sistemas_operarivos_fiub.Fisopfs.Archivos.{read, write, truncate, utimens}
use sistemas_operarivos_fiub.Fisopfs.Directorios.{
  create, crear_archivo, registrar_archivo, unlink, mkdir, crear_directorio, registrar_directorio,
  rmdir, borrar_directorio,
}
use sistemas_operarivos_fiub.Fisopfs.Llamadas.{
  Llamada, llama_read, llama_write, llama_create, llama_truncate, llama_unlink, llama_mkdir,
  llama_rmdir, llama_utimens, ejecutar,
}

-- A call that returns this error has run out of room for an inode or an entry.
abbrev pub SinLugar : Errno → Type 0
SinLugar enospc = Unit
SinLugar eperm = Unit
SinLugar _ = ⊥

read_err :
    (ctx : Contexto) (path : Cadena) (size offset : ℕ) (sb : Superbloque) {e : Errno}
    → (read ctx path size offset sb).0 ≡ err e
    → (read ctx path size offset sb).1 ≡ sb
unfolding read
read_err ctx path size offset sb h = ground arith

write_err :
    (ctx : Contexto) (path : Cadena) (buffer : List ℕ) (offset : ℕ) (sb : Superbloque) {e : Errno}
    → (write ctx path buffer offset sb).0 ≡ err e
    → (write ctx path buffer offset sb).1 ≡ sb
unfolding write
write_err ctx path buffer offset sb h = ground arith

truncate_err :
    (ctx : Contexto) (path : Cadena) (size : ℕ) (sb : Superbloque) {e : Errno}
    → (truncate ctx path size sb).0 ≡ err e
    → (truncate ctx path size sb).1 ≡ sb
unfolding truncate
truncate_err ctx path size sb h = ground arith

utimens_err :
    (path : Cadena) (acceso modificacion : ℕ) (sb : Superbloque) {e : Errno}
    → (utimens path acceso modificacion sb).0 ≡ err e
    → (utimens path acceso modificacion sb).1 ≡ sb
unfolding utimens
utimens_err path acceso modificacion sb h = ground arith

unlink_err :
    (path : Cadena) (sb : Superbloque) {e : Errno}
    → (unlink path sb).0 ≡ err e
    → (unlink path sb).1 ≡ sb
unfolding unlink
unlink_err path sb h = ground arith

rmdir_err :
    (path : Cadena) (sb : Superbloque) {e : Errno}
    → (rmdir path sb).0 ≡ err e
    → (rmdir path sb).1 ≡ sb
unfolding rmdir borrar_directorio
rmdir_err path sb h = ground arith

create_err :
    (ctx : Contexto) (path : Cadena) (mode : ℕ) (sb : Superbloque) {e : Errno}
    → (create ctx path mode sb).0 ≡ err e
    → SinLugar e ⊎ ((create ctx path mode sb).1 ≡ sb)
unfolding create crear_archivo registrar_archivo
create_err ctx path mode sb h = ground arith

mkdir_err :
    (ctx : Contexto) (path : Cadena) (mode : ℕ) (sb : Superbloque) {e : Errno}
    → (mkdir ctx path mode sb).0 ≡ err e
    → SinLugar e ⊎ ((mkdir ctx path mode sb).1 ≡ sb)
unfolding mkdir crear_directorio registrar_directorio
mkdir_err ctx path mode sb h = ground arith

abbrev pub CreaInodo : Llamada → Type 0
CreaInodo (llama_create path mode) = Unit
CreaInodo (llama_mkdir path mode) = Unit
CreaInodo _ = ⊥

-- A callback that fails leaves the superblock as it was, but for `create` and `mkdir` that fail with
-- ENOSPC or with the bare -1 (EPERM).
pub ejecutar_err :
    (ctx : Contexto) (c : Llamada) (sb : Superbloque) {e : Errno}
    → (ejecutar ctx c sb).0 ≡ err e
    → (CreaInodo c × SinLugar e) ⊎ ((ejecutar ctx c sb).1 ≡ sb)
unfolding ejecutar
ejecutar_err ctx (llama_read path size offset) sb {e} h =
    inr (read_err ctx path size offset sb (same (read ctx path size offset sb).0 h))
  where
    same :
        (r : Retorno (List ℕ))
        → (elim r as (λ _. Retorno ℕ) [ ok bs ↦ ok (length bs) | err x ↦ err x ]) ≡ err e
        → r ≡ err e
    same (ok bs) q = cc
    same (err x) q = cc
ejecutar_err ctx (llama_write path buffer offset) sb h = inr (write_err ctx path buffer offset sb h)
ejecutar_err ctx (llama_create path mode) sb h = with_unit (create_err ctx path mode sb h)
  where
    with_unit : {A B : Type 0} → A ⊎ B → (Unit {0} × A) ⊎ B
    with_unit (inl a) = inl (tt, a)
    with_unit (inr b) = inr b
ejecutar_err ctx (llama_truncate path size) sb h = inr (truncate_err ctx path size sb h)
ejecutar_err ctx (llama_unlink path) sb h = inr (unlink_err path sb h)
ejecutar_err ctx (llama_mkdir path mode) sb h = with_unit (mkdir_err ctx path mode sb h)
  where
    with_unit : {A B : Type 0} → A ⊎ B → (Unit {0} × A) ⊎ B
    with_unit (inl a) = inl (tt, a)
    with_unit (inr b) = inr b
ejecutar_err ctx (llama_rmdir path) sb h = inr (rmdir_err path sb h)
ejecutar_err ctx (llama_utimens path acceso modificacion) sb h =
    inr (utimens_err path acceso modificacion sb h)
