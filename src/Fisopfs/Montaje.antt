-- ===== src/Fisopfs/Montaje.antt =====
-- The rest of TP3-fisopfs/fisopfs.c: the image on disk (init, destroy, flush) and the command line.
pub mod Leyes
use sistemas_operarivos_fiub.Base.{
  ℕ, Option, none, some, List, [], ◌∷◌, if◌then◌else◌, strings_eq, Bool,
}
use sistemas_operarivos_fiub.Fisopfs.Tipos.{Cadena, Superbloque, Contexto, Retorno, ok}
use sistemas_operarivos_fiub.Fisopfs.Inodos.{inicializar_filesystem}

-- What `fopen(filedisk, "rb")` and one `fread` give: no file, a file that is too short, with what
-- the buffer holds after the short read, or a whole superblock.
pub data Imagen : Type 0 where
  sin_archivo : Imagen
  corta : Superbloque → Imagen
  completa : Superbloque → Imagen

-- How `fopen(filedisk, "wb")` and `fwrite` turn out. Opening empties the file, so after a short
-- write the image is short; a later read of it leaves the given buffer.
pub data Guardado : Type 0 where
  no_abre : Guardado
  escribe_menos : Superbloque → Guardado
  escribe_todo : Guardado

unfoldable pub init : Contexto → Imagen → Superbloque → Superbloque
init ctx sin_archivo sb = inicializar_filesystem ctx sb
init ctx (corta leido) sb = leido
init ctx (completa leido) sb = leido

unfoldable pub destroy : Guardado → Superbloque → Imagen → Imagen
destroy no_abre sb disco = disco
destroy (escribe_menos leido) sb disco = corta leido
destroy escribe_todo sb disco = completa sb

-- the path is only printed
unfoldable pub flush : Cadena → Guardado → Superbloque → Imagen → Retorno ℕ × Imagen
flush path g sb disco = (ok 0, destroy g sb disco)

-- "--filedisk"
abbrev pub opcion : Cadena
opcion = b'-' ∷ b'-' ∷ b'f' ∷ b'i' ∷ b'l' ∷ b'e' ∷ b'd' ∷ b'i' ∷ b's' ∷ b'k' ∷ []

-- "file.fisopfs"
abbrev pub default_file_disk : Cadena
default_file_disk =
    b'f' ∷ b'i' ∷ b'l' ∷ b'e' ∷ b'.' ∷ b'f' ∷ b'i' ∷ b's' ∷ b'o' ∷ b'p' ∷ b'f' ∷ b's' ∷ []

-- The loop of `main` over `argv[1]`, `argv[2]`, …: the option is looked for in all but the last,
-- and is taken out with the argument behind it, where it stands first.
unfoldable pub sacar_opcion : Cadena → List Cadena → Cadena × List Cadena
sacar_opcion disco [] = (disco, [])
sacar_opcion disco (x ∷ []) = (disco, x ∷ [])
sacar_opcion disco (x ∷ y ∷ r) =
    let rest = sacar_opcion disco (y ∷ r) in
    if strings_eq x opcion then (y, r) else (rest.0, x ∷ rest.1)

-- The name of the image, and the `argv` that `fuse_main` gets.
unfoldable pub main : List Cadena → Cadena × List Cadena
main [] = (default_file_disk, [])
main (prog ∷ args) = let r = sacar_opcion default_file_disk args in (r.0, prog ∷ r.1)
