-- ===== src/Fisopfs/Pruebas.antt =====
-- Runs of the file system on small trees, and the theorems at concrete superblocks.
use sistemas_operarivos_fiub.Base.{
  ℕ, zero, suc, ◌+◌, ◌≤◌, ◌<◌, ◌≡◌, ◌≢◌, ◌⊎◌, refl, Bool, true, false, ◌&&◌, not, none, some, List,
  [], ◌∷◌, ◌++◌, map, ◌==◌, ltb, if◌then◌else◌, arith, update, first_from, strings_eq, bytes,
}
use sistemas_operarivos_fiub.Fisopfs.Tipos.{
  Cadena, Superbloque, Entrada, inodo_cero, Contexto, ok, err, Errno, libre, reg_t, max_dir_entries,
}
use sistemas_operarivos_fiub.Fisopfs.Rutas.{root_path, strrchr, copiar, separar_path}
use sistemas_operarivos_fiub.Fisopfs.Rutas.Leyes.{unir, separar_path-unir}
use sistemas_operarivos_fiub.Fisopfs.Inodos.{
  inicializar_inodos, inicializar_filesystem, coincide, buscar_inodo, esta_libre,
  obtener_inodo_libre, inodo_nuevo, poner, modificar, crear_inodo,
}
use sistemas_operarivos_fiub.Fisopfs.Inodos.Busqueda.{Ocupa}
use sistemas_operarivos_fiub.Fisopfs.Entradas.{
  punto, punto_punto, se_llama, desplazar, quitar, eliminar_entrada_directorio, es_hijo,
  directorio_esta_vacio, hueco, anotar, agregar_entrada_directorio, crear_entrada,
  inicializar_entradas_directorio, buscar_entrada_en_directorio, obtener_dir_padre,
}
use sistemas_operarivos_fiub.Fisopfs.Entradas.Vista.{usadas_desde, contenido, borrar_primera}
use sistemas_operarivos_fiub.Fisopfs.Archivos.{
  getattr, leer_bytes, escribir_bytes, recortar, read, escribir, write, borrar_bytes, truncar,
  truncate, utimens,
}
use sistemas_operarivos_fiub.Fisopfs.Archivos.IdaVuelta.{read-write}
use sistemas_operarivos_fiub.Fisopfs.Directorios.{
  listar, readdir, registrar_archivo, crear_archivo, create, liberar, borrar_archivo, unlink,
  registrar_directorio, crear_directorio, mkdir, borrar_directorio, rmdir,
}
use sistemas_operarivos_fiub.Fisopfs.Llamadas.{
  Llamada, llama_write, llama_create, llama_mkdir, llama_unlink, ejecutar, ejecutar_todas,
  TodasNormales,
}
use sistemas_operarivos_fiub.Fisopfs.Invariante.{SuperbloqueOk}
use sistemas_operarivos_fiub.Fisopfs.Invariante.Padres.{EsPadre, entrada_de}
use sistemas_operarivos_fiub.Fisopfs.Contrato.Sanidad.{ejecutar_todas-SuperbloqueOk}
use sistemas_operarivos_fiub.Fisopfs.Contrato.Errores.{CreaInodo, SinLugar, ejecutar_err}
use sistemas_operarivos_fiub.Fisopfs.Contrato.Listas.{
  agregar-contenido, eliminar-contenido, readdir-contenido,
}
use sistemas_operarivos_fiub.Fisopfs.Contrato.Bytes.{write-resto, truncate-content}
use sistemas_operarivos_fiub.Fisopfs.Contrato.Creado.{Creado, create-Creado, create-lleno}
use sistemas_operarivos_fiub.Fisopfs.Contrato.Borrado.{
  Borrado, unlink-Borrado, BorradoDir, rmdir-BorradoDir,
}

-- all that a run computes with
abbrev fisopfs : ℕ
unfolding update first_from strings_eq strrchr copiar separar_path inicializar_inodos
    inicializar_filesystem coincide buscar_inodo esta_libre obtener_inodo_libre inodo_nuevo poner
    modificar crear_inodo se_llama desplazar quitar eliminar_entrada_directorio es_hijo
    directorio_esta_vacio hueco anotar agregar_entrada_directorio crear_entrada
    inicializar_entradas_directorio buscar_entrada_en_directorio obtener_dir_padre getattr
    leer_bytes escribir_bytes recortar read escribir write borrar_bytes truncar truncate utimens
    listar readdir registrar_archivo crear_archivo create liberar borrar_archivo unlink
    registrar_directorio crear_directorio mkdir borrar_directorio rmdir ejecutar ejecutar_todas
    usadas_desde contenido borrar_primera
fisopfs = 0

abbrev sistema : Contexto
sistema = record { euid = 1000; egid = 1000; time = λ k. 50 + k }

abbrev nada : Superbloque
nada = record { inodos = λ _. inodo_cero; bitmap_inodes = λ _. 0 }

-- the file system after some calls
abbrev tras : List (Contexto × Llamada) → Superbloque
tras cs = ejecutar_todas cs (inicializar_filesystem sistema nada)

-- a directory /d and a file /a with three bytes
abbrev guion : List (Contexto × Llamada)
guion =
    (sistema, llama_mkdir (bytes "/d") 0o700)
    ∷ (sistema, llama_create (bytes "/a") 0o600)
    ∷ (sistema, llama_write (bytes "/a") (7 ∷ 8 ∷ 9 ∷ []) 2)
    ∷ []

abbrev arbol : Superbloque
arbol = tras guion

arbol-sano : SuperbloqueOk arbol
arbol-sano = ejecutar_todas-SuperbloqueOk sistema nada guion (tt, (tt, (omega arith, tt)))

lee_hueco : (read sistema (bytes "/a") 10 0 arbol).0 ≡ ok (0 ∷ 0 ∷ 7 ∷ 8 ∷ 9 ∷ [])
unfolding fisopfs
lee_hueco = refl

-- A directory below the root lists `.` twice: once from the callback and once from its own entries.
lista_d : readdir (bytes "/d") arbol ≡ ok (bytes "." ∷ bytes ".." ∷ bytes "." ∷ [])
unfolding fisopfs
lista_d = refl

ejecutar_todas-SuperbloqueOk_example : SuperbloqueOk (tras guion)
ejecutar_todas-SuperbloqueOk_example =
    ejecutar_todas-SuperbloqueOk sistema nada guion (tt, (tt, (omega arith, tt)))

escribe_bien : (write sistema (bytes "/a") (1 ∷ 2 ∷ []) 4 arbol).0 ≡ ok 2
unfolding fisopfs
escribe_bien = refl

read-write_example :
    (read sistema (bytes "/a") 2 4 (write sistema (bytes "/a") (1 ∷ 2 ∷ []) 4 arbol).1).0
    ≡ ok (1 ∷ 2 ∷ [])
read-write_example =
    read-write sistema sistema (bytes "/a") (1 ∷ 2 ∷ []) 4 arbol (omega arith) escribe_bien

write-resto_example :
    (i : ℕ) × (buscar_inodo (bytes "/a") arbol ≡ some i)
    × ((arbol.inodos i).tipo_archivo ≡ reg_t)
    × ((k : ℕ)
        → (k < 4) ⊎ (6 ≤ k)
        → ((write sistema (bytes "/a") (1 ∷ 2 ∷ []) 4 arbol).1.inodos i).content k
          ≡ (arbol.inodos i).content k)
    × (((write sistema (bytes "/a") (1 ∷ 2 ∷ []) 4 arbol).1.inodos i).tam
        ≡ (if ltb (arbol.inodos i).tam 6 then 6 else (arbol.inodos i).tam))
    × ((j : ℕ)
        → j ≢ i
        → (write sistema (bytes "/a") (1 ∷ 2 ∷ []) 4 arbol).1.inodos j ≡ arbol.inodos j)
write-resto_example =
    write-resto sistema (bytes "/a") (1 ∷ 2 ∷ []) 4 arbol (omega arith) escribe_bien

corta_bien : (truncate sistema (bytes "/a") 3 arbol).0 ≡ ok 0
unfolding fisopfs
corta_bien = refl

truncate-content_example :
    (i : ℕ) × (buscar_inodo (bytes "/a") arbol ≡ some i)
    × (((truncate sistema (bytes "/a") 3 arbol).1.inodos i).tam ≡ 3)
    × ((k : ℕ)
        → ((truncate sistema (bytes "/a") 3 arbol).1.inodos i).content k
          ≡ (if ltb k 3 then (arbol.inodos i).content k else 0))
truncate-content_example = truncate-content sistema (bytes "/a") 3 arbol arbol-sano corta_bien

crea_bien : (create sistema (bytes "/d/x") 0o644 arbol).0 ≡ ok 0
unfolding fisopfs
crea_bien = refl

no_esta : buscar_inodo (bytes "/d/x") arbol ≡ none
unfolding fisopfs
no_esta = refl

create-Creado_example :
    Creado (bytes "/d/x") 0o644 arbol (create sistema (bytes "/d/x") 0o644 arbol).1
create-Creado_example = create-Creado sistema (bytes "/d/x") 0o644 arbol arbol-sano crea_bien

borra_bien : (unlink (bytes "/a") arbol).0 ≡ ok 0
unfolding fisopfs
borra_bien = refl

unlink-Borrado_example : Borrado (bytes "/a") arbol (unlink (bytes "/a") arbol).1
unlink-Borrado_example = unlink-Borrado (bytes "/a") arbol arbol-sano borra_bien

quita_bien : (rmdir (bytes "/d") arbol).0 ≡ ok 0
unfolding fisopfs
quita_bien = refl

rmdir-BorradoDir_example : BorradoDir (bytes "/d") arbol (rmdir (bytes "/d") arbol).1
rmdir-BorradoDir_example = rmdir-BorradoDir (bytes "/d") arbol arbol-sano quita_bien

no_hay : (ejecutar sistema (llama_unlink (bytes "/zz")) arbol).0 ≡ err Errno.enoent
unfolding fisopfs
no_hay = refl

ejecutar_err_example :
    (CreaInodo (llama_unlink (bytes "/zz")) × SinLugar Errno.enoent)
    ⊎ ((ejecutar sistema (llama_unlink (bytes "/zz")) arbol).1 ≡ arbol)
ejecutar_err_example = ejecutar_err sistema (llama_unlink (bytes "/zz")) arbol no_hay

raiz : EsPadre arbol 0
unfolding fisopfs
raiz = record { en_tabla = omega arith; en_uso = refl; es_dir = refl }

agrega_bien :
    agregar_entrada_directorio arbol 0 2
    ≡ some
        (modificar arbol 0 (anotar (arbol.inodos 0) 2 (record { inodo = 2; nombre = bytes "a" })))
unfolding fisopfs
agrega_bien = refl

numero_dos : (arbol.inodos 2).inumero ≡ 2
unfolding fisopfs
numero_dos = refl

agregar-contenido_example :
    contenido (
      (modificar arbol 0
          (anotar (arbol.inodos 0) 2 (record { inodo = 2; nombre = bytes "a" }))).inodos
        0)
    ≡ contenido (arbol.inodos 0) ++ (entrada_de arbol 2 ∷ [])
agregar-contenido_example =
    agregar-contenido arbol 0 2 arbol-sano raiz (omega (arith, numero_dos)) agrega_bien

elimina_bien :
    eliminar_entrada_directorio arbol 0 (bytes "d")
    ≡ some (modificar arbol 0 (quitar (arbol.inodos 0) 0 2))
unfolding fisopfs
elimina_bien = refl

eliminar-contenido_example :
    contenido ((modificar arbol 0 (quitar (arbol.inodos 0) 0 2)).inodos 0)
    ≡ borrar_primera (bytes "d") (contenido (arbol.inodos 0))
eliminar-contenido_example = eliminar-contenido arbol 0 (bytes "d") arbol-sano raiz elimina_bien

en_raiz : buscar_inodo root_path arbol ≡ some 0
unfolding fisopfs
en_raiz = refl

readdir-contenido_example :
    readdir root_path arbol
    ≡ ok (punto ∷ punto_punto ∷ map (λ (x : Entrada). x.nombre) (contenido (arbol.inodos 0)))
readdir-contenido_example = readdir-contenido root_path arbol arbol-sano en_raiz raiz.es_dir

sin_barra : strrchr (bytes "notas") b'/' ≡ none
unfolding fisopfs
sin_barra = refl

separar_path-unir_example :
    separar_path (unir (bytes "/d/e") (bytes "notas")) ≡ (bytes "/d/e", bytes "notas")
separar_path-unir_example =
    separar_path-unir (bytes "/d/e") (bytes "notas") (λ e. cc) sin_barra (omega arith) (omega arith)

-- a directory /d with 14 files
abbrev nombre_de : ℕ → Cadena
nombre_de k = bytes "/d/" ++ ((b'a' + k) ∷ [])

abbrev crear_varios : ℕ → List (Contexto × Llamada)
crear_varios zero = []
crear_varios (suc k) = (sistema, llama_create (nombre_de k) 0o644) ∷ crear_varios k

abbrev guion_lleno : List (Contexto × Llamada)
guion_lleno = (sistema, llama_mkdir (bytes "/d") 0o700) ∷ crear_varios 14

crear_varios-normal : (n : ℕ) → TodasNormales (crear_varios n)
crear_varios-normal zero = tt
crear_varios-normal (suc n) = (tt, crear_varios-normal n)

lleno-sano : SuperbloqueOk (tras guion_lleno)
lleno-sano = ejecutar_todas-SuperbloqueOk sistema nada guion_lleno (tt, crear_varios-normal 14)

-- Its size is then larger than the array that holds its entries.
tam_lleno : ((tras guion_lleno).inodos 1).tam ≡ 4160
unfolding fisopfs
tam_lleno = refl

usadas_todas : ℕ → (ℕ → Entrada) → Bool
usadas_todas zero e = true
usadas_todas (suc n) e = not ((e n).inodo == 0) && usadas_todas n e

usadas_todas_sound :
    (n : ℕ) (e : ℕ → Entrada) → usadas_todas n e ≡ true → (j : ℕ) → j < n → (e j).inodo ≢ 0
unfolding usadas_todas
usadas_todas_sound zero e h j l = absurd (omega arith)
usadas_todas_sound (suc n) e h j l = ground (arith, usadas_todas_sound n e (both h).1 j)
  where
    both :
        (not ((e n).inodo == 0) && usadas_todas n e) ≡ true
        → (((e n).inodo == 0) ≡ false) × (usadas_todas n e ≡ true)
    both h = ground arith

lleno_d : usadas_todas max_dir_entries ((tras guion_lleno).inodos 1).entradas ≡ true
unfolding fisopfs usadas_todas
lleno_d = refl

padre_d : obtener_dir_padre (bytes "/d/z") (tras guion_lleno) ≡ ok (1, bytes "z")
unfolding fisopfs
padre_d = refl

sin_z : buscar_entrada_en_directorio (tras guion_lleno) 1 (bytes "z") ≡ none
unfolding fisopfs
sin_z = refl

libre_dieciseis : obtener_inodo_libre (tras guion_lleno) ≡ some 16
unfolding fisopfs
libre_dieciseis = refl

create-lleno_example :
    ((create sistema (bytes "/d/z") 0o644 (tras guion_lleno)).0 ≡ err Errno.enospc)
    × ((tras guion_lleno).bitmap_inodes 16 ≡ libre)
    × Ocupa (create sistema (bytes "/d/z") 0o644 (tras guion_lleno)).1 (copiar (bytes "/d/z")) 16
    × (contenido ((create sistema (bytes "/d/z") 0o644 (tras guion_lleno)).1.inodos 1)
        ≡ contenido ((tras guion_lleno).inodos 1))
create-lleno_example =
    create-lleno sistema (bytes "/d/z") 0o644 (tras guion_lleno) lleno-sano padre_d sin_z
      libre_dieciseis
      (usadas_todas_sound max_dir_entries ((tras guion_lleno).inodos 1).entradas lleno_d)
