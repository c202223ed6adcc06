-- ===== src/Fisopfs/Directorios.antt =====
-- The callbacks of TP3-fisopfs/fisopfs.c that change or list the tree: readdir, create, unlink,
-- mkdir and rmdir.
use sistemas_operarivos_fiub.Base.{
  ℕ, zero, suc, ◌/◌, none, some, List, [], ◌∷◌, ◌==◌, if◌then◌else◌, strings_eq,
}
use sistemas_operarivos_fiub.Fisopfs.Tipos.{
  Cadena, Superbloque, Entrada, inodo_cero, Contexto, Retorno, ok, err, eperm, enoent, eio, ebusy,
  eexist, enotdir, eisdir, enospc, enotempty, libre, reg_t, dir_t, tam_entrada,
}
use sistemas_operarivos_fiub.Fisopfs.Rutas.{root_path}
use sistemas_operarivos_fiub.Fisopfs.Inodos.{buscar_inodo, crear_inodo, modificar, poner}
use sistemas_operarivos_fiub.Fisopfs.Entradas.{
  punto, punto_punto, obtener_dir_padre, buscar_entrada_en_directorio, agregar_entrada_directorio,
  eliminar_entrada_directorio, directorio_esta_vacio, inicializar_entradas_directorio,
}

-- `for (i = from; i < from + n; i++)` over the entries in use
unfoldable pub listar : (ℕ → Entrada) → ℕ → ℕ → List Cadena
listar e from zero = []
listar e from (suc n) =
    let rest = listar e (suc from) n in if (e from).inodo == 0 then rest else (e from).nombre ∷ rest

-- The names that are handed to `filler`, in order.
unfoldable pub readdir : Cadena → Superbloque → Retorno (List Cadena)
readdir path sb = elim (buscar_inodo path sb) [
  | none ↦ err enoent
  | some i ↦
      let n = sb.inodos i in
      if n.tipo_archivo == dir_t
      then ok (punto ∷ punto_punto ∷ listar n.entradas 0 (n.tam / tam_entrada))
      else err enotdir
]

-- the end of `fisopfs_create`: the inode is not given back where the directory has no room
unfoldable pub registrar_archivo : ℕ → ℕ → Superbloque → Retorno ℕ × Superbloque
registrar_archivo padre idx sb = elim (agregar_entrada_directorio sb padre idx) [
  | none ↦ (err enospc, sb)
  | some sb' ↦ (ok 0, sb')
]

-- from `crear_inodo` on
unfoldable pub crear_archivo : Contexto → Cadena → ℕ → ℕ → Superbloque → Retorno ℕ × Superbloque
crear_archivo ctx path mode padre sb = elim (crear_inodo ctx sb path reg_t) [
  | none ↦ (err enospc, sb)
  | some (idx, sb') ↦
      registrar_archivo padre idx (modificar sb' idx (record (sb'.inodos idx) { permisos = mode }))
]

unfoldable pub create : Contexto → Cadena → ℕ → Superbloque → Retorno ℕ × Superbloque
create ctx path mode sb = elim (obtener_dir_padre path sb) [
  | err e ↦ (err e, sb)
  | ok (padre, nombre) ↦ elim (buscar_entrada_en_directorio sb padre nombre) [
    | some _ ↦ (err eexist, sb)
    | none ↦ crear_archivo ctx path mode padre sb
  ]
]

-- `bitmap_inodes[i] = LIBRE; memset(&inodos[i], 0, sizeof(inodo_t));`
unfoldable pub liberar : Superbloque → ℕ → Superbloque
liberar sb i = poner sb i libre inodo_cero

-- the result of `eliminar_entrada_directorio` is not looked at
unfoldable pub borrar_archivo : ℕ → ℕ → Cadena → Superbloque → Superbloque
borrar_archivo idx padre nombre sb =
    elim (eliminar_entrada_directorio (liberar sb idx) padre nombre) [
      | none ↦ liberar sb idx
      | some sb' ↦ sb'
    ]

unfoldable pub unlink : Cadena → Superbloque → Retorno ℕ × Superbloque
unlink path sb = elim (obtener_dir_padre path sb) [
  | err e ↦ (err e, sb)
  | ok (padre, nombre) ↦ elim (buscar_inodo path sb) [
    | none ↦ (err enoent, sb)
    | some idx ↦
        if (sb.inodos idx).tipo_archivo == reg_t
        then (ok 0, borrar_archivo idx padre nombre sb)
        else (err eisdir, sb)
  ]
]

-- the end of `fisopfs_mkdir`: the inode is not given back where the directory has no room
unfoldable pub registrar_directorio : ℕ → ℕ → Superbloque → Retorno ℕ × Superbloque
registrar_directorio padre idx sb = elim (agregar_entrada_directorio sb padre idx) [
  | none ↦ (err eperm, sb)
  | some sb' ↦
      (ok 0, modificar sb' idx (inicializar_entradas_directorio (sb'.inodos idx) idx padre))
]

-- from `crear_inodo` on
unfoldable pub crear_directorio : Contexto → Cadena → ℕ → ℕ → Superbloque → Retorno ℕ × Superbloque
crear_directorio ctx path mode padre sb = elim (crear_inodo ctx sb path dir_t) [
  | none ↦ (err enospc, sb)
  | some (idx, sb') ↦
      registrar_directorio padre idx
        (modificar sb' idx (record (sb'.inodos idx) { permisos = mode; tam = 0; link_num = 2 }))
]

unfoldable pub mkdir : Contexto → Cadena → ℕ → Superbloque → Retorno ℕ × Superbloque
mkdir ctx path mode sb = elim (obtener_dir_padre path sb) [
  | err e ↦ (err e, sb)
  | ok (padre, nombre) ↦ elim (buscar_entrada_en_directorio sb padre nombre) [
    | some _ ↦ (err eexist, sb)
    | none ↦ crear_directorio ctx path mode padre sb
  ]
]

-- the last part of `fisopfs_rmdir`, once the directory is known to be empty
unfoldable pub borrar_directorio : Cadena → ℕ → Superbloque → Retorno ℕ × Superbloque
borrar_directorio path idx sb = elim (obtener_dir_padre path sb) [
  | err e ↦ (err e, sb)
  | ok (padre, nombre) ↦ elim (eliminar_entrada_directorio sb padre nombre) [
    | none ↦ (err eio, sb)
    | some sb' ↦ (ok 0, liberar sb' idx)
  ]
]

unfoldable pub rmdir : Cadena → Superbloque → Retorno ℕ × Superbloque
rmdir path sb = if strings_eq path root_path then (err ebusy, sb) else elim (buscar_inodo path sb) [
  | none ↦ (err enoent, sb)
  | some idx ↦
      if (sb.inodos idx).tipo_archivo == dir_t
      then if directorio_esta_vacio (sb.inodos idx)
        then borrar_directorio path idx sb
        else (err enotempty, sb)
      else (err enotdir, sb)
]
