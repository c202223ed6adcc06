-- ===== src/Fisopfs/Inodos.antt =====
-- The inode table of TP3-fisopfs/fs.c: initialisation, the two searches and `crear_inodo`.
pub mod Busqueda
use sistemas_operarivos_fiub.Base.{
  ℕ, Bool, Option, none, some, [], ◌==◌, ltb, ◌&&◌, if◌then◌else◌, update, first_from, strings_eq,
}
use sistemas_operarivos_fiub.Fisopfs.Tipos.{
  Cadena, Superbloque, Inodo, inodo_cero, entrada_vacia, Contexto, libre, ocupado, dir_t,
  max_inodes, mode_dir, mode_file,
}
use sistemas_operarivos_fiub.Fisopfs.Rutas.{separar_path, copiar, root_path}

-- the loop over all inodes, cell by cell
unfoldable pub inicializar_inodos : Superbloque → Superbloque
inicializar_inodos sb = record {
  inodos = λ i. if ltb i max_inodes then inodo_cero else sb.inodos i;
  bitmap_inodes = λ i. if ltb i max_inodes then libre else sb.bitmap_inodes i;
}

-- The fields that the source leaves alone keep the value of the cleared inode 0.
unfoldable pub inicializar_filesystem : Contexto → Superbloque → Superbloque
inicializar_filesystem ctx sb =
    let limpio = inicializar_inodos sb in
    let cero = limpio.inodos 0 in
    let root : Inodo = record cero {
      inumero = 0;
      tam = 0;
      id_user = ctx.euid;
      id_gid = ctx.egid;
      permisos = mode_dir;
      link_num = 2;
      fecha_de_creacion = ctx.time 0;
      fecha_de_modificacion = ctx.time 1;
      fecha_de_acceso = ctx.time 2;
      path = root_path;
      content = λ _. 0;
      entradas = λ _. entrada_vacia;
      tipo_archivo = dir_t;
      directory_path = [];
    } in
    record {
      inodos = update limpio.inodos 0 root;
      bitmap_inodes = update limpio.bitmap_inodes 0 ocupado;
    }

-- the test of the loop of `buscar_inodo`
unfoldable pub coincide : Cadena → Superbloque → ℕ → Bool
coincide path sb i = sb.bitmap_inodes i == ocupado && strings_eq (sb.inodos i).path path

unfoldable pub buscar_inodo : Cadena → Superbloque → Option ℕ
buscar_inodo path sb = first_from (coincide path sb) 0 max_inodes

unfoldable pub esta_libre : Superbloque → ℕ → Bool
esta_libre sb i = sb.bitmap_inodes i == libre

unfoldable pub obtener_inodo_libre : Superbloque → Option ℕ
obtener_inodo_libre sb = first_from (esta_libre sb) 0 max_inodes

-- every field of the inode is set
unfoldable pub inodo_nuevo : Contexto → Cadena → ℕ → ℕ → Inodo
inodo_nuevo ctx path tipo i = record {
  inumero = i;
  id_user = ctx.euid;
  id_gid = ctx.egid;
  link_num = 1;
  tam = 0;
  permisos = if tipo == dir_t then mode_dir else mode_file;
  fecha_de_creacion = ctx.time 0;
  fecha_de_modificacion = ctx.time 0;
  fecha_de_acceso = ctx.time 0;
  path = copiar path;
  content = λ _. 0;
  entradas = λ _. entrada_vacia;
  directory_path = (separar_path path).0;
  tipo_archivo = tipo;
  nombre = (separar_path path).1;
}

-- `inodos[i] = n`, and `bitmap_inodes[i] = b`
unfoldable pub poner : Superbloque → ℕ → ℕ → Inodo → Superbloque
poner sb i b n = record {
  inodos = update sb.inodos i n;
  bitmap_inodes = update sb.bitmap_inodes i b;
}

-- the same with the bitmap left alone: a write through a pointer to `inodos[i]`
unfoldable pub modificar : Superbloque → ℕ → Inodo → Superbloque
modificar sb i n = record sb { inodos = update sb.inodos i n }

unfoldable pub crear_inodo : Contexto → Superbloque → Cadena → ℕ → Option (ℕ × Superbloque)
crear_inodo ctx sb path tipo = elim (obtener_inodo_libre sb) [
  | none ↦ none
  | some i ↦ some (i, poner sb i ocupado (inodo_nuevo ctx path tipo i))
]
