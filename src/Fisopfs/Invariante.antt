-- ===== src/Fisopfs/Invariante.antt =====
-- What holds of the superblock of TP3-fisopfs at all times, cell by cell of the inode table.
pub mod Celdas
pub mod Regulares
pub mod Padres
pub mod Altas
pub mod Creacion
pub mod Carpetas
pub mod Bajas
use sistemas_operarivos_fiub.Base.{ℕ, ◌+◌, ◌*◌, ◌≤◌, ◌<◌, ◌≡◌, ◌⊎◌, length}
use sistemas_operarivos_fiub.Fisopfs.Tipos.{
  Superbloque, Inodo, inodo_cero, libre, ocupado, dir_t, reg_t, max_path, max_content, max_inodes,
  tam_entrada, max_dir_entries,
}
use sistemas_operarivos_fiub.Fisopfs.Rutas.{root_path}
use sistemas_operarivos_fiub.Fisopfs.Entradas.Contiguas.{Contiguas}

-- A regular file fits, its bytes past the end are 0, and it holds no entries.
pub record RegularOk (n : Inodo) : Type 0 where
  pub regular : n.tipo_archivo ≡ reg_t
  pub cabe : n.tam ≤ max_content
  pub ceros : (k : ℕ) → n.tam ≤ k → n.content k ≡ 0
  pub sin_entradas : (k : ℕ) → (n.entradas k).inodo ≡ 0

-- A directory counts its entries in `tam`, at most one too many: the `..` of a child of the root
-- holds the inode number 0, which marks a free entry.
pub record DirectorioOk (n : Inodo) : Type 0 where
  pub directorio : n.tipo_archivo ≡ dir_t
  pub usadas : ℕ
  pub entran : usadas ≤ max_dir_entries
  pub contiguas : Contiguas n.entradas usadas
  pub contadas : (n.tam ≡ usadas * tam_entrada) ⊎ (n.tam ≡ usadas * tam_entrada + tam_entrada)
  pub sin_bytes : (k : ℕ) → n.content k ≡ 0

-- Every string ends inside its array of `MAX_PATH` bytes.
pub record NombresOk (n : Inodo) : Type 0 where
  pub path_cabe : length n.path < max_path
  pub directory_cabe : length n.directory_path < max_path
  pub nombre_cabe : length n.nombre < max_path

pub record EnUso (i : ℕ) (n : Inodo) : Type 0 where
  pub numero : n.inumero ≡ i
  pub nombres : NombresOk n
  pub forma : RegularOk n ⊎ DirectorioOk n

-- A free inode is all zeros.
abbrev pub Celda : ℕ → ℕ → Inodo → Type 0
Celda i b n = ((b ≡ libre) × (n ≡ inodo_cero)) ⊎ ((b ≡ ocupado) × EnUso i n)

pub record SuperbloqueOk (sb : Superbloque) : Type 0 where
  pub celdas : (i : ℕ) → i < max_inodes → Celda i (sb.bitmap_inodes i) (sb.inodos i)
  pub raiz_ocupada : sb.bitmap_inodes 0 ≡ ocupado
  pub raiz_dir : (sb.inodos 0).tipo_archivo ≡ dir_t
  pub raiz_path : (sb.inodos 0).path ≡ root_path
