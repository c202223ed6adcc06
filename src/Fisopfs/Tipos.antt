-- ===== src/Fisopfs/Tipos.antt =====
-- TP3-fisopfs/fs.h: the constants and the structs of the file system. A `char` array that holds a C
-- string is the list of its bytes before the NUL; the other arrays are functions from the index.
-- The source reads the `content` of a directory as an array of `entrada_directorio_t` and that of a
-- regular file as bytes. The record has a field for each reading, and a `memset` clears both.
use sistemas_operarivos_fiub.Base.{ℕ, ◌/◌, List, []}

abbrev pub Cadena : Type 0
Cadena = List ℕ

-- the values of `bitmap_inodes`
abbrev pub libre : ℕ
libre = 0

abbrev pub ocupado : ℕ
ocupado = 1

-- the values of `tipo_archivo`
abbrev pub dir_t : ℕ
dir_t = 0

abbrev pub reg_t : ℕ
reg_t = 1

abbrev pub max_path : ℕ
max_path = 256

abbrev pub max_content : ℕ
max_content = 4096

abbrev pub max_inodes : ℕ
max_inodes = 1024

-- `sizeof(entrada_directorio_t)`: an `int` of 4 bytes and `MAX_PATH` bytes
abbrev pub tam_entrada : ℕ
tam_entrada = 260

abbrev pub max_dir_entries : ℕ
max_dir_entries = max_content / tam_entrada

abbrev pub mode_dir : ℕ
mode_dir = 0o755

abbrev pub mode_file : ℕ
mode_file = 0o644

abbrev pub s_ifreg : ℕ
s_ifreg = 0o100000

abbrev pub s_ifdir : ℕ
s_ifdir = 0o040000

pub record Entrada : Type 0 where
  pub inodo : ℕ
  pub nombre : Cadena

-- an entry of a `content` that is all zeros
abbrev pub entrada_vacia : Entrada
entrada_vacia = record { inodo = 0; nombre = [] }

pub record Inodo : Type 0 where
  pub inumero : ℕ
  pub id_user : ℕ
  pub id_gid : ℕ
  pub link_num : ℕ
  pub tam : ℕ
  pub permisos : ℕ
  pub fecha_de_creacion : ℕ
  pub fecha_de_modificacion : ℕ
  pub fecha_de_acceso : ℕ
  pub path : Cadena
  pub content : ℕ → ℕ
  pub entradas : ℕ → Entrada
  pub directory_path : Cadena
  pub tipo_archivo : ℕ
  pub nombre : Cadena

-- `memset(inode, 0, sizeof(inodo_t))`
abbrev pub inodo_cero : Inodo
inodo_cero = record {
  inumero = 0;
  id_user = 0;
  id_gid = 0;
  link_num = 0;
  tam = 0;
  permisos = 0;
  fecha_de_creacion = 0;
  fecha_de_modificacion = 0;
  fecha_de_acceso = 0;
  path = [];
  content = λ _. 0;
  entradas = λ _. entrada_vacia;
  directory_path = [];
  tipo_archivo = 0;
  nombre = [];
}

pub record Superbloque : Type 0 where
  pub inodos : ℕ → Inodo
  pub bitmap_inodes : ℕ → ℕ

-- What an operation asks of the system: `geteuid`, `getegid`, and its k-th call of `time(NULL)`.
pub record Contexto : Type 0 where
  pub euid : ℕ
  pub egid : ℕ
  pub time : ℕ → ℕ

-- The negative results: `-ENOENT` and so on; `eperm` is a bare -1.
pub data Errno : Type 0 where
  eperm enoent eio ebusy eexist enotdir eisdir efbig enospc enotempty : Errno

-- What an operation returns: a value from 0 up, or a negated errno.
pub data Retorno {ℓ} (A : Type ℓ) : Type ℓ where
  ok : A → Retorno A
  err : Errno → Retorno A
