-- ===== src/Fisopfs/Archivos.antt =====
-- The callbacks of TP3-fisopfs/fisopfs.c that read and write one inode: getattr, read, write,
-- truncate and utimens. An `off_t` is its 64-bit pattern.
pub mod IdaVuelta
use Prim.Native.Nat.{bit_or}
use sistemas_operarivos_fiub.Base.{
  ℕ, zero, suc, ◌+◌, ◌-◌, ◌%◌, ◌^◌, Bool, none, some, ◌&&◌, List, [], ◌∷◌, ◌==◌, ltb, leb,
  if◌then◌else◌, update, length,
}
use sistemas_operarivos_fiub.Fisopfs.Tipos.{
  Cadena, Superbloque, Inodo, Contexto, Retorno, ok, err, enoent, eisdir, efbig, reg_t, dir_t,
  max_content, s_ifreg, s_ifdir,
}
use sistemas_operarivos_fiub.Fisopfs.Inodos.{buscar_inodo, modificar}

-- the fields of `struct stat` that the callback fills in
pub record Stat : Type 0 where
  pub st_uid : ℕ
  pub st_gid : ℕ
  pub st_size : ℕ
  pub st_atime : ℕ
  pub st_mtime : ℕ
  pub st_ctime : ℕ
  pub st_nlink : ℕ
  pub st_mode : ℕ

-- The mode stays what it was where the inode has neither type.
unfoldable pub getattr : Cadena → Stat → Superbloque → Retorno Stat
getattr path st sb = elim (buscar_inodo path sb) [
  | none ↦ err enoent
  | some i ↦
      let n = sb.inodos i in
      let modo =
        if n.tipo_archivo == reg_t
        then bit_or s_ifreg n.permisos
        else if n.tipo_archivo == dir_t
        then bit_or s_ifdir n.permisos
        else st.st_mode in
      ok (record {
        st_uid = n.id_user;
        st_gid = n.id_gid;
        st_size = n.tam;
        st_atime = n.fecha_de_acceso;
        st_mtime = n.fecha_de_modificacion;
        st_ctime = n.fecha_de_creacion;
        st_nlink = n.link_num;
        st_mode = modo;
      })
]

-- `memcpy(buffer, content + offset, size)`
unfoldable pub leer_bytes : (ℕ → ℕ) → ℕ → ℕ → List ℕ
leer_bytes c offset zero = []
leer_bytes c offset (suc size) = c offset ∷ leer_bytes c (suc offset) size

-- `memcpy(content + offset, buffer, size)`
unfoldable pub escribir_bytes : (ℕ → ℕ) → ℕ → List ℕ → ℕ → ℕ
escribir_bytes c offset [] = c
escribir_bytes c offset (b ∷ bs) = escribir_bytes (update c offset b) (suc offset) bs

-- how much of the request lies in the file
unfoldable pub recortar : ℕ → ℕ → ℕ → ℕ
recortar file_size size offset =
    if ltb file_size ((offset + size) % 2 ^ 64) then file_size - offset else size

-- The bytes that the callback puts into the buffer; their number is what it returns.
unfoldable pub read : Contexto → Cadena → ℕ → ℕ → Superbloque → Retorno (List ℕ) × Superbloque
read ctx path size offset sb = elim (buscar_inodo path sb) [
  | none ↦ (err enoent, sb)
  | some i ↦
      let n = sb.inodos i in
      if n.tipo_archivo == reg_t
      then if leb n.tam offset then (ok [], sb) else (
        ok (leer_bytes n.content offset (recortar n.tam size offset)),
        modificar sb i (record n { fecha_de_acceso = ctx.time 0 }),
      )
      else (err eisdir, sb)
]

unfoldable pub escribir : ℕ → List ℕ → ℕ → Inodo → Inodo
escribir ahora buffer offset n =
    let nuevo_tam = (offset + length buffer) % 2 ^ 64 in
    record n {
      content = escribir_bytes n.content offset buffer;
      tam = if ltb n.tam nuevo_tam then nuevo_tam else n.tam;
      fecha_de_modificacion = ahora;
    }

-- `size` is the length of the buffer.
unfoldable pub write : Contexto → Cadena → List ℕ → ℕ → Superbloque → Retorno ℕ × Superbloque
write ctx path buffer offset sb = elim (buscar_inodo path sb) [
  | none ↦ (err enoent, sb)
  | some i ↦
      let n = sb.inodos i in
      if n.tipo_archivo == reg_t
      then if ltb max_content ((offset + length buffer) % 2 ^ 64)
        then (err efbig, sb)
        else (ok (length buffer), modificar sb i (escribir (ctx.time 0) buffer offset n))
      else (err eisdir, sb)
]

-- `memset(content + from, 0, to - from)` where `from < to`
unfoldable pub borrar_bytes : (ℕ → ℕ) → ℕ → ℕ → ℕ → ℕ
borrar_bytes c from to k = if leb from k && ltb k to then 0 else c k

-- `size > MAX_CONTENT` compares signed numbers, `size < inode->tam` unsigned ones.
unfoldable pub truncar : ℕ → ℕ → Inodo → Inodo
truncar ahora size n = record n {
  content = if ltb size n.tam then borrar_bytes n.content size n.tam else n.content;
  tam = size;
  fecha_de_modificacion = ahora;
}

unfoldable pub truncate : Contexto → Cadena → ℕ → Superbloque → Retorno ℕ × Superbloque
truncate ctx path size sb = elim (buscar_inodo path sb) [
  | none ↦ (err enoent, sb)
  | some i ↦
      let n = sb.inodos i in
      if n.tipo_archivo == reg_t
      then if ltb size (2 ^ 63) && ltb max_content size
        then (err efbig, sb)
        else (ok 0, modificar sb i (truncar (ctx.time 0) size n))
      else (err eisdir, sb)
]

-- `tv[0].tv_sec` and `tv[1].tv_sec`
unfoldable pub utimens : Cadena → ℕ → ℕ → Superbloque → Retorno ℕ × Superbloque
utimens path acceso modificacion sb = elim (buscar_inodo path sb) [
  | none ↦ (err enoent, sb)
  | some i ↦ (
    ok 0,
    modificar sb i
        (record (sb.inodos i) { fecha_de_acceso = acceso; fecha_de_modificacion = modificacion }),
  )
]
