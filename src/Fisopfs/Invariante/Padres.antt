-- ===== src/Fisopfs/Invariante/Padres.antt =====
-- Adding an entry to a directory and taking one out keep the invariant.
use sistemas_operarivos_fiub.Base.{
  ℕ, suc, ◌+◌, ◌-◌, ◌*◌, ◌/◌, ◌%◌, ◌^◌, ◌≤◌, ◌<◌, ◌≡◌, ◌≢◌, ◌⊎◌, inl, inr, refl, true, some, arith,
  Option-cases, first_from, first_from-some,
}
use sistemas_operarivos_fiub.Fisopfs.Tipos.{
  Cadena, Superbloque, Inodo, Entrada, ok, ocupado, dir_t, max_inodes, tam_entrada, max_dir_entries,
}
use sistemas_operarivos_fiub.Fisopfs.Rutas.{separar_path, copiar}
use sistemas_operarivos_fiub.Fisopfs.Inodos.{buscar_inodo, modificar}
use sistemas_operarivos_fiub.Fisopfs.Inodos.Busqueda.{buscar_inodo-Ocupa}
use sistemas_operarivos_fiub.Fisopfs.Entradas.{
  hueco, se_llama, anotar, quitar, agregar_entrada_directorio, eliminar_entrada_directorio,
  obtener_dir_padre,
}
use sistemas_operarivos_fiub.Fisopfs.Entradas.Contiguas.{
  first_from-hueco, update-Contiguas, quitar-Contiguas,
}
use sistemas_operarivos_fiub.Fisopfs.Invariante.{DirectorioOk, SuperbloqueOk}
use sistemas_operarivos_fiub.Fisopfs.Invariante.Celdas.{celda-EnUso, modificar-SuperbloqueOk}
use sistemas_operarivos_fiub.Fisopfs.Invariante.Regulares.{directorio_of, con_forma}

-- The cell `padre` holds a directory in use.
pub record EsPadre (sb : Superbloque) (padre : ℕ) : Type 0 where
  pub en_tabla : padre < max_inodes
  pub en_uso : sb.bitmap_inodes padre ≡ ocupado
  pub es_dir : (sb.inodos padre).tipo_archivo ≡ dir_t

-- What `obtener_dir_padre` has found where it succeeds.
pub record Hallado (path : Cadena) (sb : Superbloque) (padre : ℕ) (nombre : Cadena) : Type 0 where
  pub encontrado : buscar_inodo (separar_path path).0 sb ≡ some padre
  pub su_nombre : nombre ≡ (separar_path path).1
  pub es_padre : EsPadre sb padre

pub obtener_dir_padre-ok :
    (path : Cadena) (sb : Superbloque) {padre : ℕ} {nombre : Cadena}
    → obtener_dir_padre path sb ≡ ok (padre, nombre)
    → Hallado path sb padre nombre
obtener_dir_padre-ok path sb {padre} {nombre} h =
    let f = found h in
    let o = buscar_inodo-Ocupa (separar_path path).0 sb f.0 in
    record {
      encontrado = f.0;
      su_nombre = f.2;
      es_padre = record { en_tabla = o.en_tabla; en_uso = o.en_uso; es_dir = f.1 };
    }
  where
    found :
        obtener_dir_padre path sb ≡ ok (padre, nombre)
        → (buscar_inodo (separar_path path).0 sb ≡ some padre)
          × ((sb.inodos padre).tipo_archivo ≡ dir_t)
          × (nombre ≡ (separar_path path).1)
    found h = unfold obtener_dir_padre in ground arith

anotar-DirectorioOk :
    (n : Inodo) (i : ℕ) (e : Entrada)
    → DirectorioOk n
    → first_from (hueco n.entradas) 0 max_dir_entries ≡ some i
    → e.inodo ≢ 0
    → DirectorioOk (anotar n i e)
unfolding anotar
anotar-DirectorioOk n i e d h ne =
    let at = first_from-hueco n.entradas d.contiguas h in
    record {
      directorio = d.directorio;
      usadas = suc d.usadas;
      entran = omega (arith, at.0, at.1);
      contiguas = rw (at.0) (update-Contiguas n.entradas d.usadas e d.contiguas ne);
      contadas = counted (omega (arith, at.0, at.1)) d.contadas;
      sin_bytes = d.sin_bytes;
    }
  where
    counted :
        d.usadas < max_dir_entries
        → (n.tam ≡ d.usadas * tam_entrada) ⊎ (n.tam ≡ d.usadas * tam_entrada + tam_entrada)
        → ((n.tam + tam_entrada) % 2 ^ 64 ≡ suc d.usadas * tam_entrada)
          ⊎ ((n.tam + tam_entrada) % 2 ^ 64 ≡ suc d.usadas * tam_entrada + tam_entrada)
    counted l (inl c) = inl (omega arith)
    counted l (inr c) = inr (omega arith)

quitar-DirectorioOk :
    (n : Inodo) (i : ℕ)
    → (d : DirectorioOk n) → i < d.usadas
    → DirectorioOk (quitar n i (n.tam / tam_entrada))
quitar-DirectorioOk n i d l = record {
  directorio = unfold quitar in d.directorio;
  usadas = d.usadas - 1;
  entran = omega (arith, d.entran);
  contiguas =
      quitar-Contiguas n d.usadas i (n.tam / tam_entrada) d.contiguas l (lower d.contadas)
        (upper d.contadas);
  contadas = unfold quitar in counted d.contadas;
  sin_bytes = unfold quitar in d.sin_bytes;
}
  where
    Contadas : Type 0
    Contadas = (n.tam ≡ d.usadas * tam_entrada) ⊎ (n.tam ≡ d.usadas * tam_entrada + tam_entrada)

    lower : Contadas → d.usadas ≤ n.tam / tam_entrada
    lower (inl c) = omega arith
    lower (inr c) = omega arith

    upper : Contadas → n.tam / tam_entrada ≤ d.usadas + 1
    upper (inl c) = omega arith
    upper (inr c) = omega arith

    counted :
        Contadas
        → (n.tam - tam_entrada ≡ (d.usadas - 1) * tam_entrada)
          ⊎ (n.tam - tam_entrada ≡ (d.usadas - 1) * tam_entrada + tam_entrada)
    counted (inl c) = inl (omega arith)
    counted (inr c) = inr (omega arith)

-- the entry that `agregar_entrada_directorio` writes
unfoldable pub entrada_de : Superbloque → ℕ → Entrada
entrada_de sb hijo =
    let num = (sb.inodos hijo).inumero in
    record { inodo = num; nombre = copiar (sb.inodos num).nombre }

-- Where an entry has been added, and the superblock after it.
pub record Agregado (sb : Superbloque) (padre hijo : ℕ) (sb' : Superbloque) : Type 0 where
  pub indice : ℕ
  pub libre_en : first_from (hueco (sb.inodos padre).entradas) 0 max_dir_entries ≡ some indice
  pub final : sb' ≡ modificar sb padre (anotar (sb.inodos padre) indice (entrada_de sb hijo))

pub agregar-some :
    (sb : Superbloque) (padre hijo : ℕ) {sb' : Superbloque}
    → agregar_entrada_directorio sb padre hijo ≡ some sb'
    → Agregado sb padre hijo sb'
unfolding agregar_entrada_directorio entrada_de
agregar-some sb padre hijo h =
    elim (Option-cases (first_from (hueco (sb.inodos padre).entradas) 0 max_dir_entries)) [
      | inl e ↦ ground arith
      | inr (i, e) ↦ record { indice = i; libre_en = e; final = ground arith }
    ]

-- Which entry has been taken out, and the superblock after it.
pub record Eliminado (sb : Superbloque) (padre : ℕ) (nombre : Cadena) (sb' : Superbloque)
    : Type 0 where
  pub indice : ℕ
  pub hallada :
      first_from
        (se_llama (sb.inodos padre).entradas nombre)
        0
        ((sb.inodos padre).tam / tam_entrada)
      ≡ some indice
  pub final :
      sb'
      ≡ modificar sb padre (quitar (sb.inodos padre) indice ((sb.inodos padre).tam / tam_entrada))

pub eliminar-some :
    (sb : Superbloque) (padre : ℕ) (nombre : Cadena) {sb' : Superbloque}
    → eliminar_entrada_directorio sb padre nombre ≡ some sb'
    → Eliminado sb padre nombre sb'
unfolding eliminar_entrada_directorio
eliminar-some sb padre nombre h =
    elim (Option-cases (
      first_from (se_llama (sb.inodos padre).entradas nombre) 0
        ((sb.inodos padre).tam / tam_entrada))) [
          | inl e ↦ ground arith
          | inr (i, e) ↦ record { indice = i; hallada = e; final = ground arith }
        ]

-- A change of the parent's entries and size.
cambio_padre :
    (sb : Superbloque) (padre : ℕ) (m : Inodo)
    → SuperbloqueOk sb
    → EsPadre sb padre
    → m.inumero ≡ (sb.inodos padre).inumero
    → m.path ≡ (sb.inodos padre).path
    → m.directory_path ≡ (sb.inodos padre).directory_path
    → m.nombre ≡ (sb.inodos padre).nombre
    → m.tipo_archivo ≡ (sb.inodos padre).tipo_archivo
    → DirectorioOk m
    → SuperbloqueOk (modificar sb padre m)
cambio_padre sb padre m s p eq_num eq_path eq_dir eq_nom eq_tipo d =
    modificar-SuperbloqueOk sb padre m s p.en_uso
      (con_forma (sb.inodos padre) m (celda-EnUso s p.en_tabla p.en_uso) eq_num eq_path eq_dir
        eq_nom (inr d))
      eq_tipo eq_path

-- the parent as a directory
pub padre-DirectorioOk :
    (sb : Superbloque) (padre : ℕ)
    → SuperbloqueOk sb
    → EsPadre sb padre
    → DirectorioOk (sb.inodos padre)
padre-DirectorioOk sb padre s p = directorio_of (celda-EnUso s p.en_tabla p.en_uso) p.es_dir

pub agregar-SuperbloqueOk :
    (sb : Superbloque) (padre hijo : ℕ) {sb' : Superbloque}
    → SuperbloqueOk sb
    → EsPadre sb padre
    → (sb.inodos hijo).inumero ≢ 0
    → Agregado sb padre hijo sb'
    → SuperbloqueOk sb'
agregar-SuperbloqueOk sb padre hijo s p ne a = rw a.final (
    cambio_padre sb padre (anotar (sb.inodos padre) a.indice (entrada_de sb hijo)) s p
      (unfold anotar in refl) (unfold anotar in refl) (unfold anotar in refl)
      (unfold anotar in refl) (unfold anotar in refl)
      (anotar-DirectorioOk (sb.inodos padre) a.indice (entrada_de sb hijo)
        (padre-DirectorioOk sb padre s p) a.libre_en (unfold entrada_de in ne)))

se_llama-used :
    (e : ℕ → Entrada) (nombre : Cadena) (i : ℕ) → se_llama e nombre i ≡ true → (e i).inodo ≢ 0
unfolding se_llama
se_llama-used e nombre i h = ground arith

-- The entry that has been found is one of those in use.
pub hallada-used :
    (n : Inodo) (nombre : Cadena) (k : ℕ) {i : ℕ}
    → (d : DirectorioOk n) → first_from (se_llama n.entradas nombre) 0 k ≡ some i
    → i < d.usadas
hallada-used n nombre k {i} d h =
    let f = first_from-some (se_llama n.entradas nombre) 0 k h in
    below (se_llama-used n.entradas nombre i f.passes) (order i d.usadas)
  where
    order : (a b : ℕ) → (a < b) ⊎ (b ≤ a)
    order a b = grind arith

    below : (n.entradas i).inodo ≢ 0 → (i < d.usadas) ⊎ (d.usadas ≤ i) → i < d.usadas
    below ne (inl l) = l
    below ne (inr g) = absurd (ne (d.contiguas.vacias i g))

pub eliminar-SuperbloqueOk :
    (sb : Superbloque) (padre : ℕ) (nombre : Cadena) {sb' : Superbloque}
    → SuperbloqueOk sb
    → EsPadre sb padre
    → Eliminado sb padre nombre sb'
    → SuperbloqueOk sb'
eliminar-SuperbloqueOk sb padre nombre s p a =
    let d = padre-DirectorioOk sb padre s p in
    let n = (sb.inodos padre).tam / tam_entrada in
    rw a.final (
      cambio_padre sb padre (quitar (sb.inodos padre) a.indice n) s p (unfold quitar in refl)
        (unfold quitar in refl) (unfold quitar in refl) (unfold quitar in refl)
        (unfold quitar in refl)
        (quitar-DirectorioOk (sb.inodos padre) a.indice d
          (hallada-used (sb.inodos padre) nombre n d a.hallada)))
