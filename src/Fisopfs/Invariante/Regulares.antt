-- ===== src/Fisopfs/Invariante/Regulares.antt =====
-- The callbacks of TP3-fisopfs/fisopfs.c on one inode keep the invariant: read, write, truncate and
-- utimens.
use sistemas_operarivos_fiub.Base.{
  ℕ, ◌+◌, ◌%◌, ◌^◌, ◌≤◌, ◌<◌, ◌≡◌, ◌⊎◌, inl, inr, refl, ◌∙◌, false, some, List, ◌&&◌, ltb, leb,
  if◌then◌else◌, ◌==◌, ==_iff, length, arith, Option-cases, Bool-cases,
}
use sistemas_operarivos_fiub.Fisopfs.Tipos.{
  Cadena, Superbloque, Inodo, Contexto, reg_t, dir_t, max_content,
}
use sistemas_operarivos_fiub.Fisopfs.Inodos.{buscar_inodo, modificar}
use sistemas_operarivos_fiub.Fisopfs.Inodos.Busqueda.{buscar_inodo-Ocupa}
use sistemas_operarivos_fiub.Fisopfs.Archivos.{
  borrar_bytes, read, write, escribir, truncate, truncar, utimens,
}
use sistemas_operarivos_fiub.Fisopfs.Archivos.IdaVuelta.{escribir_bytes-above}
use sistemas_operarivos_fiub.Fisopfs.Invariante.{RegularOk, DirectorioOk, EnUso, SuperbloqueOk}
use sistemas_operarivos_fiub.Fisopfs.Invariante.Celdas.{celda-EnUso, modificar-SuperbloqueOk}

escribir-RegularOk :
    (ahora : ℕ) (buffer : List ℕ) (offset : ℕ) (n : Inodo)
    → RegularOk n
    → offset + length buffer < 2 ^ 64
    → (offset + length buffer) % 2 ^ 64 ≤ max_content
    → RegularOk (escribir ahora buffer offset n)
unfolding escribir
escribir-RegularOk ahora buffer offset n r w h =
    let grown = size_lem n.tam (offset + length buffer) w in
    record {
      regular = r.regular;
      cabe = ground (arith, r.cabe);
      ceros = λ k l.
          escribir_bytes-above n.content offset buffer k (omega (arith, grown, l))
          ∙ r.ceros k (omega (arith, grown, l));
      sin_entradas = r.sin_entradas;
    }
  where
    size_lem :
        (t e : ℕ)
        → e < 2 ^ 64
        → (t ≤ (if ltb t (e % 2 ^ 64) then e % 2 ^ 64 else t))
          × (e ≤ (if ltb t (e % 2 ^ 64) then e % 2 ^ 64 else t))
    size_lem t e w = ground arith

truncar-RegularOk :
    (ahora size : ℕ) (n : Inodo)
    → RegularOk n
    → size ≤ max_content
    → RegularOk (truncar ahora size n)
unfolding truncar borrar_bytes
truncar-RegularOk ahora size n r h = record {
  regular = r.regular;
  cabe = h;
  ceros = λ k l. ground (arith, r.ceros k);
  sin_entradas = r.sin_entradas;
}

-- an inode in use of type `REG_T` is a regular file
pub regular_of : {i : ℕ} {n : Inodo} → EnUso i n → n.tipo_archivo ≡ reg_t → RegularOk n
regular_of {i} {n} u t = pick u.forma
  where
    pick : RegularOk n ⊎ DirectorioOk n → RegularOk n
    pick (inl r) = r
    pick (inr d) = absurd (omega (arith, d.directorio, t))

pub directorio_of : {i : ℕ} {n : Inodo} → EnUso i n → n.tipo_archivo ≡ dir_t → DirectorioOk n
directorio_of {i} {n} u t = pick u.forma
  where
    pick : RegularOk n ⊎ DirectorioOk n → DirectorioOk n
    pick (inl r) = absurd (omega (arith, r.regular, t))
    pick (inr d) = d

-- the changes that leave an inode in use
pub con_forma :
    {i : ℕ} (n m : Inodo)
    → EnUso i n
    → m.inumero ≡ n.inumero
    → m.path ≡ n.path
    → m.directory_path ≡ n.directory_path
    → m.nombre ≡ n.nombre
    → RegularOk m ⊎ DirectorioOk m
    → EnUso i m
con_forma n m u e p d q f = record {
  numero = e ∙ u.numero;
  nombres = record {
    path_cabe = rw p u.nombres.path_cabe;
    directory_cabe = rw d u.nombres.directory_cabe;
    nombre_cabe = rw q u.nombres.nombre_cabe;
  };
  forma = f;
}

-- The inode that a search finds is in use.
pub found-EnUso :
    (path : Cadena) (sb : Superbloque) {i : ℕ}
    → SuperbloqueOk sb
    → buscar_inodo path sb ≡ some i
    → EnUso i (sb.inodos i)
found-EnUso path sb s e = let o = buscar_inodo-Ocupa path sb e in celda-EnUso s o.en_tabla o.en_uso

-- A change of the file that a search has found.
cambio-SuperbloqueOk :
    (path : Cadena) (sb : Superbloque) (i : ℕ) (m : Inodo)
    → SuperbloqueOk sb
    → buscar_inodo path sb ≡ some i
    → m.inumero ≡ (sb.inodos i).inumero
    → m.path ≡ (sb.inodos i).path
    → m.directory_path ≡ (sb.inodos i).directory_path
    → m.nombre ≡ (sb.inodos i).nombre
    → m.tipo_archivo ≡ (sb.inodos i).tipo_archivo
    → RegularOk m ⊎ DirectorioOk m
    → SuperbloqueOk (modificar sb i m)
cambio-SuperbloqueOk path sb i m s e eq_num eq_path eq_dir eq_nom eq_tipo f =
    modificar-SuperbloqueOk sb i m s (buscar_inodo-Ocupa path sb e).en_uso
      (con_forma (sb.inodos i) m (found-EnUso path sb s e) eq_num eq_path eq_dir eq_nom f) eq_tipo
      eq_path

pub write-SuperbloqueOk :
    (ctx : Contexto) (path : Cadena) (buffer : List ℕ) (offset : ℕ) (sb : Superbloque)
    → offset + length buffer < 2 ^ 64
    → SuperbloqueOk sb
    → SuperbloqueOk (write ctx path buffer offset sb).1
unfolding write
write-SuperbloqueOk ctx path buffer offset sb w s = elim (Option-cases (buscar_inodo path sb)) [
  | inl e ↦ rw (e, write) s
  | inr (i, e) ↦ elim (Bool-cases ((sb.inodos i).tipo_archivo == reg_t)) [
    | inr t ↦ rw (e, t, write) s
    | inl t ↦ elim (Bool-cases (ltb max_content ((offset + length buffer) % 2 ^ 64))) [
      | inl b ↦ rw (e, t, b, write) s
      | inr b ↦ rw (e, t, b, write) (written i e ((==_iff (sb.inodos i).tipo_archivo reg_t).0 t) b)
    ]
  ]
]
  where
    fits : (x : ℕ) → ltb max_content x ≡ false → x ≤ max_content
    fits x b = ground arith

    written :
        (i : ℕ)
        → buscar_inodo path sb ≡ some i
        → (sb.inodos i).tipo_archivo ≡ reg_t
        → ltb max_content ((offset + length buffer) % 2 ^ 64) ≡ false
        → SuperbloqueOk (modificar sb i (escribir (ctx.time 0) buffer offset (sb.inodos i)))
    written i e t b =
        cambio-SuperbloqueOk path sb i (escribir (ctx.time 0) buffer offset (sb.inodos i)) s e
          (unfold escribir in refl) (unfold escribir in refl) (unfold escribir in refl)
          (unfold escribir in refl) (unfold escribir in refl)
          (inl (
            escribir-RegularOk (ctx.time 0) buffer offset (sb.inodos i)
              (regular_of (found-EnUso path sb s e) t) w (fits _ b)))

pub truncate-SuperbloqueOk :
    (ctx : Contexto) (path : Cadena) (size : ℕ) (sb : Superbloque)
    → size < 2 ^ 63
    → SuperbloqueOk sb
    → SuperbloqueOk (truncate ctx path size sb).1
unfolding truncate
truncate-SuperbloqueOk ctx path size sb w s = elim (Option-cases (buscar_inodo path sb)) [
  | inl e ↦ rw (e, truncate) s
  | inr (i, e) ↦ elim (Bool-cases ((sb.inodos i).tipo_archivo == reg_t)) [
    | inr t ↦ rw (e, t, truncate) s
    | inl t ↦ elim (Bool-cases (ltb size (2 ^ 63) && ltb max_content size)) [
      | inl b ↦ rw (e, t, b, truncate) s
      | inr b ↦ rw (e, t, b, truncate) (cut i e ((==_iff (sb.inodos i).tipo_archivo reg_t).0 t) b)
    ]
  ]
]
  where
    fits : (x : ℕ) → x < 2 ^ 63 → (ltb x (2 ^ 63) && ltb max_content x) ≡ false → x ≤ max_content
    fits x l b = ground arith

    cut :
        (i : ℕ)
        → buscar_inodo path sb ≡ some i
        → (sb.inodos i).tipo_archivo ≡ reg_t
        → (ltb size (2 ^ 63) && ltb max_content size) ≡ false
        → SuperbloqueOk (modificar sb i (truncar (ctx.time 0) size (sb.inodos i)))
    cut i e t b =
        cambio-SuperbloqueOk path sb i (truncar (ctx.time 0) size (sb.inodos i)) s e
          (unfold truncar in refl) (unfold truncar in refl) (unfold truncar in refl)
          (unfold truncar in refl) (unfold truncar in refl)
          (inl (
            truncar-RegularOk (ctx.time 0) size (sb.inodos i)
              (regular_of (found-EnUso path sb s e) t) (fits size w b)))

-- The dates are no part of the shape of an inode.
con_fechas :
    (n : Inodo) (acceso modificacion : ℕ)
    → RegularOk n ⊎ DirectorioOk n
    → let m : Inodo = record n { fecha_de_acceso = acceso; fecha_de_modificacion = modificacion } in
      RegularOk m ⊎ DirectorioOk m
con_fechas n acceso modificacion (inl r) =
    inl (record {
      regular = r.regular;
      cabe = r.cabe;
      ceros = r.ceros;
      sin_entradas = r.sin_entradas;
    })
con_fechas n acceso modificacion (inr d) = inr (record {
  directorio = d.directorio;
  usadas = d.usadas;
  entran = d.entran;
  contiguas = d.contiguas;
  contadas = d.contadas;
  sin_bytes = d.sin_bytes;
})

pub read-SuperbloqueOk :
    (ctx : Contexto) (path : Cadena) (size offset : ℕ) (sb : Superbloque)
    → SuperbloqueOk sb
    → SuperbloqueOk (read ctx path size offset sb).1
unfolding read
read-SuperbloqueOk ctx path size offset sb s = elim (Option-cases (buscar_inodo path sb)) [
  | inl e ↦ rw (e, read) s
  | inr (i, e) ↦ elim (Bool-cases ((sb.inodos i).tipo_archivo == reg_t)) [
    | inr t ↦ rw (e, t, read) s
    | inl t ↦ elim (Bool-cases (leb (sb.inodos i).tam offset)) [
      | inl b ↦ rw (e, t, b, read) s
      | inr b ↦
          rw (e, t, b, read)
            (cambio-SuperbloqueOk path sb i _ s e refl refl refl refl refl (
              con_fechas (sb.inodos i) (ctx.time 0) (sb.inodos i).fecha_de_modificacion
                (found-EnUso path sb s e).forma))
    ]
  ]
]

pub utimens-SuperbloqueOk :
    (path : Cadena) (acceso modificacion : ℕ) (sb : Superbloque)
    → SuperbloqueOk sb
    → SuperbloqueOk (utimens path acceso modificacion sb).1
unfolding utimens
utimens-SuperbloqueOk path acceso modificacion sb s = elim (Option-cases (buscar_inodo path sb)) [
  | inl e ↦ rw (e, utimens) s
  | inr (i, e) ↦
      rw (e, utimens)
        (cambio-SuperbloqueOk path sb i _ s e refl refl refl refl refl
          (con_fechas (sb.inodos i) acceso modificacion (found-EnUso path sb s e).forma))
]
