-- ===== src/Fisopfs/Invariante/Creacion.antt =====
-- `create` and `mkdir` keep the invariant, also where the directory has no room.
use sistemas_operarivos_fiub.Base.{ℕ, ◌≡◌, ◌≢◌, inl, inr, refl, sym, ◌∙◌, some, Option-cases}
use sistemas_operarivos_fiub.Fisopfs.Tipos.{
  Cadena, Superbloque, Inodo, Contexto, Retorno, ok, err, ocupado, dir_t, reg_t, mode_file,
  mode_dir,
}
use sistemas_operarivos_fiub.Fisopfs.Inodos.{
  obtener_inodo_libre, inodo_nuevo, crear_inodo, modificar, poner,
}
use sistemas_operarivos_fiub.Fisopfs.Entradas.{
  agregar_entrada_directorio, buscar_entrada_en_directorio, obtener_dir_padre,
}
use sistemas_operarivos_fiub.Fisopfs.Directorios.{registrar_archivo, crear_archivo, create}
use sistemas_operarivos_fiub.Fisopfs.Invariante.{SuperbloqueOk}
use sistemas_operarivos_fiub.Fisopfs.Invariante.Celdas.{celda-EnUso}
use sistemas_operarivos_fiub.Fisopfs.Invariante.Padres.{
  EsPadre, obtener_dir_padre-ok, agregar-some, agregar-SuperbloqueOk,
}
use sistemas_operarivos_fiub.Fisopfs.Invariante.Altas.{
  nuevo-EnUso, Asignado, asignar_cambio, padre_queda,
}

module _ (ctx : Contexto) (path : Cadena) (mode : ℕ) (sb : Superbloque) where
  -- the new file and the superblock that has it, before it is entered in its directory
  unfoldable pub archivo : ℕ → Inodo
  archivo i = record (inodo_nuevo ctx path reg_t i) { permisos = mode }

  unfoldable pub con_archivo : ℕ → Superbloque
  con_archivo i =
      let sb' = poner sb i ocupado (inodo_nuevo ctx path reg_t i) in
      modificar sb' i (record (sb'.inodos i) { permisos = mode })

  pub archivo-Asignado :
      {i : ℕ}
      → SuperbloqueOk sb
      → obtener_inodo_libre sb ≡ some i
      → Asignado sb i (archivo i) (con_archivo i)
  unfolding archivo con_archivo
  archivo-Asignado {i} s h =
      asignar_cambio sb (inodo_nuevo ctx path reg_t i) (λ n. record n { permisos = mode }) s h
        (unfold inodo_nuevo in nuevo-EnUso ctx path reg_t i mode_file 1 (inl refl))
        (unfold inodo_nuevo in nuevo-EnUso ctx path reg_t i mode 1 (inl refl)) refl refl

  -- the same for a directory
  unfoldable pub carpeta : ℕ → Inodo
  carpeta i = record (inodo_nuevo ctx path dir_t i) { permisos = mode; tam = 0; link_num = 2 }

  unfoldable pub con_carpeta : ℕ → Superbloque
  con_carpeta i =
      let sb' = poner sb i ocupado (inodo_nuevo ctx path dir_t i) in
      modificar sb' i (record (sb'.inodos i) { permisos = mode; tam = 0; link_num = 2 })

  pub carpeta-Asignado :
      {i : ℕ}
      → SuperbloqueOk sb
      → obtener_inodo_libre sb ≡ some i
      → Asignado sb i (carpeta i) (con_carpeta i)
  unfolding carpeta con_carpeta
  carpeta-Asignado {i} s h =
      asignar_cambio sb (inodo_nuevo ctx path dir_t i)
        (λ n. record n { permisos = mode; tam = 0; link_num = 2 }) s h
        (unfold inodo_nuevo in nuevo-EnUso ctx path dir_t i mode_dir 1 (inr refl))
        (nuevo-EnUso ctx path dir_t i mode 2 (inr refl)) refl refl

-- An inode that has been assigned has a number other than 0, so its entry does not read as free.
pub Asignado-inumero :
    (sb : Superbloque) (i : ℕ) (m : Inodo) {sb' : Superbloque}
    → Asignado sb i m sb'
    → (sb'.inodos i).inumero ≢ 0
Asignado-inumero sb i m a e = a.no_raiz (sym (celda-EnUso a.sano a.en_tabla a.en_uso).numero ∙ e)

registrar_archivo-SuperbloqueOk :
    (padre idx : ℕ) (sb : Superbloque)
    → SuperbloqueOk sb
    → EsPadre sb padre
    → (sb.inodos idx).inumero ≢ 0
    → SuperbloqueOk (registrar_archivo padre idx sb).1
registrar_archivo-SuperbloqueOk padre idx sb s p ne =
    elim (Option-cases (agregar_entrada_directorio sb padre idx)) [
      | inl e ↦ unfold registrar_archivo in rw (e, registrar_archivo) s
      | inr (sb', e) ↦
          unfold registrar_archivo in
          rw (e, registrar_archivo)
            (agregar-SuperbloqueOk sb padre idx s p ne (agregar-some sb padre idx e))
    ]

crear_archivo-SuperbloqueOk :
    (ctx : Contexto) (path : Cadena) (mode padre : ℕ) (sb : Superbloque)
    → SuperbloqueOk sb
    → EsPadre sb padre
    → SuperbloqueOk (crear_archivo ctx path mode padre sb).1
unfolding crear_archivo crear_inodo
crear_archivo-SuperbloqueOk ctx path mode padre sb s p =
    elim (Option-cases (obtener_inodo_libre sb)) [
      | inl e ↦ rw (e, crear_archivo, crear_inodo) s
      | inr (i, e) ↦
          rw (e, crear_archivo, crear_inodo) (entered i (archivo-Asignado ctx path mode sb s e))
    ]
  where
    entered :
        (i : ℕ)
        → Asignado sb i (archivo ctx path mode sb i) (con_archivo ctx path mode sb i)
        → SuperbloqueOk
            (registrar_archivo padre i (
              modificar
                (poner sb i ocupado (inodo_nuevo ctx path reg_t i))
                i
                (record ((poner sb i ocupado (inodo_nuevo ctx path reg_t i)).inodos i) {
                  permisos = mode;
                }))).1
    entered i a =
        unfold con_archivo in
        registrar_archivo-SuperbloqueOk padre i _ a.sano (padre_queda sb i padre _ a p).1
          (Asignado-inumero sb i _ a)

pub create-SuperbloqueOk :
    (ctx : Contexto) (path : Cadena) (mode : ℕ) (sb : Superbloque)
    → SuperbloqueOk sb
    → SuperbloqueOk (create ctx path mode sb).1
create-SuperbloqueOk ctx path mode sb s = parent (obtener_dir_padre path sb) refl
  where
    parent :
        (r : Retorno (ℕ × Cadena))
        → obtener_dir_padre path sb ≡ r
        → SuperbloqueOk (create ctx path mode sb).1
    parent (err e) h = unfold create in rw (h, create) s
    parent (ok (padre, nombre)) h =
        let p = (obtener_dir_padre-ok path sb h).es_padre in
        elim (Option-cases (buscar_entrada_en_directorio sb padre nombre)) [
          | inl e ↦
              unfold create in
              rw (h, e, create) (crear_archivo-SuperbloqueOk ctx path mode padre sb s p)
          | inr (c, e) ↦ unfold create in rw (h, e, create) s
        ]
