-- ===== src/Fisopfs/Invariante/Bajas.antt =====
-- `unlink` and `rmdir` keep the invariant.
use sistemas_operarivos_fiub.Base.{
  ℕ, ◌≡◌, ◌≢◌, inl, inr, refl, sym, ap, ◌∙◌, subst, true, false, some, ◌==◌, ==_iff, arith,
  Option-cases, Bool-cases, update_other, strings_eq, strings_eq_iff,
}
use sistemas_operarivos_fiub.Fisopfs.Tipos.{
  Cadena, Superbloque, Inodo, inodo_cero, Retorno, ok, err, libre, reg_t, dir_t,
}
use sistemas_operarivos_fiub.Fisopfs.Rutas.{root_path}
use sistemas_operarivos_fiub.Fisopfs.Inodos.{buscar_inodo, poner}
use sistemas_operarivos_fiub.Fisopfs.Inodos.Busqueda.{buscar_inodo-Ocupa}
use sistemas_operarivos_fiub.Fisopfs.Entradas.{
  eliminar_entrada_directorio, obtener_dir_padre, directorio_esta_vacio,
}
use sistemas_operarivos_fiub.Fisopfs.Directorios.{
  liberar, borrar_archivo, unlink, borrar_directorio, rmdir,
}
use sistemas_operarivos_fiub.Fisopfs.Invariante.{SuperbloqueOk}
use sistemas_operarivos_fiub.Fisopfs.Invariante.Celdas.{poner-SuperbloqueOk}
use sistemas_operarivos_fiub.Fisopfs.Invariante.Padres.{
  EsPadre, obtener_dir_padre-ok, eliminar-some, eliminar-SuperbloqueOk,
}

pub liberar-SuperbloqueOk :
    (sb : Superbloque) (i : ℕ) → SuperbloqueOk sb → i ≢ 0 → SuperbloqueOk (liberar sb i)
unfolding liberar
liberar-SuperbloqueOk sb i s ne = poner-SuperbloqueOk sb i libre inodo_cero s ne (inl (refl, refl))

-- A directory stays what it is when another cell is freed.
pub liberar-EsPadre :
    (sb : Superbloque) (i padre : ℕ) → padre ≢ i → EsPadre sb padre → EsPadre (liberar sb i) padre
unfolding liberar poner
liberar-EsPadre sb i padre ne p = record {
  en_tabla = p.en_tabla;
  en_uso = update_other sb.bitmap_inodes i libre padre ne ∙ p.en_uso;
  es_dir =
      ap (λ (n : Inodo). n.tipo_archivo) (update_other sb.inodos i inodo_cero padre ne) ∙ p.es_dir;
}

-- A regular file is neither the root nor a parent.
pub regular_ne :
    (sb : Superbloque) (i j : ℕ)
    → (sb.inodos i).tipo_archivo ≡ reg_t
    → (sb.inodos j).tipo_archivo ≡ dir_t
    → j ≢ i
regular_ne sb i j r d e = clash (subst (λ k. (sb.inodos k).tipo_archivo ≡ dir_t) e d)
  where
    clash : (sb.inodos i).tipo_archivo ≡ dir_t → ⊥
    clash d = omega arith

borrar_archivo-SuperbloqueOk :
    (idx padre : ℕ) (nombre : Cadena) (sb : Superbloque)
    → SuperbloqueOk sb
    → EsPadre sb padre
    → (sb.inodos idx).tipo_archivo ≡ reg_t
    → SuperbloqueOk (borrar_archivo idx padre nombre sb)
unfolding borrar_archivo
borrar_archivo-SuperbloqueOk idx padre nombre sb s p t =
    elim (Option-cases (eliminar_entrada_directorio (liberar sb idx) padre nombre)) [
      | inl e ↦ rw (e, borrar_archivo) freed
      | inr (sb', e) ↦
          rw (e, borrar_archivo)
            (eliminar-SuperbloqueOk (liberar sb idx) padre nombre freed
              (liberar-EsPadre sb idx padre (regular_ne sb idx padre t p.es_dir) p)
              (eliminar-some (liberar sb idx) padre nombre e))
    ]
  where
    freed : SuperbloqueOk (liberar sb idx)
    freed = liberar-SuperbloqueOk sb idx s (λ e. regular_ne sb idx 0 t s.raiz_dir (sym e))

pub unlink-SuperbloqueOk :
    (path : Cadena) (sb : Superbloque) → SuperbloqueOk sb → SuperbloqueOk (unlink path sb).1
unfolding unlink
unlink-SuperbloqueOk path sb s = parent (obtener_dir_padre path sb) refl
  where
    parent :
        (r : Retorno (ℕ × Cadena))
        → obtener_dir_padre path sb ≡ r
        → SuperbloqueOk (unlink path sb).1
    parent (err e) h = rw (h, unlink) s
    parent (ok (padre, nombre)) h = elim (Option-cases (buscar_inodo path sb)) [
      | inl e ↦ rw (h, e, unlink) s
      | inr (idx, e) ↦ elim (Bool-cases ((sb.inodos idx).tipo_archivo == reg_t)) [
        | inr t ↦ rw (h, e, t, unlink) s
        | inl t ↦
            rw (h, e, t, unlink)
              (borrar_archivo-SuperbloqueOk idx padre nombre sb s
                (obtener_dir_padre-ok path sb h).es_padre
                ((==_iff (sb.inodos idx).tipo_archivo reg_t).0 t))
      ]
    ]

borrar_directorio-SuperbloqueOk :
    (path : Cadena) (idx : ℕ) (sb : Superbloque)
    → SuperbloqueOk sb
    → idx ≢ 0
    → SuperbloqueOk (borrar_directorio path idx sb).1
unfolding borrar_directorio
borrar_directorio-SuperbloqueOk path idx sb s ne = parent (obtener_dir_padre path sb) refl
  where
    parent :
        (r : Retorno (ℕ × Cadena))
        → obtener_dir_padre path sb ≡ r
        → SuperbloqueOk (borrar_directorio path idx sb).1
    parent (err e) h = rw (h, borrar_directorio) s
    parent (ok (padre, nombre)) h =
        elim (Option-cases (eliminar_entrada_directorio sb padre nombre)) [
          | inl e ↦ rw (h, e, borrar_directorio) s
          | inr (sb', e) ↦
              rw (h, e, borrar_directorio)
                (liberar-SuperbloqueOk sb' idx
                  (eliminar-SuperbloqueOk sb padre nombre s
                    (obtener_dir_padre-ok path sb h).es_padre (eliminar-some sb padre nombre e))
                  ne)
        ]

-- The inode found under a path other than "/" is not the root.
pub found-ne-root :
    (path : Cadena) (sb : Superbloque) {i : ℕ}
    → SuperbloqueOk sb
    → strings_eq path root_path ≡ false
    → buscar_inodo path sb ≡ some i
    → i ≢ 0
found-ne-root path sb {i} s ne e z =
    let o = buscar_inodo-Ocupa path sb e in
    let at_root : (sb.inodos 0).path ≡ path = subst (λ k. (sb.inodos k).path ≡ path) z o.su_path in
    clash ((strings_eq_iff path root_path).1 (sym at_root ∙ s.raiz_path)) ne
  where
    clash : strings_eq path root_path ≡ true → strings_eq path root_path ≡ false → ⊥
    clash a b = cc

pub rmdir-SuperbloqueOk :
    (path : Cadena) (sb : Superbloque) → SuperbloqueOk sb → SuperbloqueOk (rmdir path sb).1
unfolding rmdir
rmdir-SuperbloqueOk path sb s = elim (Bool-cases (strings_eq path root_path)) [
  | inl b ↦ rw (b, rmdir) s
  | inr b ↦ elim (Option-cases (buscar_inodo path sb)) [
    | inl e ↦ rw (b, e, rmdir) s
    | inr (i, e) ↦ elim (Bool-cases ((sb.inodos i).tipo_archivo == dir_t)) [
      | inr t ↦ rw (b, e, t, rmdir) s
      | inl t ↦ elim (Bool-cases (directorio_esta_vacio (sb.inodos i))) [
        | inr v ↦ rw (b, e, t, v, rmdir) s
        | inl v ↦
            rw (b, e, t, v, rmdir)
              (borrar_directorio-SuperbloqueOk path i sb s (found-ne-root path sb s b e))
      ]
    ]
  ]
]
