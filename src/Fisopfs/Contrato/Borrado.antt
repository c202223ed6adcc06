-- ===== src/Fisopfs/Contrato/Borrado.antt =====
-- What a successful `unlink` and a successful `rmdir` have done.
use sistemas_operarivos_fiub.Base.{
  ℕ, ◌+◌, ◌/◌, ◌<◌, ◌≡◌, ◌≢◌, ◌⊎◌, inl, inr, refl, sym, ap, ◌∙◌, subst, true, false, none, some,
  ◌==◌, ==_iff, arith, Option-cases, Bool-cases, first_from, first_from-none, first_from-some,
  strings_eq, strings_eq_iff, update_same, update_other,
}
use sistemas_operarivos_fiub.Fisopfs.Tipos.{
  Cadena, Superbloque, Inodo, inodo_cero, Retorno, ok, err, libre, reg_t, dir_t, tam_entrada,
  max_dir_entries,
}
use sistemas_operarivos_fiub.Fisopfs.Rutas.{root_path, separar_path}
use sistemas_operarivos_fiub.Fisopfs.Inodos.{buscar_inodo, modificar, poner}
use sistemas_operarivos_fiub.Fisopfs.Inodos.Busqueda.{
  Ocupa, buscar_inodo-Ocupa, modificar_other, modificar_same,
}
use sistemas_operarivos_fiub.Fisopfs.Entradas.{
  punto, punto_punto, se_llama, es_hijo, quitar, eliminar_entrada_directorio, obtener_dir_padre,
  directorio_esta_vacio,
}
use sistemas_operarivos_fiub.Fisopfs.Entradas.Vista.{
  contenido, borrar_primera, borrar_primera-absent,
}
use sistemas_operarivos_fiub.Fisopfs.Directorios.{
  liberar, borrar_archivo, unlink, borrar_directorio, rmdir,
}
use sistemas_operarivos_fiub.Fisopfs.Invariante.{DirectorioOk, SuperbloqueOk}
use sistemas_operarivos_fiub.Fisopfs.Invariante.Padres.{
  EsPadre, Eliminado, obtener_dir_padre-ok, eliminar-some, padre-DirectorioOk,
}
use sistemas_operarivos_fiub.Fisopfs.Invariante.Bajas.{
  liberar-SuperbloqueOk, liberar-EsPadre, regular_ne, found-ne-root,
}
use sistemas_operarivos_fiub.Fisopfs.Contrato.Listas.{
  contenido_first, count_bounds, se_llama-other, eliminar-contenido,
}

-- Where no entry has the name, nothing is to be taken out.
borrar_primera-contenido :
    (n : Inodo) (nombre : Cadena)
    → DirectorioOk n
    → first_from (se_llama n.entradas nombre) 0 (n.tam / tam_entrada) ≡ none
    → borrar_primera nombre (contenido n) ≡ contenido n
borrar_primera-contenido n nombre d h = rw (contenido_first n d.usadas d.contiguas d.entran) (
    borrar_primera-absent n.entradas nombre 0 d.usadas (λ j a b.
      se_llama-other n.entradas nombre j
        (first_from-none (se_llama n.entradas nombre) 0 (n.tam / tam_entrada) h j a
          (omega (arith, b, (count_bounds n d).0)))
        (d.contiguas.llenas j (omega (arith, b)))))

-- the fields of an inode other than its entries and its size are the same
abbrev pub MismosDatos : Inodo → Inodo → Type 0
MismosDatos n n' = n' ≡ record n { entradas = n'.entradas; tam = n'.tam }

-- `idx` was a regular file under the path, and is free and all zeros; the list of the parent is
-- without the first entry of its name, its size is as it was or one entry less, its other fields are
-- as they were; no other inode has changed.
pub record Borrado (path : Cadena) (sb sb' : Superbloque) : Type 0 where
  pub padre : ℕ
  pub idx : ℕ
  pub es_padre : EsPadre sb padre
  pub su_directorio : (sb.inodos padre).path ≡ (separar_path path).0
  pub ocupaba : Ocupa sb path idx
  pub era_regular : (sb.inodos idx).tipo_archivo ≡ reg_t
  pub esta_libre : sb'.bitmap_inodes idx ≡ libre
  pub en_cero : sb'.inodos idx ≡ inodo_cero
  pub listado :
      contenido (sb'.inodos padre)
      ≡ borrar_primera (separar_path path).1 (contenido (sb.inodos padre))
  pub mismos_datos : MismosDatos (sb.inodos padre) (sb'.inodos padre)
  pub tamano :
      ((sb'.inodos padre).tam ≡ (sb.inodos padre).tam)
      ⊎ ((sb'.inodos padre).tam + tam_entrada ≡ (sb.inodos padre).tam)
  pub otros : (j : ℕ) → j ≢ idx → j ≢ padre → sb'.inodos j ≡ sb.inodos j
  pub otros_bits : (j : ℕ) → j ≢ idx → sb'.bitmap_inodes j ≡ sb.bitmap_inodes j

-- the way of an `unlink` that succeeds
record Pasos (path : Cadena) (sb sb' : Superbloque) : Type 0 where
  padre : ℕ
  nombre : Cadena
  idx : ℕ
  de_padre : obtener_dir_padre path sb ≡ ok (padre, nombre)
  de_archivo : buscar_inodo path sb ≡ some idx
  regular : (sb.inodos idx).tipo_archivo ≡ reg_t
  final : sb' ≡ borrar_archivo idx padre nombre sb

unlink-Pasos :
    (path : Cadena) (sb : Superbloque) {n : ℕ}
    → (unlink path sb).0 ≡ ok n
    → Pasos path sb (unlink path sb).1
unfolding unlink
unlink-Pasos path sb h = parent (obtener_dir_padre path sb) refl
  where
    parent :
        (r : Retorno (ℕ × Cadena))
        → obtener_dir_padre path sb ≡ r
        → Pasos path sb (unlink path sb).1
    parent (err e) q = ground arith
    parent (ok (padre, nombre)) q = elim (Option-cases (buscar_inodo path sb)) [
      | inl b ↦ ground arith
      | inr (idx, b) ↦ record {
        padre = padre;
        nombre = nombre;
        idx = idx;
        de_padre = q;
        de_archivo = b;
        regular = ground arith;
        final = ground arith;
      }
    ]

-- the cells after the inode is freed and the entry taken out
record Sacado (sb : Superbloque) (idx padre : ℕ) (nombre : Cadena) (sb' : Superbloque)
    : Type 0 where
  otros : (j : ℕ) → j ≢ padre → sb'.inodos j ≡ (liberar sb idx).inodos j
  bits : (j : ℕ) → sb'.bitmap_inodes j ≡ (liberar sb idx).bitmap_inodes j
  listado :
      contenido (sb'.inodos padre)
      ≡ borrar_primera nombre (contenido ((liberar sb idx).inodos padre))
  mismos_datos : MismosDatos ((liberar sb idx).inodos padre) (sb'.inodos padre)
  tamano :
      ((sb'.inodos padre).tam ≡ ((liberar sb idx).inodos padre).tam)
      ⊎ ((sb'.inodos padre).tam + tam_entrada ≡ ((liberar sb idx).inodos padre).tam)

quitar-MismosDatos : (n : Inodo) (i k : ℕ) → MismosDatos n (quitar n i k)
unfolding quitar
quitar-MismosDatos n i k = refl

quitar-tam :
    (n : Inodo) (nombre : Cadena) (i k : ℕ)
    → first_from (se_llama n.entradas nombre) 0 (n.tam / tam_entrada) ≡ some i
    → (quitar n i k).tam + tam_entrada ≡ n.tam
unfolding quitar
quitar-tam n nombre i k h =
    let f = first_from-some (se_llama n.entradas nombre) 0 (n.tam / tam_entrada) h in
    omega (arith, f.upper)

borrar_archivo-Sacado :
    (idx padre : ℕ) (nombre : Cadena) (sb : Superbloque)
    → SuperbloqueOk (liberar sb idx)
    → EsPadre (liberar sb idx) padre
    → Sacado sb idx padre nombre (borrar_archivo idx padre nombre sb)
unfolding borrar_archivo
borrar_archivo-Sacado idx padre nombre sb s p =
    elim (Option-cases (eliminar_entrada_directorio t padre nombre)) [
      | inl e ↦
          rw (e, borrar_archivo)
            (record {
              otros = λ j q. refl;
              bits = λ j. refl;
              listado = sym (
                  borrar_primera-contenido (t.inodos padre) nombre (padre-DirectorioOk t padre s p)
                    (not_found e));
              mismos_datos = refl;
              tamano = inl refl;
            })
      | inr (sb', e) ↦
          let a = eliminar-some t padre nombre e in
          rw (e, borrar_archivo)
            (record {
              otros = λ j q.
                  ap (λ (u : Superbloque). u.inodos j) a.final ∙ modificar_other t padre _ j q;
              bits = λ j.
                  ap (λ (u : Superbloque). u.bitmap_inodes j) a.final ∙ (unfold modificar in refl);
              listado = eliminar-contenido t padre nombre s p e;
              mismos_datos =
                  subst (MismosDatos (t.inodos padre)) (sym (nuevo a))
                    (quitar-MismosDatos (t.inodos padre) a.indice _);
              tamano = inr (
                  ap (λ (n : Inodo). n.tam + tam_entrada) (nuevo a)
                  ∙ quitar-tam (t.inodos padre) nombre a.indice _ a.hallada);
            })
    ]
  where
    t : Superbloque
    t = liberar sb idx

    nuevo :
        {sb' : Superbloque}
        → (a : Eliminado t padre nombre sb')
        → sb'.inodos padre ≡ quitar (t.inodos padre) a.indice ((t.inodos padre).tam / tam_entrada)
    nuevo a = ap (λ (u : Superbloque). u.inodos padre) a.final ∙ modificar_same t padre _

    not_found :
        eliminar_entrada_directorio t padre nombre ≡ none
        → first_from
            (se_llama (t.inodos padre).entradas nombre)
            0
            ((t.inodos padre).tam / tam_entrada)
          ≡ none
    not_found e = unfold eliminar_entrada_directorio in ground arith

-- An `unlink` that succeeds on a sound superblock has done what `Borrado` says.
pub unlink-Borrado :
    (path : Cadena) (sb : Superbloque) {n : ℕ}
    → SuperbloqueOk sb
    → (unlink path sb).0 ≡ ok n
    → Borrado path sb (unlink path sb).1
unlink-Borrado path sb s h = done (unlink-Pasos path sb h)
  where
    done : Pasos path sb (unlink path sb).1 → Borrado path sb (unlink path sb).1
    done p =
        let i = p.idx in
        let found = obtener_dir_padre-ok path sb p.de_padre in
        let ne = regular_ne sb i p.padre p.regular found.es_padre.es_dir in
        let clear =
          liberar-SuperbloqueOk sb i s (λ e. regular_ne sb i 0 p.regular s.raiz_dir (sym e)) in
        let r =
          borrar_archivo-Sacado i p.padre p.nombre sb clear
            (liberar-EsPadre sb i p.padre ne found.es_padre) in
        record {
          padre = p.padre;
          idx = i;
          es_padre = found.es_padre;
          su_directorio =
              Ocupa.su_path (buscar_inodo-Ocupa (separar_path path).0 sb found.encontrado);
          ocupaba = buscar_inodo-Ocupa path sb p.de_archivo;
          era_regular = p.regular;
          esta_libre =
              ap (λ (u : Superbloque). u.bitmap_inodes i) p.final
              ∙ r.bits i
              ∙ (unfold liberar poner in update_same sb.bitmap_inodes i libre);
          en_cero =
              ap (λ (u : Superbloque). u.inodos i) p.final
              ∙ r.otros i (λ e. ne (sym e))
              ∙ (unfold liberar poner in update_same sb.inodos i inodo_cero);
          listado =
              ap (λ (u : Superbloque). contenido (u.inodos p.padre)) p.final
              ∙ r.listado
              ∙ ap (λ (m : Inodo). borrar_primera p.nombre (contenido m)) (kept i p.padre ne)
              ∙ ap (λ q. borrar_primera q (contenido (sb.inodos p.padre))) found.su_nombre;
          mismos_datos =
              subst (MismosDatos (sb.inodos p.padre))
                (sym (ap (λ (u : Superbloque). u.inodos p.padre) p.final))
                (subst (λ n. MismosDatos n ((borrar_archivo i p.padre p.nombre sb).inodos p.padre))
                  (kept i p.padre ne) r.mismos_datos);
          tamano =
              subst
                (λ (n : Inodo).
                  (n.tam ≡ (sb.inodos p.padre).tam)
                  ⊎ (n.tam + tam_entrada ≡ (sb.inodos p.padre).tam))
                (sym (ap (λ (u : Superbloque). u.inodos p.padre) p.final))
                (subst
                  (λ (n : Inodo).
                    (((borrar_archivo i p.padre p.nombre sb).inodos p.padre).tam ≡ n.tam)
                    ⊎ (((borrar_archivo i p.padre p.nombre sb).inodos p.padre).tam + tam_entrada
                        ≡ n.tam))
                  (kept i p.padre ne) r.tamano);
          otros =
              λ j ji jp. ap (λ (u : Superbloque). u.inodos j) p.final ∙ r.otros j jp ∙ kept i j ji;
          otros_bits = λ j ji.
              ap (λ (u : Superbloque). u.bitmap_inodes j) p.final
              ∙ r.bits j
              ∙ (unfold liberar poner in update_other sb.bitmap_inodes i libre j ji);
        }
      where
        kept : (i j : ℕ) → j ≢ i → (liberar sb i).inodos j ≡ sb.inodos j
        kept i j ne = unfold liberar poner in update_other sb.inodos i inodo_cero j ne

-- A directory found empty holds nothing but entries named `.` and `..`.
directorio_esta_vacio_sound :
    (n : Inodo)
    → directorio_esta_vacio n ≡ true
    → (j : ℕ) → j < max_dir_entries
    → (n.entradas j).inodo ≢ 0
    → ((n.entradas j).nombre ≡ punto) ⊎ ((n.entradas j).nombre ≡ punto_punto)
directorio_esta_vacio_sound n h j l ne = named (n.entradas j).nombre (
    first_from-none (es_hijo n.entradas) 0 max_dir_entries none_found j (omega arith) (omega arith))
  where
    none_found : first_from (es_hijo n.entradas) 0 max_dir_entries ≡ none
    none_found = unfold directorio_esta_vacio in ground arith

    named :
        (s : Cadena)
        → es_hijo n.entradas j ≡ false
        → ((n.entradas j).nombre ≡ punto) ⊎ ((n.entradas j).nombre ≡ punto_punto)
    named s f = elim (Bool-cases (strings_eq (n.entradas j).nombre punto)) [
      | inl a ↦ inl ((strings_eq_iff (n.entradas j).nombre punto).0 a)
      | inr a ↦ elim (Bool-cases (strings_eq (n.entradas j).nombre punto_punto)) [
        | inl b ↦ inr ((strings_eq_iff (n.entradas j).nombre punto_punto).0 b)
        | inr b ↦ absurd (child a b f)
      ]
    ]
      where
        child :
            strings_eq (n.entradas j).nombre punto ≡ false
            → strings_eq (n.entradas j).nombre punto_punto ≡ false
            → es_hijo n.entradas j ≡ false
            → ⊥
        child a b f = unfold es_hijo in ground arith

-- `rmdir` of `path` has removed the directory `idx`: it was not the root, held nothing but entries
-- named `.` and `..`, and is free and all zeros.
pub record BorradoDir (path : Cadena) (sb sb' : Superbloque) : Type 0 where
  pub idx : ℕ
  pub ocupaba : Ocupa sb path idx
  pub no_raiz : idx ≢ 0
  pub era_directorio : (sb.inodos idx).tipo_archivo ≡ dir_t
  pub sin_hijos :
      (j : ℕ)
      → j < max_dir_entries
      → ((sb.inodos idx).entradas j).inodo ≢ 0
      → (((sb.inodos idx).entradas j).nombre ≡ punto)
        ⊎ (((sb.inodos idx).entradas j).nombre ≡ punto_punto)
  pub esta_libre : sb'.bitmap_inodes idx ≡ libre
  pub en_cero : sb'.inodos idx ≡ inodo_cero

borrar_directorio-ok :
    (path : Cadena) (idx : ℕ) (sb : Superbloque) {n : ℕ}
    → (borrar_directorio path idx sb).0 ≡ ok n
    → (t : Superbloque) × ((borrar_directorio path idx sb).1 ≡ liberar t idx)
unfolding borrar_directorio
borrar_directorio-ok path idx sb h = parent (obtener_dir_padre path sb) refl
  where
    parent :
        (r : Retorno (ℕ × Cadena))
        → obtener_dir_padre path sb ≡ r
        → (t : Superbloque) × ((borrar_directorio path idx sb).1 ≡ liberar t idx)
    parent (err e) q = ground arith
    parent (ok (padre, nombre)) q =
        elim (Option-cases (eliminar_entrada_directorio sb padre nombre)) [
          | inl e ↦ ground arith
          | inr (t, e) ↦ (t, ground arith)
        ]

-- A `rmdir` that succeeds on a sound superblock has done what `BorradoDir` says: no directory with
-- a file or a directory in it is removed, nor is the root.
pub rmdir-BorradoDir :
    (path : Cadena) (sb : Superbloque) {n : ℕ}
    → SuperbloqueOk sb
    → (rmdir path sb).0 ≡ ok n
    → BorradoDir path sb (rmdir path sb).1
unfolding rmdir
rmdir-BorradoDir path sb {n} s h = elim (Bool-cases (strings_eq path root_path)) [
  | inl b ↦ ground arith
  | inr b ↦ elim (Option-cases (buscar_inodo path sb)) [
    | inl e ↦ ground arith
    | inr (i, e) ↦ elim (Bool-cases ((sb.inodos i).tipo_archivo == dir_t)) [
      | inr t ↦ ground arith
      | inl t ↦ elim (Bool-cases (directorio_esta_vacio (sb.inodos i))) [
        | inr v ↦ ground arith
        | inl v ↦
            rw (b, e, t, v, rmdir)
              (removed b i e ((==_iff (sb.inodos i).tipo_archivo dir_t).0 t) v
                (borrar_directorio-ok path i sb (rw (b, e, t, v, rmdir) at h)))
      ]
    ]
  ]
]
  where
    removed :
        strings_eq path root_path ≡ false
        → (i : ℕ) → buscar_inodo path sb ≡ some i
        → (sb.inodos i).tipo_archivo ≡ dir_t
        → directorio_esta_vacio (sb.inodos i) ≡ true
        → (t : Superbloque) × ((borrar_directorio path i sb).1 ≡ liberar t i)
        → BorradoDir path sb (borrar_directorio path i sb).1
    removed b i e d v (t, f) = record {
      idx = i;
      ocupaba = buscar_inodo-Ocupa path sb e;
      no_raiz = found-ne-root path sb s b e;
      era_directorio = d;
      sin_hijos = directorio_esta_vacio_sound (sb.inodos i) v;
      esta_libre =
          ap (λ (u : Superbloque). u.bitmap_inodes i) f
          ∙ (unfold liberar poner in update_same t.bitmap_inodes i libre);
      en_cero =
          ap (λ (u : Superbloque). u.inodos i) f
          ∙ (unfold liberar poner in update_same t.inodos i inodo_cero);
    }
