-- ===== src/Fisopfs/Invariante/Carpetas.antt =====
-- `mkdir` keeps the invariant, also where the directory has no room.
use sistemas_operarivos_fiub.Base.{
  ℕ, ◌≤◌, ◌<◌, ◌≡◌, ◌≢◌, ◌⊎◌, inl, inr, refl, sym, ap, ◌∙◌, arith, Option-cases, update,
  update_same, update_other, nat_eq_cases,
}
use sistemas_operarivos_fiub.Fisopfs.Tipos.{
  Cadena, Superbloque, Inodo, Entrada, Contexto, Retorno, ok, err, ocupado, dir_t,
}
use sistemas_operarivos_fiub.Fisopfs.Inodos.{
  obtener_inodo_libre, inodo_nuevo, crear_inodo, modificar,
}
use sistemas_operarivos_fiub.Fisopfs.Inodos.Busqueda.{modificar_other}
use sistemas_operarivos_fiub.Fisopfs.Entradas.{
  punto, punto_punto, agregar_entrada_directorio, buscar_entrada_en_directorio, obtener_dir_padre,
  inicializar_entradas_directorio, crear_entrada,
}
use sistemas_operarivos_fiub.Fisopfs.Entradas.Contiguas.{Contiguas, update-Contiguas}
use sistemas_operarivos_fiub.Fisopfs.Directorios.{registrar_directorio, crear_directorio, mkdir}
use sistemas_operarivos_fiub.Fisopfs.Invariante.{DirectorioOk, EnUso, SuperbloqueOk}
use sistemas_operarivos_fiub.Fisopfs.Invariante.Celdas.{celda-EnUso, modificar-SuperbloqueOk}
use sistemas_operarivos_fiub.Fisopfs.Invariante.Regulares.{con_forma, directorio_of}
use sistemas_operarivos_fiub.Fisopfs.Invariante.Padres.{
  EsPadre, obtener_dir_padre-ok, Agregado, agregar-some, agregar-SuperbloqueOk,
}
use sistemas_operarivos_fiub.Fisopfs.Invariante.Altas.{Asignado, padre_queda}
use sistemas_operarivos_fiub.Fisopfs.Invariante.Creacion.{
  carpeta, con_carpeta, carpeta-Asignado, Asignado-inumero,
}

-- the entries of a new directory: one is in use if the parent is the root, else two
inicializar-usadas :
    (e : ℕ → Entrada) (idx padre : ℕ)
    → ((k : ℕ) → (e k).inodo ≡ 0)
    → idx ≢ 0
    → Contiguas
        (update (update e 0 (crear_entrada punto idx)) 1 (crear_entrada punto_punto padre))
        1
      ⊎ Contiguas
          (update (update e 0 (crear_entrada punto idx)) 1 (crear_entrada punto_punto padre))
          2
inicializar-usadas e idx padre z ne = elim (nat_eq_cases padre 0) [
  | inl q ↦ inl (record { llenas = λ i l. full i l; vacias = λ i l. free q i l })
  | inr q ↦
      inr (update-Contiguas d 1 (crear_entrada punto_punto padre) one (unfold crear_entrada in q))
]
  where
    d : ℕ → Entrada
    d = update e 0 (crear_entrada punto idx)

    one : Contiguas d 1
    one =
        update-Contiguas e 0 (crear_entrada punto idx)
          (record { llenas = λ i l. absurd (omega arith); vacias = λ i l. z i })
          (unfold crear_entrada in ne)

    full : (i : ℕ) → i < 1 → (update d 1 (crear_entrada punto_punto padre) i).inodo ≢ 0
    full i l =
        rw (update_other d 1 (crear_entrada punto_punto padre) i (omega arith)) (one.llenas i l)

    free : padre ≡ 0 → (i : ℕ) → 1 ≤ i → (update d 1 (crear_entrada punto_punto padre) i).inodo ≡ 0
    free q i l = elim (nat_eq_cases i 1) [
      | inl r ↦
          rw (r, update_same d 1 (crear_entrada punto_punto padre)) (unfold crear_entrada in q)
      | inr r ↦ rw (update_other d 1 (crear_entrada punto_punto padre) i r) (one.vacias i l)
    ]

inicializar-DirectorioOk :
    (n : Inodo) (idx padre : ℕ)
    → DirectorioOk n
    → ((k : ℕ) → (n.entradas k).inodo ≡ 0)
    → idx ≢ 0
    → DirectorioOk (inicializar_entradas_directorio n idx padre)
unfolding inicializar_entradas_directorio
inicializar-DirectorioOk n idx padre d z ne = shape (inicializar-usadas n.entradas idx padre z ne)
  where
    e : ℕ → Entrada
    e = update (update n.entradas 0 (crear_entrada punto idx)) 1 (crear_entrada punto_punto padre)

    shape :
        Contiguas e 1 ⊎ Contiguas e 2 → DirectorioOk (inicializar_entradas_directorio n idx padre)
    shape (inl c) = record {
      directorio = d.directorio;
      usadas = 1;
      entran = omega arith;
      contiguas = c;
      contadas = inr (omega arith);
      sin_bytes = d.sin_bytes;
    }
    shape (inr c) = record {
      directorio = d.directorio;
      usadas = 2;
      entran = omega arith;
      contiguas = c;
      contadas = inl (omega arith);
      sin_bytes = d.sin_bytes;
    }

-- The new directory gets its own two entries after it has been entered in its parent.
registrado-SuperbloqueOk :
    (sb : Superbloque) (i padre : ℕ) (m : Inodo) {sb' sb'' : Superbloque}
    → Asignado sb i m sb'
    → m.tipo_archivo ≡ dir_t
    → ((k : ℕ) → (m.entradas k).inodo ≡ 0)
    → EsPadre sb padre
    → Agregado sb' padre i sb''
    → SuperbloqueOk (modificar sb'' i (inicializar_entradas_directorio (sb''.inodos i) i padre))
registrado-SuperbloqueOk sb i padre m {sb'} {sb''} a t z p g =
    modificar-SuperbloqueOk sb'' i (inicializar_entradas_directorio (sb''.inodos i) i padre) sano
      bit
      (con_forma (sb''.inodos i) (inicializar_entradas_directorio (sb''.inodos i) i padre) uso
        (unfold inicializar_entradas_directorio in refl)
        (unfold inicializar_entradas_directorio in refl)
        (unfold inicializar_entradas_directorio in refl)
        (unfold inicializar_entradas_directorio in refl)
        (inr (
          inicializar-DirectorioOk (sb''.inodos i) i padre
            (directorio_of uso (ap (λ (q : Inodo). q.tipo_archivo) suyo ∙ t))
            (λ k. ap (λ (q : Inodo). (q.entradas k).inodo) suyo ∙ z k) a.no_raiz)))
      (unfold inicializar_entradas_directorio in refl)
      (unfold inicializar_entradas_directorio in refl)
  where
    queda : (padre ≢ i) × EsPadre sb' padre
    queda = padre_queda sb i padre m a p

    sano : SuperbloqueOk sb''
    sano = agregar-SuperbloqueOk sb' padre i a.sano queda.1 (Asignado-inumero sb i m a) g

    suyo : sb''.inodos i ≡ m
    suyo =
        ap (λ (s : Superbloque). s.inodos i) g.final
        ∙ modificar_other sb' padre _ i (λ q. queda.0 (sym q))
        ∙ a.suyo

    bit : sb''.bitmap_inodes i ≡ ocupado
    bit = ap (λ (s : Superbloque). s.bitmap_inodes i) g.final ∙ (unfold modificar in a.en_uso)

    uso : EnUso i (sb''.inodos i)
    uso = celda-EnUso sano a.en_tabla bit

crear_directorio-SuperbloqueOk :
    (ctx : Contexto) (path : Cadena) (mode padre : ℕ) (sb : Superbloque)
    → SuperbloqueOk sb
    → EsPadre sb padre
    → SuperbloqueOk (crear_directorio ctx path mode padre sb).1
unfolding crear_directorio crear_inodo registrar_directorio
crear_directorio-SuperbloqueOk ctx path mode padre sb s p =
    elim (Option-cases (obtener_inodo_libre sb)) [
      | inl e ↦ rw (e, crear_directorio, crear_inodo) s
      | inr (i, e) ↦
          rw (e, crear_directorio, crear_inodo)
            (unfold con_carpeta in entered i (carpeta-Asignado ctx path mode sb s e))
    ]
  where
    entered :
        (i : ℕ)
        → Asignado sb i (carpeta ctx path mode sb i) (con_carpeta ctx path mode sb i)
        → SuperbloqueOk (registrar_directorio padre i (con_carpeta ctx path mode sb i)).1
    entered i a =
        let sb' = con_carpeta ctx path mode sb i in
        elim (Option-cases (agregar_entrada_directorio sb' padre i)) [
          | inl e ↦ rw (e, registrar_directorio) a.sano
          | inr (sb'', e) ↦
              rw (e, registrar_directorio)
                (registrado-SuperbloqueOk sb i padre (carpeta ctx path mode sb i) a
                  (unfold carpeta inodo_nuevo in refl) (λ k. unfold carpeta inodo_nuevo in refl) p
                  (agregar-some sb' padre i e))
        ]

pub mkdir-SuperbloqueOk :
    (ctx : Contexto) (path : Cadena) (mode : ℕ) (sb : Superbloque)
    → SuperbloqueOk sb
    → SuperbloqueOk (mkdir ctx path mode sb).1
unfolding mkdir
mkdir-SuperbloqueOk ctx path mode sb s = parent (obtener_dir_padre path sb) refl
  where
    parent :
        (r : Retorno (ℕ × Cadena))
        → obtener_dir_padre path sb ≡ r
        → SuperbloqueOk (mkdir ctx path mode sb).1
    parent (err e) h = rw (h, mkdir) s
    parent (ok (padre, nombre)) h =
        let p = (obtener_dir_padre-ok path sb h).es_padre in
        elim (Option-cases (buscar_entrada_en_directorio sb padre nombre)) [
          | inl e ↦ rw (h, e, mkdir) (crear_directorio-SuperbloqueOk ctx path mode padre sb s p)
          | inr (c, e) ↦ rw (h, e, mkdir) s
        ]
