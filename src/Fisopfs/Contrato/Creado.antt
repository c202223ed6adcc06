-- ===== src/Fisopfs/Contrato/Creado.antt =====
-- What a successful `create` leaves behind, and what one leaves that finds the directory full.
use sistemas_operarivos_fiub.Base.{
  ℕ, ◌+◌, ◌%◌, ◌^◌, ◌<◌, ◌≡◌, ◌≢◌, inl, inr, refl, sym, ap, ◌∙◌, subst, true, [], ◌∷◌, ◌++◌, none,
  some, arith, Option-cases, first_from, first_from-some, length, nat_eq_cases,
}
use sistemas_operarivos_fiub.Fisopfs.Tipos.{
  Cadena, Superbloque, Inodo, Entrada, Contexto, Retorno, ok, err, enospc, libre, reg_t, max_path,
  max_dir_entries, tam_entrada,
}
use sistemas_operarivos_fiub.Fisopfs.Rutas.{separar_path, copiar}
use sistemas_operarivos_fiub.Fisopfs.Rutas.Leyes.{length-separar_path, copiar-short}
use sistemas_operarivos_fiub.Fisopfs.Inodos.{
  buscar_inodo, obtener_inodo_libre, crear_inodo, inodo_nuevo, modificar,
}
use sistemas_operarivos_fiub.Fisopfs.Inodos.Busqueda.{
  Ocupa, buscar_inodo-Ocupa, buscar_inodo_unique, buscar_inodo-none_iff, modificar_other,
  modificar_same,
}
use sistemas_operarivos_fiub.Fisopfs.Entradas.{
  hueco, anotar, agregar_entrada_directorio, buscar_entrada_en_directorio, obtener_dir_padre,
}
use sistemas_operarivos_fiub.Fisopfs.Entradas.Vista.{contenido}
use sistemas_operarivos_fiub.Fisopfs.Directorios.{create, crear_archivo, registrar_archivo}
use sistemas_operarivos_fiub.Fisopfs.Invariante.{SuperbloqueOk}
use sistemas_operarivos_fiub.Fisopfs.Invariante.Padres.{
  EsPadre, obtener_dir_padre-ok, entrada_de, agregar-some,
}
use sistemas_operarivos_fiub.Fisopfs.Invariante.Altas.{Asignado, padre_queda}
use sistemas_operarivos_fiub.Fisopfs.Invariante.Creacion.{
  archivo, con_archivo, archivo-Asignado, Asignado-inumero,
}
use sistemas_operarivos_fiub.Fisopfs.Contrato.Listas.{agregar-contenido}
use sistemas_operarivos_fiub.Fisopfs.Contrato.Borrado.{MismosDatos}

-- the way of a `create` that succeeds
record Pasos (ctx : Contexto) (path : Cadena) (mode : ℕ) (sb sb' : Superbloque) : Type 0 where
  padre : ℕ
  nombre : Cadena
  idx : ℕ
  de_padre : obtener_dir_padre path sb ≡ ok (padre, nombre)
  de_libre : obtener_inodo_libre sb ≡ some idx
  de_entrada : agregar_entrada_directorio (con_archivo ctx path mode sb idx) padre idx ≡ some sb'

create-Pasos :
    (ctx : Contexto) (path : Cadena) (mode : ℕ) (sb : Superbloque) {n : ℕ}
    → (create ctx path mode sb).0 ≡ ok n
    → Pasos ctx path mode sb (create ctx path mode sb).1
unfolding create crear_archivo crear_inodo registrar_archivo con_archivo
create-Pasos ctx path mode sb {n} h = parent (obtener_dir_padre path sb) refl
  where
    parent :
        (r : Retorno (ℕ × Cadena))
        → obtener_dir_padre path sb ≡ r
        → Pasos ctx path mode sb (create ctx path mode sb).1
    parent (err e) q = ground arith
    parent (ok (padre, nombre)) q =
        elim (Option-cases (buscar_entrada_en_directorio sb padre nombre)) [
          | inr (c, b) ↦ ground arith
          | inl b ↦ elim (Option-cases (obtener_inodo_libre sb)) [
            | inl l ↦ ground arith
            | inr (i, l) ↦
                elim (Option-cases
                  (agregar_entrada_directorio (con_archivo ctx path mode sb i) padre i)) [
                    | inl a ↦ ground arith
                    | inr (sb', a) ↦ record {
                      padre = padre;
                      nombre = nombre;
                      idx = i;
                      de_padre = q;
                      de_libre = l;
                      de_entrada = a ∙ ground arith;
                    }
                  ]
          ]
        ]

-- What a successful `create` has done: `idx` was free and is an empty regular file under the path,
-- its number and name end the list of the parent, whose size has grown by one entry (modulo 2^64) and
-- whose other fields are as they were, and no other inode has changed.
pub record Creado (path : Cadena) (mode : ℕ) (sb sb' : Superbloque) : Type 0 where
  pub padre : ℕ
  pub idx : ℕ
  pub es_padre : EsPadre sb padre
  pub su_directorio : (sb.inodos padre).path ≡ (separar_path path).0
  pub estaba_libre : sb.bitmap_inodes idx ≡ libre
  pub ocupa : Ocupa sb' (copiar path) idx
  pub regular : (sb'.inodos idx).tipo_archivo ≡ reg_t
  pub sin_datos : (sb'.inodos idx).tam ≡ 0
  pub con_permisos : (sb'.inodos idx).permisos ≡ mode
  pub listado :
      contenido (sb'.inodos padre)
      ≡ contenido (sb.inodos padre) ++ (record { inodo = idx; nombre = (separar_path path).1 } ∷ [])
  pub mismos_datos : MismosDatos (sb.inodos padre) (sb'.inodos padre)
  pub tamano : (sb'.inodos padre).tam ≡ ((sb.inodos padre).tam + tam_entrada) % 2 ^ 64
  pub otros : (j : ℕ) → j ≢ idx → j ≢ padre → sb'.inodos j ≡ sb.inodos j
  pub otros_paths : (j : ℕ) → j ≢ idx → (sb'.inodos j).path ≡ (sb.inodos j).path
  pub otros_bits : (j : ℕ) → j ≢ idx → sb'.bitmap_inodes j ≡ sb.bitmap_inodes j

-- the entry of a new file: its own number, and the last part of its path
entrada_de-Asignado :
    (ctx : Contexto) (path : Cadena) (mode : ℕ) (sb sb' : Superbloque) (i : ℕ)
    → Asignado sb i (archivo ctx path mode sb i) sb'
    → entrada_de sb' i ≡ record { inodo = i; nombre = (separar_path path).1 }
unfolding entrada_de archivo inodo_nuevo
entrada_de-Asignado ctx path mode sb sb' i a =
    ap (λ (n : Inodo). from_number n.inumero) a.suyo
    ∙ ap (λ (n : Inodo). make (copiar n.nombre)) a.suyo
    ∙ ap make (copiar-short (separar_path path).1 (length-separar_path path).1)
  where
    make : Cadena → Entrada
    make s = record { inodo = i; nombre = s }

    from_number : ℕ → Entrada
    from_number k = record { inodo = k; nombre = copiar (sb'.inodos k).nombre }

anotar-MismosDatos : (n : Inodo) (i : ℕ) (x : Entrada) → MismosDatos n (anotar n i x)
unfolding anotar
anotar-MismosDatos n i x = refl

anotar-tam : (n : Inodo) (i : ℕ) (x : Entrada) → (anotar n i x).tam ≡ (n.tam + tam_entrada) % 2 ^ 64
unfolding anotar
anotar-tam n i x = refl

anotar-path : (n : Inodo) (i : ℕ) (x : Entrada) → (anotar n i x).path ≡ n.path
unfolding anotar
anotar-path n i x = refl

-- A `create` that succeeds on a sound superblock has done what `Creado` says.
pub create-Creado :
    (ctx : Contexto) (path : Cadena) (mode : ℕ) (sb : Superbloque) {n : ℕ}
    → SuperbloqueOk sb
    → (create ctx path mode sb).0 ≡ ok n
    → Creado path mode sb (create ctx path mode sb).1
create-Creado ctx path mode sb s h = done (create-Pasos ctx path mode sb h)
  where
    sb' : Superbloque
    sb' = (create ctx path mode sb).1

    done : Pasos ctx path mode sb sb' → Creado path mode sb sb'
    done p =
        let i = p.idx in
        let found = obtener_dir_padre-ok path sb p.de_padre in
        let a = archivo-Asignado ctx path mode sb s p.de_libre in
        let mid = con_archivo ctx path mode sb i in
        let q = padre_queda sb i p.padre (archivo ctx path mode sb i) a found.es_padre in
        let g = agregar-some mid p.padre i p.de_entrada in
        let new = anotar (mid.inodos p.padre) g.indice (entrada_de mid i) in
        let child : sb'.inodos i ≡ archivo ctx path mode sb i =
          ap (λ (t : Superbloque). t.inodos i) g.final
          ∙ modificar_other mid p.padre new i (λ e. q.0 (sym e))
          ∙ a.suyo in
        let bits : (j : ℕ) → sb'.bitmap_inodes j ≡ mid.bitmap_inodes j =
          λ j. ap (λ (t : Superbloque). t.bitmap_inodes j) g.final ∙ (unfold modificar in refl) in
        let parent : sb'.inodos p.padre ≡ anotar (sb.inodos p.padre) g.indice (entrada_de mid i) =
          ap (λ (t : Superbloque). t.inodos p.padre) g.final
          ∙ modificar_same mid p.padre new
          ∙ ap (λ (m : Inodo). anotar m g.indice (entrada_de mid i)) (a.otros p.padre q.0) in
        record {
          padre = p.padre;
          idx = i;
          es_padre = found.es_padre;
          su_directorio =
              Ocupa.su_path (buscar_inodo-Ocupa (separar_path path).0 sb found.encontrado);
          estaba_libre = a.estaba_libre;
          ocupa = record {
            en_tabla = a.en_tabla;
            en_uso = bits i ∙ a.en_uso;
            su_path = ap (λ (m : Inodo). m.path) child ∙ (unfold archivo inodo_nuevo in refl);
          };
          regular = ap (λ (m : Inodo). m.tipo_archivo) child ∙ (unfold archivo inodo_nuevo in refl);
          sin_datos = ap (λ (m : Inodo). m.tam) child ∙ (unfold archivo inodo_nuevo in refl);
          con_permisos = ap (λ (m : Inodo). m.permisos) child ∙ (unfold archivo in refl);
          listado =
              agregar-contenido mid p.padre i a.sano q.1 (Asignado-inumero sb i _ a) p.de_entrada
              ∙ ap (λ (m : Inodo). contenido m ++ (entrada_de mid i ∷ [])) (a.otros p.padre q.0)
              ∙ ap (λ x. contenido (sb.inodos p.padre) ++ (x ∷ []))
                  (entrada_de-Asignado ctx path mode sb mid i a);
          mismos_datos =
              subst (MismosDatos (sb.inodos p.padre)) (sym parent)
                (anotar-MismosDatos (sb.inodos p.padre) g.indice (entrada_de mid i));
          tamano =
              ap (λ (m : Inodo). m.tam) parent
              ∙ anotar-tam (sb.inodos p.padre) g.indice (entrada_de mid i);
          otros = λ j ji jp.
              ap (λ (t : Superbloque). t.inodos j) g.final
              ∙ modificar_other mid p.padre new j jp
              ∙ a.otros j ji;
          otros_paths = λ j ji. elim (nat_eq_cases j p.padre) [
            | inl e ↦
                ap (λ (t : Superbloque). (t.inodos j).path) g.final
                ∙ subst (λ k. ((modificar mid p.padre new).inodos k).path ≡ (mid.inodos k).path)
                    (sym e)
                    (ap (λ (m : Inodo). m.path) (modificar_same mid p.padre new)
                      ∙ anotar-path (mid.inodos p.padre) g.indice (entrada_de mid i))
                ∙ ap (λ (m : Inodo). m.path) (a.otros j ji)
            | inr e ↦
                ap (λ (t : Superbloque). (t.inodos j).path) g.final
                ∙ ap (λ (m : Inodo). m.path) (modificar_other mid p.padre new j e)
                ∙ ap (λ (m : Inodo). m.path) (a.otros j ji)
          ];
          otros_bits = λ j ji. bits j ∙ a.otros_bits j ji;
        }

-- After a successful `create` of a path that was not there and that fits in its array, the search
-- finds the new inode under it.
pub buscar_inodo-create :
    (ctx : Contexto) (path : Cadena) (mode : ℕ) (sb : Superbloque) {n : ℕ}
    → (s : SuperbloqueOk sb) → length path < max_path
    → buscar_inodo path sb ≡ none
    → (h : (create ctx path mode sb).0 ≡ ok n)
    → buscar_inodo path (create ctx path mode sb).1 ≡ some (create-Creado ctx path mode sb s h).idx
buscar_inodo-create ctx path mode sb s l absent h =
    let sb' = (create ctx path mode sb).1 in
    let c = create-Creado ctx path mode sb s h in
    let o = subst (λ q. Ocupa sb' q c.idx) (copiar-short path l) c.ocupa in
    buscar_inodo_unique path sb' c.idx o (λ j oj. elim (nat_eq_cases j c.idx) [
      | inl e ↦ e
      | inr e ↦ absurd (
          (buscar_inodo-none_iff path sb).0 absent j (record {
            en_tabla = oj.en_tabla;
            en_uso = sym (c.otros_bits j e) ∙ oj.en_uso;
            su_path = sym (c.otros_paths j e) ∙ oj.su_path;
          }))
    ])

sin_hueco :
    (e : ℕ → Entrada)
    → ((j : ℕ) → j < max_dir_entries → (e j).inodo ≢ 0)
    → first_from (hueco e) 0 max_dir_entries ≡ none
sin_hueco e full = elim (Option-cases (first_from (hueco e) 0 max_dir_entries)) [
  | inl h ↦ h
  | inr (j, h) ↦
      let f = first_from-some (hueco e) 0 max_dir_entries h in
      absurd (full j (omega (arith, f.upper)) (free j f.passes))
]
  where
    free : (j : ℕ) → hueco e j ≡ true → (e j).inodo ≡ 0
    free j h = unfold hueco in ground arith

create-lleno_steps :
    (ctx : Contexto) (path : Cadena) (mode : ℕ) (sb : Superbloque) {padre i : ℕ} {nombre : Cadena}
    → obtener_dir_padre path sb ≡ ok (padre, nombre)
    → buscar_entrada_en_directorio sb padre nombre ≡ none
    → obtener_inodo_libre sb ≡ some i
    → agregar_entrada_directorio (con_archivo ctx path mode sb i) padre i ≡ none
    → create ctx path mode sb ≡ (err enospc, con_archivo ctx path mode sb i)
unfolding create crear_archivo crear_inodo registrar_archivo con_archivo
create-lleno_steps ctx path mode sb {padre} {i} {nombre} hp hb hl full = ground arith

-- Where the directory of a new path has its 15 cells in use and there is a free inode, `create` fails
-- with ENOSPC and still leaves an inode that was free in use under the path, while the directory lists
-- what it listed: the failed call is not undone.
pub create-lleno :
    (ctx : Contexto) (path : Cadena) (mode : ℕ) (sb : Superbloque) {padre i : ℕ} {nombre : Cadena}
    → SuperbloqueOk sb
    → obtener_dir_padre path sb ≡ ok (padre, nombre)
    → buscar_entrada_en_directorio sb padre nombre ≡ none
    → obtener_inodo_libre sb ≡ some i
    → ((j : ℕ) → j < max_dir_entries → ((sb.inodos padre).entradas j).inodo ≢ 0)
    → ((create ctx path mode sb).0 ≡ err enospc)
      × (sb.bitmap_inodes i ≡ libre)
      × Ocupa (create ctx path mode sb).1 (copiar path) i
      × (contenido ((create ctx path mode sb).1.inodos padre) ≡ contenido (sb.inodos padre))
create-lleno ctx path mode sb {padre} {i} {nombre} s hp hb hl full =
    let a = archivo-Asignado ctx path mode sb s hl in
    let mid = con_archivo ctx path mode sb i in
    let q = padre_queda sb i padre _ a (obtener_dir_padre-ok path sb hp).es_padre in
    let e = create-lleno_steps ctx path mode sb hp hb hl (no_room mid (a.otros padre q.0) full) in
    (
      ap (λ (r : Retorno ℕ × Superbloque). r.0) e,
      a.estaba_libre,
      rw e (record {
        en_tabla = a.en_tabla;
        en_uso = a.en_uso;
        su_path = ap (λ (m : Inodo). m.path) a.suyo ∙ (unfold archivo inodo_nuevo in refl);
      }),
      rw e (ap contenido (a.otros padre q.0)),
    )
  where
    no_room :
        (mid : Superbloque)
        → mid.inodos padre ≡ sb.inodos padre
        → ((j : ℕ) → j < max_dir_entries → ((sb.inodos padre).entradas j).inodo ≢ 0)
        → agregar_entrada_directorio mid padre i ≡ none
    no_room mid e full =
        unfold agregar_entrada_directorio in
        rw (e, agregar_entrada_directorio) (rw (sin_hueco (sb.inodos padre).entradas full))
