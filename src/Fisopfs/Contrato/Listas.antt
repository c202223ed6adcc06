-- ===== src/Fisopfs/Contrato/Listas.antt =====
-- A directory is a list of entries: adding, removing and listing are the operations on that list.
use sistemas_operarivos_fiub.Base.{
  ℕ, zero, suc, ◌+◌, ◌-◌, ◌*◌, ◌/◌, ◌≤◌, ◌<◌, ◌≡◌, ◌≢◌, ◌⊎◌, inl, inr, refl, sym, ap, ◌∙◌, true,
  false, [], ◌∷◌, ◌++◌, map, ◌==◌, some, strings_eq, arith, first_from, first_from-some, Bool-cases,
}
use sistemas_operarivos_fiub.Fisopfs.Tipos.{
  Cadena, Superbloque, Inodo, Entrada, ok, dir_t, tam_entrada, max_dir_entries,
}
use sistemas_operarivos_fiub.Fisopfs.Inodos.{buscar_inodo}
use sistemas_operarivos_fiub.Fisopfs.Inodos.Busqueda.{modificar_same}
use sistemas_operarivos_fiub.Fisopfs.Entradas.{
  punto, punto_punto, se_llama, anotar, quitar, agregar_entrada_directorio,
  eliminar_entrada_directorio,
}
use sistemas_operarivos_fiub.Fisopfs.Entradas.Contiguas.{
  Contiguas, first_from-hueco, update-Contiguas, quitar-Contiguas,
}
use sistemas_operarivos_fiub.Fisopfs.Entradas.Vista.{
  usadas_desde, contenido, borrar_primera, celdas_desde, contenido-celdas, celdas_desde-update,
  quitar-celdas,
}
use sistemas_operarivos_fiub.Fisopfs.Directorios.{listar, readdir}
use sistemas_operarivos_fiub.Fisopfs.Invariante.{DirectorioOk, SuperbloqueOk}
use sistemas_operarivos_fiub.Fisopfs.Invariante.Padres.{
  EsPadre, padre-DirectorioOk, entrada_de, agregar-some, eliminar-some, hallada-used,
}
use sistemas_operarivos_fiub.Fisopfs.Invariante.Regulares.{found-EnUso, directorio_of}

pub contenido_first :
    (n : Inodo) (u : ℕ)
    → Contiguas n.entradas u
    → u ≤ max_dir_entries
    → contenido n ≡ celdas_desde n.entradas 0 u
unfolding contenido
contenido_first n u c l = contenido-celdas n.entradas u max_dir_entries c l

-- The size of a directory counts its entries, or one more.
pub count_bounds :
    (n : Inodo) (d : DirectorioOk n)
    → (d.usadas ≤ n.tam / tam_entrada) × (n.tam / tam_entrada ≤ d.usadas + 1)
count_bounds n d = both d.contadas
  where
    both :
        (n.tam ≡ d.usadas * tam_entrada) ⊎ (n.tam ≡ d.usadas * tam_entrada + tam_entrada)
        → (d.usadas ≤ n.tam / tam_entrada) × (n.tam / tam_entrada ≤ d.usadas + 1)
    both (inl c) = omega arith
    both (inr c) = omega arith

-- A successful `agregar_entrada_directorio` on a directory of a sound superblock, of a child whose
-- number is not 0, appends the child's number and name to what the directory holds.
pub agregar-contenido :
    (sb : Superbloque) (padre hijo : ℕ) {sb' : Superbloque}
    → SuperbloqueOk sb
    → EsPadre sb padre
    → (sb.inodos hijo).inumero ≢ 0
    → agregar_entrada_directorio sb padre hijo ≡ some sb'
    → contenido (sb'.inodos padre) ≡ contenido (sb.inodos padre) ++ (entrada_de sb hijo ∷ [])
agregar-contenido sb padre hijo {sb'} s p ne h =
    let n = sb.inodos padre in
    let d = padre-DirectorioOk sb padre s p in
    let a = agregar-some sb padre hijo h in
    let x = entrada_de sb hijo in
    let at = first_from-hueco n.entradas d.contiguas a.libre_en in
    ap (λ (t : Superbloque). contenido (t.inodos padre)) a.final
    ∙ ap contenido (modificar_same sb padre (anotar n a.indice x))
    ∙ appended n x d a.indice at.0 at.1 (unfold entrada_de in ne)
  where
    appended :
        (n : Inodo) (x : Entrada) (d : DirectorioOk n) (i : ℕ)
        → i ≡ d.usadas
        → i < max_dir_entries
        → x.inodo ≢ 0
        → contenido (anotar n i x) ≡ contenido n ++ (x ∷ [])
    appended n x d i e l ne =
        unfold contenido anotar in
        rw e (
          contenido-celdas _ (suc d.usadas) max_dir_entries
            (update-Contiguas n.entradas d.usadas x d.contiguas ne) (omega arith)
          ∙ celdas_desde-update n.entradas d.usadas x
          ∙ ap (λ r. r ++ (x ∷ []))
              (sym (contenido-celdas n.entradas d.usadas max_dir_entries d.contiguas d.entran)))

se_llama-split :
    (e : ℕ → Entrada) (nombre : Cadena) (i : ℕ)
    → se_llama e nombre i ≡ true
    → strings_eq (e i).nombre nombre ≡ true
unfolding se_llama
se_llama-split e nombre i h = ground arith

pub se_llama-other :
    (e : ℕ → Entrada) (nombre : Cadena) (i : ℕ)
    → se_llama e nombre i ≡ false
    → (e i).inodo ≢ 0
    → strings_eq (e i).nombre nombre ≡ false
unfolding se_llama
se_llama-other e nombre i h ne = ground arith

quitar-contenido :
    (n : Inodo) (nombre : Cadena) {i : ℕ}
    → DirectorioOk n
    → first_from (se_llama n.entradas nombre) 0 (n.tam / tam_entrada) ≡ some i
    → contenido (quitar n i (n.tam / tam_entrada)) ≡ borrar_primera nombre (contenido n)
quitar-contenido n nombre {i} d h =
    let k = n.tam / tam_entrada in
    let used = hallada-used n nombre k d h in
    let b = count_bounds n d in
    let f = first_from-some (se_llama n.entradas nombre) 0 k h in
    let e : suc (d.usadas - 1) ≡ d.usadas = omega (arith, used) in
    contenido_first (quitar n i k) (d.usadas - 1)
      (quitar-Contiguas n d.usadas i k d.contiguas used b.0 b.1) (omega (arith, d.entran))
    ∙ quitar-celdas n nombre (d.usadas - 1) i k (omega (arith, used)) (omega (arith, b.0, used))
        (se_llama-split n.entradas nombre i f.passes)
        (λ j l.
          se_llama-other n.entradas nombre j (f.earlier_fail j (omega arith) l)
            (d.contiguas.llenas j (omega (arith, used, l))))
    ∙ ap (λ u. borrar_primera nombre (celdas_desde n.entradas 0 u)) e
    ∙ ap (borrar_primera nombre) (sym (contenido_first n d.usadas d.contiguas d.entran))

-- A successful `eliminar_entrada_directorio` on a directory of a sound superblock takes the first
-- entry of that name out of what the directory holds, and keeps the others in order.
pub eliminar-contenido :
    (sb : Superbloque) (padre : ℕ) (nombre : Cadena) {sb' : Superbloque}
    → SuperbloqueOk sb
    → EsPadre sb padre
    → eliminar_entrada_directorio sb padre nombre ≡ some sb'
    → contenido (sb'.inodos padre) ≡ borrar_primera nombre (contenido (sb.inodos padre))
eliminar-contenido sb padre nombre s p h =
    let n = sb.inodos padre in
    let a = eliminar-some sb padre nombre h in
    ap (λ (t : Superbloque). contenido (t.inodos padre)) a.final
    ∙ ap contenido (modificar_same sb padre (quitar n a.indice (n.tam / tam_entrada)))
    ∙ quitar-contenido n nombre (padre-DirectorioOk sb padre s p) a.hallada

listar-usadas :
    (e : ℕ → Entrada) (from n : ℕ)
    → listar e from n ≡ map (λ (x : Entrada). x.nombre) (usadas_desde e from n)
unfolding listar usadas_desde
listar-usadas e from zero = refl
listar-usadas e from (suc n) = elim (Bool-cases ((e from).inodo == 0)) [
  | inl b ↦ rw b (listar-usadas e (suc from) n)
  | inr b ↦ rw b (ap (λ r. (e from).nombre ∷ r) (listar-usadas e (suc from) n))
]

-- In a sound superblock `readdir` of a directory lists `.`, `..` and the names of all that the
-- directory holds, each once and in order, although it goes by the size and not by the array.
pub readdir-contenido :
    (path : Cadena) (sb : Superbloque) {i : ℕ}
    → SuperbloqueOk sb
    → buscar_inodo path sb ≡ some i
    → (sb.inodos i).tipo_archivo ≡ dir_t
    → readdir path sb
      ≡ ok (punto ∷ punto_punto ∷ map (λ (x : Entrada). x.nombre) (contenido (sb.inodos i)))
readdir-contenido path sb {i} s e t = listed e t ∙ ap (λ r. ok (punto ∷ punto_punto ∷ r)) names
  where
    n : Inodo
    n = sb.inodos i

    d : DirectorioOk n
    d = directorio_of (found-EnUso path sb s e) t

    listed :
        buscar_inodo path sb ≡ some i
        → n.tipo_archivo ≡ dir_t
        → readdir path sb ≡ ok (punto ∷ punto_punto ∷ listar n.entradas 0 (n.tam / tam_entrada))
    listed e t = unfold readdir in ground arith

    names :
        listar n.entradas 0 (n.tam / tam_entrada) ≡ map (λ (x : Entrada). x.nombre) (contenido n)
    names =
        listar-usadas n.entradas 0 (n.tam / tam_entrada)
        ∙ ap (map (λ (x : Entrada). x.nombre)) (
            contenido-celdas n.entradas d.usadas (n.tam / tam_entrada) d.contiguas
              (count_bounds n d).0
            ∙ sym (contenido_first n d.usadas d.contiguas d.entran))
