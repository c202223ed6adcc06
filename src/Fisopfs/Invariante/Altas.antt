-- ===== src/Fisopfs/Invariante/Altas.antt =====
-- `create` and `mkdir` keep the invariant, also where the directory has no room.
use sistemas_operarivos_fiub.Base.{
  ℕ, ◌<◌, ◌≡◌, ◌≢◌, ◌⊎◌, inl, inr, refl, sym, ap, ◌∙◌, subst, some, arith, update_same,
  update_other,
}
use sistemas_operarivos_fiub.Fisopfs.Tipos.{
  Cadena, Superbloque, Inodo, entrada_vacia, Contexto, libre, ocupado, dir_t, reg_t, max_inodes,
}
use sistemas_operarivos_fiub.Fisopfs.Rutas.Leyes.{length-copiar, length-separar_path}
use sistemas_operarivos_fiub.Fisopfs.Inodos.{obtener_inodo_libre, inodo_nuevo, modificar, poner}
use sistemas_operarivos_fiub.Fisopfs.Inodos.Busqueda.{
  obtener_inodo_libre-some, modificar_same, modificar_other,
}
use sistemas_operarivos_fiub.Fisopfs.Entradas.Contiguas.{Contiguas}
use sistemas_operarivos_fiub.Fisopfs.Invariante.{RegularOk, DirectorioOk, EnUso, SuperbloqueOk}
use sistemas_operarivos_fiub.Fisopfs.Invariante.Celdas.{
  modificar-SuperbloqueOk, poner-SuperbloqueOk,
}
use sistemas_operarivos_fiub.Fisopfs.Invariante.Padres.{EsPadre}

sin_uso : Contiguas (λ _. entrada_vacia) 0
sin_uso = record { llenas = λ i l. absurd (omega arith); vacias = λ i l. refl }

-- A new inode, with other permissions and links, is an empty file or a directory with no entries.
pub nuevo-EnUso :
    (ctx : Contexto) (path : Cadena) (tipo i mode enlaces : ℕ)
    → (tipo ≡ reg_t) ⊎ (tipo ≡ dir_t)
    → EnUso i
        (record (inodo_nuevo ctx path tipo i) { permisos = mode; tam = 0; link_num = enlaces })
unfolding inodo_nuevo
nuevo-EnUso ctx path tipo i mode enlaces t = record {
  numero = refl;
  nombres = record {
    path_cabe = length-copiar path;
    directory_cabe = (length-separar_path path).0;
    nombre_cabe = (length-separar_path path).1;
  };
  forma = shape t;
}
  where
    n : Inodo
    n = record (inodo_nuevo ctx path tipo i) { permisos = mode; tam = 0; link_num = enlaces }

    shape : (tipo ≡ reg_t) ⊎ (tipo ≡ dir_t) → RegularOk n ⊎ DirectorioOk n
    shape (inl e) =
        inl (record {
          regular = e;
          cabe = omega arith;
          ceros = λ k l. refl;
          sin_entradas = λ k. refl;
        })
    shape (inr e) = inr (record {
      directorio = e;
      usadas = 0;
      entran = omega arith;
      contiguas = sin_uso;
      contadas = inl (omega arith);
      sin_bytes = λ k. refl;
    })

-- The superblock after an inode has been taken and its fields changed to those of `m`.
pub record Asignado (sb : Superbloque) (i : ℕ) (m : Inodo) (sb' : Superbloque) : Type 0 where
  pub sano : SuperbloqueOk sb'
  pub suyo : sb'.inodos i ≡ m
  pub en_uso : sb'.bitmap_inodes i ≡ ocupado
  pub no_raiz : i ≢ 0
  pub en_tabla : i < max_inodes
  pub estaba_libre : sb.bitmap_inodes i ≡ libre
  pub otros : (j : ℕ) → j ≢ i → sb'.inodos j ≡ sb.inodos j
  pub otros_bits : (j : ℕ) → j ≢ i → sb'.bitmap_inodes j ≡ sb.bitmap_inodes j

pub asignar :
    (sb : Superbloque) {i : ℕ} (n m : Inodo)
    → SuperbloqueOk sb
    → obtener_inodo_libre sb ≡ some i
    → EnUso i n
    → EnUso i m
    → m.tipo_archivo ≡ n.tipo_archivo
    → m.path ≡ n.path
    → Asignado sb i m (modificar (poner sb i ocupado n) i m)
asignar sb {i} n m s h un um t p =
    let f = obtener_inodo_libre-some sb h in
    let ne : i ≢ 0 = λ e. taken e f.1 in
    let same = placed n in
    record {
      sano =
          modificar-SuperbloqueOk (poner sb i ocupado n) i m
            (poner-SuperbloqueOk sb i ocupado n s ne (inr (refl, un)))
            (unfold poner in update_same sb.bitmap_inodes i ocupado) um
            (t ∙ ap (λ (q : Inodo). q.tipo_archivo) (sym same))
            (p ∙ ap (λ (q : Inodo). q.path) (sym same));
      suyo = modificar_same (poner sb i ocupado n) i m;
      en_uso = unfold modificar poner in update_same sb.bitmap_inodes i ocupado;
      no_raiz = ne;
      en_tabla = f.0;
      estaba_libre = f.1;
      otros = λ j q.
          modificar_other (poner sb i ocupado n) i m j q
          ∙ (unfold poner in update_other sb.inodos i n j q);
      otros_bits = λ j q. unfold modificar poner in update_other sb.bitmap_inodes i ocupado j q;
    }
  where
    placed : (n : Inodo) → (poner sb i ocupado n).inodos i ≡ n
    placed n = unfold poner in update_same sb.inodos i n

    taken : i ≡ 0 → sb.bitmap_inodes i ≡ libre → ⊥
    taken e z = clash (subst (λ k. sb.bitmap_inodes k ≡ libre) e z) s.raiz_ocupada
      where
        clash : sb.bitmap_inodes 0 ≡ libre → sb.bitmap_inodes 0 ≡ ocupado → ⊥
        clash a b = omega arith

-- The same where the new fields are computed from the cell just written.
pub asignar_cambio :
    (sb : Superbloque) {i : ℕ} (n : Inodo) (cambio : Inodo → Inodo)
    → SuperbloqueOk sb
    → obtener_inodo_libre sb ≡ some i
    → EnUso i n
    → EnUso i (cambio n)
    → (cambio n).tipo_archivo ≡ n.tipo_archivo
    → (cambio n).path ≡ n.path
    → Asignado sb i
        (cambio n)
        (modificar (poner sb i ocupado n) i (cambio ((poner sb i ocupado n).inodos i)))
asignar_cambio sb {i} n cambio s h un um t p =
    let e : (poner sb i ocupado n).inodos i ≡ n = unfold poner in update_same sb.inodos i n in
    subst (λ q. Asignado sb i (cambio n) (modificar (poner sb i ocupado n) i (cambio q))) (sym e)
      (asignar sb n (cambio n) s h un um t p)

-- The parent is another cell, and is still a directory.
pub padre_queda :
    (sb : Superbloque) (i padre : ℕ) (m : Inodo) {sb' : Superbloque}
    → Asignado sb i m sb'
    → EsPadre sb padre
    → (padre ≢ i) × EsPadre sb' padre
padre_queda sb i padre m {sb'} a p = (
  other,
  record {
    en_tabla = p.en_tabla;
    en_uso = a.otros_bits padre other ∙ p.en_uso;
    es_dir = ap (λ (q : Inodo). q.tipo_archivo) (a.otros padre other) ∙ p.es_dir;
  },
)
  where
    other : padre ≢ i
    other e = clash (subst (λ k. sb.bitmap_inodes k ≡ ocupado) e p.en_uso) a.estaba_libre
      where
        clash : sb.bitmap_inodes i ≡ ocupado → sb.bitmap_inodes i ≡ libre → ⊥
        clash x y = omega arith
