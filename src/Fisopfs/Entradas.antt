-- ===== src/Fisopfs/Entradas.antt =====
-- The directory entries of TP3-fisopfs/fs.c, and `obtener_dir_padre`.
pub mod Contiguas
pub mod Vista
use sistemas_operarivos_fiub.Base.{
  ℕ, zero, suc, ◌+◌, ◌-◌, ◌/◌, ◌%◌, ◌^◌, Bool, true, false, not, ◌&&◌, Option, none, some, ◌∷◌, [],
  ◌==◌, if◌then◌else◌, update, first_from, strings_eq,
}
use sistemas_operarivos_fiub.Fisopfs.Tipos.{
  Cadena, Superbloque, Inodo, Entrada, entrada_vacia, tam_entrada, max_dir_entries, dir_t, Retorno,
  ok, err, enoent, enotdir,
}
use sistemas_operarivos_fiub.Fisopfs.Rutas.{separar_path, copiar}
use sistemas_operarivos_fiub.Fisopfs.Inodos.{buscar_inodo, modificar}

abbrev pub punto : Cadena
punto = b'.' ∷ []

abbrev pub punto_punto : Cadena
punto_punto = b'.' ∷ b'.' ∷ []

-- `entradas[i].inodo != 0 && strcmp(entradas[i].nombre, nombre) == 0`
unfoldable pub se_llama : (ℕ → Entrada) → Cadena → ℕ → Bool
se_llama e nombre i = not ((e i).inodo == 0) && strings_eq (e i).nombre nombre

-- `for (j = from; j < from + n; j++) entradas[j] = entradas[j + 1];`
unfoldable pub desplazar : (ℕ → Entrada) → ℕ → ℕ → ℕ → Entrada
desplazar e from zero = e
desplazar e from (suc n) = desplazar (update e from (e (suc from))) (suc from) n

-- The entries and the size of the parent once its entry `i`, of `n`, is taken out. `i < n`, so
-- `n - 1` and the new size do not go below 0.
unfoldable pub quitar : Inodo → ℕ → ℕ → Inodo
quitar padre i n = record padre {
  entradas = update (desplazar padre.entradas i (n - 1 - i)) (n - 1) entrada_vacia;
  tam = padre.tam - tam_entrada;
}

unfoldable pub eliminar_entrada_directorio : Superbloque → ℕ → Cadena → Option Superbloque
eliminar_entrada_directorio sb inodo_padre nombre =
    let padre = sb.inodos inodo_padre in
    let n_entradas = padre.tam / tam_entrada in
    elim (first_from (se_llama padre.entradas nombre) 0 n_entradas) [
      | none ↦ none
      | some i ↦ some (modificar sb inodo_padre (quitar padre i n_entradas))
    ]

-- the test of the loop of `directorio_esta_vacio`
unfoldable pub es_hijo : (ℕ → Entrada) → ℕ → Bool
es_hijo e i =
    not ((e i).inodo == 0)
    && (not (strings_eq (e i).nombre punto) && not (strings_eq (e i).nombre punto_punto))

unfoldable pub directorio_esta_vacio : Inodo → Bool
directorio_esta_vacio dir = elim (first_from (es_hijo dir.entradas) 0 max_dir_entries) [
  | none ↦ true
  | some _ ↦ false
]

unfoldable pub hueco : (ℕ → Entrada) → ℕ → Bool
hueco e i = (e i).inodo == 0

-- The parent with a new entry `e` in the cell `i`.
unfoldable pub anotar : Inodo → ℕ → Entrada → Inodo
anotar padre i e = record padre {
  entradas = update padre.entradas i e;
  tam = (padre.tam + tam_entrada) % 2 ^ 64;
}

-- The two inodes are given by their index.
unfoldable pub agregar_entrada_directorio : Superbloque → ℕ → ℕ → Option Superbloque
agregar_entrada_directorio sb padre hijo =
    let num = (sb.inodos hijo).inumero in
    let nueva : Entrada = record { inodo = num; nombre = copiar (sb.inodos num).nombre } in
    elim (first_from (hueco (sb.inodos padre).entradas) 0 max_dir_entries) [
      | none ↦ none
      | some i ↦ some (modificar sb padre (anotar (sb.inodos padre) i nueva))
    ]

unfoldable pub crear_entrada : Cadena → ℕ → Entrada
crear_entrada nombre inodo = record { inodo = inodo; nombre = nombre }

unfoldable pub inicializar_entradas_directorio : Inodo → ℕ → ℕ → Inodo
inicializar_entradas_directorio dir nuevo_inodo inodo_padre = record dir {
  entradas =
      update (update dir.entradas 0 (crear_entrada punto nuevo_inodo)) 1
        (crear_entrada punto_punto inodo_padre);
  tam = 520;
}

unfoldable pub buscar_entrada_en_directorio : Superbloque → ℕ → Cadena → Option ℕ
buscar_entrada_en_directorio sb inodo_padre nombre =
    let e = (sb.inodos inodo_padre).entradas in
    elim (first_from (se_llama e nombre) 0 max_dir_entries) [
      | none ↦ none
      | some i ↦ some (e i).inodo
    ]

-- The index of the parent and the name of the child.
unfoldable pub obtener_dir_padre : Cadena → Superbloque → Retorno (ℕ × Cadena)
obtener_dir_padre path sb = elim (buscar_inodo (separar_path path).0 sb) [
  | none ↦ err enoent
  | some padre ↦
      if (sb.inodos padre).tipo_archivo == dir_t
      then ok (padre, (separar_path path).1)
      else err enotdir
]
