-- ===== src/Memoria/Pruebas.antt =====
-- A small memory of TP2-sched/kern/pmap.c, runs on it, and the theorems there.
use Prim.Native.Nat.{bit_or}
use sistemas_operarivos_fiub.Base.{
  ℕ, ◌/◌, ◌<◌, ◌≡◌, ◌≢◌, ◌⊎◌, ◌↔◌, refl, ◌&&◌, Option, none, some, List, [], ◌∷◌, ◌==◌,
  if◌then◌else◌, update, arith,
}
use sistemas_operarivos_fiub.Memoria.Tipos.{
  ranura_uvpt, pgnum, pdx, ptx, PageInfo, Memoria, Respuesta, ok, err, e_no_mem, escribir_palabra,
  borrar_pagina, entrada_de,
}
use sistemas_operarivos_fiub.Memoria.Paginas.{
  boot_alloc, es_reservada, iniciar_pagina, iniciar_desde, page_init, sacar, page_alloc, devolver,
  page_free, poner_ref, page_incref, page_decref,
}
use sistemas_operarivos_fiub.Memoria.Paginas.Libres.{
  Esta, Enlaza, fin, eslabon, Libres, Disponible, page_init-Libres,
}
use sistemas_operarivos_fiub.Memoria.Tablas.{
  crear_tabla, ubicar, pgdir_walk, page_lookup, page_remove, page_insert, mapear, mapear_paginas,
  boot_map_region, falta_permiso, revisar, user_mem_check,
}
use sistemas_operarivos_fiub.Memoria.Tablas.Entradas.{
  leer_en, entrada, tabla, PgdirOk, LibreAjena, Cambio,
}
use sistemas_operarivos_fiub.Memoria.Tablas.Quitar.{page_remove-Cambio}
use sistemas_operarivos_fiub.Memoria.Tablas.Traduccion.{page_lookup-page_insert}
use sistemas_operarivos_fiub.Memoria.Tablas.Panico.{Suelta, page_insert-existe}
use sistemas_operarivos_fiub.Memoria.Tablas.Referencias.{page_insert-repetida}
use sistemas_operarivos_fiub.Memoria.Tablas.Permisos.{
  Permitida, user_mem_check-Permitida, user_mem_check-desborde,
}

-- all that a run computes with
abbrev paginacion : ℕ
unfolding update escribir_palabra borrar_pagina entrada_de es_reservada iniciar_pagina iniciar_desde
    page_init sacar page_alloc devolver page_free poner_ref page_incref page_decref crear_tabla
    ubicar pgdir_walk page_lookup page_remove page_insert mapear mapear_paginas boot_map_region
    falta_permiso revisar user_mem_check leer_en boot_alloc
paginacion = 0

-- The directory is page 1, which maps itself at UVPT; its only table is page 2, which maps page 5 at
-- the address 0; the pages 3 and 4 are free.
abbrev pub palabra : ℕ → ℕ → ℕ
palabra p j =
    if (p == 1) && (j == 0)
    then 8199
    else if (p == 1) && (j == ranura_uvpt)
    then 4101
    else if (p == 2) && (j == 0)
    then 20487
    else 0

abbrev pub pagina : ℕ → PageInfo
pagina p =
    if p == 3
    then record { pp_link = some 4; pp_ref = 0 }
    else record { pp_link = none; pp_ref = if p == 5 then 1 else 0 }

abbrev pub chica : Memoria
chica = record { npages = 16; pages = pagina; page_free_list = some 3; mem = palabra }

abbrev llena : Memoria
llena = record chica { page_free_list = none }

-- the memory after a call that does not panic
abbrev tras_llamada : Option (Respuesta ℕ × Memoria) → Memoria → Memoria
tras_llamada none m = m
tras_llamada (some (r, m')) m = m'

abbrev tras_quitar : Option Memoria → Memoria → Memoria
tras_quitar none m = m
tras_quitar (some m') m = m'

chica-Libres : Libres chica (3 ∷ 4 ∷ [])
chica-Libres = eslabon (omega arith) refl (omega arith) (eslabon (omega arith) refl tt fin)

pub chica-PgdirOk : PgdirOk chica 1
chica-PgdirOk = record {
  existen = λ i w. ground arith;
  ajenas = λ i u w. ground arith;
  distintas = λ i j u u' w w' e. ground arith;
}

pub chica-LibreAjena : LibreAjena chica 1
chica-LibreAjena = record {
  existe = λ p e. ground arith;
  ajena = λ p e. ground arith;
  sin_tabla = λ p i e w. ground arith;
}

llena-LibreAjena : LibreAjena llena 1
llena-LibreAjena = record { existe = λ p e. cc; ajena = λ p e. cc; sin_tabla = λ p i e w. cc }

-- the reserved pages of a small machine
inicio_run :
    ((page_init 0x102000 (record llena { npages = 260 })).page_free_list ≡ some 259)
    × (((page_init 0x102000 (record llena { npages = 260 })).pages 258).pp_link ≡ some 159)
unfolding paginacion
inicio_run = (refl, refl)

bloque_run : boot_alloc 1024 0xf0100000 5000 ≡ some (0xf0100000, 0xf0102000)
unfolding paginacion
bloque_run = refl

page_init-Libres_example :
    (l : List ℕ) × Enlaza 260
      (page_init 0x102000 (record llena { npages = 260 })).pages
      (page_init 0x102000 (record llena { npages = 260 })).page_free_list
      l
    × ((p : ℕ) → Esta p l ↔ ((p < 260) × Disponible 0x102000 p))
page_init-Libres_example = page_init-Libres 0x102000 (record llena { npages = 260 }) refl

-- page 5 again, at an address that needs a new table
abbrev mapeada : Memoria
mapeada = tras_llamada (page_insert 1 5 0x400000 7 chica) chica

mapeada_run : page_insert 1 5 0x400000 7 chica ≡ some (ok 0, mapeada)
unfolding paginacion
mapeada_run = refl

mapeada_refs : ((mapeada.pages 5).pp_ref ≡ 2) × ((mapeada.pages 3).pp_ref ≡ 1)
unfolding paginacion
mapeada_refs = (refl, refl)

page_lookup-page_insert_example :
    (page_lookup 1 0x400000 mapeada
      ≡ some (some (bit_or 5 (7 / 4096), tabla mapeada 1 (pdx 0x400000), ptx 0x400000)))
    × ((va' : ℕ)
        → pdx va' ≢ ranura_uvpt
        → (pdx va' ≢ pdx 0x400000) ⊎ (ptx va' ≢ ptx 0x400000)
        → entrada mapeada 1 va' ≡ entrada chica 1 va')
page_lookup-page_insert_example =
    page_lookup-page_insert chica mapeada 1 5 0x400000 7 chica-PgdirOk chica-LibreAjena
      (omega arith) (omega arith) mapeada_run

sin_lugar : page_insert 1 5 0x400000 7 llena ≡ some (err e_no_mem, llena)
unfolding paginacion
sin_lugar = refl

abbrev quitada_memoria : Memoria
quitada_memoria = tras_quitar (page_remove 1 0 chica) chica

quitada_run : page_remove 1 0 chica ≡ some quitada_memoria
unfolding paginacion
quitada_run = refl

page_remove-Cambio_example : Cambio chica quitada_memoria 1 0 0
page_remove-Cambio_example =
    page_remove-Cambio chica quitada_memoria 1 0 chica-PgdirOk (omega arith) quitada_run

cero-Suelta : Suelta chica 1 0
unfolding paginacion
cero-Suelta = record { existe = λ w. omega arith; sin_link = λ w. refl }

page_insert-existe_example :
    (r : Respuesta ℕ) × (m' : Memoria) × (page_insert 1 4 0 7 chica ≡ some (r, m'))
page_insert-existe_example =
    page_insert-existe chica 1 4 0 7 chica-PgdirOk chica-LibreAjena (omega arith) cero-Suelta

abbrev repetida : Memoria
repetida = tras_llamada (page_insert 1 5 0 5 chica) chica

repetida_run : page_insert 1 5 0 5 chica ≡ some (ok 0, repetida)
unfolding paginacion
repetida_run = refl

hay_entrada : (entrada chica 1 0 ≢ 0) × (pgnum (entrada chica 1 0) ≡ 5)
unfolding paginacion
hay_entrada = (ground arith, refl)

page_insert-repetida_example :
    ((repetida.pages 5).pp_ref ≡ (chica.pages 5).pp_ref)
    × (repetida.page_free_list ≡ chica.page_free_list)
page_insert-repetida_example =
    page_insert-repetida chica repetida 1 5 0 5 chica-PgdirOk (omega arith) hay_entrada.0
      hay_entrada.1 (omega arith) (omega arith) repetida_run

permiso_run : user_mem_check 1 100 200 4 chica ≡ some none
unfolding paginacion
permiso_run = refl

user_mem_check-Permitida_example : (260 < 0xeec00000) × Permitida chica 1 4 260
user_mem_check-Permitida_example =
    user_mem_check-Permitida 1 100 200 4 chica (omega arith) permiso_run 260 (omega arith)
      (omega arith)

user_mem_check-desborde_example : user_mem_check 1 0xf0100000 0x0ff01000 6 chica ≡ some none
user_mem_check-desborde_example =
    user_mem_check-desborde 1 0xf0100000 0x0ff01000 6 chica (omega arith) (omega arith)
      (omega arith) (omega arith)
