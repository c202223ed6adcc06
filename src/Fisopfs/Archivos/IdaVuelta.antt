-- ===== src/Fisopfs/Archivos/IdaVuelta.antt =====
-- What `read` gives back after `write`, and which bytes `write` and `truncate` leave alone.
use sistemas_operarivos_fiub.Base.{
  ℕ, suc, ◌+◌, ◌%◌, ◌^◌, ◌≤◌, ◌<◌, ◌≡◌, inl, inr, refl, ap, ◌∙◌, false, some, List, [], ◌∷◌, leb,
  update, update_same, update_other, length, arith, Option-cases, Bool-cases, if◌then◌else◌,
}
use sistemas_operarivos_fiub.Fisopfs.Tipos.{
  Cadena, Superbloque, Inodo, Contexto, ok, reg_t, max_content,
}
use sistemas_operarivos_fiub.Fisopfs.Inodos.{buscar_inodo, modificar}
use sistemas_operarivos_fiub.Fisopfs.Inodos.Busqueda.{buscar_inodo-modificar, modificar_same}
use sistemas_operarivos_fiub.Fisopfs.Archivos.{
  leer_bytes, escribir_bytes, recortar, read, write, escribir,
}

pub escribir_bytes-below :
    (c : ℕ → ℕ) (offset : ℕ) (bs : List ℕ) (k : ℕ) → k < offset → escribir_bytes c offset bs k ≡ c k
unfolding escribir_bytes
escribir_bytes-below c offset [] k h = refl
escribir_bytes-below c offset (b ∷ bs) k h =
    escribir_bytes-below (update c offset b) (suc offset) bs k (omega arith)
    ∙ update_other c offset b k (omega arith)

pub escribir_bytes-above :
    (c : ℕ → ℕ) (offset : ℕ) (bs : List ℕ) (k : ℕ)
    → offset + length bs ≤ k
    → escribir_bytes c offset bs k ≡ c k
unfolding escribir_bytes
escribir_bytes-above c offset [] k h = refl
escribir_bytes-above c offset (b ∷ bs) k h =
    escribir_bytes-above (update c offset b) (suc offset) bs k (omega arith)
    ∙ update_other c offset b k (omega arith)

leer-escribir_bytes :
    (c : ℕ → ℕ) (offset : ℕ) (bs : List ℕ)
    → leer_bytes (escribir_bytes c offset bs) offset (length bs) ≡ bs
unfolding leer_bytes escribir_bytes
leer-escribir_bytes c offset [] = refl
leer-escribir_bytes c offset (b ∷ bs) =
    rw (escribir_bytes-below (update c offset b) (suc offset) bs offset (omega arith)) (
      rw (update_same c offset b)
        (ap (λ r. b ∷ r) (leer-escribir_bytes (update c offset b) (suc offset) bs)))

-- What a successful `write` has found, and the file system that it leaves.
pub record Escritura (ctx : Contexto) (path : Cadena) (buffer : List ℕ) (offset : ℕ)
    (sb sb' : Superbloque) : Type 0 where
  pub indice : ℕ
  pub encontrado : buscar_inodo path sb ≡ some indice
  pub regular : (sb.inodos indice).tipo_archivo ≡ reg_t
  pub cabe : (offset + length buffer) % 2 ^ 64 ≤ max_content
  pub final : sb' ≡ modificar sb indice (escribir (ctx.time 0) buffer offset (sb.inodos indice))

pub write-ok :
    (ctx : Contexto) (path : Cadena) (buffer : List ℕ) (offset : ℕ) (sb : Superbloque) {n : ℕ}
    → (write ctx path buffer offset sb).0 ≡ ok n
    → Escritura ctx path buffer offset sb (write ctx path buffer offset sb).1
unfolding write
write-ok ctx path buffer offset sb h = elim (Option-cases (buscar_inodo path sb)) [
  | inl e ↦ ground arith
  | inr (i, e) ↦ record {
    indice = i;
    encontrado = e;
    regular = ground arith;
    cabe = ground arith;
    final = ground arith;
  }
]

-- the bytes that `read` takes from an inode
lectura : Inodo → ℕ → ℕ → List ℕ
lectura n size offset =
    if leb n.tam offset then [] else leer_bytes n.content offset (recortar n.tam size offset)

read-lectura :
    (ctx : Contexto) (path : Cadena) (size offset : ℕ) (sb : Superbloque) (i : ℕ)
    → buscar_inodo path sb ≡ some i
    → (sb.inodos i).tipo_archivo ≡ reg_t
    → (read ctx path size offset sb).0 ≡ ok (lectura (sb.inodos i) size offset)
unfolding read lectura
read-lectura ctx path size offset sb i e t = ground arith

recortar-whole :
    (tam size offset : ℕ)
    → offset + size < 2 ^ 64
    → offset + size ≤ tam
    → recortar tam size offset ≡ size
unfolding recortar
recortar-whole tam size offset w h = ground arith

tam-escribir :
    (ahora : ℕ) (buffer : List ℕ) (offset : ℕ) (n : Inodo)
    → offset + length buffer < 2 ^ 64
    → offset + length buffer ≤ (escribir ahora buffer offset n).tam
unfolding escribir
tam-escribir ahora buffer offset n w = ground arith

leb-false : (a b : ℕ) → b < a → leb a b ≡ false
leb-false a b h = ground arith

leer-recortar_nil :
    (c : ℕ → ℕ) (tam offset : ℕ)
    → offset < 2 ^ 64
    → leb tam offset ≡ false
    → leer_bytes c offset (recortar tam 0 offset) ≡ []
unfolding recortar leer_bytes
leer-recortar_nil c tam offset w h = rw (zero_size tam offset w h)
  where
    zero_size :
        (tam offset : ℕ) → offset < 2 ^ 64 → leb tam offset ≡ false → recortar tam 0 offset ≡ 0
    zero_size tam offset w h = ground arith

lectura-escribir :
    (ahora : ℕ) (buffer : List ℕ) (offset : ℕ) (n : Inodo)
    → offset + length buffer < 2 ^ 64
    → lectura (escribir ahora buffer offset n) (length buffer) offset ≡ buffer
unfolding lectura
lectura-escribir ahora [] offset n w =
    elim (Bool-cases (leb (escribir ahora [] offset n).tam offset)) [
      | inl e ↦ rw e
      | inr e ↦ rw e (leer-recortar_nil _ _ offset (omega arith) e)
    ]
lectura-escribir ahora (b ∷ bs) offset n w =
    let long = tam-escribir ahora (b ∷ bs) offset n w in
    rw (leb-false (escribir ahora (b ∷ bs) offset n).tam offset (omega (arith, long))) (
      rw (recortar-whole (escribir ahora (b ∷ bs) offset n).tam (length (b ∷ bs)) offset w long)
        (leer-escribir_content ahora (b ∷ bs) offset n))
  where
    leer-escribir_content :
        (ahora : ℕ) (bs : List ℕ) (offset : ℕ) (n : Inodo)
        → leer_bytes (escribir ahora bs offset n).content offset (length bs) ≡ bs
    leer-escribir_content ahora bs offset n =
        unfold escribir in leer-escribir_bytes n.content offset bs

read-modificar :
    (ctx : Contexto) (path : Cadena) (size offset : ℕ) (sb : Superbloque) (i : ℕ) (n : Inodo)
    → buscar_inodo path sb ≡ some i
    → n.path ≡ (sb.inodos i).path
    → n.tipo_archivo ≡ reg_t
    → (read ctx path size offset (modificar sb i n)).0 ≡ ok (lectura n size offset)
read-modificar ctx path size offset sb i n e p t =
    let same = modificar_same sb i n in
    read-lectura ctx path size offset (modificar sb i n) i
      (buscar_inodo-modificar path sb i n p ∙ e) (ap (λ (m : Inodo). m.tipo_archivo) same ∙ t)
    ∙ ap (λ m. ok (lectura m size offset)) same

-- Reading back the range that a successful `write` has written gives the bytes that were written,
-- provided that the end of the range does not wrap round 64 bits.
pub read-write :
    (ctx ctx' : Contexto) (path : Cadena) (buffer : List ℕ) (offset : ℕ) (sb : Superbloque) {n : ℕ}
    → offset + length buffer < 2 ^ 64
    → (write ctx path buffer offset sb).0 ≡ ok n
    → (read ctx' path (length buffer) offset (write ctx path buffer offset sb).1).0 ≡ ok buffer
read-write ctx ctx' path buffer offset sb w h =
    let r = write-ok ctx path buffer offset sb h in
    let new = escribir (ctx.time 0) buffer offset (sb.inodos r.indice) in
    rw r.final (
      read-modificar ctx' path (length buffer) offset sb r.indice new r.encontrado
        (unfold escribir in refl) (unfold escribir in r.regular)
      ∙ ap ok (lectura-escribir (ctx.time 0) buffer offset (sb.inodos r.indice) w))
