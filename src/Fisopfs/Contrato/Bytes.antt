-- ===== src/Fisopfs/Contrato/Bytes.antt =====
-- The bytes of a file after `write` and `truncate`, those outside the range included.
use sistemas_operarivos_fiub.Base.{
  ℕ, ◌+◌, ◌^◌, ◌≤◌, ◌<◌, ◌≡◌, ◌≢◌, ◌⊎◌, inl, inr, refl, ap, ◌∙◌, List, some, ltb, if◌then◌else◌,
  length, arith, Option-cases,
}
use sistemas_operarivos_fiub.Fisopfs.Tipos.{Cadena, Superbloque, Inodo, Contexto, ok, reg_t}
use sistemas_operarivos_fiub.Fisopfs.Inodos.{buscar_inodo, modificar}
use sistemas_operarivos_fiub.Fisopfs.Inodos.Busqueda.{modificar_same, modificar_other}
use sistemas_operarivos_fiub.Fisopfs.Archivos.{borrar_bytes, escribir, write, truncar, truncate}
use sistemas_operarivos_fiub.Fisopfs.Archivos.IdaVuelta.{
  write-ok, escribir_bytes-below, escribir_bytes-above,
}
use sistemas_operarivos_fiub.Fisopfs.Invariante.{RegularOk, SuperbloqueOk}
use sistemas_operarivos_fiub.Fisopfs.Invariante.Regulares.{found-EnUso, regular_of}

escribir-outside :
    (ahora : ℕ) (buffer : List ℕ) (offset : ℕ) (n : Inodo) (k : ℕ)
    → (k < offset) ⊎ (offset + length buffer ≤ k)
    → (escribir ahora buffer offset n).content k ≡ n.content k
unfolding escribir
escribir-outside ahora buffer offset n k (inl l) = escribir_bytes-below n.content offset buffer k l
escribir-outside ahora buffer offset n k (inr l) = escribir_bytes-above n.content offset buffer k l

escribir-size :
    (ahora : ℕ) (buffer : List ℕ) (offset : ℕ) (n : Inodo)
    → offset + length buffer < 2 ^ 64
    → (escribir ahora buffer offset n).tam
      ≡ (if ltb n.tam (offset + length buffer) then offset + length buffer else n.tam)
unfolding escribir
escribir-size ahora buffer offset n w = ground arith

-- A successful `write` whose end does not wrap finds the regular file of the path, changes none of
-- its bytes outside the range written, makes it as long as the larger of its size and the end of the
-- range, and changes no other inode.
pub write-resto :
    (ctx : Contexto) (path : Cadena) (buffer : List ℕ) (offset : ℕ) (sb : Superbloque) {n : ℕ}
    → offset + length buffer < 2 ^ 64
    → (write ctx path buffer offset sb).0 ≡ ok n
    → (i : ℕ) × (buscar_inodo path sb ≡ some i)
      × ((sb.inodos i).tipo_archivo ≡ reg_t)
      × ((k : ℕ)
          → (k < offset) ⊎ (offset + length buffer ≤ k)
          → ((write ctx path buffer offset sb).1.inodos i).content k ≡ (sb.inodos i).content k)
      × (((write ctx path buffer offset sb).1.inodos i).tam ≡ (
          if ltb (sb.inodos i).tam (offset + length buffer)
          then offset + length buffer
          else (sb.inodos i).tam))
      × ((j : ℕ) → j ≢ i → (write ctx path buffer offset sb).1.inodos j ≡ sb.inodos j)
write-resto ctx path buffer offset sb w h =
    let r = write-ok ctx path buffer offset sb h in
    let i = r.indice in
    let new = escribir (ctx.time 0) buffer offset (sb.inodos i) in
    let at = modificar_same sb i new in
    (
      i,
      r.encontrado,
      r.regular,
      λ k o.
          ap (λ (t : Superbloque). (t.inodos i).content k) r.final
          ∙ ap (λ (m : Inodo). m.content k) at
          ∙ escribir-outside (ctx.time 0) buffer offset (sb.inodos i) k o,
      ap (λ (t : Superbloque). (t.inodos i).tam) r.final
          ∙ ap (λ (m : Inodo). m.tam) at
          ∙ escribir-size (ctx.time 0) buffer offset (sb.inodos i) w,
      λ j ne. ap (λ (t : Superbloque). t.inodos j) r.final ∙ modificar_other sb i new j ne,
    )

truncar-content :
    (ahora size : ℕ) (n : Inodo) (k : ℕ)
    → RegularOk n
    → (truncar ahora size n).content k ≡ (if ltb k size then n.content k else 0)
unfolding truncar borrar_bytes
truncar-content ahora size n k r = ground (arith, r.ceros k)

truncate-ok :
    (ctx : Contexto) (path : Cadena) (size : ℕ) (sb : Superbloque) {n : ℕ}
    → (truncate ctx path size sb).0 ≡ ok n
    → (i : ℕ) × (buscar_inodo path sb ≡ some i)
      × ((sb.inodos i).tipo_archivo ≡ reg_t)
      × ((truncate ctx path size sb).1 ≡ modificar sb i (truncar (ctx.time 0) size (sb.inodos i)))
unfolding truncate
truncate-ok ctx path size sb h = elim (Option-cases (buscar_inodo path sb)) [
  | inl e ↦ ground arith
  | inr (i, e) ↦ (i, e, ground arith, ground arith)
]

-- A successful `truncate` on a sound superblock finds the regular file of the path, keeps its bytes
-- below the new size, makes all later bytes 0, whether the file shrinks or grows, and sets the size.
pub truncate-content :
    (ctx : Contexto) (path : Cadena) (size : ℕ) (sb : Superbloque) {n : ℕ}
    → SuperbloqueOk sb
    → (truncate ctx path size sb).0 ≡ ok n
    → (i : ℕ) × (buscar_inodo path sb ≡ some i)
      × (((truncate ctx path size sb).1.inodos i).tam ≡ size)
      × ((k : ℕ)
          → ((truncate ctx path size sb).1.inodos i).content k
            ≡ (if ltb k size then (sb.inodos i).content k else 0))
truncate-content ctx path size sb s h =
    let (i, e, t, f) = truncate-ok ctx path size sb h in
    let at = modificar_same sb i (truncar (ctx.time 0) size (sb.inodos i)) in
    (
      i,
      e,
      ap (λ (u : Superbloque). (u.inodos i).tam) f
          ∙ ap (λ (m : Inodo). m.tam) at
          ∙ (unfold truncar in refl),
      λ k.
          ap (λ (u : Superbloque). (u.inodos i).content k) f
          ∙ ap (λ (m : Inodo). m.content k) at
          ∙ truncar-content (ctx.time 0) size (sb.inodos i) k
              (regular_of (found-EnUso path sb s e) t),
    )
