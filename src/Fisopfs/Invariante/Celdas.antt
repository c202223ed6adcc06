-- ===== src/Fisopfs/Invariante/Celdas.antt =====
-- Writes to one cell of the inode table that keep the invariant.
use sistemas_operarivos_fiub.Base.{
  ℕ, ◌<◌, ◌≡◌, ◌≢◌, inl, inr, sym, ap, ◌∙◌, subst, update, update_same, update_other, update_all,
  nat_eq_cases, arith,
}
use sistemas_operarivos_fiub.Fisopfs.Tipos.{Superbloque, Inodo, ocupado, max_inodes}
use sistemas_operarivos_fiub.Fisopfs.Inodos.{modificar, poner}
use sistemas_operarivos_fiub.Fisopfs.Invariante.{Celda, EnUso, SuperbloqueOk}

-- what is known of an inode in use
pub celda-EnUso :
    {sb : Superbloque} {i : ℕ}
    → SuperbloqueOk sb
    → i < max_inodes
    → sb.bitmap_inodes i ≡ ocupado
    → EnUso i (sb.inodos i)
celda-EnUso {sb} {i} s l b = in_use (s.celdas i l)
  where
    in_use : Celda i (sb.bitmap_inodes i) (sb.inodos i) → EnUso i (sb.inodos i)
    in_use (inl c) = absurd (omega (arith, c.0, b))
    in_use (inr c) = c.1

-- the same inode with other contents, of the same type and under the same path
pub modificar-SuperbloqueOk :
    (sb : Superbloque) (i : ℕ) (n : Inodo)
    → SuperbloqueOk sb
    → sb.bitmap_inodes i ≡ ocupado
    → EnUso i n
    → n.tipo_archivo ≡ (sb.inodos i).tipo_archivo
    → n.path ≡ (sb.inodos i).path
    → SuperbloqueOk (modificar sb i n)
unfolding modificar
modificar-SuperbloqueOk sb i n s b u t p = record {
  celdas =
      update_all (λ j m. j < max_inodes → Celda j (sb.bitmap_inodes j) m) sb.inodos i n s.celdas
        (λ _. inr (b, u));
  raiz_ocupada = s.raiz_ocupada;
  raiz_dir = root (λ m. m.tipo_archivo) t ∙ s.raiz_dir;
  raiz_path = root (λ m. m.path) p ∙ s.raiz_path;
}
  where
    root :
        {A : Type 0} (f : Inodo → A)
        → f n ≡ f (sb.inodos i)
        → f (update sb.inodos i n 0) ≡ f (sb.inodos 0)
    root f e = elim (nat_eq_cases 0 i) [
      | inl q ↦
          subst (λ k. f (update sb.inodos i n k) ≡ f (sb.inodos k)) (sym q)
            (ap f (update_same sb.inodos i n) ∙ e)
      | inr q ↦ ap f (update_other sb.inodos i n 0 q)
    ]

-- a cell other than the root, given to a new inode or freed
pub poner-SuperbloqueOk :
    (sb : Superbloque) (i b : ℕ) (n : Inodo)
    → SuperbloqueOk sb
    → i ≢ 0
    → Celda i b n
    → SuperbloqueOk (poner sb i b n)
unfolding poner
poner-SuperbloqueOk sb i b n s ne c = record {
  celdas = λ j l. elim (nat_eq_cases j i) [
    | inl q ↦
        subst (λ k. Celda k (update sb.bitmap_inodes i b k) (update sb.inodos i n k)) (sym q)
          (rw (update_same sb.bitmap_inodes i b, update_same sb.inodos i n) c)
    | inr q ↦
        rw (update_other sb.bitmap_inodes i b j q, update_other sb.inodos i n j q) (s.celdas j l)
  ];
  raiz_ocupada = update_other sb.bitmap_inodes i b 0 (λ e. ne (sym e)) ∙ s.raiz_ocupada;
  raiz_dir =
      ap (λ (m : Inodo). m.tipo_archivo) (update_other sb.inodos i n 0 (λ e. ne (sym e)))
      ∙ s.raiz_dir;
  raiz_path =
      ap (λ (m : Inodo). m.path) (update_other sb.inodos i n 0 (λ e. ne (sym e))) ∙ s.raiz_path;
}
