-- ===== src/Fisopfs/Inodos/Busqueda.antt =====
-- What the searches of the inode table find, and which writes leave their result alone.
use sistemas_operarivos_fiub.Base.{
  ℕ, ◌<◌, ◌≡◌, ◌≢◌, ◌↔◌, inl, inr, refl, sym, ap, subst, fun_ext, Bool, true, false, ◌&&◌, Option,
  none, some, ◌==◌, ==_iff, arith, update, update_same, update_other, first_from, first_from-some,
  first_from-none, strings_eq, strings_eq_iff, nat_eq_cases, ◌∙◌,
}
use sistemas_operarivos_fiub.Fisopfs.Tipos.{Cadena, Superbloque, Inodo, libre, ocupado, max_inodes}
use sistemas_operarivos_fiub.Fisopfs.Inodos.{
  coincide, buscar_inodo, esta_libre, obtener_inodo_libre, modificar,
}

-- The inode `i` is in use under the path.
pub record Ocupa (sb : Superbloque) (path : Cadena) (i : ℕ) : Type 0 where
  pub en_tabla : i < max_inodes
  pub en_uso : sb.bitmap_inodes i ≡ ocupado
  pub su_path : (sb.inodos i).path ≡ path

and_iff : (a b : Bool) → ((a && b) ≡ true) ↔ ((a ≡ true) × (b ≡ true))
and_iff a b = ground arith

coincide_sound :
    (path : Cadena) (sb : Superbloque) (i : ℕ)
    → coincide path sb i ≡ true
    → (sb.bitmap_inodes i ≡ ocupado) × ((sb.inodos i).path ≡ path)
unfolding coincide
coincide_sound path sb i h =
    let p = (and_iff (sb.bitmap_inodes i == ocupado) (strings_eq (sb.inodos i).path path)).0 h in
    ((==_iff (sb.bitmap_inodes i) ocupado).0 p.0, (strings_eq_iff (sb.inodos i).path path).0 p.1)

coincide_complete :
    (path : Cadena) (sb : Superbloque) (i : ℕ)
    → sb.bitmap_inodes i ≡ ocupado
    → (sb.inodos i).path ≡ path
    → coincide path sb i ≡ true
unfolding coincide
coincide_complete path sb i b e =
    (and_iff (sb.bitmap_inodes i == ocupado) (strings_eq (sb.inodos i).path path)).1
      ((==_iff (sb.bitmap_inodes i) ocupado).1 b, (strings_eq_iff (sb.inodos i).path path).1 e)

pub buscar_inodo-Ocupa :
    (path : Cadena) (sb : Superbloque) {i : ℕ} → buscar_inodo path sb ≡ some i → Ocupa sb path i
unfolding buscar_inodo
buscar_inodo-Ocupa path sb {i} h =
    let f = first_from-some (coincide path sb) 0 max_inodes h in
    let c = coincide_sound path sb i f.passes in
    record { en_tabla = omega (arith, f.upper); en_uso = c.0; su_path = c.1 }

true_or_false : (b : Bool) → b ≡ true → b ≡ false → ⊥
true_or_false b p q = cc

-- The search fails exactly when no inode in use has the path.
pub buscar_inodo-none_iff :
    (path : Cadena) (sb : Superbloque)
    → (buscar_inodo path sb ≡ none) ↔ ((i : ℕ) → ¬ Ocupa sb path i)
unfolding buscar_inodo
buscar_inodo-none_iff path sb = (
  λ h i o. true_or_false (coincide path sb i) (coincide_complete path sb i o.en_uso o.su_path) (
      first_from-none (coincide path sb) 0 max_inodes h i (omega arith)
        (omega (arith, o.en_tabla))),
  λ h. absent (first_from (coincide path sb) 0 max_inodes) refl h,
)
  where
    absent :
        (r : Option ℕ)
        → first_from (coincide path sb) 0 max_inodes ≡ r
        → ((i : ℕ) → ¬ Ocupa sb path i)
        → r ≡ none
    absent none e h = refl
    absent (some i) e h = absurd (h i (buscar_inodo-Ocupa path sb e))

-- With no other inode in use under the path, the search finds the one there is.
pub buscar_inodo_unique :
    (path : Cadena) (sb : Superbloque) (i : ℕ)
    → Ocupa sb path i
    → ((j : ℕ) → Ocupa sb path j → j ≡ i)
    → buscar_inodo path sb ≡ some i
buscar_inodo_unique path sb i o u = found (buscar_inodo path sb) refl
  where
    found : (r : Option ℕ) → buscar_inodo path sb ≡ r → r ≡ some i
    found none e = absurd ((buscar_inodo-none_iff path sb).0 e i o)
    found (some j) e = ap some (u j (buscar_inodo-Ocupa path sb e))

pub obtener_inodo_libre-some :
    (sb : Superbloque) {i : ℕ}
    → obtener_inodo_libre sb ≡ some i
    → (i < max_inodes)
      × (sb.bitmap_inodes i ≡ libre)
      × ((j : ℕ) → j < i → sb.bitmap_inodes j ≢ libre)
unfolding obtener_inodo_libre esta_libre
obtener_inodo_libre-some sb {i} h =
    let f = first_from-some (esta_libre sb) 0 max_inodes h in
    (
      omega (arith, f.upper),
      (==_iff (sb.bitmap_inodes i) libre).0 f.passes,
      λ j l e.
          true_or_false (sb.bitmap_inodes j == libre) ((==_iff (sb.bitmap_inodes j) libre).1 e)
            (f.earlier_fail j (omega arith) l),
    )

-- A write to an inode that keeps its path changes no search.
pub buscar_inodo-modificar :
    (path : Cadena) (sb : Superbloque) (i : ℕ) (n : Inodo)
    → n.path ≡ (sb.inodos i).path
    → buscar_inodo path (modificar sb i n) ≡ buscar_inodo path sb
unfolding buscar_inodo
buscar_inodo-modificar path sb i n e = ap (λ p. first_from p 0 max_inodes) (fun_ext same)
  where
    path_same : (j : ℕ) → ((modificar sb i n).inodos j).path ≡ (sb.inodos j).path
    path_same j =
        unfold modificar in
        elim (nat_eq_cases j i) [
          | inl q ↦
              subst (λ k. (update sb.inodos i n k).path ≡ (sb.inodos k).path) (sym q)
                (ap (λ (m : Inodo). m.path) (update_same sb.inodos i n) ∙ e)
          | inr q ↦ ap (λ (m : Inodo). m.path) (update_other sb.inodos i n j q)
        ]

    same : (j : ℕ) → coincide path (modificar sb i n) j ≡ coincide path sb j
    same j =
        unfold coincide modificar in
        ap (λ p. (sb.bitmap_inodes j == ocupado) && strings_eq p path) (path_same j)

pub modificar_same : (sb : Superbloque) (i : ℕ) (n : Inodo) → (modificar sb i n).inodos i ≡ n
unfolding modificar
modificar_same sb i n = update_same sb.inodos i n

pub modificar_other :
    (sb : Superbloque) (i : ℕ) (n : Inodo) (j : ℕ)
    → j ≢ i
    → (modificar sb i n).inodos j ≡ sb.inodos j
unfolding modificar
modificar_other sb i n j h = update_other sb.inodos i n j h
