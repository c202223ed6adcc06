-- ===== src/Fisopfs/Rutas/Leyes.antt =====
-- What `separar_path` makes of a path: its bounds, and that it undoes the joining of a directory
-- and a name.
use sistemas_operarivos_fiub.Base.{
  ℕ, zero, suc, ◌<◌, ◌≡◌, ◌≢◌, refl, sym, ap, ◌-◌, ◌∙◌, false, Option, none, some, [], ◌∷◌, ◌++◌,
  leb, if◌then◌else◌, length, take, drop, length-take, take-all, arith, strings_eq, strings_eq_iff,
  Bool-cases, inl, inr,
}
use sistemas_operarivos_fiub.Fisopfs.Tipos.{Cadena, max_path}
use sistemas_operarivos_fiub.Fisopfs.Rutas.{root_path, strrchr, copiar, separar_path}

pub length-copiar : (s : Cadena) → length (copiar s) < max_path
unfolding copiar
length-copiar s = omega (arith, length-take (max_path - 1) s)

length-prefix :
    (k : ℕ) (path : Cadena)
    → length (take (if leb max_path k then max_path - 1 else k) path) < max_path
length-prefix k path = elim (Bool-cases (leb max_path k)) [
  | inl e ↦ rw e (omega (arith, length-take (max_path - 1) path))
  | inr e ↦ rw e (omega (arith, length-take k path, below k e))
]
  where
    below : (k : ℕ) → leb max_path k ≡ false → k < max_path
    below k e = ground arith

-- Both parts fit in an array of `MAX_PATH` bytes, however long the path is.
pub length-separar_path :
    (path : Cadena)
    → (length (separar_path path).0 < max_path) × (length (separar_path path).1 < max_path)
unfolding separar_path
length-separar_path path = parts (strrchr path b'/') refl
  where
    Bounded : Cadena × Cadena → Type 0
    Bounded p = (length p.0 < max_path) × (length p.1 < max_path)

    parts : (r : Option ℕ) → strrchr path b'/' ≡ r → Bounded (separar_path path)
    parts none e = rw (e, separar_path) (omega arith, length-copiar path)
    parts (some zero) e = rw (e, separar_path) (omega arith, length-copiar (drop 1 path))
    parts (some (suc k)) e =
        rw (e, separar_path) (length-prefix (suc k) path, length-copiar (drop (suc (suc k)) path))

strrchr-append :
    (d n : Cadena) (c : ℕ) → strrchr n c ≡ none → strrchr (d ++ (c ∷ n)) c ≡ some (length d)
unfolding strrchr
strrchr-append [] n c h = ground arith
strrchr-append (x ∷ d) n c h = rw (strrchr-append d n c h)

take-append : (d r : Cadena) → take (length d) (d ++ r) ≡ d
take-append [] r = refl
take-append (x ∷ d) r = ap (λ s. x ∷ s) (take-append d r)

drop-append : (d n : Cadena) (c : ℕ) → drop (suc (length d)) (d ++ (c ∷ n)) ≡ n
drop-append [] n c = refl
drop-append (x ∷ d) n c = drop-append d n c

pub copiar-short : (s : Cadena) → length s < max_path → copiar s ≡ s
unfolding copiar
copiar-short s h = take-all (max_path - 1) s (omega arith)

-- the path of the child `nombre` of the directory `dir`
unfoldable pub unir : Cadena → Cadena → Cadena
unir dir nombre = if strings_eq dir root_path then b'/' ∷ nombre else dir ++ (b'/' ∷ nombre)

prefix-short : (k : ℕ) → k < max_path → (if leb max_path k then max_path - 1 else k) ≡ k
prefix-short k h = ground arith

separar_path-append :
    (x : ℕ) (d nombre : Cadena)
    → strrchr nombre b'/' ≡ none
    → length (x ∷ d) < max_path
    → length nombre < max_path
    → separar_path ((x ∷ d) ++ (b'/' ∷ nombre)) ≡ (x ∷ d, nombre)
unfolding separar_path
separar_path-append x d nombre h ld ln =
    rw (strrchr-append (x ∷ d) nombre b'/' h, separar_path)
      (λ i. (
        (ap (λ k. take k ((x ∷ d) ++ (b'/' ∷ nombre))) (prefix-short (length (x ∷ d)) ld)
              ∙ take-append (x ∷ d) (b'/' ∷ nombre))
            i,
        (ap copiar (drop-append (x ∷ d) nombre b'/') ∙ copiar-short nombre ln) i,
      ))

-- Splitting the path of a child gives back its directory and its name, provided that the directory
-- is not empty, that the name has no slash, and that both fit in `MAX_PATH` bytes.
pub separar_path-unir :
    (dir nombre : Cadena)
    → dir ≢ []
    → strrchr nombre b'/' ≡ none
    → length dir < max_path
    → length nombre < max_path
    → separar_path (unir dir nombre) ≡ (dir, nombre)
unfolding unir separar_path
separar_path-unir [] nombre ne h ld ln = absurd (ne refl)
separar_path-unir (x ∷ d) nombre ne h ld ln = elim (Bool-cases (strings_eq (x ∷ d) root_path)) [
  | inl e ↦
      rw e (root ∙ ap (λ (r : Cadena). (r, nombre)) (sym ((strings_eq_iff (x ∷ d) root_path).0 e)))
  | inr e ↦ rw e (separar_path-append x d nombre h ld ln)
]
  where
    root : separar_path (b'/' ∷ nombre) ≡ (root_path, nombre)
    root =
        rw (strrchr-append [] nombre b'/' h, separar_path)
          (λ i. (root_path, copiar-short nombre ln i))
