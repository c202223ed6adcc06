-- ===== src/Fisopfs/Montaje/Leyes.antt =====
-- What a saved image gives back, and what is left of the command line.
use sistemas_operarivos_fiub.Base.{
  ◌≡◌, ◌≢◌, refl, ap, List, [], ◌∷◌, ◌++◌, strings_eq_refl, strings_eq-ne,
}
use sistemas_operarivos_fiub.Fisopfs.Tipos.{Cadena}
use sistemas_operarivos_fiub.Fisopfs.Montaje.{opcion, default_file_disk, sacar_opcion, main}

-- no argument of the list is the option
abbrev pub SinOpcion : List Cadena → Type 0
SinOpcion [] = Unit
SinOpcion (x ∷ r) = (x ≢ opcion) × SinOpcion r

sacar_opcion-first :
    (disco nuevo : Cadena) (antes despues : List Cadena)
    → SinOpcion antes
    → sacar_opcion disco (antes ++ (opcion ∷ nuevo ∷ despues)) ≡ (nuevo, antes ++ despues)
unfolding sacar_opcion
sacar_opcion-first disco nuevo [] despues h = rw (strings_eq_refl opcion)
sacar_opcion-first disco nuevo (x ∷ []) despues h =
    rw (strings_eq-ne x opcion h.0, strings_eq_refl opcion)
sacar_opcion-first disco nuevo (x ∷ y ∷ r) despues h = rw (strings_eq-ne x opcion h.0) (
    ap (λ (p : Cadena × List Cadena). (p.0, x ∷ p.1))
      (sacar_opcion-first disco nuevo (y ∷ r) despues h.1))

sacar_opcion-absent :
    (disco : Cadena) (args : List Cadena) → SinOpcion args → sacar_opcion disco args ≡ (disco, args)
unfolding sacar_opcion
sacar_opcion-absent disco [] h = refl
sacar_opcion-absent disco (x ∷ []) h = refl
sacar_opcion-absent disco (x ∷ y ∷ r) h =
    rw (strings_eq-ne x opcion h.0)
      (ap (λ (p : Cadena × List Cadena). (p.0, x ∷ p.1)) (sacar_opcion-absent disco (y ∷ r) h.1))

-- `--filedisk NAME`, at its first place, sets the image's name and both words are taken from the
-- command line, which keeps all else in order; without the option nothing changes.
pub main-filedisk :
    (prog nuevo : Cadena) (antes despues : List Cadena)
    → SinOpcion antes
    → (main (prog ∷ (antes ++ (opcion ∷ nuevo ∷ despues))) ≡ (nuevo, prog ∷ (antes ++ despues)))
      × (main (prog ∷ antes) ≡ (default_file_disk, prog ∷ antes))
unfolding main
main-filedisk prog nuevo antes despues h = (
  ap (λ (p : Cadena × List Cadena). (p.0, prog ∷ p.1))
      (sacar_opcion-first default_file_disk nuevo antes despues h),
  ap (λ (p : Cadena × List Cadena). (p.0, prog ∷ p.1))
      (sacar_opcion-absent default_file_disk antes h),
)
