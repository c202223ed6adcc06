-- ===== src/Fisopfs/Rutas.antt =====
-- `separar_path` of TP3-fisopfs/fs.c, with the functions of <string.h> that it calls.
pub mod Leyes
use sistemas_operarivos_fiub.Base.{
  ℕ, zero, suc, ◌+◌, ◌-◌, ◌≡◌, Bool, Option, none, some, List, [], ◌∷◌, ◌==◌, leb, if◌then◌else◌,
  take, drop,
}
use sistemas_operarivos_fiub.Fisopfs.Tipos.{Cadena, max_path}

-- `ROOT_PATH`, "/"
abbrev pub root_path : Cadena
root_path = b'/' ∷ []

-- `strrchr(s, c)`: the offset of the last `c`
unfoldable pub strrchr : Cadena → ℕ → Option ℕ
strrchr [] c = none
strrchr (x ∷ xs) c = elim (strrchr xs c) [
  | some i ↦ some (suc i)
  | none ↦ if x == c then some 0 else none
]

-- `strncpy(dst, src, MAX_PATH - 1); dst[MAX_PATH - 1] = '\0';`
unfoldable pub copiar : Cadena → Cadena
copiar s = take (max_path - 1) s

-- The pair of `directory_path` and `nombre`.
unfoldable pub separar_path : Cadena → Cadena × Cadena
separar_path path = elim (strrchr path b'/') [
  | none ↦ (root_path, copiar path)
  | some zero ↦ (root_path, copiar (drop 1 path))
  | some (suc k) ↦ (
    take (if leb max_path (suc k) then max_path - 1 else suc k) path,
    copiar (drop (suc (suc k)) path),
  )
]
