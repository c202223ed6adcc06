-- ===== src/Strings/Rutinas.antt =====
-- TP2-sched/lib/string.c. A string that is only read is the list of its bytes before the NUL, and a
-- pointer into it the rest of the list; memory that is written, or read by address, is a function.
use sistemas_operarivos_fiub.Base.{
  ℕ, zero, suc, ◌+◌, ◌-◌, ◌*◌, Bool, ◌&&◌, ◌||◌, Option, none, some, List, [], ◌∷◌, ◌==◌, ltb, leb,
  ◌^◌, if◌then◌else◌, update, get_or, drop, true, false,
}

-- an `int` or a `long`
pub data ℤ : Type 0 where
  pos : ℕ → ℤ
  negsuc : ℕ → ℤ

unfoldable pub resta : ℕ → ℕ → ℤ
resta a b = if ltb a b then negsuc (b - a - 1) else pos (a - b)

unfoldable pub neg : ℕ → ℤ
neg zero = pos 0
neg (suc n) = negsuc n

-- the loop of `strlen`, with its counter
unfoldable pub strlen_desde : ℕ → List ℕ → ℕ
strlen_desde n [] = n
strlen_desde n (x ∷ s) = strlen_desde (n + 1) s

unfoldable pub strlen : List ℕ → ℕ
strlen s = strlen_desde 0 s

unfoldable pub strnlen_desde : ℕ → List ℕ → ℕ → ℕ
strnlen_desde n s zero = n
strnlen_desde n [] (suc size) = n
strnlen_desde n (x ∷ s) (suc size) = strnlen_desde (n + 1) s size

unfoldable pub strnlen : List ℕ → ℕ → ℕ
strnlen s size = strnlen_desde 0 s size

-- the memory after the copy; `src` does not overlap it
unfoldable pub strcpy : (ℕ → ℕ) → ℕ → List ℕ → ℕ → ℕ
strcpy m dst [] = update m dst 0
strcpy m dst (x ∷ src) = strcpy (update m dst x) (dst + 1) src

unfoldable pub strncpy : (ℕ → ℕ) → ℕ → List ℕ → ℕ → ℕ → ℕ
strncpy m dst src zero = m
strncpy m dst [] (suc size) = strncpy (update m dst 0) (dst + 1) [] size
strncpy m dst (x ∷ src) (suc size) = strncpy (update m dst x) (dst + 1) src size

-- the loop of `strlcpy` with `size - 1` bytes left, the final NUL, and where it stands
unfoldable pub strlcpy_desde : (ℕ → ℕ) → ℕ → List ℕ → ℕ → (ℕ → ℕ) × ℕ
strlcpy_desde m dst src zero = (update m dst 0, dst)
strlcpy_desde m dst [] (suc size) = (update m dst 0, dst)
strlcpy_desde m dst (x ∷ src) (suc size) = strlcpy_desde (update m dst x) (dst + 1) src size

-- the memory, and the result
unfoldable pub strlcpy : (ℕ → ℕ) → ℕ → List ℕ → ℕ → (ℕ → ℕ) × ℕ
strlcpy m dst src zero = (m, dst - dst)
strlcpy m dst src (suc size) = let r = strlcpy_desde m dst src size in (r.0, r.1 - dst)

unfoldable pub strcmp : List ℕ → List ℕ → ℤ
strcmp [] [] = resta 0 0
strcmp [] (y ∷ q) = resta 0 y
strcmp (x ∷ p) [] = resta x 0
strcmp (x ∷ p) (y ∷ q) = let rest = strcmp p q in if x == y then rest else resta x y

unfoldable pub strncmp : List ℕ → List ℕ → ℕ → ℤ
strncmp p q zero = pos 0
strncmp [] [] (suc n) = resta 0 0
strncmp [] (y ∷ q) (suc n) = resta 0 y
strncmp (x ∷ p) [] (suc n) = resta x 0
strncmp (x ∷ p) (y ∷ q) (suc n) = let rest = strncmp p q n in if x == y then rest else resta x y

-- the offset of the first `c`, `none` for the null pointer
unfoldable pub strchr : List ℕ → ℕ → Option ℕ
strchr [] c = none
strchr (x ∷ s) c =
    if x == c then some 0 else elim (strchr s c) [ none ↦ none | some i ↦ some (suc i) ]

-- the offset of the first `c`, or of the NUL
unfoldable pub strfind : List ℕ → ℕ → ℕ
strfind [] c = 0
strfind (x ∷ s) c = let rest = strfind s c in if x == c then 0 else suc rest

-- two areas of the same memory
unfoldable pub memcmp : (ℕ → ℕ) → ℕ → ℕ → ℕ → ℤ
memcmp m s1 s2 zero = pos 0
memcmp m s1 s2 (suc n) =
    let rest = memcmp m (s1 + 1) (s2 + 1) n in if m s1 == m s2 then rest else resta (m s1) (m s2)

-- the address of the first `c`, or the end of the area
unfoldable pub memfind : (ℕ → ℕ) → ℕ → ℕ → ℕ → ℕ
memfind m s c zero = s
memfind m s c (suc n) = let rest = memfind m (s + 1) c n in if m s == c then s else rest

-- `while (*s == ' ' || *s == '\t') s++;`
unfoldable pub sin_blancos : List ℕ → List ℕ
sin_blancos [] = []
sin_blancos (x ∷ s) = let rest = sin_blancos s in if x == 32 || x == 9 then rest else x ∷ s

-- `neg`, and what follows the sign
unfoldable pub signo : List ℕ → Bool × List ℕ
signo [] = (false, [])
signo (x ∷ s) = if x == 43 then (false, s) else if x == 45 then (true, s) else (false, x ∷ s)

-- `base` and the rest of the string after the prefix
unfoldable pub prefijo : ℕ → List ℕ → ℕ × List ℕ
prefijo base s =
    if (base == 0 || base == 16) && (get_or s 0 0 == 48 && get_or s 1 0 == 120)
    then (16, drop 2 s)
    else if base == 0 && get_or s 0 0 == 48
    then (8, drop 1 s)
    else if base == 0
    then (10, s)
    else (base, s)

unfoldable pub digito : ℕ → Option ℕ
digito x =
    if leb 48 x && leb x 57
    then some (x - 48)
    else if leb 97 x && leb x 122
    then some (x - 97 + 10)
    else if leb 65 x && leb x 90
    then some (x - 65 + 10)
    else none

-- The value, and what `endptr` is set to. A value that does not fit a `long` of 32 bits is undefined
-- behaviour, `none`.
unfoldable pub digitos : ℕ → ℕ → List ℕ → Option (ℕ × List ℕ)
digitos base val [] = some (val, [])
digitos base val (x ∷ s) = elim (digito x) [
  | none ↦ some (val, x ∷ s)
  | some dig ↦
      let rest = digitos base (val * base + dig) s in
      if leb base dig
      then some (val, x ∷ s)
      else if leb (2 ^ 31) (val * base + dig)
      then none
      else rest
]

unfoldable pub con_signo : Bool → Option (ℕ × List ℕ) → Option (ℤ × List ℕ)
con_signo n none = none
con_signo n (some r) = some (if n then neg r.0 else pos r.0, r.1)

unfoldable pub strtol : List ℕ → ℕ → Option (ℤ × List ℕ)
strtol s base =
    let t = signo (sin_blancos s) in let p = prefijo base t.1 in con_signo t.0 (digitos p.0 0 p.1)
