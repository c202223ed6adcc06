-- ===== src/Strings/Formato.antt =====
-- TP2-sched/lib/printfmt.c: what is printed is the list of what `putch` is called with, in order. An
-- argument that is read as another type than it has is undefined behaviour, with the result `none`.
pub mod Leyes
pub mod Bastante
pub mod Buffer
pub mod Salida
use sistemas_operarivos_fiub.Base.{
  ℕ, zero, suc, ◌+◌, ◌-◌, ◌*◌, ◌/◌, ◌%◌, ◌^◌, Bool, true, false, ◌&&◌, ◌||◌, not, Option, none,
  some, List, [], ◌∷◌, ◌++◌, map, ltb, leb, ◌==◌, if◌then◌else◌, length, take, get_or, update,
  bytes,
}
use sistemas_operarivos_fiub.Strings.Rutinas.{strlen, strnlen}

-- An argument of 32 bits, one of 64, or a string, `none` for null.
pub data Arg : Type 0 where
  palabra : ℕ → Arg
  doble : ℕ → Arg
  texto : Option (List ℕ) → Arg

-- The flags of an escape. A negative width or precision is `none`, all of them mean the same.
pub record Formato : Type 0 where
  pub padc : ℕ
  pub width : Option ℕ
  pub precision : Option ℕ
  pub lflag : ℕ
  pub altflag : Bool

abbrev pub formato_inicial : Formato
formato_inicial = record { padc = b' '; width = none; precision = none; lflag = 0; altflag = false }

unfoldable pub relleno : ℕ → ℕ → List ℕ
relleno zero padc = []
relleno (suc n) padc = padc ∷ relleno n padc

-- `"0123456789abcdef"[d]`
unfoldable pub cifra : ℕ → ℕ
cifra d = get_or (bytes "0123456789abcdef") d 0

unfoldable pub printnum_desde : ℕ → ℕ → ℕ → ℕ → ℕ → List ℕ
printnum_desde zero num base width padc = []
printnum_desde (suc k) num base width padc =
    elim (leb base num) [
      | true ↦ printnum_desde k (num / base) base (width - 1) padc
      | false ↦ relleno (width - 1) padc
    ]
    ++ (cifra (num % base) ∷ [])

-- each call is on a smaller number
unfoldable pub printnum : ℕ → ℕ → ℕ → ℕ → List ℕ
printnum num base width padc = printnum_desde (suc num) num base width padc

unfoldable pub getuint : ℕ → List Arg → Option (ℕ × List Arg)
getuint lflag [] = none
getuint lflag (palabra v ∷ ap) = if leb 2 lflag then none else some (v, ap)
getuint lflag (doble v ∷ ap) = if leb 2 lflag then some (v, ap) else none
getuint lflag (texto p ∷ ap) = none

-- an `int` as a `long long`
unfoldable pub extender : ℕ → ℕ
extender v = if ltb v (2 ^ 31) then v else v + (2 ^ 64 - 2 ^ 32)

unfoldable pub getint : ℕ → List Arg → Option (ℕ × List Arg)
getint lflag [] = none
getint lflag (palabra v ∷ ap) = if leb 2 lflag then none else some (extender v, ap)
getint lflag (doble v ∷ ap) = if leb 2 lflag then some (v, ap) else none
getint lflag (texto p ∷ ap) = none

unfoldable pub getint_arg : List Arg → Option (ℕ × List Arg)
getint_arg ap = getuint 0 ap

unfoldable pub error_string : ℕ → Option (List ℕ)
error_string err =
    get_or
      (none
        ∷ some (bytes "unspecified error")
        ∷ some (bytes "bad environment")
        ∷ some (bytes "invalid parameter")
        ∷ some (bytes "out of memory")
        ∷ some (bytes "out of environments")
        ∷ some (bytes "segmentation fault")
        ∷ some (bytes "env is not recving")
        ∷ some (bytes "unexpected end of file")
        ∷ [])
      err none

-- from `process_precision` on, with the precision
unfoldable pub process_precision : Formato → Option ℕ → Formato
process_precision f v = elim f.width [
  | none ↦ record f { width = v; precision = none }
  | some _ ↦ record f { precision = v }
]

-- The flags that are read so far, with the number whose digits are being read; or an escape is
-- complete but for its last character.
pub data Paso : Type 0 where
  sigue : Formato → Option ℕ → List Arg → Paso
  para : Formato → Paso
  indefinido : Paso

unfoldable pub estrella : Formato → List Arg → Paso
estrella f ap = elim (getint_arg ap) [
  | none ↦ indefinido
  | some (v, ap') ↦ sigue (process_precision f (if ltb v (2 ^ 31) then some v else none)) none ap'
]

unfoldable pub punto : Formato → Formato
punto f = elim f.width [ none ↦ record f { width = some 0 } | some _ ↦ f ]

-- the switch on a character that is not a conversion
unfoldable pub bandera : Formato → ℕ → List Arg → Paso
bandera f ch ap =
    if ch == b'-'
    then sigue (record f { padc = b'-' }) none ap
    else if ch == b'0'
    then sigue (record f { padc = b'0' }) none ap
    else if leb b'1' ch && leb ch b'9'
    then sigue f (some (ch - b'0')) ap
    else if ch == b'*'
    then estrella f ap
    else if ch == b'.'
    then sigue (punto f) none ap
    else if ch == b'#'
    then sigue (record f { altflag = true }) none ap
    else if ch == b'l'
    then sigue (record f { lflag = f.lflag + 1 }) none ap
    else para f

-- one character, behind the digits of a number or not
unfoldable pub paso : Formato → Option ℕ → ℕ → List Arg → Paso
paso f none ch ap = bandera f ch ap
paso f (some p) ch ap =
    if leb b'0' ch && leb ch b'9'
    then sigue f (some (p * 10 + ch - b'0')) ap
    else bandera (process_precision f (some p)) ch ap

-- The flags of an escape, the arguments that are left, and the text from the conversion on.
unfoldable pub leer_formato :
    Formato → Option ℕ → List Arg → List ℕ → Option (Formato × List Arg × List ℕ)
leer_formato f p ap [] = some (elim p [ none ↦ f | some v ↦ process_precision f (some v) ], ap, [])
leer_formato f p ap (ch ∷ fmt) = elim (paso f p ch ap) [
  | sigue f' p' ap' ↦ leer_formato f' p' ap' fmt
  | para f' ↦ some (f', ap, ch ∷ fmt)
  | indefinido ↦ none
]

abbrev pub ancho : Formato → ℕ
ancho f = elim f.width [ none ↦ 0 | some n ↦ n ]

-- a character of a string, with `altflag` or without
unfoldable pub visible : Bool → ℕ → ℕ
visible alt ch = if alt && (ltb ch b' ' || ltb b'~' ch) then b'?' else ch

unfoldable pub cadena : Formato → List ℕ → List ℕ
cadena f p =
    let n : ℕ = elim f.precision [ none ↦ strlen p | some k ↦ strnlen p k ] in
    let c = map (visible f.altflag) (take n p) in
    if ltb 0 (ancho f) && not (f.padc == b'-')
    then relleno (ancho f - n) f.padc ++ c
    else c ++ relleno (ancho f - n) b' '

-- the case `d`, from the value on
unfoldable pub decimal : Formato → ℕ → List ℕ
decimal f num =
    if leb (2 ^ 63) num
    then b'-' ∷ printnum (2 ^ 64 - num) 10 (ancho f) f.padc
    else printnum num 10 (ancho f) f.padc

-- `err`, or `-err` if that is negative; the least `int` has no opposite
unfoldable pub codigo : ℕ → Option ℕ
codigo err =
    if err == 2 ^ 31 then none else if leb (2 ^ 31) err then some (2 ^ 32 - err) else some err

-- what a conversion prints, and the arguments that are left
abbrev pub Conversion : Type 0
Conversion = Option (List ℕ × List Arg)

unfoldable pub con_valor : (ℕ → Option (List ℕ)) → Option (ℕ × List Arg) → Conversion
con_valor g none = none
con_valor g (some (v, ap)) = elim (g v) [ none ↦ none | some s ↦ some (s, ap) ]

unfoldable pub con_texto : Formato → List Arg → Conversion
con_texto f (texto none ∷ ap) = some (cadena f (bytes "(null)"), ap)
con_texto f (texto (some p) ∷ ap) = some (cadena f p, ap)
con_texto f ap = none

-- The cases that print an argument; `none` for another character. `e` prints an error.
unfoldable pub convertir : (ℕ → Option (List ℕ)) → Formato → ℕ → List Arg → Option Conversion
convertir e f ch ap =
    let sin_signo = λ (base : ℕ).
      some (con_valor (λ num. some (printnum num base (ancho f) f.padc)) (getuint f.lflag ap)) in
    if ch == b'c'
    then some (con_valor (λ c. some (c ∷ [])) (getint_arg ap))
    else if ch == b'e'
    then some (con_valor (λ err. elim (codigo err) [ none ↦ none | some k ↦ e k ]) (getint_arg ap))
    else if ch == b's'
    then some (con_texto f ap)
    else if ch == b'd'
    then some (con_valor (λ num. some (decimal f num)) (getint f.lflag ap))
    else if ch == b'u'
    then sin_signo 10
    else if ch == b'o'
    then sin_signo 8
    else if ch == b'p'
    then some
        (con_valor (λ num. some (b'0' ∷ b'x' ∷ printnum num 16 (ancho f) f.padc)) (getint_arg ap))
    else if ch == b'x'
    then sin_signo 16
    else if ch == b'%'
    then some (some (b'%' ∷ [], ap))
    else none

-- the text before the first `%`, and what is behind it
unfoldable pub partir : List ℕ → List ℕ × Option (List ℕ)
partir [] = ([], none)
partir (ch ∷ fmt) = elim (ch == b'%') [
  | true ↦ ([], some fmt)
  | false ↦ let r = partir fmt in (ch ∷ r.0, r.1)
]

-- One escape: what it prints, and the arguments and the text that are left. Of an unknown one the `%`
-- is printed, and the text goes on behind that.
unfoldable pub escape :
    (ℕ → Option (List ℕ)) → List ℕ → List Arg → Option (List ℕ × List Arg × List ℕ)
escape e fmt ap = elim (leer_formato formato_inicial none ap fmt) [
  | none ↦ none
  | some (f, ap', []) ↦ some (b'%' ∷ [], ap', fmt)
  | some (f, ap', ch ∷ rest) ↦ elim (convertir e f ch ap') [
    | none ↦ some (b'%' ∷ [], ap', fmt)
    | some none ↦ none
    | some (some (s, ap'')) ↦ some (s, ap'', rest)
  ]
]

-- each turn takes a `%` of the text
unfoldable pub recorrer_formato : (ℕ → Option (List ℕ)) → ℕ → List ℕ → List Arg → Option (List ℕ)
recorrer_formato e zero fmt ap = none
recorrer_formato e (suc n) fmt ap = elim (partir fmt).1 [
  | none ↦ some (partir fmt).0
  | some fmt' ↦ elim (escape e fmt' ap) [
    | none ↦ none
    | some (s, ap', rest) ↦ elim (recorrer_formato e n rest ap') [
      | none ↦ none
      | some s' ↦ some ((partir fmt).0 ++ (s ++ s'))
    ]
  ]
]

-- the call of `printfmt` for `%e`, whose formats have no `%e`
unfoldable pub printfmt_error : ℕ → Option (List ℕ)
printfmt_error err = elim (error_string err) [
  | none ↦ recorrer_formato (λ k. none) 9 (bytes "error %d") (palabra err ∷ [])
  | some p ↦ recorrer_formato (λ k. none) 3 (bytes "%s") (texto (some p) ∷ [])
]

unfoldable pub vprintfmt : List ℕ → List Arg → Option (List ℕ)
vprintfmt fmt ap = recorrer_formato printfmt_error (suc (length fmt)) fmt ap
