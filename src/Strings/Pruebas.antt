-- ===== src/Strings/Pruebas.antt =====
-- The string routines of TP2-sched/lib/string.c at small strings, and the theorems there.
use sistemas_operarivos_fiub.Base.{
  ℕ, suc, ◌≡◌, ◌^◌, ◌-◌, some, none, bytes, refl, List, [], ◌∷◌, take, length, update, arith,
}
use sistemas_operarivos_fiub.Strings.Rutinas.{
  pos, neg, resta, strlen_desde, strlen, strnlen_desde, strnlen, strcpy, strncpy, strlcpy_desde,
  strlcpy, strcmp, strncmp, strchr, strfind, memcmp, memfind, sin_blancos, signo, prefijo, digito,
  digitos, con_signo, strtol,
}
use sistemas_operarivos_fiub.Strings.Formato.{
  palabra, texto, relleno, cifra, printnum_desde, printnum, getuint, extender, getint, getint_arg,
  error_string, process_precision, estrella, punto, bandera, paso, leer_formato, visible, cadena,
  decimal, codigo, con_valor, con_texto, convertir, partir, escape, recorrer_formato,
  printfmt_error, vprintfmt,
}
use sistemas_operarivos_fiub.Strings.Formato.Leyes.{como_int, strtol-printnum, strtol-vprintfmt}
use sistemas_operarivos_fiub.Strings.Formato.Buffer.{
  sprintputch, imprimir, vsnprintf, octetos, vsnprintf-Copiado,
}
use sistemas_operarivos_fiub.Strings.Formato.Salida.{vcprintf, juntar, Caben, vcprintf-Emitido}
use sistemas_operarivos_fiub.Strings.Comparar.{SinNul, vacia, otra}
use sistemas_operarivos_fiub.Strings.Copiar.{Copiado}
use sistemas_operarivos_fiub.Strings.Numeros.{letra, SonDigitos, nada, mas, valor}

-- all that a run computes with
abbrev rutinas : ℕ
unfolding update resta strlen_desde strlen strnlen_desde strnlen strcpy strncpy strlcpy_desde
    strlcpy strcmp strncmp strchr strfind memcmp memfind sin_blancos signo prefijo digito digitos
    con_signo strtol letra valor neg relleno cifra printnum_desde printnum getuint extender getint
    getint_arg error_string process_precision estrella punto bandera paso leer_formato visible
    cadena decimal codigo con_valor con_texto convertir partir escape recorrer_formato
    printfmt_error vprintfmt sprintputch imprimir vsnprintf como_int octetos
rutinas = 0

abbrev sala : List ℕ
sala = b's' ∷ b'a' ∷ b'l' ∷ b'a' ∷ []

abbrev salto : List ℕ
salto = b's' ∷ b'a' ∷ b'l' ∷ b't' ∷ b'o' ∷ []

abbrev memoria : ℕ → ℕ
memoria a = 7

largo_run : (strlen sala ≡ 4) × (strnlen salto 3 ≡ 3)
unfolding rutinas
largo_run = (refl, refl)

relleno_run : (strncpy memoria 0 (b'a' ∷ []) 3 2 ≡ 0) × (strncpy memoria 0 sala 3 3 ≡ 7)
unfolding rutinas
relleno_run = (refl, refl)

area_run :
    (memcmp (strcpy (strcpy memoria 0 sala) 10 salto) 0 10 3 ≡ pos 0)
    × (memfind (strcpy memoria 0 sala) 0 b'l' 9 ≡ 2)
unfolding rutinas
area_run = (refl, refl)

sala-SinNul : SinNul sala
sala-SinNul =
    otra (omega arith) (otra (omega arith) (otra (omega arith) (otra (omega arith) vacia)))

hex-SonDigitos : SonDigitos 16 (1 ∷ 15 ∷ [])
hex-SonDigitos = mas (omega arith) (mas (omega arith) nada)

valor_run : valor 16 0 (1 ∷ 15 ∷ []) ≡ 31
unfolding rutinas
valor_run = refl

-- 2147483648 does not fit a `long`, also behind a minus sign
rebose_run :
    (strtol (bytes "2147483647") 10 ≡ some (pos 2147483647, []))
    × (strtol (bytes "2147483648") 10 ≡ none)
    × (strtol (bytes "-2147483648") 10 ≡ none)
unfolding rutinas
rebose_run = (refl, refl, refl)

formatos_run :
    (vprintfmt (bytes "[%5d] %-4s|%x") (palabra 42 ∷ texto (some sala) ∷ palabra 255 ∷ [])
      ≡ some (bytes "[   42] sala|ff"))
    × (vprintfmt (bytes "%e, %e") (palabra (2 ^ 32 - 4) ∷ palabra 77 ∷ [])
        ≡ some (bytes "out of memory, error 77"))
    × (vprintfmt (bytes "%08lx %.2s %k") (palabra 48879 ∷ texto (some salto) ∷ [])
        ≡ some (bytes "0000beef sa %k"))
unfolding rutinas
formatos_run = (refl, refl, refl)

-- the fillers of a negative number stand behind its sign
negativo_run : vprintfmt (bytes "%5d") (palabra (2 ^ 32 - 3) ∷ []) ≡ some (bytes "-    3")
unfolding rutinas
negativo_run = refl

vacio_run : vsnprintf memoria 10 0 sala [] ≡ some (none, memoria)
unfolding rutinas
vacio_run = refl

strtol-printnum_example : strtol (printnum 255 16 6 b' ') 16 ≡ some (pos 255, [])
strtol-printnum_example = strtol-printnum 255 16 6 (omega arith) (omega arith) (omega arith)

strtol-vprintfmt_example :
    (s : List ℕ) × (vprintfmt (bytes "%d") (palabra 4294967254 ∷ []) ≡ some s)
    × (strtol s 10 ≡ some (como_int 4294967254, []))
strtol-vprintfmt_example = strtol-vprintfmt 4294967254 (omega arith) (omega arith)

saludo_run : vprintfmt (bytes "%s%u") (texto (some sala) ∷ palabra 19 ∷ []) ≡ some (bytes "sala19")
unfolding rutinas
saludo_run = refl

vsnprintf-Copiado_example :
    (m' : ℕ → ℕ) × (vsnprintf memoria 10
        (suc 4)
        (bytes "%s%u")
        (texto (some sala) ∷ palabra 19 ∷ [])
      ≡ some (some (length (bytes "sala19")), m'))
    × Copiado memoria m' 10 (take 4 (octetos (bytes "sala19")))
vsnprintf-Copiado_example =
    vsnprintf-Copiado memoria 10 4 (bytes "%s%u") (texto (some sala) ∷ palabra 19 ∷ [])
      (bytes "sala19") (omega arith) saludo_run

vcprintf-Emitido_example :
    (areas : List (List ℕ)) × (vcprintf memoria (bytes "%s%u") (texto (some sala) ∷ palabra 19 ∷ [])
      ≡ some (length (bytes "sala19"), areas))
    × (juntar areas ≡ octetos (bytes "sala19"))
    × Caben areas
vcprintf-Emitido_example =
    vcprintf-Emitido memoria (bytes "%s%u") (texto (some sala) ∷ palabra 19 ∷ []) (bytes "sala19")
      saludo_run
