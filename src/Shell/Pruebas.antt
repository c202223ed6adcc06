-- ===== src/Shell/Pruebas.antt =====
-- Lines of TP1-shell and what they are parsed as, and the theorems at such lines.
use sistemas_operarivos_fiub.Base.{ℕ, ◌+◌, ◌<◌, ◌≡◌, refl, none, some, List, [], ◌∷◌, ◌++◌, arith}
use sistemas_operarivos_fiub.Shell.Tipos.{
  maxargs, espacio, redir, Execcmd, simple, back, pipe, Entorno,
}
use sistemas_operarivos_fiub.Shell.Lineas.{block_contains, hasta, tras, saltar, split_line}
use sistemas_operarivos_fiub.Shell.Lineas.Cortes.{split_line-append}
use sistemas_operarivos_fiub.Shell.Parsing.{
  exec_cmd_create, back_cmd_create, pipe_cmd_create, get_token, redirigir, parse_redir_flow,
  guardar_environ, parse_environ_var, sustituir, expand_environ_var, guardar_arg, procesar, avanzar,
  recorrer, cerrar, parse_exec, parse_simple, parse_back, parse_cmd, anterior, unir_cmds,
  parse_line_con, parse_line,
}
use sistemas_operarivos_fiub.Shell.Parsing.Palabras.{SonPalabras, sin, con, renglon, procesar_todas}
use sistemas_operarivos_fiub.Shell.Parsing.Tuberias.{Tubo, parse_line-append}
use sistemas_operarivos_fiub.Shell.Parsing.Cotas.{contar, Cerrado, parse_exec-some}

-- all that a run computes with
abbrev analizador : ℕ
unfolding block_contains hasta tras saltar split_line exec_cmd_create back_cmd_create
    pipe_cmd_create get_token redirigir parse_redir_flow guardar_environ parse_environ_var sustituir
    expand_environ_var guardar_arg procesar avanzar recorrer cerrar parse_exec parse_simple
    parse_back parse_cmd anterior unir_cmds parse_line_con parse_line renglon procesar_todas contar
analizador = 0

-- no variable is set, and the last status is 0
abbrev entorno : Entorno
entorno = record { getenv = λ s. none; status = b'0' ∷ [] }

abbrev ls : List ℕ
ls = b'l' ∷ b's' ∷ []

abbrev a_archivo : List ℕ
a_archivo = b'>' ∷ b'f' ∷ []

abbrev dolar : List ℕ
dolar = b'$' ∷ b'?' ∷ []

-- `ls $? >f`
abbrev linea : List ℕ
linea = renglon (ls ∷ dolar ∷ a_archivo ∷ [])

abbrev hecho : Execcmd
hecho = record (exec_cmd_create linea) {
  tipo = redir;
  argc = 2;
  argv = ls ∷ (b'0' ∷ []) ∷ [];
  out_file = b'f' ∷ [];
}

linea_run : parse_exec entorno linea ≡ some hecho
unfolding analizador
linea_run = refl

palabras : SonPalabras (ls ∷ dolar ∷ a_archivo ∷ [])
unfolding analizador
palabras = con refl (con refl (con refl sin))

pocos : contar linea espacio + 1 < maxargs
unfolding analizador
pocos = omega arith

parse_exec-some_example : (c : Execcmd) × (parse_exec entorno linea ≡ some c) × Cerrado c
parse_exec-some_example = parse_exec-some entorno linea pocos

-- a background command in front of a pipe: `ls&| ls`
sin_tubo : block_contains (ls ++ (b'&' ∷ [])) b'|' ≡ none
unfolding analizador
sin_tubo = refl

tubo_run :
    parse_line entorno 0 ((ls ++ (b'&' ∷ [])) ++ (b'|' ∷ b' ' ∷ ls))
    ≡ some (
        pipe 0 []
          (back 0 ls (simple (record (exec_cmd_create ls) { argc = 1; argv = ls ∷ [] })))
          (simple (record (exec_cmd_create ls) { argc = 1; argv = ls ∷ [] })))
unfolding analizador
tubo_run = refl

parse_line-append_example :
    Tubo
      (parse_cmd entorno 0 (ls ++ (b'&' ∷ [])))
      (parse_line entorno (anterior (b' ' ∷ ls)) (saltar (b' ' ∷ ls)))
      (parse_line entorno 0 ((ls ++ (b'&' ∷ [])) ++ (b'|' ∷ b' ' ∷ ls)))
parse_line-append_example = parse_line-append entorno 0 (ls ++ (b'&' ∷ [])) (b' ' ∷ ls) sin_tubo

split_line-append_example :
    split_line ((ls ++ (b'&' ∷ [])) ++ (b'|' ∷ b' ' ∷ ls)) b'|'
    ≡ (ls ++ (b'&' ∷ []), saltar (b' ' ∷ ls))
split_line-append_example = split_line-append (ls ++ (b'&' ∷ [])) (b' ' ∷ ls) b'|' sin_tubo
