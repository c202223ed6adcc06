-- ===== src/Shell/Parsing.antt =====
-- TP1-shell/parsing.c and createcmd.c. A pointer into the line is the rest of the line from there,
-- with the byte before it where the source reads that byte.
pub mod Palabras
pub mod Tuberias
pub mod Cotas
use sistemas_operarivos_fiub.Base.{
  ℕ, zero, suc, ◌+◌, Bool, false, true, not, ◌&&◌, Option, none, some, List, [], ◌∷◌, ◌++◌, ◌==◌,
  ltb, if◌then◌else◌, length, drop, get_or,
}
use sistemas_operarivos_fiub.Shell.Tipos.{
  maxargs, espacio, exec, redir, Execcmd, Cmd, nulo, simple, back, pipe, Entorno, Efecto, falso,
  cierto, fuera,
}
use sistemas_operarivos_fiub.Shell.Lineas.{block_contains, hasta, saltar, tras, split_line}

unfoldable pub exec_cmd_create : List ℕ → Execcmd
exec_cmd_create buf_cmd = record {
  tipo = exec;
  pid = 0;
  scmd = buf_cmd;
  argc = 0;
  eargc = 0;
  argv = [];
  eargv = [];
  out_file = [];
  in_file = [];
  err_file = [];
}

unfoldable pub back_cmd_create : Execcmd → Cmd
back_cmd_create c = back 0 c.scmd (simple c)

unfoldable pub pipe_cmd_create : Cmd → Cmd → Cmd
pipe_cmd_create left nulo = left
pipe_cmd_create left (simple c) = pipe 0 [] left (simple c)
pipe_cmd_create left (back p s c) = pipe 0 [] left (back p s c)
pipe_cmd_create left (pipe p s l r) = pipe 0 [] left (pipe p s l r)

unfoldable pub get_token : List ℕ → List ℕ
get_token buf = hasta buf espacio

-- the file name goes to stdout for `>` at the start of the word, to stderr for `>` in its second
-- place, nowhere else
unfoldable pub redirigir : Execcmd → ℕ → List ℕ → Execcmd
redirigir c zero arg = record c { out_file = drop 1 arg; tipo = redir }
redirigir c (suc zero) arg = record c { err_file = drop 2 arg; tipo = redir }
redirigir c (suc (suc i)) arg = record c { tipo = redir }

unfoldable pub parse_redir_flow : Execcmd → List ℕ → Efecto
parse_redir_flow c arg = elim (block_contains arg b'>') [
  | some i ↦ cierto (redirigir c i arg)
  | none ↦ elim (block_contains arg b'<') [
    | some i ↦ cierto (record c { in_file = drop 1 arg; tipo = redir })
    | none ↦ falso
  ]
]

-- `c->eargv[c->eargc++] = arg`
unfoldable pub guardar_environ : Execcmd → List ℕ → Efecto
guardar_environ c arg =
    if ltb (length c.eargv) maxargs
    then cierto (record c { eargv = c.eargv ++ (arg ∷ []); eargc = c.eargc + 1 })
    else fuera

unfoldable pub parse_environ_var : Execcmd → List ℕ → Efecto
parse_environ_var c arg = elim (block_contains arg b'=') [
  | none ↦ falso
  | some zero ↦ falso
  | some (suc i) ↦ elim (block_contains arg b'-') [ none ↦ guardar_environ c arg | some j ↦ falso ]
]

-- the word behind `$`: `?` in front gives the status, whatever follows
unfoldable pub sustituir : Entorno → List ℕ → List ℕ
sustituir e nombre =
    if get_or nombre 0 0 == b'?'
    then e.status
    else elim (e.getenv nombre) [ none ↦ [] | some path ↦ path ]

unfoldable pub expand_environ_var : Entorno → List ℕ → List ℕ
expand_environ_var e [] = []
expand_environ_var e (x ∷ xs) = if x == b'$' then sustituir e xs else x ∷ xs

-- `c->argv[argc++] = tok`, where the word is not empty
unfoldable pub guardar_arg : Execcmd → List ℕ → Option Execcmd
guardar_arg c [] = some c
guardar_arg c (x ∷ xs) =
    if ltb (length c.argv) maxargs
    then some (record c { argv = c.argv ++ ((x ∷ xs) ∷ []) })
    else none

-- one turn of the loop of `parse_exec`, `none` for a store past the end of an array
unfoldable pub procesar : Entorno → List ℕ → Execcmd → Option Execcmd
procesar e tok c = elim (parse_redir_flow c tok) [
  | cierto c' ↦ some c'
  | fuera ↦ none
  | falso ↦ elim (parse_environ_var c tok) [
    | cierto c' ↦ some c'
    | fuera ↦ none
    | falso ↦ guardar_arg c (expand_environ_var e tok)
  ]
]

-- `if (buf_cmd[idx] != END_STRING) idx++;`
unfoldable pub avanzar : List ℕ → List ℕ
avanzar [] = []
avanzar (x ∷ xs) = xs

-- the loop of `parse_exec` from the rest of the line on; also `none` where the fuel runs out
unfoldable pub recorrer : Entorno → ℕ → List ℕ → Execcmd → Option Execcmd
recorrer e zero [] c = some c
recorrer e zero (x ∷ xs) c = none
recorrer e (suc n) [] c = some c
recorrer e (suc n) (x ∷ xs) c = elim (procesar e (get_token (x ∷ xs)) c) [
  | none ↦ none
  | some c' ↦ recorrer e n (avanzar (drop (length (get_token (x ∷ xs))) (x ∷ xs))) c'
]

-- `c->argv[argc] = NULL; c->argc = argc;`
unfoldable pub cerrar : Execcmd → Option Execcmd
cerrar c = if ltb (length c.argv) maxargs then some (record c { argc = length c.argv }) else none

unfoldable pub parse_exec : Entorno → List ℕ → Option Execcmd
parse_exec e buf_cmd = elim (recorrer e (length buf_cmd) buf_cmd (exec_cmd_create buf_cmd)) [
  | none ↦ none
  | some c ↦ cerrar c
]

unfoldable pub parse_simple : Entorno → List ℕ → Option Cmd
parse_simple e buf_cmd = elim (parse_exec e buf_cmd) [ none ↦ none | some c ↦ some (simple c) ]

unfoldable pub parse_back : Entorno → List ℕ → Option Cmd
parse_back e buf_cmd = elim (parse_exec e (hasta buf_cmd b'&')) [
  | none ↦ none
  | some c ↦ some (back_cmd_create c)
]

-- `buf_cmd[idx - 1]` is the byte before the line where `&` is its first one.
unfoldable pub parse_cmd : Entorno → ℕ → List ℕ → Option Cmd
parse_cmd e previo [] = some nulo
parse_cmd e previo (x ∷ xs) = elim (block_contains (x ∷ xs) b'&') [
  | none ↦ parse_simple e (x ∷ xs)
  | some i ↦
      if get_or (previo ∷ x ∷ xs) i 0 == b'>'
      then parse_simple e (x ∷ xs)
      else parse_back e (x ∷ xs)
]

-- the byte before the result of `split_line`: a space, or the NUL in place of the splitter
unfoldable pub anterior : List ℕ → ℕ
anterior resto = if get_or resto 0 0 == espacio then espacio else 0

unfoldable pub unir_cmds : Option Cmd → Option Cmd → Option Cmd
unir_cmds l none = none
unir_cmds none (some r) = none
unir_cmds (some l) (some r) = some (pipe_cmd_create l r)

-- `parse_line` on fuel, `none` where it runs out
unfoldable pub parse_line_con : Entorno → ℕ → ℕ → List ℕ → Option Cmd
parse_line_con e zero previo buf = none
parse_line_con e (suc n) previo buf =
    let antes = anterior (tras buf b'|') in
    let partes = split_line buf b'|' in
    unir_cmds (parse_cmd e previo partes.0) (elim (block_contains partes.1 b'|') [
      | some i ↦ parse_line_con e n antes partes.1
      | none ↦ parse_cmd e antes partes.1
    ])

unfoldable pub parse_line : Entorno → ℕ → List ℕ → Option Cmd
parse_line e previo buf = parse_line_con e (suc (length buf)) previo buf
