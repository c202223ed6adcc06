-- ===== src/Shell/Ejecucion.antt =====
-- How TP1-shell runs a command: exec.c, freecmd.c, over the system calls as an interface.
-- Messages to the terminal are left out.
pub mod Interprete
pub mod Descriptores
pub mod Aperturas
pub mod Redirecciones
mod Pruebas
use sistemas_operarivos_fiub.Base.{
  ℕ, zero, suc, ◌+◌, ◌<◌, Bool, true, false, ◌&&◌, ◌||◌, not, Option, none, some, List, [], ◌∷◌,
  ◌++◌, ◌==◌, ltb, leb, if◌then◌else◌, length, take, drop, bytes, strings_eq,
}
use sistemas_operarivos_fiub.Shell.Tipos.{
  Execcmd, Cmd, nulo, simple, back, pipe, Tipo, exec, redir, Entorno,
}
use sistemas_operarivos_fiub.Shell.Lineas.{block_contains, hasta}

-- `O_RDONLY`, and `O_CREAT | O_WRONLY | O_TRUNC`
pub data Modo : Type 0 where
  lectura escritura : Modo

-- What the system answers a process, whose state is of the type E. A file descriptor of -1 is `none`.
-- `fork` tells whether there is a child; `execvp` whether the program is found.
pub record Posix (E : Type 0) : Type 0 where
  pub open_file : List ℕ → Modo → E → Option ℕ × E
  pub dup2 : Option ℕ → ℕ → E → Bool × E
  pub close : Option ℕ → E → E
  pub tubo : E → Option (ℕ × ℕ) × E
  pub fork : E → Bool × E
  pub setpgid : E → E
  pub setenv : List ℕ → List ℕ → E → E
  pub execvp : List (List ℕ) → E → Bool
  pub chdir : List ℕ → E → Bool × E
  pub getcwd : E → Option (List ℕ)

-- How a process ends: as another program, by `exit`, by a return of `exec_cmd`, as the parent of the
-- two children of a pipe that it waits for before it exits with 0, or with undefined behaviour.
pub data Final (E : Type 0) : Type 0 where
  corre : List (List ℕ) → E → Final E
  sale : ℕ → E → Final E
  vuelve : E → Final E
  tuberia : Final E → Final E → E → Final E
  indefinido : Final E

-- `ERROR`, -1: the status has 8 bits
abbrev pub error : ℕ
error = 255

-- a step that may be the last, with `exit(ERROR)`
pub data Intento (E : Type 0) : Type 0 where
  sigue : E → Intento E
  acaba : E → Intento E

unfoldable pub luego : {E : Type 0} → Intento E → (E → Intento E) → Intento E
luego (sigue s) k = k s
luego (acaba s) k = acaba s

unfoldable pub concluir : {E : Type 0} → Intento E → (E → Final E) → Final E
concluir (sigue s) k = k s
concluir (acaba s) k = sale error s

-- `exit(1)` behind `exec_cmd`
unfoldable pub salir_uno : {E : Type 0} → Final E → Final E
salir_uno (vuelve s) = sale 1 s
salir_uno f = f

-- what is freed: the number of blocks, `none` for a null command
unfoldable pub free_command : Cmd → Option ℕ
free_command nulo = none
free_command (simple e) = some (e.argc + e.eargc + 1)
free_command (back pid scmd c) = elim (free_command c) [ none ↦ none | some n ↦ some (n + 1) ]
free_command (pipe pid scmd l r) = elim (free_command l) [
  | none ↦ none
  | some n ↦ elim (free_command r) [ none ↦ none | some k ↦ some (n + k + 1) ]
]

-- `MAX_ENV_BUFF`
abbrev pub max_env_buff : ℕ
max_env_buff = 256

-- the part before `=`, `none` where the array is too small
unfoldable pub get_environ_key : List ℕ → Option (List ℕ)
get_environ_key arg =
    if ltb (length (hasta arg b'=')) max_env_buff then some (hasta arg b'=') else none

unfoldable pub get_environ_value : List ℕ → ℕ → Option (List ℕ)
get_environ_value arg idx =
    if ltb (length (drop (suc idx) arg)) max_env_buff then some (drop (suc idx) arg) else none

module _ {E : Type 0} (P : Posix E) where
  unfoldable pub set_environ_var : List ℕ → E → Option E
  set_environ_var arg s = elim (block_contains arg b'=') [
    | none ↦ some s
    | some idx ↦ elim (get_environ_key arg) [
      | none ↦ none
      | some key ↦ elim (get_environ_value arg idx) [
        | none ↦ none
        | some value ↦ some (P.setenv key value s)
      ]
    ]
  ]

  unfoldable pub set_environ_vars : List (List ℕ) → E → Option E
  set_environ_vars [] s = some s
  set_environ_vars (arg ∷ eargv) s = elim (set_environ_var arg s) [
    | none ↦ none
    | some s' ↦ set_environ_vars eargv s'
  ]

  -- the case EXEC of `exec_cmd`
  unfoldable pub ejecutar_simple : Execcmd → E → Final E
  ejecutar_simple e s = elim (set_environ_vars (take e.eargc e.eargv) s) [
    | none ↦ indefinido
    | some s' ↦ if P.execvp e.argv s' then corre e.argv s' else sale error s'
  ]

  unfoldable pub redireccionar : Option ℕ → ℕ → E → Intento E
  redireccionar fd fileno s =
      let (hecho, s') = P.dup2 fd fileno s in if hecho then sigue (P.close fd s') else acaba s'

  -- the part for `in_file`
  unfoldable pub redirigir_entrada : Execcmd → E → Intento E
  redirigir_entrada r s =
      if ltb 0 (length r.in_file)
      then (let (abierto, s') = P.open_file r.in_file lectura s in
          elim abierto [ none ↦ acaba s' | some fd ↦ redireccionar (some fd) 0 s' ])
      else sigue s

  -- the file is opened for writing, and the result of `open` not looked at
  unfoldable pub redirigir_a : List ℕ → ℕ → E → Intento E
  redirigir_a file fileno s =
      let (fd, s') = P.open_file file escritura s in redireccionar fd fileno s'

  unfoldable pub redirigir_salida : Execcmd → E → Intento E
  redirigir_salida r s = if ltb 0 (length r.out_file) then redirigir_a r.out_file 1 s else sigue s

  unfoldable pub combinar : E → Intento E
  combinar s = let (hecho, s') = P.dup2 (some 1) 2 s in if hecho then sigue s' else acaba s'

  unfoldable pub redirigir_errores : Execcmd → E → Intento E
  redirigir_errores r s =
      if ltb 0 (length r.err_file)
      then if strings_eq r.err_file (bytes "&1") then combinar s else redirigir_a r.err_file 2 s
      else sigue s

  unfoldable pub redirecciones : Execcmd → E → Intento E
  redirecciones r s =
      luego (luego (redirigir_entrada r s) (redirigir_salida r)) (redirigir_errores r)

  unfoldable pub ejecutar_redirecciones : Execcmd → E → Final E
  ejecutar_redirecciones r s = concluir (redirecciones r s) (ejecutar_simple r)

  -- the left child of a pipe, with the descriptors of the pipe
  unfoldable pub hijo_izq : (E → Final E) → ℕ → ℕ → E → Final E
  hijo_izq izq rd wr s =
      let (hecho, s') = P.dup2 (some wr) 1 (P.close (some rd) s) in
      if hecho then salir_uno (izq (P.setpgid (P.close (some wr) s'))) else sale error s'

  unfoldable pub hijo_der : (E → Final E) → ℕ → E → Final E
  hijo_der der rd s =
      let (hecho, s') = P.dup2 (some rd) 0 s in
      if hecho then salir_uno (der (P.setpgid (P.close (some rd) s'))) else sale error s'

  -- the parent from the second `fork` on; `handle_error` reads the result of `fork` as an array
  unfoldable pub padre : (E → Final E) → Cmd → Final E → ℕ → ℕ → E → Final E
  padre der cmd izq rd wr s =
      let (hay, s') = P.fork s in
      if hay
      then elim (free_command cmd) [
        | none ↦ indefinido
        | some n ↦ tuberia izq (hijo_der der rd s) (P.close (some rd) (P.close (some wr) s'))
      ]
      else indefinido

  unfoldable pub ejecutar_pipe : (E → Final E) → (E → Final E) → Cmd → E → Final E
  ejecutar_pipe izq der cmd s =
      let (extremos, s') = P.tubo s in
      let (hay, s'') = P.fork s' in
      elim extremos [
        | none ↦ vuelve s'
        | some (rd, wr) ↦
            if hay
            then padre der cmd (hijo_izq izq rd wr s') rd wr (P.close (some wr) s'')
            else indefinido
      ]

  -- In the background a command is run without its redirections.
  unfoldable pub exec_cmd : Cmd → E → Final E
  exec_cmd nulo s = indefinido
  exec_cmd (simple e) s = elim e.tipo [
    | exec ↦ ejecutar_simple e s
    | redir ↦ ejecutar_redirecciones e s
  ]
  exec_cmd (back pid scmd (simple e)) s = ejecutar_simple e s
  exec_cmd (back pid scmd c) s = indefinido
  exec_cmd (pipe pid scmd l r) s =
      ejecutar_pipe (λ x. exec_cmd l x) (λ x. exec_cmd r x) (pipe pid scmd l r) s
