-- ===== src/Shell/Ejecucion/Interprete.antt =====
-- runcmd.c and builtin.c of TP1-shell: one line that the shell is given.
use sistemas_operarivos_fiub.Base.{
  ℕ, ◌≡◌, refl, ap, ◌∙◌, Bool, true, false, not, Option, none, some, List, [], ◌∷◌, ◌++◌, take,
  drop, bytes, strings_eq, if◌then◌else◌,
}
use sistemas_operarivos_fiub.Shell.Tipos.{Cmd, nulo, simple, back, pipe, Entorno}
use sistemas_operarivos_fiub.Shell.Parsing.{parse_cmd, pipe_cmd_create, unir_cmds, parse_line}
use sistemas_operarivos_fiub.Shell.Lineas.{block_contains, saltar}
use sistemas_operarivos_fiub.Shell.Parsing.{anterior}
use sistemas_operarivos_fiub.Shell.Parsing.Tuberias.{parse_line-unir}
use sistemas_operarivos_fiub.Shell.Ejecucion.{Posix, Final, free_command, exec_cmd}

-- `PRMTLEN`
abbrev pub prmtlen : ℕ
prmtlen = 1024

-- the shell: the state of its process, the prompt, and what `pwd` has printed
pub record Interprete (E : Type 0) : Type 0 where
  pub proceso : E
  pub prompt : List ℕ
  pub impreso : List (List ℕ)

-- What a line leads to: `run_cmd` returns 0, with a child that it has waited for or not, or without
-- one because it needs none or because `fork` has failed; the shell exits; or undefined behaviour.
pub data Turno (E : Type 0) : Type 0 where
  listo : Interprete E → Turno E
  lanzado : Final E → Bool → Interprete E → Turno E
  sin_hijo : Interprete E → Turno E
  termina : ℕ → Turno E
  roto : Turno E

-- the test of `exit_shell`, which exits where it holds
unfoldable pub exit_shell : List ℕ → Bool
exit_shell cmd = strings_eq (take 4 cmd) (bytes "exit")

unfoldable pub es_back : Cmd → Bool
es_back (back pid scmd c) = true
es_back c = false

-- the text of the prompt; a null pointer is printed as glibc does
unfoldable pub texto_prompt : Option (List ℕ) → List ℕ
texto_prompt none = bytes "((null))"
texto_prompt (some cwd) = take 1023 (b'(' ∷ cwd ++ (b')' ∷ []))

module _ {E : Type 0} (P : Posix E) (e : Entorno) where
  unfoldable pub cambiar : List ℕ → Interprete E → Bool × Interprete E
  cambiar path t =
      let (hecho, s) = P.chdir path t.proceso in
      if hecho
      then (true, record t { proceso = s; prompt = texto_prompt (P.getcwd s) })
      else (false, record t { proceso = s })

  unfoldable pub cd : List ℕ → Interprete E → Bool × Interprete E
  cd cmd t =
      if strings_eq cmd (bytes "cd")
      then elim (e.getenv (bytes "HOME")) [ none ↦ (false, t) | some path ↦ cambiar path t ]
      else if strings_eq (take 3 cmd) (bytes "cd ")
      then cambiar (drop 3 cmd) t
      else (false, t)

  unfoldable pub pwd : List ℕ → Interprete E → Bool × Interprete E
  pwd cmd t =
      if strings_eq cmd (bytes "pwd")
      then elim (P.getcwd t.proceso) [
        | none ↦ (false, t)
        | some cwd ↦ (true, record t { impreso = t.impreso ++ (cwd ∷ []) })
      ]
      else (false, t)

  -- the child, which leads a group of its own unless it is in the background
  unfoldable pub hijo : Cmd → E → Final E
  hijo c s = exec_cmd P c (if es_back c then s else P.setpgid s)

  -- from `fork` on
  unfoldable pub lanzar : Cmd → Interprete E → Turno E
  lanzar nulo t = roto
  lanzar c t = elim (free_command c) [
    | none ↦ roto
    | some n ↦
        let (hay, s) = P.fork t.proceso in
        if hay
        then lanzado (hijo c t.proceso) (not (es_back c)) (record t { proceso = s })
        else sin_hijo (record t { proceso = s })
  ]

  unfoldable pub parsear : ℕ → List ℕ → Interprete E → Turno E
  parsear previo cmd t = elim (parse_line e previo cmd) [ none ↦ roto | some c ↦ lanzar c t ]

  -- `history` does nothing and returns 0; `previo` is the byte before the line
  unfoldable pub run_cmd : ℕ → List ℕ → Interprete E → Turno E
  run_cmd previo [] t = listo t
  run_cmd previo (x ∷ xs) t =
      let (cambiado, t') = cd (x ∷ xs) t in
      let (dicho, t'') = pwd (x ∷ xs) t' in
      if cambiado
      then listo t'
      else if exit_shell (x ∷ xs)
      then termina 1
      else if dicho
      then listo t''
      else parsear previo (x ∷ xs) t''

  -- a pipe without a command on its left
  lanzar-unir :
      (o : Option Cmd) (t : Interprete E)
      → elim (unir_cmds (some nulo) o) [ none ↦ roto | some c ↦ lanzar c t ] ≡ roto
  unfolding lanzar unir_cmds pipe_cmd_create free_command
  lanzar-unir none t = refl
  lanzar-unir (some nulo) t = refl
  lanzar-unir (some (simple c)) t = refl
  lanzar-unir (some (back pid scmd c)) t = refl
  lanzar-unir (some (pipe pid scmd l r)) t = refl

  -- A line that begins with `|` has no command before it, and the null pointer that stands for that
  -- command is read when the line's commands are freed.
  pub run_cmd-sin_izquierda :
      (previo : ℕ) (r : List ℕ) (t : Interprete E) → run_cmd previo (b'|' ∷ r) t ≡ roto
  unfolding run_cmd cd exit_shell pwd parsear strings_eq parse_cmd block_contains
  run_cmd-sin_izquierda previo r t =
      ap (λ o. elim o [ none ↦ roto | some c ↦ lanzar c t ]) (parse_line-unir e previo [] r refl)
      ∙ lanzar-unir (parse_line e (anterior r) (saltar r)) t
