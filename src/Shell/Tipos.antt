-- ===== src/Shell/Tipos.antt =====
-- The structs of TP1-shell/types.h and the constants of defs.h. A C string is the list of its bytes
-- without the final NUL.
use sistemas_operarivos_fiub.Base.{ℕ, Option, List}

-- `BUFLEN`, `ARGSIZE` and `FNAMESIZE` bound the line, so no copy of a part of it is too long.
abbrev pub maxargs : ℕ
maxargs = 20

abbrev pub espacio : ℕ
espacio = b' '

-- the two values of `type` of a simple command
pub data Tipo : Type 0 where
  exec redir : Tipo

-- `argv` and `eargv` hold the strings stored so far.
pub record Execcmd : Type 0 where
  pub tipo : Tipo
  pub pid : ℕ
  pub scmd : List ℕ
  pub argc : ℕ
  pub eargc : ℕ
  pub argv : List (List ℕ)
  pub eargv : List (List ℕ)
  pub out_file : List ℕ
  pub in_file : List ℕ
  pub err_file : List ℕ

-- `struct cmd *`: the null pointer, or a struct of one of the four types, with its pid and scmd
pub data Cmd : Type 0 where
  nulo : Cmd
  simple : Execcmd → Cmd
  back : ℕ → List ℕ → Cmd → Cmd
  pipe : ℕ → List ℕ → Cmd → Cmd → Cmd

-- What the program asks of its surroundings: `getenv`, and the text of the last exit status that
-- `sprintf` writes.
pub record Entorno : Type 0 where
  pub getenv : List ℕ → Option (List ℕ)
  pub status : List ℕ

-- what a test of one word says; `fuera` is a store past the end of an array
pub data Efecto : Type 0 where
  falso : Efecto
  cierto : Execcmd → Efecto
  fuera : Efecto
