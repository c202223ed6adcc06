-- ===== src/Shell/Ejecucion/Pruebas.antt =====
-- Commands that TP1-shell runs over a table of descriptors, and the theorems there.
use sistemas_operarivos_fiub.Base.{
  ℕ, ◌+◌, ◌<◌, ◌≤◌, ◌≡◌, ◌≢◌, refl, ◌∙◌, subst, Bool, true, false, Option, none, some, List, [],
  ◌∷◌, bytes, update, update_same, update_other, strings_eq, ltb, if◌then◌else◌, arith,
}
use sistemas_operarivos_fiub.Shell.Tipos.{Execcmd, redir, simple, back, Entorno}
use sistemas_operarivos_fiub.Shell.Lineas.{block_contains, hasta}
use sistemas_operarivos_fiub.Shell.Ejecucion.{
  Posix, Final, corre, luego, concluir, salir_uno, free_command, get_environ_key, get_environ_value,
  set_environ_var, set_environ_vars, ejecutar_simple, redireccionar, redirigir_entrada, redirigir_a,
  redirigir_salida, combinar, redirigir_errores, redirecciones, ejecutar_redirecciones, hijo_izq,
  hijo_der, padre, ejecutar_pipe, exec_cmd,
}
use sistemas_operarivos_fiub.Shell.Ejecucion.Descriptores.{Leyes}
use sistemas_operarivos_fiub.Shell.Ejecucion.Redirecciones.{Conectado, ejecutar_redirecciones-corre}
use sistemas_operarivos_fiub.Shell.Ejecucion.Aperturas.{Sano}
use sistemas_operarivos_fiub.Shell.Ejecucion.Interprete.{
  Interprete, roto, exit_shell, es_back, texto_prompt, run_cmd, run_cmd-sin_izquierda,
}

-- the names of what the descriptors refer to, none from `tope` on
record Tabla : Type 0 where
  fds : ℕ → Option (List ℕ)
  tope : ℕ
  libres : (c : ℕ) → tope ≤ c → fds c ≡ none

poner :
    (s : Tabla) (d : ℕ) (o : Option (List ℕ)) (c : ℕ)
    → s.tope + d + 1 ≤ c
    → update s.fds d o c ≡ none
poner s d o c h = update_other s.fds d o c (λ e. omega arith) ∙ s.libres c (omega arith)

abbrev abrir_tabla : List ℕ → Tabla → Option ℕ × Tabla
abrir_tabla f s = (
  some s.tope,
  record {
    fds = update s.fds s.tope (some f);
    tope = s.tope + s.tope + 1;
    libres = poner s s.tope (some f);
  },
)

abbrev duplicar : Option (List ℕ) → ℕ → Tabla → Bool × Tabla
duplicar none b s = (false, s)
duplicar (some o) b s = (
  true,
  record { fds = update s.fds b (some o); tope = s.tope + b + 1; libres = poner s b (some o) },
)

-- a closed descriptor is not duplicated
abbrev dup2_tabla : Option ℕ → ℕ → Tabla → Bool × Tabla
dup2_tabla none b s = (false, s)
dup2_tabla (some a) b s = duplicar (s.fds a) b s

duplicar-ref :
    (o : Option (List ℕ)) (b : ℕ) (s : Tabla)
    → (duplicar o b s).0 ≡ true
    → (duplicar o b s).1.fds b ≡ o
duplicar-ref none b s e = absurd (ground arith)
duplicar-ref (some o) b s e = update_same s.fds b (some o)

duplicar-otros :
    (o : Option (List ℕ)) (b c : ℕ) (s : Tabla) → c ≢ b → (duplicar o b s).1.fds c ≡ s.fds c
duplicar-otros none b c s h = refl
duplicar-otros (some o) b c s h = update_other s.fds b (some o) c h

duplicar-true : (o : Option (List ℕ)) (b : ℕ) (s : Tabla) → o ≢ none → (duplicar o b s).0 ≡ true
duplicar-true none b s h = absurd (h refl)
duplicar-true (some o) b s h = refl

abbrev close_tabla : Option ℕ → Tabla → Tabla
close_tabla none s = s
close_tabla (some d) s = record {
  fds = update s.fds d none;
  tope = s.tope + d + 1;
  libres = poner s d none;
}

abbrev sistema : Posix Tabla
sistema = record {
  open_file = λ f m s. abrir_tabla f s;
  dup2 = dup2_tabla;
  close = close_tabla;
  tubo = λ s. (some (7, 8), s);
  fork = λ s. (true, s);
  setpgid = λ s. s;
  setenv = λ k v s. s;
  execvp = λ argv s. true;
  chdir = λ p s. (true, s);
  getcwd = λ s. some (bytes "/");
}

leyes : Leyes sistema
leyes = record {
  Objeto = List ℕ;
  ref = λ s. s.fds;
  fichero = λ f m. f;
  open_cerrado = λ f m s d e. (let p : s.tope ≡ d = ground arith in s.libres d (omega arith));
  open_ref = λ f m s d e.
      let p : s.tope ≡ d = ground arith in
      subst (λ c. update s.fds s.tope (some f) c ≡ some f) p (update_same s.fds s.tope (some f));
  open_otros = λ f m s d c e h.
      let p : s.tope ≡ d = ground arith in update_other s.fds s.tope (some f) c (λ q. h (q ∙ p));
  dup2_malo = λ b s. refl;
  dup2_ref = λ a b s e. duplicar-ref (s.fds a) b s e;
  dup2_otros = λ a b c s e h. duplicar-otros (s.fds a) b c s h;
  close_ref = λ d s. update_same s.fds d none;
  close_otros = λ d c s h. update_other s.fds d none c h;
  setenv_ref = λ k v s c. refl;
}

-- all that a run computes with
abbrev ejecucion : ℕ
unfolding block_contains hasta strings_eq update luego concluir salir_uno free_command
    get_environ_key get_environ_value set_environ_var set_environ_vars ejecutar_simple redireccionar
    redirigir_entrada redirigir_a redirigir_salida combinar redirigir_errores redirecciones
    ejecutar_redirecciones hijo_izq hijo_der padre ejecutar_pipe exec_cmd exit_shell es_back
    texto_prompt
ejecucion = 0

abbrev terminal : Tabla
terminal = record {
  fds = λ c. if ltb c 3 then some (bytes "tty") else none;
  tope = 3;
  libres = λ c h. ground arith;
}

-- `sort <datos >orden 2>&1`
abbrev ordenar : Execcmd
ordenar = record {
  tipo = redir;
  pid = 0;
  scmd = [];
  argc = 1;
  eargc = 0;
  argv = bytes "sort" ∷ [];
  eargv = [];
  in_file = bytes "datos";
  out_file = bytes "orden";
  err_file = bytes "&1";
}

-- what a program's descriptors 0, 1 and 2 refer to
abbrev estandar : Final Tabla → List (Option (List ℕ))
estandar (corre argv s) = s.fds 0 ∷ s.fds 1 ∷ s.fds 2 ∷ []
estandar f = []

ordenar_run :
    estandar (exec_cmd sistema (simple ordenar) terminal)
    ≡ some (bytes "datos") ∷ some (bytes "orden") ∷ some (bytes "orden") ∷ []
unfolding ejecucion
ordenar_run = refl

-- in the background the files are not opened
fondo_run :
    estandar (exec_cmd sistema (back 0 [] (simple ordenar)) terminal)
    ≡ some (bytes "tty") ∷ some (bytes "tty") ∷ some (bytes "tty") ∷ []
unfolding ejecucion
fondo_run = refl

sano : Sano sistema leyes ordenar terminal
unfolding leyes
sano = record {
  abre_entrada = λ h. (3, refl);
  abre_salida = λ x a h. (x.tope, refl);
  abre_errores = λ x a h e. (x.tope, refl);
  duplica = λ a b x h k. duplicar-true (x.fds a) b x k;
}

abierto : (c : ℕ) → c < 3 → terminal.fds c ≢ none
abierto c h e = ground arith

ejecutar_redirecciones-corre_example :
    (s' : Tabla) × (ejecutar_redirecciones sistema ordenar terminal ≡ corre ordenar.argv s')
    × Conectado sistema leyes ordenar terminal s'
unfolding set_environ_vars leyes
ejecutar_redirecciones-corre_example =
    ejecutar_redirecciones-corre sistema leyes ordenar terminal sano (λ x a. refl)
      (λ x a. (x, refl)) (abierto 0 (omega arith)) (abierto 1 (omega arith))
      (abierto 2 (omega arith))

abbrev interprete : Interprete Tabla
interprete = record { proceso = terminal; prompt = bytes "(/)"; impreso = [] }

abbrev sin_variables : Entorno
sin_variables = record { getenv = λ k. none; status = bytes "0" }

run_cmd-sin_izquierda_example : run_cmd sistema sin_variables 0 (bytes "| ls") interprete ≡ roto
run_cmd-sin_izquierda_example =
    run_cmd-sin_izquierda sistema sin_variables 0 (bytes " ls") interprete
