-- ===== src/Shell/Parsing/Tuberias.antt =====
-- `parse_line` of TP1-shell/parsing.c: the loop over the pipes ends, and each `|` makes one pipe.
use sistemas_operarivos_fiub.Base.{
  ℕ, zero, suc, ◌<◌, ◌≡◌, ◌≢◌, refl, sym, ap, ◌∙◌, subst, Option, none, some, List, [], ◌∷◌, ◌++◌,
  length, arith, Option-cases, inl, inr,
}
use sistemas_operarivos_fiub.Shell.Tipos.{Cmd, nulo, simple, back, pipe, Entorno}
use sistemas_operarivos_fiub.Shell.Lineas.{block_contains, tras, saltar, split_line}
use sistemas_operarivos_fiub.Shell.Lineas.Cortes.{
  length-saltar, length-tras, corte_tras, entero_tras, split_line-append, split_line-entero,
}
use sistemas_operarivos_fiub.Shell.Parsing.{
  pipe_cmd_create, parse_cmd, anterior, unir_cmds, parse_line_con, parse_line,
}

sin_resto : (c i : ℕ) → block_contains (split_line [] c).1 c ≢ some i
unfolding split_line saltar tras block_contains
sin_resto c i h = cc

-- what is left for the second call is shorter
resto_lem :
    (buf : List ℕ) (c i : ℕ)
    → block_contains (split_line buf c).1 c ≡ some i
    → length (split_line buf c).1 < length buf
unfolding split_line
resto_lem [] c i h = absurd (sin_resto c i h)
resto_lem (x ∷ xs) c i h = omega (arith, length-saltar (tras (x ∷ xs) c), length-tras x xs c)

-- more fuel than bytes is always enough
parse_line_con-fuel :
    (e : Entorno) (n m previo : ℕ) (buf : List ℕ)
    → length buf < n
    → length buf < m
    → parse_line_con e n previo buf ≡ parse_line_con e m previo buf
unfolding parse_line_con
parse_line_con-fuel e zero m previo buf hn hm = absurd (omega arith)
parse_line_con-fuel e (suc n) zero previo buf hn hm = absurd (omega arith)
parse_line_con-fuel e (suc n) (suc m) previo buf hn hm =
    elim (Option-cases (block_contains (split_line buf b'|').1 b'|')) [
      | inl q ↦ rw q refl
      | inr (i, q) ↦
          rw
            (
              q,
              parse_line_con-fuel e n m (anterior (tras buf b'|')) (split_line buf b'|').1
                  (omega (arith, resto_lem buf b'|' i q)) (omega (arith, resto_lem buf b'|' i q)),
            )
            refl
    ]

unir_cmds-nulo : (o : Option Cmd) → unir_cmds o (some nulo) ≡ o
unfolding unir_cmds pipe_cmd_create
unir_cmds-nulo none = refl
unir_cmds-nulo (some c) = refl

-- one call, with the parts of the line at the ends of paths
parse_line_con-partes :
    (e : Entorno) (n previo : ℕ) (buf l resto right : List ℕ)
    → split_line buf b'|' ≡ (l, right)
    → tras buf b'|' ≡ resto
    → parse_line_con e (suc n) previo buf
      ≡ unir_cmds (parse_cmd e previo l) (elim (block_contains right b'|') [
        | some i ↦ parse_line_con e n (anterior resto) right
        | none ↦ parse_cmd e (anterior resto) right
      ])
unfolding parse_line_con
parse_line_con-partes e n previo buf l resto right p q j =
    unir_cmds (parse_cmd e previo (p j).0) (elim (block_contains (p j).1 b'|') [
      | some i ↦ parse_line_con e n (anterior (q j)) (p j).1
      | none ↦ parse_cmd e (anterior (q j)) (p j).1
    ])

vacio_lem :
    (e : Entorno) (n previo : ℕ) (l : List ℕ)
    → unir_cmds (parse_cmd e previo l) (elim (block_contains [] b'|') [
      | some i ↦ parse_line_con e n (anterior []) []
      | none ↦ parse_cmd e (anterior []) []
    ])
      ≡ parse_cmd e previo l
unfolding block_contains parse_cmd
vacio_lem e n previo l = unir_cmds-nulo (parse_cmd e previo l)

-- A line without `|` is one command.
parse_line-simple :
    (e : Entorno) (previo : ℕ) (buf : List ℕ)
    → block_contains buf b'|' ≡ none
    → parse_line e previo buf ≡ parse_cmd e previo buf
unfolding parse_line
parse_line-simple e previo buf h =
    parse_line_con-partes e (length buf) previo buf buf [] [] (split_line-entero buf b'|' h)
      (entero_tras buf b'|' h)
    ∙ vacio_lem e (length buf) previo buf

length-parte : (l r : List ℕ) (c : ℕ) → length (saltar r) < length (l ++ (c ∷ r))
length-parte [] r c = omega (arith, length-saltar r)
length-parte (x ∷ l) r c = omega (arith, length-parte l r c)

parse_line-resto :
    (e : Entorno) (n previo : ℕ) (r : List ℕ)
    → length r < n
    → elim (block_contains r b'|') [
      | some i ↦ parse_line_con e n previo r
      | none ↦ parse_cmd e previo r
    ]
      ≡ parse_line e previo r
unfolding parse_line
parse_line-resto e n previo r h = elim (Option-cases (block_contains r b'|')) [
  | inl q ↦ rw q (sym (parse_line-simple e previo r q))
  | inr (i, q) ↦ rw q (parse_line_con-fuel e n (suc (length r)) previo r h (omega arith))
]

-- a line with a `|`, by the parts before and behind the first one
pub parse_line-unir :
    (e : Entorno) (previo : ℕ) (l r : List ℕ)
    → block_contains l b'|' ≡ none
    → parse_line e previo (l ++ (b'|' ∷ r))
      ≡ unir_cmds (parse_cmd e previo l) (parse_line e (anterior r) (saltar r))
unfolding parse_line
parse_line-unir e previo l r h =
    let n = length (l ++ (b'|' ∷ r)) in
    parse_line_con-partes e n previo (l ++ (b'|' ∷ r)) l r (saltar r) (split_line-append l r b'|' h)
      (corte_tras l r b'|' h)
    ∙ ap (unir_cmds (parse_cmd e previo l))
        (parse_line-resto e n (anterior r) (saltar r) (length-parte l r b'|'))

-- What two commands that a `|` joins make: a pipe, with the first on its left and the second on its
-- right; the first alone where the second is no command; nothing where one of them is missing.
pub data Tubo : Option Cmd → Option Cmd → Option Cmd → Type 0 where
  dos : {a b : Cmd} → b ≢ nulo → Tubo (some a) (some b) (some (pipe 0 [] a b))
  uno : {a : Cmd} → Tubo (some a) (some nulo) (some a)
  sin_izquierda : {o : Option Cmd} → Tubo none o none
  sin_derecha : {o : Option Cmd} → Tubo o none none

unir_cmds-Tubo : (x y : Option Cmd) → Tubo x y (unir_cmds x y)
unfolding unir_cmds pipe_cmd_create
unir_cmds-Tubo x none = sin_derecha
unir_cmds-Tubo none (some b) = sin_izquierda
unir_cmds-Tubo (some a) (some nulo) = uno
unir_cmds-Tubo (some a) (some (simple c)) = dos (λ e. cc)
unir_cmds-Tubo (some a) (some (back p s c)) = dos (λ e. cc)
unir_cmds-Tubo (some a) (some (pipe p s l r)) = dos (λ e. cc)

-- A line with a `|` is parsed as the pipe whose left side is the command before the first `|` and whose
-- right side is what the rest of the line, less the spaces at its start, is parsed as. Where the rest
-- is no command the line is its first command alone, and where one of the two cannot be parsed,
-- neither can the line.
pub parse_line-append :
    (e : Entorno) (previo : ℕ) (l r : List ℕ)
    → block_contains l b'|' ≡ none
    → Tubo
        (parse_cmd e previo l)
        (parse_line e (anterior r) (saltar r))
        (parse_line e previo (l ++ (b'|' ∷ r)))
parse_line-append e previo l r h =
    subst (Tubo (parse_cmd e previo l) (parse_line e (anterior r) (saltar r)))
      (sym (parse_line-unir e previo l r h))
      (unir_cmds-Tubo (parse_cmd e previo l) (parse_line e (anterior r) (saltar r)))
