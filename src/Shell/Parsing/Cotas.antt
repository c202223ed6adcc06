-- ===== src/Shell/Parsing/Cotas.antt =====
-- The stores of `parse_exec` of TP1-shell/parsing.c into its arrays of `MAXARGS` strings.
use sistemas_operarivos_fiub.Base.{
  ℕ, zero, suc, ◌+◌, ◌≤◌, ◌<◌, ◌≡◌, refl, ap, ◌∙◌, Option, none, some, List, [], ◌∷◌, ◌++◌, ◌==◌,
  if◌then◌else◌, length, length-append, arith, Option-cases, inl, inr, lt→ltb,
}
use sistemas_operarivos_fiub.Shell.Tipos.{
  maxargs, espacio, Execcmd, Entorno, Efecto, falso, cierto, fuera,
}
use sistemas_operarivos_fiub.Shell.Lineas.{block_contains, tras, hasta}
use sistemas_operarivos_fiub.Shell.Lineas.Cortes.{length-tras}
use sistemas_operarivos_fiub.Shell.Parsing.{
  exec_cmd_create, redirigir, parse_redir_flow, guardar_environ, parse_environ_var, guardar_arg,
  expand_environ_var, procesar, recorrer, cerrar, parse_exec,
}
use sistemas_operarivos_fiub.Shell.Parsing.Palabras.{recorrer-paso, recorrer-vacio}

-- how often `c` occurs
unfoldable pub contar : List ℕ → ℕ → ℕ
contar [] c = 0
contar (x ∷ xs) c = let rest = contar xs c in if x == c then suc rest else rest

-- the most words that a line can have
unfoldable pub cuota : List ℕ → ℕ
cuota [] = 0
cuota (x ∷ xs) = suc (contar (x ∷ xs) espacio)

cuota-tras : (buf : List ℕ) → cuota (tras buf espacio) ≤ contar buf espacio
unfolding cuota contar tras
cuota-tras [] = omega arith
cuota-tras (x ∷ []) = ground arith
cuota-tras (x ∷ y ∷ xs) = ground (arith, cuota-tras (y ∷ xs))

-- at most one string has been added to each array
record Sumado (c d : Execcmd) : Type 0 where
  args : length d.argv ≤ suc (length c.argv)
  eargs : length d.eargv ≤ suc (length c.eargv)

-- neither array is full
record HayLugar (c : Execcmd) : Type 0 where
  args : length c.argv < maxargs
  eargs : length c.eargv < maxargs

record Bien (c : Execcmd) (o : Option Execcmd) : Type 0 where
  siguiente : Execcmd
  vale : o ≡ some siguiente
  sumado : Sumado c siguiente

redirigir-Sumado : (c : Execcmd) (i : ℕ) (arg : List ℕ) → Sumado c (redirigir c i arg)
unfolding redirigir
redirigir-Sumado c zero arg = record { args = omega arith; eargs = omega arith }
redirigir-Sumado c (suc zero) arg = record { args = omega arith; eargs = omega arith }
redirigir-Sumado c (suc (suc i)) arg = record { args = omega arith; eargs = omega arith }

guardar_arg-Bien : (c : Execcmd) (w : List ℕ) → length c.argv < maxargs → Bien c (guardar_arg c w)
unfolding guardar_arg
guardar_arg-Bien c [] h = record {
  siguiente = c;
  vale = refl;
  sumado = record { args = omega arith; eargs = omega arith };
}
guardar_arg-Bien c (x ∷ xs) h = rw (lt→ltb (length c.argv) maxargs h) (record {
  siguiente = record c { argv = c.argv ++ ((x ∷ xs) ∷ []) };
  vale = refl;
  sumado = record {
    args = omega (arith, length-append c.argv ((x ∷ xs) ∷ []));
    eargs = omega arith;
  };
})

data EfectoBien (c : Execcmd) : Efecto → Type 0 where
  nada : EfectoBien c falso
  hecho : {d : Execcmd} → Sumado c d → EfectoBien c (cierto d)

parse_redir_flow-EfectoBien : (c : Execcmd) (arg : List ℕ) → EfectoBien c (parse_redir_flow c arg)
unfolding parse_redir_flow
parse_redir_flow-EfectoBien c arg = elim (Option-cases (block_contains arg b'>')) [
  | inr (i, p) ↦ rw (p, parse_redir_flow) (hecho (redirigir-Sumado c i arg))
  | inl p ↦ elim (Option-cases (block_contains arg b'<')) [
    | inr (j, q) ↦
        rw (p, q, parse_redir_flow) (hecho (record { args = omega arith; eargs = omega arith }))
    | inl q ↦ rw (p, q, parse_redir_flow) nada
  ]
]

guardar_environ-EfectoBien :
    (c : Execcmd) (arg : List ℕ) → length c.eargv < maxargs → EfectoBien c (guardar_environ c arg)
unfolding guardar_environ
guardar_environ-EfectoBien c arg h =
    rw (lt→ltb (length c.eargv) maxargs h) (
      hecho
        (record { args = omega arith; eargs = omega (arith, length-append c.eargv (arg ∷ [])) }))

parse_environ_var-EfectoBien :
    (c : Execcmd) (arg : List ℕ) → length c.eargv < maxargs → EfectoBien c (parse_environ_var c arg)
unfolding parse_environ_var
parse_environ_var-EfectoBien c arg h = elim (Option-cases (block_contains arg b'=')) [
  | inl p ↦ rw (p, parse_environ_var) nada
  | inr (zero, p) ↦ rw (p, parse_environ_var) nada
  | inr (suc i, p) ↦ elim (Option-cases (block_contains arg b'-')) [
    | inl q ↦ rw (p, q, parse_environ_var) (guardar_environ-EfectoBien c arg h)
    | inr (j, q) ↦ rw (p, q, parse_environ_var) nada
  ]
]

por_efectos :
    {c : Execcmd} {f g : Efecto} {o : Option Execcmd}
    → EfectoBien c f
    → EfectoBien c g
    → Bien c o
    → Bien c (elim f [
      | cierto d ↦ some d
      | fuera ↦ none
      | falso ↦ elim g [ cierto d ↦ some d | fuera ↦ none | falso ↦ o ]
    ])
por_efectos (hecho {d} s) q b = record { siguiente = d; vale = refl; sumado = s }
por_efectos nada (hecho {d} s) b = record { siguiente = d; vale = refl; sumado = s }
por_efectos nada nada b = b

procesar-Bien : (e : Entorno) (w : List ℕ) (c : Execcmd) → HayLugar c → Bien c (procesar e w c)
unfolding procesar
procesar-Bien e w c h =
    por_efectos (parse_redir_flow-EfectoBien c w) (parse_environ_var-EfectoBien c w h.eargs)
      (guardar_arg-Bien c (expand_environ_var e w) h.args)

-- the arrays have room for the words of the line, and one of them for the final NULL
record Alcanza (c : Execcmd) (n : ℕ) : Type 0 where
  args : length c.argv + n < maxargs
  eargs : length c.eargv + n < maxargs

record Cabe (o : Option Execcmd) : Type 0 where
  final : Execcmd
  vale : o ≡ some final
  args : length final.argv < maxargs

-- with enough fuel
recorrer-Cabe :
    (e : Entorno) (n : ℕ) (buf : List ℕ) (c : Execcmd)
    → length buf ≤ n
    → Alcanza c (cuota buf)
    → Cabe (recorrer e n buf c)
unfolding cuota
recorrer-Cabe e n [] c h a = record {
  final = c;
  vale = recorrer-vacio e n c;
  args = omega (arith, a.args);
}
recorrer-Cabe e zero (x ∷ xs) c h a = absurd (omega arith)
recorrer-Cabe e (suc n) (x ∷ xs) c h a =
    let tok = hasta (x ∷ xs) espacio in
    let resto = tras (x ∷ xs) espacio in
    let b =
      procesar-Bien e tok c
        (record { args = omega (arith, a.args); eargs = omega (arith, a.eargs) }) in
    let menos = cuota-tras (x ∷ xs) in
    let f = recorrer-Cabe e n resto b.siguiente (omega (arith, length-tras x xs espacio)) (record {
      args = omega (arith, a.args, b.sumado.args);
      eargs = omega (arith, a.eargs, b.sumado.eargs);
    }) in
    record {
      final = f.final;
      vale =
          recorrer-paso e n x xs tok resto c refl refl
          ∙ ap (λ (o : Option Execcmd). elim o [ none ↦ none | some d ↦ recorrer e n resto d ])
              b.vale
          ∙ f.vale;
      args = f.args;
    }

-- the shape of a finished command
pub record Cerrado (c : Execcmd) : Type 0 where
  cuenta : c.argc ≡ length c.argv
  lugar : c.argc < maxargs

cuota-contar : (buf : List ℕ) → cuota buf ≤ suc (contar buf espacio)
unfolding cuota
cuota-contar [] = omega arith
cuota-contar (x ∷ xs) = omega arith

contado : Execcmd → Execcmd
contado c = record c { argc = length c.argv }

cerrar-some : (c : Execcmd) → length c.argv < maxargs → cerrar c ≡ some (contado c)
unfolding cerrar contado
cerrar-some c h = rw (lt→ltb (length c.argv) maxargs h) refl

contado-Cerrado : (c : Execcmd) → length c.argv < maxargs → Cerrado (contado c)
unfolding contado
contado-Cerrado c h = record { cuenta = refl; lugar = h }

inicio-Alcanza : (buf : List ℕ) (n : ℕ) → n < maxargs → Alcanza (exec_cmd_create buf) n
unfolding exec_cmd_create
inicio-Alcanza buf n h = record { args = omega (arith, h); eargs = omega (arith, h) }

-- A line with fewer than `MAXARGS - 1` spaces is parsed: the loop ends, no store is past the end of
-- an array, and `argc` counts the arguments and leaves room for the final NULL.
pub parse_exec-some :
    (e : Entorno) (buf : List ℕ)
    → contar buf espacio + 1 < maxargs
    → (c : Execcmd) × (parse_exec e buf ≡ some c) × Cerrado c
unfolding parse_exec
parse_exec-some e buf h =
    let a = inicio-Alcanza buf (cuota buf) (omega (arith, cuota-contar buf)) in
    let f = recorrer-Cabe e (length buf) buf (exec_cmd_create buf) (omega arith) a in
    (
      contado f.final,
      ap (λ (o : Option Execcmd). elim o [ none ↦ none | some d ↦ cerrar d ]) f.vale
          ∙ cerrar-some f.final f.args,
      contado-Cerrado f.final f.args,
    )
