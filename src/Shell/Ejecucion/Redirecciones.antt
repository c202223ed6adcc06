-- ===== src/Shell/Ejecucion/Redirecciones.antt =====
-- A program that TP1-shell/exec.c runs with redirections: its standard descriptors.
use sistemas_operarivos_fiub.Base.{
  ℕ, ◌<◌, ◌≡◌, ◌≢◌, refl, sym, ap, ◌∙◌, true, Option-cases, zero, suc, inl, inr, none, some, List,
  [], ◌∷◌, length, take, ltb, if◌then◌else◌, bytes, strings_eq, arith,
}
use sistemas_operarivos_fiub.Shell.Lineas.{block_contains}
use sistemas_operarivos_fiub.Shell.Tipos.{Execcmd}
use sistemas_operarivos_fiub.Shell.Ejecucion.{
  escritura, Posix, corre, sigue, luego, concluir, get_environ_key, get_environ_value,
  set_environ_var, set_environ_vars, ejecutar_simple, redirigir_entrada, redirigir_salida,
  redirigir_errores, redirecciones, ejecutar_redirecciones,
}
use sistemas_operarivos_fiub.Shell.Ejecucion.Descriptores.{
  Leyes, luego-sigue, entrada_final, salida_final, errores_final, entrada-Cambia, salida-Cambia,
  errores-Cambia,
}
use sistemas_operarivos_fiub.Shell.Ejecucion.Aperturas.{Abierto, Sano, redirecciones-sigue}

module _ {E : Type 0} (P : Posix E) (L : Leyes P) where
  -- The standard descriptors refer to what the command redirects them to, and to what they did where
  -- it does not; the others to what they did.
  pub record Conectado (r : Execcmd) (s s' : E) : Type 0 where
    entrada : L.ref s' 0 ≡ entrada_final P L r s
    salida : L.ref s' 1 ≡ salida_final P L r s
    errores : L.ref s' 2 ≡ errores_final P L r s
    demas : (c : ℕ) → 2 < c → L.ref s' c ≡ L.ref s c

  redirecciones-Conectado :
      (r : Execcmd) (s s' : E)
      → redirecciones P r s ≡ sigue s'
      → L.ref s 0 ≢ none
      → L.ref s 1 ≢ none
      → L.ref s 2 ≢ none
      → Conectado r s s'
  unfolding redirecciones
  redirecciones-Conectado r s s' e h0 h1 h2 =
      let (s2, p2, p3) =
        luego-sigue (luego (redirigir_entrada P r s) (λ x. redirigir_salida P r x))
          (λ x. redirigir_errores P r x) s' e in
      let (s1, p0, p1) =
        luego-sigue (redirigir_entrada P r s) (λ x. redirigir_salida P r x) s2 p2 in
      let a = entrada-Cambia P L r s s1 p0 h0 in
      let uno = a.otros 1 (omega arith) in
      let b = salida-Cambia P L r s1 s2 p1 (λ q. h1 (sym uno ∙ q)) in
      let dos = b.otros 2 (omega arith) ∙ a.otros 2 (omega arith) in
      let c = errores-Cambia P L r s2 s' p3 (λ q. h2 (sym dos ∙ q)) in
      let sal : L.ref s2 1 ≡ salida_final P L r s =
        b.esta
        ∙ ap (λ o. if ltb 0 (length r.out_file) then some (L.fichero r.out_file escritura) else o)
            uno in
      record {
        entrada = c.otros 0 (omega arith) ∙ b.otros 0 (omega arith) ∙ a.esta;
        salida = c.otros 1 (omega arith) ∙ sal;
        errores = c.esta ∙ (λ i.
            if ltb 0 (length r.err_file)
            then if strings_eq r.err_file (bytes "&1")
              then sal i
              else some (L.fichero r.err_file escritura)
            else dos i);
        demas = λ k h.
            c.otros k (λ q. omega arith)
            ∙ b.otros k (λ q. omega arith)
            ∙ a.otros k (λ q. omega arith);
      }

  ref-set_environ_var :
      (arg : List ℕ) (s s' : E) (c : ℕ) → set_environ_var P arg s ≡ some s' → L.ref s' c ≡ L.ref s c
  unfolding set_environ_var
  ref-set_environ_var arg s s' c e = elim (Option-cases (block_contains arg b'=')) [
    | inl q ↦ let p : s ≡ s' = ground arith in ap (λ x. L.ref x c) (sym p)
    | inr (idx, q) ↦ elim (Option-cases (get_environ_key arg)) [
      | inl k ↦ absurd (ground arith)
      | inr (key, k) ↦ elim (Option-cases (get_environ_value arg idx)) [
        | inl v ↦ absurd (ground arith)
        | inr (value, v) ↦
            let p : P.setenv key value s ≡ s' = ground arith in
            ap (λ x. L.ref x c) (sym p) ∙ L.setenv_ref key value s c
      ]
    ]
  ]

  ref-set_environ_vars :
      (eargv : List (List ℕ)) (s s' : E) (c : ℕ)
      → set_environ_vars P eargv s ≡ some s'
      → L.ref s' c ≡ L.ref s c
  unfolding set_environ_vars
  ref-set_environ_vars [] s s' c e = let p : s ≡ s' = ground arith in ap (λ x. L.ref x c) (sym p)
  ref-set_environ_vars (arg ∷ eargv) s s' c e = elim (Option-cases (set_environ_var P arg s)) [
    | inl q ↦ absurd (ground arith)
    | inr (s1, q) ↦
        ref-set_environ_vars eargv s1 s' c (ground arith) ∙ ref-set_environ_var arg s s1 c q
  ]

  Conectado-variables :
      (r : Execcmd) (s x y : E)
      → Conectado r s x
      → set_environ_vars P (take r.eargc r.eargv) x ≡ some y
      → Conectado r s y
  Conectado-variables r s x y a e =
      let v = λ (c : ℕ). ref-set_environ_vars (take r.eargc r.eargv) x y c e in
      record {
        entrada = v 0 ∙ a.entrada;
        salida = v 1 ∙ a.salida;
        errores = v 2 ∙ a.errores;
        demas = λ c h. v c ∙ a.demas c h;
      }

  -- Where the standard descriptors are open, the files that a command names can be opened and an open
  -- descriptor can be duplicated, and, once the descriptors are connected, the variables of the
  -- command can be set and its program is found, a command with redirections runs its program. The
  -- program's descriptors 0, 1 and 2 refer to the files that the command names, 2 to what 1 refers to
  -- for `&1`, and to what they did where it names none; all others refer to what they did.
  pub ejecutar_redirecciones-corre :
      (r : Execcmd) (s : E)
      → Sano P L r s
      → ((x : E) → Conectado r s x → P.execvp r.argv x ≡ true)
      → ((x : E)
          → Conectado r s x
          → (y : E) × (set_environ_vars P (take r.eargc r.eargv) x ≡ some y))
      → L.ref s 0 ≢ none
      → L.ref s 1 ≢ none
      → L.ref s 2 ≢ none
      → (s' : E) × (ejecutar_redirecciones P r s ≡ corre r.argv s') × Conectado r s s'
  unfolding ejecutar_redirecciones concluir ejecutar_simple
  ejecutar_redirecciones-corre r s k x v h0 h1 h2 =
      let o : Abierto P L s s = record { estandar = λ c q. tres c q; otros = λ c q. refl } in
      let (s3, c) = redirecciones-sigue P L r s k o in
      let g = redirecciones-Conectado r s s3 c h0 h1 h2 in
      let (s4, d) = v s3 g in
      let a = Conectado-variables r s s3 s4 g d in let f = x s4 a in (s4, ground arith, a)
    where
      tres : (c : ℕ) → c < 3 → L.ref s c ≢ none
      tres zero q = h0
      tres (suc zero) q = h1
      tres (suc (suc zero)) q = h2
      tres (suc (suc (suc c))) q = absurd (omega arith)
