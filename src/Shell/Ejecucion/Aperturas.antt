-- ===== src/Shell/Ejecucion/Aperturas.antt =====
-- That the redirections of TP1-shell/exec.c are made, where the system opens the files.
use sistemas_operarivos_fiub.Base.{
  ℕ, ◌<◌, ◌≡◌, ◌≢◌, sym, ap, ◌∙◌, Bool, true, false, Bool-cases, nat_eq_cases, inl, inr, Option,
  none, some, List, length, ltb, if◌then◌else◌, bytes, strings_eq, arith,
}
use sistemas_operarivos_fiub.Shell.Tipos.{Execcmd}
use sistemas_operarivos_fiub.Shell.Ejecucion.{
  Modo, lectura, escritura, redireccionar, redirigir_a, combinar, Posix, sigue, luego,
  redirigir_entrada, redirigir_salida, redirigir_errores, redirecciones,
}
use sistemas_operarivos_fiub.Shell.Ejecucion.Descriptores.{
  Leyes, entrada_final, salida_final, entrada-Cambia, salida-Cambia, Cambia,
}

module _ {E : Type 0} (P : Posix E) (L : Leyes P) where
  -- The standard descriptors are open, and the others refer to what they did in s.
  pub record Abierto (s x : E) : Type 0 where
    pub estandar : (c : ℕ) → c < 3 → L.ref x c ≢ none
    pub otros : (c : ℕ) → 2 < c → L.ref x c ≡ L.ref s c

  Cambia-Abierto :
      (s x x' : E) (n : ℕ) (o : Option L.Objeto)
      → Abierto s x
      → Cambia P L x x' n o
      → n < 3
      → o ≢ none
      → Abierto s x'
  Cambia-Abierto s x x' n o a c h k = record {
    estandar = λ i q. elim (nat_eq_cases i n) [
      | inl e ↦ λ z. k (sym c.esta ∙ ap (L.ref x') (sym e) ∙ z)
      | inr e ↦ λ z. a.estandar i q (sym (c.otros i e) ∙ z)
    ];
    otros = λ i q. c.otros i (λ e. omega arith) ∙ a.otros i q;
  }

  -- What the run of a command from s asks of the system: each file that the command names can be
  -- opened where its turn comes, and an open descriptor can be duplicated on a standard one.
  pub record Sano (r : Execcmd) (s : E) : Type 0 where
    pub abre_entrada :
        0 < length r.in_file → (d : ℕ) × ((P.open_file r.in_file lectura s).0 ≡ some d)
    pub abre_salida :
        (x : E)
        → Abierto s x
        → 0 < length r.out_file
        → (d : ℕ) × ((P.open_file r.out_file escritura x).0 ≡ some d)
    pub abre_errores :
        (x : E)
        → Abierto s x
        → 0 < length r.err_file
        → strings_eq r.err_file (bytes "&1") ≡ false
        → (d : ℕ) × ((P.open_file r.err_file escritura x).0 ≡ some d)
    pub duplica : (a b : ℕ) (x : E) → b < 3 → L.ref x a ≢ none → (P.dup2 (some a) b x).0 ≡ true

  abierto_dup :
      (r : Execcmd) (s : E)
      → Sano r s
      → (f : List ℕ) (m : Modo) (n d : ℕ) (x : E) → n < 3
      → (P.open_file f m x).0 ≡ some d
      → (P.dup2 (some d) n (P.open_file f m x).1).0 ≡ true
  abierto_dup r s k f m n d x h p =
      k.duplica d n (P.open_file f m x).1 h (λ z. some_ne (sym (L.open_ref f m x d p) ∙ z))
    where
      some_ne : some (L.fichero f m) ≢ none
      some_ne z = cc

  entrada-sigue : (r : Execcmd) (s : E) → Sano r s → (s' : E) × (redirigir_entrada P r s ≡ sigue s')
  unfolding redirigir_entrada redireccionar
  entrada-sigue r s k = elim (Bool-cases (ltb 0 (length r.in_file))) [
    | inl b ↦
        let (d, p) = k.abre_entrada (ground arith) in
        let s1 = (P.open_file r.in_file lectura s).1 in
        let q = abierto_dup r s k r.in_file lectura 0 d s (omega arith) p in
        (P.close (some d) (P.dup2 (some d) 0 s1).1, ground arith)
    | inr b ↦ (s, ground arith)
  ]

  salida-sigue :
      (r : Execcmd) (s x : E)
      → Sano r s
      → Abierto s x
      → (x' : E) × (redirigir_salida P r x ≡ sigue x')
  unfolding redirigir_salida redirigir_a redireccionar
  salida-sigue r s x k a = elim (Bool-cases (ltb 0 (length r.out_file))) [
    | inl b ↦
        let (d, p) = k.abre_salida x a (ground arith) in
        let x1 = (P.open_file r.out_file escritura x).1 in
        let q = abierto_dup r s k r.out_file escritura 1 d x (omega arith) p in
        (P.close (some d) (P.dup2 (some d) 1 x1).1, ground arith)
    | inr b ↦ (x, ground arith)
  ]

  errores-sigue :
      (r : Execcmd) (s x : E)
      → Sano r s
      → Abierto s x
      → (x' : E) × (redirigir_errores P r x ≡ sigue x')
  unfolding redirigir_errores redirigir_a combinar redireccionar
  errores-sigue r s x k a = elim (Bool-cases (ltb 0 (length r.err_file))) [
    | inl b ↦ elim (Bool-cases (strings_eq r.err_file (bytes "&1"))) [
      | inl c ↦
          let q = k.duplica 1 2 x (omega arith) (a.estandar 1 (omega arith)) in
          ((P.dup2 (some 1) 2 x).1, ground arith)
      | inr c ↦
          let (d, p) = k.abre_errores x a (ground arith) c in
          let x1 = (P.open_file r.err_file escritura x).1 in
          let q = abierto_dup r s k r.err_file escritura 2 d x (omega arith) p in
          (P.close (some d) (P.dup2 (some d) 2 x1).1, ground arith)
    ]
    | inr b ↦ (x, ground arith)
  ]

  si_abierto :
      (b : Bool) (o : L.Objeto) (u : Option L.Objeto) → u ≢ none → (if b then some o else u) ≢ none
  si_abierto true o u h z = cc
  si_abierto false o u h z = h z

  pub redirecciones-sigue :
      (r : Execcmd) (s : E) → Sano r s → Abierto s s → (s' : E) × (redirecciones P r s ≡ sigue s')
  unfolding redirecciones luego
  redirecciones-sigue r s k o =
      let (s1, a) = entrada-sigue r s k in
      let c1 = entrada-Cambia P L r s s1 a (o.estandar 0 (omega arith)) in
      let o1 =
        Cambia-Abierto s s s1 0 (entrada_final P L r s) o c1 (omega arith)
          (si_abierto _ _ _ (o.estandar 0 (omega arith))) in
      let (s2, b) = salida-sigue r s s1 k o1 in
      let c2 = salida-Cambia P L r s1 s2 b (o1.estandar 1 (omega arith)) in
      let o2 =
        Cambia-Abierto s s1 s2 1 (salida_final P L r s1) o1 c2 (omega arith)
          (si_abierto _ _ _ (o1.estandar 1 (omega arith))) in
      let (s3, c) = errores-sigue r s s2 k o2 in (s3, ground arith)
