-- ===== src/Shell/Ejecucion/Descriptores.antt =====
-- The redirections of TP1-shell/exec.c: what the descriptors of the program refer to, from what POSIX
-- says of open, dup2 and close.
use sistemas_operarivos_fiub.Base.{
  ℕ, ◌≡◌, ◌≢◌, refl, sym, ap, ◌∙◌, subst, Bool, true, false, Bool-cases, nat_eq_cases, inl, inr,
  Option, none, some, List, length, ltb, if◌then◌else◌, bytes, strings_eq, arith,
}
use sistemas_operarivos_fiub.Shell.Tipos.{Execcmd}
use sistemas_operarivos_fiub.Shell.Ejecucion.{
  Modo, lectura, escritura, Posix, Intento, sigue, acaba, luego, redireccionar, redirigir_entrada,
  redirigir_a, redirigir_salida, combinar, redirigir_errores,
}

-- What a descriptor refers to, none if it is closed: `open_file` gives a closed one, `dup2` makes one
-- refer to what another does, `close` closes one; each changes no other descriptor, and `setenv` none.
pub record Leyes {E : Type 0} (P : Posix E) : Type 1 where
  pub Objeto : Type 0
  pub ref : E → ℕ → Option Objeto
  pub fichero : List ℕ → Modo → Objeto
  pub open_cerrado :
      (f : List ℕ) (m : Modo) (s : E) (d : ℕ) → (P.open_file f m s).0 ≡ some d → ref s d ≡ none
  pub open_ref :
      (f : List ℕ) (m : Modo) (s : E) (d : ℕ)
      → (P.open_file f m s).0 ≡ some d
      → ref (P.open_file f m s).1 d ≡ some (fichero f m)
  pub open_otros :
      (f : List ℕ) (m : Modo) (s : E) (d c : ℕ)
      → (P.open_file f m s).0 ≡ some d
      → c ≢ d
      → ref (P.open_file f m s).1 c ≡ ref s c
  pub dup2_malo : (b : ℕ) (s : E) → (P.dup2 none b s).0 ≡ false
  pub dup2_ref :
      (a b : ℕ) (s : E) → (P.dup2 (some a) b s).0 ≡ true → ref (P.dup2 (some a) b s).1 b ≡ ref s a
  pub dup2_otros :
      (a b c : ℕ) (s : E)
      → (P.dup2 (some a) b s).0 ≡ true
      → c ≢ b
      → ref (P.dup2 (some a) b s).1 c ≡ ref s c
  pub close_ref : (d : ℕ) (s : E) → ref (P.close (some d) s) d ≡ none
  pub close_otros : (d c : ℕ) (s : E) → c ≢ d → ref (P.close (some d) s) c ≡ ref s c
  pub setenv_ref : (k v : List ℕ) (s : E) (c : ℕ) → ref (P.setenv k v s) c ≡ ref s c

pub luego-sigue :
    {E : Type 0} (i : Intento E) (k : E → Intento E) (s' : E)
    → luego i k ≡ sigue s'
    → (s : E) × (i ≡ sigue s) × (k s ≡ sigue s')
unfolding luego
luego-sigue (sigue s) k s' e = (s, refl, e)
luego-sigue (acaba s) k s' e = absurd (ground arith)

module _ {E : Type 0} (P : Posix E) (L : Leyes P) where
  -- the descriptor n refers to o, and the others to what they did
  pub record Cambia (s s' : E) (n : ℕ) (o : Option L.Objeto) : Type 0 where
    pub esta : L.ref s' n ≡ o
    pub otros : (c : ℕ) → c ≢ n → L.ref s' c ≡ L.ref s c

  Cambia-nada : (s : E) (n : ℕ) → Cambia s s n (L.ref s n)
  Cambia-nada s n = record { esta = refl; otros = λ c h. refl }

  -- an opened file is put at n
  abierto-Cambia :
      (f : List ℕ) (m : Modo) (n d : ℕ) (s : E)
      → (P.open_file f m s).0 ≡ some d
      → L.ref s n ≢ none
      → (P.dup2 (some d) n (P.open_file f m s).1).0 ≡ true
      → Cambia s
          (P.close (some d) (P.dup2 (some d) n (P.open_file f m s).1).1)
          n
          (some (L.fichero f m))
  abierto-Cambia f m n d s e h q =
      let s1 = (P.open_file f m s).1 in
      let s2 = (P.dup2 (some d) n s1).1 in
      let distinto : n ≢ d = λ p. h (ap (L.ref s) p ∙ L.open_cerrado f m s d e) in
      record {
        esta = L.close_otros d n s2 distinto ∙ L.dup2_ref d n s1 q ∙ L.open_ref f m s d e;
        otros = λ c k. elim (nat_eq_cases c d) [
          | inl p ↦
              ap (L.ref (P.close (some d) s2)) p
              ∙ L.close_ref d s2
              ∙ sym (ap (L.ref s) p ∙ L.open_cerrado f m s d e)
          | inr p ↦ L.close_otros d c s2 p ∙ L.dup2_otros d n c s1 q k ∙ L.open_otros f m s d c e p
        ];
      }

  redireccionar-sigue :
      (fd : Option ℕ) (n : ℕ) (s s' : E)
      → redireccionar P fd n s ≡ sigue s'
      → (d : ℕ) × (fd ≡ some d)
        × ((P.dup2 (some d) n s).0 ≡ true)
        × (s' ≡ P.close (some d) (P.dup2 (some d) n s).1)
  unfolding redireccionar
  redireccionar-sigue none n s s' e = let m = L.dup2_malo n s in absurd (ground arith)
  redireccionar-sigue (some d) n s s' e = elim (Bool-cases (P.dup2 (some d) n s).0) [
    | inl q ↦ (d, refl, q, ground arith)
    | inr q ↦ absurd (ground arith)
  ]

  abrir-Cambia :
      (f : List ℕ) (m : Modo) (n : ℕ) (s s' : E)
      → redireccionar P (P.open_file f m s).0 n (P.open_file f m s).1 ≡ sigue s'
      → L.ref s n ≢ none
      → Cambia s s' n (some (L.fichero f m))
  abrir-Cambia f m n s s' e h =
      let (d, p, q, r) = redireccionar-sigue (P.open_file f m s).0 n (P.open_file f m s).1 s' e in
      subst (λ x. Cambia s x n (some (L.fichero f m))) (sym r) (abierto-Cambia f m n d s p h q)

  -- what the standard descriptors refer to afterwards
  abbrev pub entrada_final : Execcmd → E → Option L.Objeto
  entrada_final r s =
      if ltb 0 (length r.in_file) then some (L.fichero r.in_file lectura) else L.ref s 0

  abbrev pub salida_final : Execcmd → E → Option L.Objeto
  salida_final r s =
      if ltb 0 (length r.out_file) then some (L.fichero r.out_file escritura) else L.ref s 1

  abbrev pub errores_final : Execcmd → E → Option L.Objeto
  errores_final r s =
      if ltb 0 (length r.err_file)
      then if strings_eq r.err_file (bytes "&1")
        then salida_final r s
        else some (L.fichero r.err_file escritura)
      else L.ref s 2

  -- a step that is taken under a condition
  Cambia-si :
      (b : Bool) (i : Intento E) (s s' : E) (n : ℕ) (o : Option L.Objeto)
      → (i ≡ sigue s' → Cambia s s' n o)
      → (if b then i else sigue s) ≡ sigue s'
      → Cambia s s' n (if b then o else L.ref s n)
  Cambia-si true i s s' n o k e = k e
  Cambia-si false i s s' n o k e =
      let p : s ≡ s' = ground arith in subst (λ x. Cambia s x n (L.ref s n)) p (Cambia-nada s n)

  con_fd :
      (fd : Option ℕ) (n : ℕ) (s s' : E)
      → elim fd [ none ↦ acaba s | some d ↦ redireccionar P (some d) n s ] ≡ sigue s'
      → redireccionar P fd n s ≡ sigue s'
  con_fd none n s s' e = absurd (ground arith)
  con_fd (some d) n s s' e = e

  pub entrada-Cambia :
      (r : Execcmd) (s s' : E)
      → redirigir_entrada P r s ≡ sigue s'
      → L.ref s 0 ≢ none
      → Cambia s s' 0 (entrada_final r s)
  unfolding redirigir_entrada
  entrada-Cambia r s s' e h =
      let a = P.open_file r.in_file lectura s in
      Cambia-si (ltb 0 (length r.in_file)) _ s s' 0 (some (L.fichero r.in_file lectura))
        (λ p. abrir-Cambia r.in_file lectura 0 s s' (con_fd a.0 0 a.1 s' p) h) e

  pub salida-Cambia :
      (r : Execcmd) (s s' : E)
      → redirigir_salida P r s ≡ sigue s'
      → L.ref s 1 ≢ none
      → Cambia s s' 1 (salida_final r s)
  unfolding redirigir_salida redirigir_a
  salida-Cambia r s s' e h =
      Cambia-si (ltb 0 (length r.out_file)) _ s s' 1 (some (L.fichero r.out_file escritura))
        (λ p. abrir-Cambia r.out_file escritura 1 s s' p h) e

  combinar-Cambia : (s s' : E) → combinar P s ≡ sigue s' → Cambia s s' 2 (L.ref s 1)
  unfolding combinar
  combinar-Cambia s s' e = elim (Bool-cases (P.dup2 (some 1) 2 s).0) [
    | inl q ↦
        let p : (P.dup2 (some 1) 2 s).1 ≡ s' = ground arith in
        subst (λ x. Cambia s x 2 (L.ref s 1)) p
          (record { esta = L.dup2_ref 1 2 s q; otros = λ c k. L.dup2_otros 1 2 c s q k })
    | inr q ↦ absurd (ground arith)
  ]

  -- one of two steps
  Cambia-o :
      (b : Bool) (i j : Intento E) (s s' : E) (n : ℕ) (o u : Option L.Objeto)
      → (i ≡ sigue s' → Cambia s s' n o)
      → (j ≡ sigue s' → Cambia s s' n u)
      → (if b then i else j) ≡ sigue s'
      → Cambia s s' n (if b then o else u)
  Cambia-o true i j s s' n o u k l e = k e
  Cambia-o false i j s s' n o u k l e = l e

  pub errores-Cambia :
      (r : Execcmd) (s s' : E)
      → redirigir_errores P r s ≡ sigue s'
      → L.ref s 2 ≢ none
      → Cambia s s' 2 (
          if ltb 0 (length r.err_file)
          then if strings_eq r.err_file (bytes "&1")
            then L.ref s 1
            else some (L.fichero r.err_file escritura)
          else L.ref s 2)
  unfolding redirigir_errores redirigir_a
  errores-Cambia r s s' e h =
      Cambia-si (ltb 0 (length r.err_file)) _ s s' 2 _
        (Cambia-o (strings_eq r.err_file (bytes "&1")) _ _ s s' 2 _ _ (combinar-Cambia s s')
          (λ p. abrir-Cambia r.err_file escritura 2 s s' p h))
        e
