-- ===== src/Strings/Formato/Bastante.antt =====
-- The loop of vprintfmt in TP2-sched/lib/printfmt.c: how much of the format each turn takes.
use sistemas_operarivos_fiub.Base.{
  ℕ, zero, suc, ◌<◌, ◌≤◌, ◌≡◌, ap, Bool-cases, Option-cases, inl, inr, Option, none, some, List, [],
  ◌∷◌, ◌==◌, length, arith,
}
use sistemas_operarivos_fiub.Strings.Formato.{
  Arg, Formato, formato_inicial, Paso, sigue, para, indefinido, paso, leer_formato, convertir,
  partir, escape, recorrer_formato, printfmt_error, vprintfmt,
}

leer_formato-corta :
    (f : Formato) (p : Option ℕ) (args : List Arg) (fmt : List ℕ) (f' : Formato) (args' : List Arg)
    (t : List ℕ)
    → leer_formato f p args fmt ≡ some (f', args', t)
    → length t ≤ length fmt
unfolding leer_formato
leer_formato-corta f p args [] f' args' t e =
    let q : [] ≡ t = ground arith in omega (arith, ap length q)
leer_formato-corta f p args (ch ∷ fmt) f' args' t e =
    segun (paso f p ch args) e (λ g q vs. leer_formato-corta g q vs fmt f' args' t)
  where
    segun :
        (r : Paso)
        → elim r [
          | sigue g q vs ↦ leer_formato g q vs fmt
          | para g ↦ some (g, args, ch ∷ fmt)
          | indefinido ↦ none
        ]
          ≡ some (f', args', t)
        → ((g : Formato) (q : Option ℕ) (vs : List Arg)
            → leer_formato g q vs fmt ≡ some (f', args', t)
            → length t ≤ length fmt)
        → length t ≤ suc (length fmt)
    segun (sigue g q vs) e r = let h = r g q vs e in omega arith
    segun (para g) e r = let q : ch ∷ fmt ≡ t = ground arith in omega (arith, ap length q)
    segun indefinido e r = absurd (ground arith)

partir-corta : (fmt t : List ℕ) → (partir fmt).1 ≡ some t → length t < length fmt
unfolding partir
partir-corta [] t e = absurd (ground arith)
partir-corta (ch ∷ fmt) t e = elim (Bool-cases (ch == b'%')) [
  | inl q ↦ let p : fmt ≡ t = ground arith in omega (arith, ap length p)
  | inr q ↦
      let p : (partir fmt).1 ≡ some t = ground arith in let h = partir-corta fmt t p in omega arith
]

escape-corta :
    (e : ℕ → Option (List ℕ)) (fmt : List ℕ) (args : List Arg) (s : List ℕ) (args' : List Arg)
    (t : List ℕ)
    → escape e fmt args ≡ some (s, args', t)
    → length t ≤ length fmt
unfolding escape
escape-corta e fmt args s args' t h =
    elim (Option-cases (leer_formato formato_inicial none args fmt)) [
      | inl q ↦ absurd (ground arith)
      | inr ((f, vs, []), q) ↦ let p : fmt ≡ t = ground arith in omega (arith, ap length p)
      | inr ((f, vs, ch ∷ rest), q) ↦
          let c = leer_formato-corta formato_inicial none args fmt f vs (ch ∷ rest) q in
          elim (Option-cases (convertir e f ch vs)) [
            | inl k ↦ let p : fmt ≡ t = ground arith in omega (arith, ap length p)
            | inr (none, k) ↦ absurd (ground arith)
            | inr (some (u, us), k) ↦ let p : rest ≡ t = ground arith in omega (arith, ap length p)
          ]
    ]

recorrer_formato-bastante :
    (e : ℕ → Option (List ℕ)) (n k : ℕ) (fmt : List ℕ) (args : List Arg)
    → length fmt < n
    → length fmt < k
    → recorrer_formato e n fmt args ≡ recorrer_formato e k fmt args
unfolding recorrer_formato
recorrer_formato-bastante e zero k fmt args h l = absurd (omega arith)
recorrer_formato-bastante e (suc n) zero fmt args h l = absurd (omega arith)
recorrer_formato-bastante e (suc n) (suc k) fmt args h l = elim (Option-cases (partir fmt).1) [
  | inl q ↦ ground arith
  | inr (t, q) ↦ elim (Option-cases (escape e t args)) [
    | inl w ↦ ground arith
    | inr ((s, vs, rest), w) ↦
        let a = partir-corta fmt t q in
        let b = escape-corta e t args s vs rest w in
        let r = recorrer_formato-bastante e n k rest vs (omega arith) (omega arith) in ground arith
  ]
]

-- Any fuel above the length of the format gives what `vprintfmt` prints.
vprintfmt-bastante :
    (n : ℕ) (fmt : List ℕ) (args : List Arg)
    → length fmt < n
    → recorrer_formato printfmt_error n fmt args ≡ vprintfmt fmt args
unfolding vprintfmt
vprintfmt-bastante n fmt args h =
    recorrer_formato-bastante printfmt_error n (suc (length fmt)) fmt args h (omega arith)
