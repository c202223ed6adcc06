-- ===== src/Strings/Formato/Leyes.antt =====
-- printfmt.c of TP2-sched/lib: the numbers that it prints, and what string.c reads them as.
use native.Mathlib.Nat.{mod-lt, mod-eq_of_lt, div-add-mod', div-lt_self}
use sistemas_operarivos_fiub.Base.{
  ℕ, zero, suc, ◌+◌, ◌-◌, ◌*◌, ◌/◌, ◌%◌, ◌^◌, ◌<◌, ◌≤◌, ◌≡◌, ◌≢◌, refl, sym, ap, ◌∙◌, Bool, true,
  false, Bool-cases, inl, inr, some, List, [], ◌∷◌, ◌++◌, map, ltb, leb, ◌==◌, ◌&&◌, ==_iff,
  nat_eq_cases, if◌then◌else◌, length, length-append, append_assoc, append-nil, bytes, arith,
}
use sistemas_operarivos_fiub.Strings.Rutinas.{
  ℤ, pos, neg, sin_blancos, signo, prefijo, digitos, con_signo, strtol,
}
use sistemas_operarivos_fiub.Strings.Numeros.{letra, SonDigitos, nada, mas, valor, strtol-letra}
use sistemas_operarivos_fiub.Strings.Formato.{
  relleno, cifra, printnum_desde, printnum, formato_inicial, extender, decimal, vprintfmt,
  recorrer_formato, escape, leer_formato, paso, bandera, convertir, con_valor, getint, partir,
  printfmt_error, palabra,
}

-- The text of a number: its digits, behind as many fillers as they leave of the width.
pub record Escrito (num base width padc : ℕ) (s : List ℕ) : Type 0 where
  pub primera : ℕ
  pub resto : List ℕ
  pub son : SonDigitos base (primera ∷ resto)
  pub vale : valor base 0 (primera ∷ resto) ≡ num
  pub escrito : s ≡ relleno (width - suc (length resto)) padc ++ map letra (primera ∷ resto)

abbrev todas : (ℕ → Bool) → ℕ → Bool
todas p zero = true
todas p (suc n) = p n && todas p n

todas-lt : (p : ℕ → Bool) (n d : ℕ) → todas p n ≡ true → d < n → p d ≡ true
todas-lt p zero d h l = absurd (omega arith)
todas-lt p (suc n) d h l = elim (nat_eq_cases d n) [
  | inl e ↦ ap p e ∙ (let q = h in ground arith)
  | inr e ↦ todas-lt p n d (let q = h in ground arith) (omega arith)
]

cifra-letra : (d : ℕ) → d < 16 → cifra d ≡ letra d
unfolding cifra letra
cifra-letra d h = (==_iff (cifra d) (letra d)).0 (todas-lt (λ k. cifra k == letra k) 16 d refl h)

pub map-append : (f : ℕ → ℕ) (xs ys : List ℕ) → map f (xs ++ ys) ≡ map f xs ++ map f ys
map-append f [] ys = refl
map-append f (x ∷ xs) ys = ap (λ r. f x ∷ r) (map-append f xs ys)

SonDigitos-fin :
    {base : ℕ} {ds : List ℕ} {d : ℕ}
    → SonDigitos base ds
    → d < base
    → SonDigitos base (ds ++ (d ∷ []))
SonDigitos-fin nada h = mas h nada
SonDigitos-fin (mas p s) h = mas p (SonDigitos-fin s h)

valor-fin :
    (base v : ℕ) (ds : List ℕ) (d : ℕ) → valor base v (ds ++ (d ∷ [])) ≡ valor base v ds * base + d
unfolding valor
valor-fin base v [] d = refl
valor-fin base v (x ∷ ds) d = valor-fin base (v * base + x) ds d

-- a number of one digit
Escrito-una :
    (num base width padc : ℕ)
    → num < base
    → base ≤ 16
    → Escrito num base width padc (relleno (width - 1) padc ++ (cifra (num % base) ∷ []))
unfolding valor
Escrito-una num base width padc l h = record {
  primera = num;
  resto = [];
  son = mas l nada;
  vale = omega arith;
  escrito =
      ap (λ c. relleno (width - 1) padc ++ (c ∷ []))
        (ap cifra (mod-eq_of_lt l) ∙ cifra-letra num (omega arith));
}

-- a digit is printed behind a number
Escrito-otra :
    (num base width padc : ℕ) (s : List ℕ)
    → 0 < base
    → base ≤ 16
    → Escrito (num / base) base (width - 1) padc s
    → Escrito num base width padc (s ++ (cifra (num % base) ∷ []))
Escrito-otra num base width padc s k h r =
    let d = num % base in
    let menor : d < base = mod-lt num k in
    let final = length-append r.resto (d ∷ []) in
    let ancho : width - 1 - suc (length r.resto) ≡ width - suc (length (r.resto ++ (d ∷ []))) =
      omega (arith, final) in
    let fin : cifra d ≡ letra d = cifra-letra d (omega arith) in
    record {
      primera = r.primera;
      resto = r.resto ++ (d ∷ []);
      son = SonDigitos-fin r.son menor;
      vale =
          valor-fin base 0 (r.primera ∷ r.resto) d
          ∙ ap (λ v. v * base + d) r.vale
          ∙ div-add-mod' num base;
      escrito =
          ap (λ t. t ++ (cifra d ∷ [])) r.escrito
          ∙ append_assoc (relleno (width - 1 - suc (length r.resto)) padc)
              (map letra (r.primera ∷ r.resto)) (cifra d ∷ [])
          ∙ (λ i. relleno (ancho i) padc ++ (map letra (r.primera ∷ r.resto) ++ (fin i ∷ [])))
          ∙ ap (λ t. relleno (width - suc (length (r.resto ++ (d ∷ [])))) padc ++ t)
              (sym (map-append letra (r.primera ∷ r.resto) (d ∷ [])));
    }

-- one call of `printnum`, with the test of whether there are more digits
Escrito-paso :
    (num base width padc : ℕ) (t : List ℕ)
    → 1 < base
    → base ≤ 16
    → (base ≤ num → Escrito (num / base) base (width - 1) padc t)
    → (c : Bool) → leb base num ≡ c
    → Escrito num base width padc
        (elim c [ true ↦ t | false ↦ relleno (width - 1) padc ] ++ (cifra (num % base) ∷ []))
Escrito-paso num base width padc t b h r true q =
    Escrito-otra num base width padc t (omega arith) h (r (ground arith))
Escrito-paso num base width padc t b h r false q = Escrito-una num base width padc (ground arith) h

printnum_desde-Escrito :
    (k num base width padc : ℕ)
    → num < k
    → 1 < base
    → base ≤ 16
    → Escrito num base width padc (printnum_desde k num base width padc)
unfolding printnum_desde
printnum_desde-Escrito zero num base width padc l b h = absurd (omega arith)
printnum_desde-Escrito (suc k) num base width padc l b h =
    Escrito-paso num base width padc (printnum_desde k (num / base) base (width - 1) padc) b h
      (λ m.
        let p : 0 < num = omega arith in
        let c = div-lt_self p b in
        printnum_desde-Escrito k (num / base) base (width - 1) padc (omega arith) b h)
      (leb base num) refl

-- `printnum` writes the digits of the number, behind fillers up to the width.
pub printnum-Escrito :
    (num base width padc : ℕ)
    → 1 < base
    → base ≤ 16
    → Escrito num base width padc (printnum num base width padc)
unfolding printnum
printnum-Escrito num base width padc b h =
    printnum_desde-Escrito (suc num) num base width padc (omega arith) b h

sin_blancos-relleno : (k : ℕ) (s : List ℕ) → sin_blancos (relleno k b' ' ++ s) ≡ sin_blancos s
unfolding sin_blancos relleno
sin_blancos-relleno zero s = refl
sin_blancos-relleno (suc k) s = sin_blancos-relleno k s

strtol-relleno : (k base : ℕ) (s : List ℕ) → strtol (relleno k b' ' ++ s) base ≡ strtol s base
unfolding strtol
strtol-relleno k base s =
    ap
      (λ t.
        con_signo (signo t).0 (digitos (prefijo base (signo t).1).0 0 (prefijo base (signo t).1).1))
      (sin_blancos-relleno k s)

-- In a base from 2 to 16, the text of a number below 2^31, with blanks up to the width, is read as the
-- number, without overflow.
pub strtol-printnum :
    (num base width : ℕ)
    → 1 < base
    → base ≤ 16
    → num < 2 ^ 31
    → strtol (printnum num base width b' ') base ≡ some (pos num, [])
strtol-printnum num base width b h c =
    let r = printnum-Escrito num base width b' ' b h in
    ap (λ s. strtol s base) r.escrito
    ∙ strtol-relleno (width - suc (length r.resto)) base (map letra (r.primera ∷ r.resto))
    ∙ (strtol-letra base r.primera r.resto (omega arith) (omega arith) r.son
        (omega (arith, c, r.vale))).0
    ∙ ap (λ n. some (pos n, [])) r.vale

strtol-menos :
    (num : ℕ) → num < 2 ^ 31 → strtol (45 ∷ printnum num 10 0 b' ') 10 ≡ some (neg num, [])
unfolding relleno
strtol-menos num c =
    let r = printnum-Escrito num 10 0 b' ' (omega arith) (omega arith) in
    let nada_de : 0 - suc (length r.resto) ≡ 0 = omega arith in
    ap (λ s. strtol (45 ∷ s) 10)
      (r.escrito ∙ ap (λ k. relleno k b' ' ++ map letra (r.primera ∷ r.resto)) nada_de)
    ∙ (strtol-letra 10 r.primera r.resto (omega arith) (omega arith) r.son
        (omega (arith, c, r.vale))).1
    ∙ ap (λ n. some (neg n, [])) r.vale

-- a word as an `int`
unfoldable pub como_int : ℕ → ℤ
como_int w = if ltb w (2 ^ 31) then pos w else neg (2 ^ 32 - w)

strtol-decimal :
    (w : ℕ)
    → w < 2 ^ 32
    → w ≢ 2 ^ 31
    → strtol (decimal formato_inicial (extender w)) 10 ≡ some (como_int w, [])
unfolding decimal extender como_int
strtol-decimal w h k = elim (Bool-cases (ltb w (2 ^ 31))) [
  | inl q ↦
      let p = strtol-printnum w 10 0 (omega arith) (omega arith) (ground arith) in ground arith
  | inr q ↦
      let p = strtol-menos (2 ^ 32 - w) (ground arith) in
      let e : 2 ^ 64 - (w + (2 ^ 64 - 2 ^ 32)) ≡ 2 ^ 32 - w = omega arith in ground arith
]

-- What `%d` prints for an `int` other than the least one is read back as that number, without
-- overflow.
pub strtol-vprintfmt :
    (w : ℕ)
    → w < 2 ^ 32
    → w ≢ 2 ^ 31
    → (s : List ℕ) × (vprintfmt (bytes "%d") (palabra w ∷ []) ≡ some s)
      × (strtol s 10 ≡ some (como_int w, []))
unfolding vprintfmt recorrer_formato escape leer_formato paso bandera convertir con_valor getint
    partir printfmt_error
strtol-vprintfmt w h k = (
  decimal formato_inicial (extender w) ++ [],
  refl,
  ap (λ s. strtol s 10) (append-nil (decimal formato_inicial (extender w))) ∙ strtol-decimal w h k,
)
