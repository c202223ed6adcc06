-- ===== src/Strings/Numeros.antt =====
-- `strtol` of TP2-sched/lib/string.c on the text of a number.
use native.Mathlib.Nat.{mul-le-mul_left}
use sistemas_operarivos_fiub.Base.{
  ℕ, ◌+◌, ◌*◌, ◌^◌, ◌<◌, ◌≤◌, ◌≡◌, refl, ap, ◌∙◌, Bool, true, false, some, List, [], ◌∷◌, map, ltb,
  leb, ◌==◌, ◌&&◌, if◌then◌else◌, arith,
}
use sistemas_operarivos_fiub.Strings.Rutinas.{
  pos, neg, sin_blancos, signo, prefijo, digito, digitos, con_signo, strtol,
}

-- the text of a digit, with small letters from ten on
unfoldable pub letra : ℕ → ℕ
letra d = if ltb d 10 then 48 + d else 87 + d

-- digits of a base
pub data SonDigitos (base : ℕ) : List ℕ → Type 0 where
  nada : SonDigitos base []
  mas : {d : ℕ} {ds : List ℕ} → d < base → SonDigitos base ds → SonDigitos base (d ∷ ds)

-- the number of some digits, behind digits of the value `val`
unfoldable pub valor : ℕ → ℕ → List ℕ → ℕ
valor base val [] = val
valor base val (d ∷ ds) = valor base (val * base + d) ds

digito-letra : (d : ℕ) → d < 36 → digito (letra d) ≡ some d
unfolding digito letra
digito-letra d h = ground arith

digitos-paso :
    (base val x d : ℕ) (s : List ℕ)
    → digito x ≡ some d
    → leb base d ≡ false
    → val * base + d < 2 ^ 31
    → digitos base val (x ∷ s) ≡ digitos base (val * base + d) s
unfolding digitos
digitos-paso base val x d s p q h =
    let c : leb (2 ^ 31) (val * base + d) ≡ false = ground arith in rw (p, q, c, digitos) refl

crece : (base val d : ℕ) → 0 < base → val ≤ val * base + d
crece base val d h = omega (arith, mul-le-mul_left val h)

valor-crece : (base val : ℕ) (ds : List ℕ) → 0 < base → val ≤ valor base val ds
unfolding valor
valor-crece base val [] h = omega arith
valor-crece base val (d ∷ ds) h =
    omega (arith, crece base val d h, valor-crece base (val * base + d) ds h)

menor : (base d : ℕ) → d < base → leb base d ≡ false
menor base d h = ground arith

digitos-letra :
    (base val : ℕ) {ds : List ℕ}
    → base ≤ 36
    → SonDigitos base ds
    → valor base val ds < 2 ^ 31
    → digitos base val (map letra ds) ≡ some (valor base val ds, [])
unfolding digitos valor
digitos-letra base val h nada c = refl
digitos-letra base val h (mas {d} {ds} p s) c =
    digitos-paso base val (letra d) d (map letra ds) (digito-letra d (omega arith)) (menor base d p)
      (omega (arith, c, valor-crece base (val * base + d) ds (omega arith)))
    ∙ digitos-letra base (val * base + d) h s c

sin_blancos-letra : (d : ℕ) (s : List ℕ) → d < 36 → sin_blancos (letra d ∷ s) ≡ letra d ∷ s
unfolding sin_blancos letra
sin_blancos-letra d s h = ground arith

signo-letra : (d : ℕ) (s : List ℕ) → d < 36 → signo (letra d ∷ s) ≡ (false, letra d ∷ s)
unfolding signo letra
signo-letra d s h = ground arith

-- no digit of the base 16 is an x
letra-ne : (base d : ℕ) → d < base → ((base == 16) && (letra d == 120)) ≡ false
unfolding letra
letra-ne base d h = ground arith

prefijo-letra :
    {base : ℕ} {ds : List ℕ}
    → 0 < base
    → SonDigitos base ds
    → prefijo base (map letra ds) ≡ (base, map letra ds)
unfolding prefijo
prefijo-letra h nada = ground arith
prefijo-letra h (mas p nada) = ground arith
prefijo-letra {base} h (mas p (mas {d} q s)) = ground (arith, letra-ne base d q)

-- one call, with the parts of the text at the ends of paths
strtol-partes :
    (s t : List ℕ) (base : ℕ) (n : Bool) (u r : ℕ × List ℕ)
    → signo (sin_blancos s) ≡ (n, t)
    → prefijo base t ≡ u
    → digitos u.0 0 u.1 ≡ some r
    → strtol s base ≡ con_signo n (some r)
unfolding strtol
strtol-partes s t base n u r p q w =
    (λ i. con_signo (p i).0 (digitos (prefijo base (p i).1).0 0 (prefijo base (p i).1).1))
    ∙ (λ i. con_signo n (digitos (q i).0 0 (q i).1))
    ∙ ap (con_signo n) w

menos-letra : (s : List ℕ) → signo (sin_blancos (45 ∷ s)) ≡ (true, s)
unfolding signo sin_blancos
menos-letra s = refl

-- In a base from 1 to 36, the text of some digits, with a minus sign or without, is read as the
-- number they write, to the end of the text, if that is below 2^31.
pub strtol-letra :
    (base d : ℕ) (ds : List ℕ)
    → 0 < base
    → base ≤ 36
    → SonDigitos base (d ∷ ds)
    → valor base 0 (d ∷ ds) < 2 ^ 31
    → (strtol (map letra (d ∷ ds)) base ≡ some (pos (valor base 0 (d ∷ ds)), []))
      × (strtol (45 ∷ map letra (d ∷ ds)) base ≡ some (neg (valor base 0 (d ∷ ds)), []))
unfolding con_signo
strtol-letra base d ds k h (mas p s) c =
    let t = map letra (d ∷ ds) in
    let leido = prefijo-letra k (mas p s) in
    let dado = digitos-letra base 0 h (mas p s) c in
    (
      strtol-partes t t base false (base, t) (valor base 0 (d ∷ ds), [])
          (ap signo (sin_blancos-letra d (map letra ds) (omega arith))
            ∙ signo-letra d (map letra ds) (omega arith))
          leido dado,
      strtol-partes (45 ∷ t) t base true (base, t) (valor base 0 (d ∷ ds), []) (menos-letra t) leido
          dado,
    )
