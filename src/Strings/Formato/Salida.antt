-- ===== src/Strings/Formato/Salida.antt =====
-- TP2-sched/lib/printf.c: what is printed is collected in a buffer of 256 bytes and handed to
-- `sys_cputs` in pieces.
use sistemas_operarivos_fiub.Base.{
  ℕ, zero, suc, ◌+◌, ◌%◌, ◌<◌, ◌≤◌, ◌≡◌, ◌≢◌, refl, sym, ap, ◌∙◌, subst, Bool, true, false, ◌==◌,
  Option, none, some, List, [], ◌∷◌, ◌++◌, if◌then◌else◌, length, length-append, append_assoc,
  append-nil, update, update_same, update_other, arith,
}
use sistemas_operarivos_fiub.Strings.Copiar.{leer}
use sistemas_operarivos_fiub.Strings.Formato.{Arg, vprintfmt}
use sistemas_operarivos_fiub.Strings.Formato.Buffer.{octetos}
use sistemas_operarivos_fiub.Strings.Formato.Leyes.{map-append}

-- `struct printbuf`, with the areas that `sys_cputs` has been called with
pub record Printbuf : Type 0 where
  pub idx : ℕ
  pub cnt : ℕ
  pub buf : ℕ → ℕ
  pub salidas : List (List ℕ)

unfoldable pub vaciar : Printbuf → Printbuf
vaciar b = record b { salidas = b.salidas ++ (leer b.buf 0 b.idx ∷ []) }

unfoldable pub guardar : ℕ → Printbuf → Printbuf
guardar ch b = record b { buf = update b.buf b.idx (ch % 256); idx = b.idx + 1 }

unfoldable pub contar_uno : Printbuf → Printbuf
contar_uno b = record b { cnt = b.cnt + 1 }

unfoldable pub putch : ℕ → Printbuf → Printbuf
putch ch b =
    if b.idx + 1 == 255
    then contar_uno (record (vaciar (guardar ch b)) { idx = 0 })
    else contar_uno (guardar ch b)

unfoldable pub poner_todos : List ℕ → Printbuf → Printbuf
poner_todos [] b = b
poner_todos (ch ∷ s) b = poner_todos s (putch ch b)

-- The count, and the areas; the buffer has any content at first.
unfoldable pub vcprintf : (ℕ → ℕ) → List ℕ → List Arg → Option (ℕ × List (List ℕ))
vcprintf m fmt args = elim (vprintfmt fmt args) [
  | none ↦ none
  | some s ↦
      let b = vaciar (poner_todos s (record { idx = 0; cnt = 0; buf = m; salidas = [] })) in
      some (b.cnt, b.salidas)
]

unfoldable pub juntar : List (List ℕ) → List ℕ
juntar [] = []
juntar (x ∷ xs) = x ++ juntar xs

-- all areas fit in the buffer
pub data Caben : List (List ℕ) → Type 0 where
  ninguna : Caben []
  otra : {x : List ℕ} {xs : List (List ℕ)} → length x ≤ 255 → Caben xs → Caben (x ∷ xs)

juntar-fin : (xs : List (List ℕ)) (x : List ℕ) → juntar (xs ++ (x ∷ [])) ≡ juntar xs ++ x
unfolding juntar
juntar-fin [] x = append-nil x
juntar-fin (y ∷ xs) x = ap (λ r. y ++ r) (juntar-fin xs x) ∙ sym (append_assoc y (juntar xs) x)

Caben-fin : {xs : List (List ℕ)} (x : List ℕ) → Caben xs → length x ≤ 255 → Caben (xs ++ (x ∷ []))
Caben-fin x ninguna h = otra h ninguna
Caben-fin x (otra p c) h = otra p (Caben-fin x c h)

length-leer : (m : ℕ → ℕ) (a n : ℕ) → length (leer m a n) ≡ n
unfolding leer
length-leer m a zero = refl
length-leer m a (suc n) = omega (arith, length-leer m (a + 1) n)

leer-update :
    (m : ℕ → ℕ) (j a n x : ℕ) → j ≡ a + n → leer (update m j x) a (suc n) ≡ leer m a n ++ (x ∷ [])
unfolding leer
leer-update m j a zero x e =
    let q : a ≡ j = omega arith in
    ap (λ y. y ∷ []) (subst (λ k. update m k x a ≡ x) q (update_same m a x))
leer-update m j a (suc n) x e =
    let h : a ≢ j = λ q. omega arith in
    let r = leer-update m j (a + 1) n x (omega arith) in λ i. update_other m j x a h i ∷ r i

-- The text that has been printed: the areas that are out, and the buffer.
record Impreso (b : Printbuf) (s : List ℕ) : Type 0 where
  cabe : b.idx < 255
  cuenta : b.cnt ≡ length s
  junto : juntar b.salidas ++ leer b.buf 0 b.idx ≡ octetos s
  caben : Caben b.salidas

octetos-fin : (s : List ℕ) (ch : ℕ) → octetos (s ++ (ch ∷ [])) ≡ octetos s ++ (ch % 256 ∷ [])
unfolding octetos
octetos-fin s ch = map-append (λ c. c % 256) s (ch ∷ [])

-- a character is stored
guardado :
    (b : Printbuf) (s : List ℕ) (ch : ℕ)
    → Impreso b s
    → juntar b.salidas ++ leer (update b.buf b.idx (ch % 256)) 0 (suc b.idx)
      ≡ octetos (s ++ (ch ∷ []))
guardado b s ch h =
    ap (λ r. juntar b.salidas ++ r) (leer-update b.buf b.idx 0 b.idx (ch % 256) (omega arith))
    ∙ sym (append_assoc (juntar b.salidas) (leer b.buf 0 b.idx) (ch % 256 ∷ []))
    ∙ ap (λ r. r ++ (ch % 256 ∷ [])) h.junto
    ∙ sym (octetos-fin s ch)

queda-Impreso :
    (b : Printbuf) (s : List ℕ) (ch : ℕ)
    → Impreso b s
    → b.idx + 1 ≢ 255
    → Impreso (contar_uno (guardar ch b)) (s ++ (ch ∷ []))
unfolding guardar contar_uno
queda-Impreso b s ch h n =
    let k : b.idx + 1 ≡ suc b.idx = omega arith in
    record {
      cabe = (let c = h.cabe in omega arith);
      cuenta = (let c = h.cuenta in omega (arith, length-append s (ch ∷ [])));
      junto =
          ap (λ i. juntar b.salidas ++ leer (update b.buf b.idx (ch % 256)) 0 i) k
          ∙ guardado b s ch h;
      caben = h.caben;
    }

sale-Impreso :
    (b : Printbuf) (s : List ℕ) (ch : ℕ)
    → Impreso b s
    → Impreso (contar_uno (record (vaciar (guardar ch b)) { idx = 0 })) (s ++ (ch ∷ []))
unfolding vaciar guardar contar_uno leer
sale-Impreso b s ch h =
    let k : b.idx + 1 ≡ suc b.idx = omega arith in
    let area = leer (update b.buf b.idx (ch % 256)) 0 (b.idx + 1) in
    record {
      cabe = omega arith;
      cuenta = (let c = h.cuenta in omega (arith, length-append s (ch ∷ [])));
      junto =
          append-nil (juntar (b.salidas ++ (area ∷ [])))
          ∙ juntar-fin b.salidas area
          ∙ ap (λ i. juntar b.salidas ++ leer (update b.buf b.idx (ch % 256)) 0 i) k
          ∙ guardado b s ch h;
      caben = Caben-fin area h.caben (
          let c = h.cabe in
          omega (arith, length-leer (update b.buf b.idx (ch % 256)) 0 (b.idx + 1)));
    }

putch-Impreso :
    (b : Printbuf) (s : List ℕ) (ch : ℕ) → Impreso b s → Impreso (putch ch b) (s ++ (ch ∷ []))
unfolding putch
putch-Impreso b s ch h = segun (b.idx + 1 == 255) refl
  where
    segun :
        (c : Bool)
        → (b.idx + 1 == 255) ≡ c
        → Impreso
            (if c
              then contar_uno (record (vaciar (guardar ch b)) { idx = 0 })
              else contar_uno (guardar ch b))
            (s ++ (ch ∷ []))
    segun true q = sale-Impreso b s ch h
    segun false q = queda-Impreso b s ch h (λ e. let f = q in ground arith)

poner_todos-Impreso :
    (t : List ℕ) (b : Printbuf) (s : List ℕ) → Impreso b s → Impreso (poner_todos t b) (s ++ t)
unfolding poner_todos
poner_todos-Impreso [] b s h = subst (Impreso b) (sym (append-nil s)) h
poner_todos-Impreso (ch ∷ t) b s h =
    subst (Impreso (poner_todos t (putch ch b))) (append_assoc s (ch ∷ []) t)
      (poner_todos-Impreso t (putch ch b) (s ++ (ch ∷ [])) (putch-Impreso b s ch h))

-- Where the format prints s, `vcprintf` returns the length of s, and the areas that it hands to
-- `sys_cputs` fit in the buffer and are, one after the other, the bytes of s.
pub vcprintf-Emitido :
    (m : ℕ → ℕ) (fmt : List ℕ) (args : List Arg) (s : List ℕ)
    → vprintfmt fmt args ≡ some s
    → (areas : List (List ℕ)) × (vcprintf m fmt args ≡ some (length s, areas))
      × (juntar areas ≡ octetos s)
      × Caben areas
unfolding vcprintf vaciar juntar octetos leer
vcprintf-Emitido m fmt args s e =
    let b = poner_todos s (record { idx = 0; cnt = 0; buf = m; salidas = [] }) in
    let h : Impreso b s =
      poner_todos-Impreso s (record { idx = 0; cnt = 0; buf = m; salidas = [] }) []
        (record { cabe = omega arith; cuenta = refl; junto = refl; caben = ninguna }) in
    let cuenta = h.cuenta in
    (
      b.salidas ++ (leer b.buf 0 b.idx ∷ []),
      ground arith,
      juntar-fin b.salidas (leer b.buf 0 b.idx) ∙ h.junto,
      Caben-fin (leer b.buf 0 b.idx) h.caben
          (let c = h.cabe in omega (arith, length-leer b.buf 0 b.idx)),
    )
