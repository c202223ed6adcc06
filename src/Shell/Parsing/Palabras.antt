-- ===== src/Shell/Parsing/Palabras.antt =====
-- The loop of `parse_exec` of TP1-shell/parsing.c over the words of a line.
use sistemas_operarivos_fiub.Base.{
  ℕ, zero, suc, ◌≤◌, ◌≡◌, refl, ap, ◌∙◌, Option, none, some, List, [], ◌∷◌, ◌++◌, length, drop,
  arith, length-append,
}
use sistemas_operarivos_fiub.Shell.Tipos.{espacio, Execcmd, Entorno}
use sistemas_operarivos_fiub.Shell.Lineas.{block_contains, hasta, tras}
use sistemas_operarivos_fiub.Shell.Lineas.Cortes.{corte, corte_tras, entero, entero_tras}
use sistemas_operarivos_fiub.Shell.Parsing.{
  exec_cmd_create, get_token, procesar, avanzar, recorrer, cerrar, parse_exec,
}

-- words: not empty, without spaces
pub data SonPalabras : List (List ℕ) → Type 0 where
  sin : SonPalabras []
  con :
      {x : ℕ} {xs : List ℕ} {ws : List (List ℕ)}
      → block_contains (x ∷ xs) espacio ≡ none
      → SonPalabras ws
      → SonPalabras ((x ∷ xs) ∷ ws)

-- the line of some words
unfoldable pub renglon : List (List ℕ) → List ℕ
renglon [] = []
renglon (w ∷ []) = w
renglon (w ∷ v ∷ ws) = w ++ (espacio ∷ renglon (v ∷ ws))

-- each word in order
unfoldable pub procesar_todas : Entorno → List (List ℕ) → Execcmd → Option Execcmd
procesar_todas e [] c = some c
procesar_todas e (w ∷ ws) c = elim (procesar e w c) [
  | none ↦ none
  | some c' ↦ procesar_todas e ws c'
]

avanzar-drop : (buf : List ℕ) (c : ℕ) → avanzar (drop (length (hasta buf c)) buf) ≡ tras buf c
unfolding avanzar hasta tras
avanzar-drop [] c = refl
avanzar-drop (x ∷ xs) c = ground (arith, avanzar-drop xs c)

-- one turn of the loop takes one word
pub recorrer-paso :
    (e : Entorno) (n x : ℕ) (xs w resto : List ℕ) (c : Execcmd)
    → hasta (x ∷ xs) espacio ≡ w
    → tras (x ∷ xs) espacio ≡ resto
    → recorrer e (suc n) (x ∷ xs) c
      ≡ elim (procesar e w c) [ none ↦ none | some c' ↦ recorrer e n resto c' ]
unfolding recorrer get_token
recorrer-paso e n x xs w resto c p q i = elim (procesar e (p i) c) [
  | none ↦ none
  | some c' ↦ recorrer e n ((avanzar-drop (x ∷ xs) espacio ∙ q) i) c'
]

una :
    (o : Option Execcmd) (f g : Execcmd → Option Execcmd)
    → ((c : Execcmd) → f c ≡ g c)
    → elim o [ none ↦ none | some c ↦ f c ] ≡ elim o [ none ↦ none | some c ↦ g c ]
una none f g h = refl
una (some c) f g h = h c

pub recorrer-vacio : (e : Entorno) (n : ℕ) (c : Execcmd) → recorrer e n [] c ≡ some c
unfolding recorrer
recorrer-vacio e zero c = refl
recorrer-vacio e (suc n) c = refl

menos : (w r : List ℕ) (x c : ℕ) {n : ℕ} → length ((x ∷ w) ++ (c ∷ r)) ≤ suc n → length r ≤ n
menos w r x c h = omega (arith, length-append (x ∷ w) (c ∷ r))

recorrer-renglon :
    (e : Entorno) (n : ℕ) {ws : List (List ℕ)} (c : Execcmd)
    → SonPalabras ws
    → length (renglon ws) ≤ n
    → recorrer e n (renglon ws) c ≡ procesar_todas e ws c
unfolding renglon procesar_todas
recorrer-renglon e n c sin h = recorrer-vacio e n c
recorrer-renglon e zero c (con p sin) h = absurd (omega arith)
recorrer-renglon e (suc n) c (con {x} {xs} p sin) h =
    recorrer-paso e n x xs (x ∷ xs) [] c (entero (x ∷ xs) espacio p)
      (entero_tras (x ∷ xs) espacio p)
    ∙ una (procesar e (x ∷ xs) c) (recorrer e n []) some (recorrer-vacio e n)
recorrer-renglon e zero c (con p (con q s)) h = absurd (omega arith)
recorrer-renglon e (suc n) c (con {x} {xs} p (con {x = y} {xs = ys} {ws = ws} q s)) h =
    let r = renglon ((y ∷ ys) ∷ ws) in
    recorrer-paso e n x (xs ++ (espacio ∷ r)) (x ∷ xs) r c (corte (x ∷ xs) r espacio p)
      (corte_tras (x ∷ xs) r espacio p)
    ∙ una (procesar e (x ∷ xs) c) (recorrer e n r) (procesar_todas e ((y ∷ ys) ∷ ws))
        (λ c'. recorrer-renglon e n c' (con q s) (menos xs r x espacio h))

-- A line of words, with a space between two of them, is parsed as its words are handled one by one
-- in order, and the result closed.
pub parse_exec-renglon :
    (e : Entorno) (ws : List (List ℕ))
    → SonPalabras ws
    → parse_exec e (renglon ws) ≡ elim (procesar_todas e ws (exec_cmd_create (renglon ws))) [
      | none ↦ none
      | some c ↦ cerrar c
    ]
unfolding parse_exec
parse_exec-renglon e ws s =
    ap (λ (o : Option Execcmd). elim o [ none ↦ none | some c ↦ cerrar c ])
      (recorrer-renglon e (length (renglon ws)) (exec_cmd_create (renglon ws)) s (omega arith))
