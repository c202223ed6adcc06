-- ===== src/Consola/Pruebas.antt =====
-- The input buffer of the console with a few characters, and the theorems there.
use sistemas_operarivos_fiub.Base.{
  ℕ, zero, suc, ◌≡◌, ◌++◌, ◌%◌, refl, List, [], ◌∷◌, get_or, drop, update, arith,
}
use sistemas_operarivos_fiub.Consola.{Cons, siguiente_pos, meter, cons_intr, tomar, cons_getc}
use sistemas_operarivos_fiub.Consola.Cola.{Cola, tramo, recibidos, cons_getc-Cola, meter-desborde}

-- two characters wait, the second at the beginning of the array
abbrev dando_la_vuelta : Cons
dando_la_vuelta = record { buf = λ i. i % 256; rpos = 511; wpos = 1 }

dos : Cola dando_la_vuelta (255 ∷ 0 ∷ [])
unfolding tramo siguiente_pos
dos = record { dentro = omega arith; cabe = omega arith; final = refl; texto = refl }

vuelta_run : (cons_getc [] (b'x' ∷ []) dando_la_vuelta).0 ≡ 255
unfolding cons_getc cons_intr meter tomar siguiente_pos update
vuelta_run = refl

cons_getc-Cola_example :
    (b' : Cons) × (cons_getc (b'a' ∷ 0 ∷ []) (b'x' ∷ []) dando_la_vuelta
      ≡ (get_or (((255 ∷ 0 ∷ []) ++ recibidos (b'a' ∷ 0 ∷ [])) ++ recibidos (b'x' ∷ [])) 0 0, b'))
    × Cola b' (drop 1 (((255 ∷ 0 ∷ []) ++ recibidos (b'a' ∷ 0 ∷ [])) ++ recibidos (b'x' ∷ [])))
unfolding recibidos
cons_getc-Cola_example =
    cons_getc-Cola (b'a' ∷ 0 ∷ []) (b'x' ∷ []) dando_la_vuelta (255 ∷ 0 ∷ []) dos (omega arith)

-- 511 characters wait
abbrev llena : Cons
llena = record { buf = λ i. 7; rpos = 0; wpos = 511 }

abbrev sietes : ℕ → List ℕ
sietes zero = []
sietes (suc n) = 7 ∷ sietes n

llena-Cola : Cola llena (sietes 511)
unfolding tramo siguiente_pos
llena-Cola = record { dentro = omega arith; cabe = omega arith; final = refl; texto = refl }

desborda : Cola (meter 9 llena) []
desborda = meter-desborde 9 llena (sietes 511) llena-Cola refl
