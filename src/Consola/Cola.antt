-- ===== src/Consola/Cola.antt =====
-- The input buffer of the console as a queue.
use sistemas_operarivos_fiub.Base.{
  ℕ, zero, suc, ◌+◌, ◌%◌, ◌<◌, ◌≡◌, ◌≢◌, refl, sym, ap, ◌∙◌, subst, Bool, true, false, List, [],
  ◌∷◌, ◌++◌, length, length-append, append_assoc, append-nil, ◌==◌, if◌then◌else◌, get_or, drop,
  update, update_same, update_other, arith,
}
use sistemas_operarivos_fiub.Consola.{Cons, siguiente_pos, meter, cons_intr, tomar, cons_getc}

-- n characters of the buffer from a position on
unfoldable pub tramo : (ℕ → ℕ) → ℕ → ℕ → List ℕ
tramo buf pos zero = []
tramo buf pos (suc n) = buf pos ∷ tramo buf (siguiente_pos pos) n

-- The characters that wait are l, the oldest first.
pub record Cola (b : Cons) (l : List ℕ) : Type 0 where
  pub dentro : b.rpos < 512
  pub cabe : length l < 512
  pub final : b.wpos ≡ (b.rpos + length l) % 512
  pub texto : tramo b.buf b.rpos (length l) ≡ l

-- what is kept of what a device gives
unfoldable pub recibidos : List ℕ → List ℕ
recibidos [] = []
recibidos (c ∷ cs) = elim (c == 0) [ true ↦ recibidos cs | false ↦ c % 256 ∷ recibidos cs ]

siguiente_pos_mod : (p : ℕ) → p < 512 → siguiente_pos p ≡ (p + 1) % 512
unfolding siguiente_pos
siguiente_pos_mod p h = ground arith

tramo-update :
    (buf : ℕ → ℕ) (w p n x : ℕ)
    → p < 512
    → n < 512
    → w ≡ (p + n) % 512
    → tramo (update buf w x) p (suc n) ≡ tramo buf p n ++ (x ∷ [])
unfolding tramo
tramo-update buf w p zero x h k e =
    let q : p ≡ w = omega arith in
    ap (λ y. y ∷ []) (subst (λ j. update buf w x j ≡ x) (sym q) (update_same buf w x))
tramo-update buf w p (suc n) x h k e =
    let s = siguiente_pos_mod p h in
    let d : p ≢ w = λ q. omega arith in
    let r = tramo-update buf w (siguiente_pos p) n x (omega arith) (omega arith) (omega arith) in
    λ i. update_other buf w x p d i ∷ r i

meter-Cola :
    (c : ℕ) (b : Cons) (l : List ℕ)
    → Cola b l
    → length l < 511
    → Cola (meter c b) (l ++ (c % 256 ∷ []))
unfolding meter
meter-Cola c b l q h =
    let n = length-append l (c % 256 ∷ []) in
    let d = q.dentro in
    let f = q.final in
    let s = siguiente_pos_mod b.wpos (omega arith) in
    let largo : length (l ++ (c % 256 ∷ [])) ≡ suc (length l) = omega arith in
    record {
      dentro = d;
      cabe = omega arith;
      final = omega arith;
      texto =
          ap (λ k. tramo (update b.buf b.wpos (c % 256)) b.rpos k) largo
          ∙ tramo-update b.buf b.wpos b.rpos (length l) (c % 256) d (omega arith) f
          ∙ ap (λ t. t ++ (c % 256 ∷ [])) q.texto;
    }

-- With 511 characters waiting, one more empties the buffer.
pub meter-desborde :
    (c : ℕ) (b : Cons) (l : List ℕ) → Cola b l → length l ≡ 511 → Cola (meter c b) []
unfolding meter tramo
meter-desborde c b l q h =
    let d = q.dentro in
    let f = q.final in
    let s = siguiente_pos_mod b.wpos (omega arith) in
    record { dentro = d; cabe = omega arith; final = omega arith; texto = refl }

cons_intr-Cola :
    (cs : List ℕ) (b : Cons) (l : List ℕ)
    → Cola b l
    → length l + length (recibidos cs) < 512
    → Cola (cons_intr cs b) (l ++ recibidos cs)
unfolding cons_intr recibidos
cons_intr-Cola [] b l q h = subst (Cola b) (sym (append-nil l)) q
cons_intr-Cola (c ∷ cs) b l q h =
    segun (c == 0) h (λ k. cons_intr-Cola cs b l q k)
      (λ m k. cons_intr-Cola cs (meter c b) (l ++ (c % 256 ∷ [])) (meter-Cola c b l q m) k)
  where
    segun :
        (t : Bool)
        → length l + length (elim t [ true ↦ recibidos cs | false ↦ c % 256 ∷ recibidos cs ]) < 512
        → (length l + length (recibidos cs) < 512 → Cola (cons_intr cs b) (l ++ recibidos cs))
        → (length l < 511
            → length (l ++ (c % 256 ∷ [])) + length (recibidos cs) < 512
            → Cola (cons_intr cs (meter c b)) ((l ++ (c % 256 ∷ [])) ++ recibidos cs))
        → Cola
            (elim t [ true ↦ cons_intr cs b | false ↦ cons_intr cs (meter c b) ])
            (l ++ elim t [ true ↦ recibidos cs | false ↦ c % 256 ∷ recibidos cs ])
    segun true k x y = x k
    segun false k x y =
        let n = length-append l (c % 256 ∷ []) in
        subst (Cola (cons_intr cs (meter c b))) (append_assoc l (c % 256 ∷ []) (recibidos cs))
          (y (omega arith) (omega arith))

tomar-Cola :
    (b : Cons) (c : ℕ) (r : List ℕ) → Cola b (c ∷ r) → (b' : Cons) × (tomar b ≡ (c, b')) × Cola b' r
unfolding tomar tramo
tomar-Cola b c r q =
    let d = q.dentro in
    let k = q.cabe in
    let f = q.final in
    let s = siguiente_pos_mod b.rpos d in
    let t = q.texto in
    let primero : b.buf b.rpos ≡ c = ap (λ x. get_or x 0 0) t in
    let n : (b.rpos == b.wpos) ≡ false = ground arith in
    (
      record b { rpos = siguiente_pos b.rpos },
      (λ i. if n i then (0, b) else (primero i, record b { rpos = siguiente_pos b.rpos })),
      record {
        dentro = omega arith;
        cabe = omega arith;
        final = omega arith;
        texto = ap (λ x. drop 1 x) t;
      },
    )

tomar-vacia : (b : Cons) → Cola b [] → tomar b ≡ (0, b)
unfolding tomar
tomar-vacia b q =
    let d = q.dentro in
    let f = q.final in let e : (b.rpos == b.wpos) ≡ true = ground arith in ground arith

tomar-primero :
    (b : Cons) (l : List ℕ)
    → Cola b l
    → (b' : Cons) × (tomar b ≡ (get_or l 0 0, b')) × Cola b' (drop 1 l)
tomar-primero b [] q = (b, tomar-vacia b q, q)
tomar-primero b (c ∷ r) q = tomar-Cola b c r q

-- Where the characters that wait and those that the devices give are fewer than 512, `cons_getc` gives
-- the oldest of them, the serial port's before the keyboard's, and leaves the others waiting in order;
-- where there are none it gives 0.
pub cons_getc-Cola :
    (serie teclado : List ℕ) (b : Cons) (l : List ℕ)
    → Cola b l
    → length l + length (recibidos serie) + length (recibidos teclado) < 512
    → (b' : Cons) × (cons_getc serie teclado b
        ≡ (get_or ((l ++ recibidos serie) ++ recibidos teclado) 0 0, b'))
      × Cola b' (drop 1 ((l ++ recibidos serie) ++ recibidos teclado))
unfolding cons_getc
cons_getc-Cola serie teclado b l q h =
    let n = length-append l (recibidos serie) in
    let p = cons_intr-Cola serie b l q (omega arith) in
    tomar-primero (cons_intr teclado (cons_intr serie b))
      ((l ++ recibidos serie) ++ recibidos teclado)
      (cons_intr-Cola teclado (cons_intr serie b) (l ++ recibidos serie) p (omega arith))
