-- ===== src/Fisopfs/Entradas/Contiguas.antt =====
-- The entries in use of a directory stand in its first cells, and stay there when one is added or
-- taken out.
use sistemas_operarivos_fiub.Base.{
  ℕ, zero, suc, ◌+◌, ◌-◌, ◌≤◌, ◌<◌, ◌≡◌, ◌≢◌, ◌⊎◌, inl, inr, refl, ap, ◌∙◌, true, false, some, ◌==◌,
  ==_iff, ==-ne, ==-refl, nat_eq_cases, arith, update, update_same, update_other, first_from,
  IsFirst, first_from-some, first_from_unique,
}
use sistemas_operarivos_fiub.Fisopfs.Tipos.{Entrada, Inodo, entrada_vacia, max_dir_entries}
use sistemas_operarivos_fiub.Fisopfs.Entradas.{hueco, desplazar, quitar}

-- The first `usadas` cells are in use, and no other.
pub record Contiguas (e : ℕ → Entrada) (usadas : ℕ) : Type 0 where
  pub llenas : (i : ℕ) → i < usadas → (e i).inodo ≢ 0
  pub vacias : (i : ℕ) → usadas ≤ i → (e i).inodo ≡ 0

-- The room that the search finds is the cell after the last entry.
pub first_from-hueco :
    (e : ℕ → Entrada) {usadas i : ℕ}
    → Contiguas e usadas
    → first_from (hueco e) 0 max_dir_entries ≡ some i
    → (i ≡ usadas) × (i < max_dir_entries)
unfolding hueco
first_from-hueco e {usadas} {i} c h = (
  elim (order i usadas) [
    | inl l ↦ absurd (c.llenas i l ((==_iff (e i).inodo 0).0 f.passes))
    | inr (inl q) ↦ q
    | inr (inr g) ↦ absurd (
        clash usadas ((==_iff (e usadas).inodo 0).1 (c.vacias usadas (omega arith)))
          (f.earlier_fail usadas (omega arith) g))
  ],
  omega (arith, f.upper),
)
  where
    f : IsFirst (hueco e) 0 max_dir_entries i
    f = first_from-some (hueco e) 0 max_dir_entries h

    order : (a b : ℕ) → (a < b) ⊎ ((a ≡ b) ⊎ (b < a))
    order a b = grind arith

    clash : (u : ℕ) → ((e u).inodo == 0) ≡ true → ((e u).inodo == 0) ≡ false → ⊥
    clash u p q = cc

-- While there is room the search succeeds.
pub first_from-hueco_room :
    (e : ℕ → Entrada) (usadas : ℕ)
    → Contiguas e usadas
    → usadas < max_dir_entries
    → first_from (hueco e) 0 max_dir_entries ≡ some usadas
unfolding hueco
first_from-hueco_room e usadas c l = first_from_unique (hueco e) 0 max_dir_entries usadas (record {
  lower = omega arith;
  upper = omega arith;
  passes = (==_iff (e usadas).inodo 0).1 (c.vacias usadas (omega arith));
  earlier_fail = λ j a b. ==-ne (e j).inodo 0 (c.llenas j b);
})

before : (a b : ℕ) → (a < b) ⊎ (b ≤ a)
before a b = grind arith

pub update-Contiguas :
    (e : ℕ → Entrada) (usadas : ℕ) (nueva : Entrada)
    → Contiguas e usadas
    → nueva.inodo ≢ 0
    → Contiguas (update e usadas nueva) (suc usadas)
unfolding update
update-Contiguas e usadas nueva c ne = record {
  llenas = λ i l. elim (nat_eq_cases i usadas) [
    | inl q ↦ rw (q, ==-refl usadas) ne
    | inr q ↦ rw (==-ne i usadas q) (c.llenas i (omega arith))
  ];
  vacias = λ i l. rw (==-ne i usadas (omega arith)) (c.vacias i (omega arith));
}

pub desplazar-outside :
    (e : ℕ → Entrada) (from n x : ℕ) → (x < from) ⊎ (from + n ≤ x) → desplazar e from n x ≡ e x
unfolding desplazar
desplazar-outside e from zero x h = refl
desplazar-outside e from (suc n) x h =
    desplazar-outside (update e from (e (suc from))) (suc from) n x (outer h)
    ∙ update_other e from (e (suc from)) x (other h)
  where
    outer : (x < from) ⊎ (from + suc n ≤ x) → (x < suc from) ⊎ (suc from + n ≤ x)
    outer (inl a) = inl (omega arith)
    outer (inr a) = inr (omega arith)

    other : (x < from) ⊎ (from + suc n ≤ x) → x ≢ from
    other (inl a) = omega arith
    other (inr a) = omega arith

pub desplazar-inside :
    (e : ℕ → Entrada) (from n x : ℕ) → from ≤ x → x < from + n → desplazar e from n x ≡ e (suc x)
unfolding desplazar
desplazar-inside e from zero x a b = absurd (omega arith)
desplazar-inside e from (suc n) x a b = elim (nat_eq_cases x from) [
  | inl q ↦ rw q (
      desplazar-outside (update e from (e (suc from))) (suc from) n from (inl (omega arith))
      ∙ update_same e from (e (suc from)))
  | inr q ↦
      desplazar-inside (update e from (e (suc from))) (suc from) n x (omega arith) (omega arith)
      ∙ update_other e from (e (suc from)) (suc x) (omega arith)
]

-- Taking out the entry `i` of `n` cells, the last of which may be the first free one.
pub quitar-Contiguas :
    (padre : Inodo) (usadas i n : ℕ)
    → Contiguas padre.entradas usadas
    → i < usadas
    → usadas ≤ n
    → n ≤ usadas + 1
    → Contiguas (quitar padre i n).entradas (usadas - 1)
unfolding quitar
quitar-Contiguas padre usadas i n c li ln lm = record { llenas = full; vacias = free }
  where
    e : ℕ → Entrada
    e = padre.entradas

    d : ℕ → Entrada
    d = desplazar e i (n - 1 - i)

    full : (x : ℕ) → x < usadas - 1 → (update d (n - 1) entrada_vacia x).inodo ≢ 0
    full x l = rw (update_other d (n - 1) entrada_vacia x (omega arith)) (elim (before x i) [
      | inl b ↦ rw (desplazar-outside e i (n - 1 - i) x (inl b)) (c.llenas x (omega arith))
      | inr a ↦
          rw (desplazar-inside e i (n - 1 - i) x a (omega arith)) (c.llenas (suc x) (omega arith))
    ])

    free : (x : ℕ) → usadas - 1 ≤ x → (update d (n - 1) entrada_vacia x).inodo ≡ 0
    free x l = elim (nat_eq_cases x (n - 1)) [
      | inl q ↦ rw q (ap (λ (m : Entrada). m.inodo) (update_same d (n - 1) entrada_vacia))
      | inr q ↦ rw (update_other d (n - 1) entrada_vacia x q) (elim (before x (n - 1)) [
        | inl b ↦
            rw (desplazar-inside e i (n - 1 - i) x (omega arith) (omega arith))
              (c.vacias (suc x) (omega arith))
        | inr a ↦
            rw (desplazar-outside e i (n - 1 - i) x (inr (omega arith))) (c.vacias x (omega arith))
      ])
    ]
