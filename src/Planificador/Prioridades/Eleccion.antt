-- ===== src/Planificador/Prioridades/Eleccion.antt =====
-- Which environment the loop of `sched_prioridades` chooses.
use sistemas_operarivos_fiub.Base.{
  ℕ, zero, suc, ◌+◌, ◌-◌, ◌%◌, ◌≤◌, ◌<◌, ◌≡◌, ◌⊎◌, inl, inr, refl, sym, subst, true, false, Option,
  none, some, arith, Bool-cases,
}
use sistemas_operarivos_fiub.Planificador.Tipos.{Env, nenv, prioridad_max, es_runnable}
use sistemas_operarivos_fiub.Planificador.Prioridades.{mejora, elegir}

-- the environment that the round `i` of the loop looks at
abbrev pub turno : ℕ → ℕ → ℕ
turno next i = (i + next) % nenv

-- The round in which `elegido` was chosen, with the priority `actual`: it is runnable, and those
-- seen before it are worse.
pub record Mejor (envs : ℕ → Env) (next n : ℕ) (elegido : Option ℕ) (actual : ℕ) : Type 0 where
  pub ronda : ℕ
  pub vista : ronda < n
  pub es_ella : elegido ≡ some (turno next ronda)
  pub puede : es_runnable (envs (turno next ronda)).env_status ≡ true
  pub suya : (envs (turno next ronda)).env_priority ≡ actual
  pub en_rango : actual ≤ prioridad_max
  pub antes :
      (j : ℕ)
      → j < ronda
      → es_runnable (envs (turno next j)).env_status ≡ true
      → actual < (envs (turno next j)).env_priority

-- After `n` rounds the best priority is `actual`: none of those seen is better.
pub record Rango (envs : ℕ → Env) (next n : ℕ) (elegido : Option ℕ) (actual : ℕ) : Type 0 where
  pub vistos :
      (i : ℕ)
      → i < n
      → es_runnable (envs (turno next i)).env_status ≡ true
      → actual ≤ (envs (turno next i)).env_priority
  pub origen : ((elegido ≡ none) × (actual ≡ prioridad_max + 1)) ⊎ Mejor envs next n elegido actual

Rango-start : (envs : ℕ → Env) (next : ℕ) → Rango envs next 0 none (prioridad_max + 1)
Rango-start envs next = record { vistos = λ i l. absurd (omega arith); origen = inl (refl, refl) }

last_or_before : (i n : ℕ) → i < suc n → (i ≡ n) ⊎ (i < n)
last_or_before i n l = grind arith

mejora-false :
    (envs : ℕ → Env) (ind actual : ℕ)
    → mejora envs ind actual ≡ false
    → es_runnable (envs ind).env_status ≡ true
    → actual ≤ (envs ind).env_priority
unfolding mejora
mejora-false envs ind actual b h = ground arith

mejora-true :
    (envs : ℕ → Env) (ind actual : ℕ)
    → mejora envs ind actual ≡ true
    → (es_runnable (envs ind).env_status ≡ true) × ((envs ind).env_priority < actual)
unfolding mejora
mejora-true envs ind actual b = ground arith

-- A round that finds nothing better.
Rango-keep :
    (envs : ℕ → Env) (next n : ℕ) (elegido : Option ℕ) (actual : ℕ)
    → mejora envs (turno next n) actual ≡ false
    → Rango envs next n elegido actual
    → Rango envs next (suc n) elegido actual
Rango-keep envs next n elegido actual b r = record {
  vistos = λ i l h. elim (last_or_before i n l) [
    | inl e ↦
        mejora-false envs (turno next i) actual
          (subst (λ k. mejora envs (turno next k) actual ≡ false) (sym e) b) h
    | inr l' ↦ r.vistos i l' h
  ];
  origen = later r.origen;
}
  where
    later :
        ((elegido ≡ none) × (actual ≡ prioridad_max + 1)) ⊎ Mejor envs next n elegido actual
        → ((elegido ≡ none) × (actual ≡ prioridad_max + 1)) ⊎ Mejor envs next (suc n) elegido actual
    later (inl o) = inl o
    later (inr m) = inr (record {
      ronda = m.ronda;
      vista = omega (arith, m.vista);
      es_ella = m.es_ella;
      puede = m.puede;
      suya = m.suya;
      en_rango = m.en_rango;
      antes = m.antes;
    })

-- A round that finds a better one.
Rango-take :
    (envs : ℕ → Env) (next n : ℕ) (elegido : Option ℕ) (actual : ℕ)
    → mejora envs (turno next n) actual ≡ true
    → Rango envs next n elegido actual
    → Rango envs next (suc n) (some (turno next n)) (envs (turno next n)).env_priority
Rango-take envs next n elegido actual b r =
    let t = mejora-true envs (turno next n) actual b in
    record {
      vistos = λ i l h. elim (last_or_before i n l) [
        | inl e ↦
            subst (λ k. (envs (turno next n)).env_priority ≤ (envs (turno next k)).env_priority)
              (sym e) (omega arith)
        | inr l' ↦ omega (arith, t.1, r.vistos i l' h)
      ];
      origen = inr (record {
        ronda = n;
        vista = omega arith;
        es_ella = refl;
        puede = t.0;
        suya = refl;
        en_rango = omega (arith, t.1, top r.origen);
        antes = λ j l h. omega (arith, t.1, r.vistos j l h);
      });
    }
  where
    top :
        ((elegido ≡ none) × (actual ≡ prioridad_max + 1)) ⊎ Mejor envs next n elegido actual
        → actual ≤ prioridad_max + 1
    top (inl o) = omega (arith, o.1)
    top (inr m) = omega (arith, m.en_rango)

elegir-Rango :
    (envs : ℕ → Env) (next from n : ℕ) (elegido : Option ℕ) (actual : ℕ)
    → Rango envs next from elegido actual
    → (a : ℕ) × Rango envs next (from + n) (elegir envs next from n elegido actual) a
unfolding elegir
elegir-Rango envs next from zero elegido actual r =
    let e : from ≡ from + 0 = omega arith in
    (actual, subst (λ k. Rango envs next k elegido actual) e r)
elegir-Rango envs next from (suc n) elegido actual r =
    let s : suc from + n ≡ from + suc n = omega arith in
    subst (λ k. (a : ℕ) × Rango envs next k (elegir envs next from (suc n) elegido actual) a) s
      (elim (Bool-cases (mejora envs (turno next from) actual)) [
        | inl b ↦ rw b (
            elegir-Rango envs next (suc from) n (some (turno next from))
              (envs (turno next from)).env_priority (Rango-take envs next from elegido actual b r))
        | inr b ↦ rw b (
            elegir-Rango envs next (suc from) n elegido actual
              (Rango-keep envs next from elegido actual b r))
      ])

-- Every environment has its round.
pub turno_of : (next j : ℕ) → j < nenv → (i : ℕ) × (i < nenv) × (turno next i ≡ j)
turno_of next j l = ((j + nenv - next % nenv) % nenv, omega arith, omega arith)

-- What the whole loop chooses, among the environments that are runnable with a priority of at most
-- `prioridad_max`: one of least priority, and of those the first in circular order from `next`.
pub record Elegida (envs : ℕ → Env) (next e : ℕ) : Type 0 where
  pub en_tabla : e < nenv
  pub puede : es_runnable (envs e).env_status ≡ true
  pub en_rango : (envs e).env_priority ≤ prioridad_max
  pub minima :
      (j : ℕ)
      → j < nenv
      → es_runnable (envs j).env_status ≡ true
      → (envs e).env_priority ≤ (envs j).env_priority
  pub ronda : ℕ
  pub en_ronda : turno next ronda ≡ e
  pub primera :
      (i : ℕ)
      → i < ronda
      → es_runnable (envs (turno next i)).env_status ≡ true
      → (envs e).env_priority < (envs (turno next i)).env_priority

todas_vistas :
    (envs : ℕ → Env) (next : ℕ) (elegido : Option ℕ) (actual : ℕ)
    → Rango envs next nenv elegido actual
    → (j : ℕ) → j < nenv
    → es_runnable (envs j).env_status ≡ true
    → actual ≤ (envs j).env_priority
todas_vistas envs next elegido actual r j l h =
    let (i, li, e) = turno_of next j l in
    subst (λ k. actual ≤ (envs k).env_priority) e
      (r.vistos i li (subst (λ k. es_runnable (envs k).env_status ≡ true) (sym e) h))

pub elegir-some :
    (envs : ℕ → Env) (next : ℕ) {e : ℕ}
    → elegir envs next 0 nenv none (prioridad_max + 1) ≡ some e
    → Elegida envs next e
elegir-some envs next {e} h =
    let (a, r) = elegir-Rango envs next 0 nenv none (prioridad_max + 1) (Rango-start envs next) in
    chosen a r r.origen
  where
    c : Option ℕ
    c = elegir envs next 0 nenv none (prioridad_max + 1)

    none_chosen : c ≡ none → ⊥
    none_chosen o = cc

    same : (k : ℕ) → c ≡ some k → k ≡ e
    same k o = cc

    chosen :
        (a : ℕ)
        → Rango envs next nenv c a
        → ((c ≡ none) × (a ≡ prioridad_max + 1)) ⊎ Mejor envs next nenv c a
        → Elegida envs next e
    chosen a r (inl o) = absurd (none_chosen o.0)
    chosen a r (inr m) =
        let q = same (turno next m.ronda) m.es_ella in
        let p : (envs e).env_priority ≡ a = subst (λ k. (envs k).env_priority ≡ a) q m.suya in
        record {
          en_tabla = subst (λ k. k < nenv) q (omega arith);
          puede = subst (λ k. es_runnable (envs k).env_status ≡ true) q m.puede;
          en_rango = omega (arith, p, m.en_rango);
          minima = λ j l t. omega (arith, p, todas_vistas envs next c a r j l t);
          ronda = m.ronda;
          en_ronda = q;
          primera = λ i l t. omega (arith, p, m.antes i l t);
        }

pub elegir-none :
    (envs : ℕ → Env) (next : ℕ)
    → elegir envs next 0 nenv none (prioridad_max + 1) ≡ none
    → (j : ℕ) → j < nenv
    → es_runnable (envs j).env_status ≡ true
    → prioridad_max < (envs j).env_priority
elegir-none envs next h j l t =
    let (a, r) = elegir-Rango envs next 0 nenv none (prioridad_max + 1) (Rango-start envs next) in
    omega (arith, top a r.origen, todas_vistas envs next c a r j l t)
  where
    c : Option ℕ
    c = elegir envs next 0 nenv none (prioridad_max + 1)

    clash : (k : ℕ) → c ≡ some k → ⊥
    clash k o = cc

    top :
        (a : ℕ)
        → ((c ≡ none) × (a ≡ prioridad_max + 1)) ⊎ Mejor envs next nenv c a
        → a ≡ prioridad_max + 1
    top a (inl o) = o.1
    top a (inr m) = absurd (clash (turno next m.ronda) m.es_ella)
