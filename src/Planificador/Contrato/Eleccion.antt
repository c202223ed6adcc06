-- ===== src/Planificador/Contrato/Eleccion.antt =====
-- Which environment `sched_prioridades` and the round-robin policy run.
use sistemas_operarivos_fiub.Base.{
  ℕ, ◌+◌, ◌≤◌, ◌<◌, ◌≡◌, ◌⊎◌, inl, inr, refl, sym, ap, ◌∙◌, true, false, none, arith, Bool-cases,
  Option-cases,
}
use sistemas_operarivos_fiub.Planificador.Tipos.{
  Env, Nucleo, Salida, corre, parada, monitor, nenv, prioridad_max, es_runnable,
}
use sistemas_operarivos_fiub.Planificador.Correr.{env_run, anotar_fin}
use sistemas_operarivos_fiub.Planificador.Prioridades.{
  elegir, siguiente, correr_elegido, correr_actual, sched_prioridades,
}
use sistemas_operarivos_fiub.Planificador.Prioridades.Eleccion.{
  turno, Elegida, elegir-some, elegir-none,
}
use sistemas_operarivos_fiub.Planificador.Campos.{anotar_fin-keep, curenv-anotar_fin}

-- No environment that is runnable has a priority of at most `prioridad_max`.
abbrev pub NadieElegible : (ℕ → Env) → Type 0
NadieElegible envs =
    (j : ℕ)
    → j < nenv
    → es_runnable (envs j).env_status ≡ true
    → prioridad_max < (envs j).env_priority

-- the array after the time has moved on and the end of the last environment is noted
unfoldable pub anotado : Nucleo → Nucleo
anotado k = anotar_fin (record k { time = k.time + 1 })

pub anotado-status : (k : Nucleo) (j : ℕ) → ((anotado k).envs j).env_status ≡ (k.envs j).env_status
unfolding anotado
anotado-status k j =
    anotar_fin-keep (λ (p : Env). p.env_status) (record k { time = k.time + 1 }) (λ p t. refl) j

pub anotado-priority :
    (k : Nucleo) (j : ℕ) → ((anotado k).envs j).env_priority ≡ (k.envs j).env_priority
unfolding anotado
anotado-priority k j =
    anotar_fin-keep (λ (p : Env). p.env_priority) (record k { time = k.time + 1 }) (λ p t. refl) j

pub anotado-curenv : (k : Nucleo) → (anotado k).curenv ≡ k.curenv
unfolding anotado
anotado-curenv k = curenv-anotar_fin (record k { time = k.time + 1 })

-- The choice reads the states and the priorities alone.
Elegida-ext :
    (a b : ℕ → Env) (next e : ℕ)
    → ((j : ℕ) → (a j).env_status ≡ (b j).env_status)
    → ((j : ℕ) → (a j).env_priority ≡ (b j).env_priority)
    → Elegida a next e
    → Elegida b next e
Elegida-ext a b next e s p c = record {
  en_tabla = c.en_tabla;
  puede = ap es_runnable (sym (s e)) ∙ c.puede;
  en_rango = omega (arith, c.en_rango, p e);
  minima = λ j l t. omega (arith, c.minima j l (ap es_runnable (s j) ∙ t), p e, p j);
  ronda = c.ronda;
  en_ronda = c.en_ronda;
  primera = λ i l t.
      omega (arith, c.primera i l (ap es_runnable (s (turno next i)) ∙ t), p e, p (turno next i));
}

-- What `sched_prioridades` does, by what the loop finds.
pub data Decision (cpu : ℕ) (k : Nucleo) : Type 0 where
  elige :
      (e : ℕ)
      → Elegida k.envs (siguiente k) e
      → sched_prioridades cpu k ≡ correr_elegido cpu e (anotado k)
      → Decision cpu k
  nadie :
      NadieElegible k.envs
      → sched_prioridades cpu k ≡ correr_actual cpu (anotado k)
      → Decision cpu k

pub decidir : (cpu : ℕ) (k : Nucleo) → Decision cpu k
decidir cpu k =
    elim (Option-cases (elegir (anotado k).envs (siguiente k) 0 nenv none (prioridad_max + 1))) [
      | inr (e, q) ↦
          elige e
            (Elegida-ext (anotado k).envs k.envs (siguiente k) e (anotado-status k)
              (anotado-priority k) (elegir-some (anotado k).envs (siguiente k) q))
            (unfold sched_prioridades anotado in rw (q, sched_prioridades))
      | inl q ↦
          nadie
            (λ j l t. omega (
              arith,
              elegir-none (anotado k).envs (siguiente k) q j l
                  (ap es_runnable (anotado-status k j) ∙ t),
              anotado-priority k j,
            ))
            (unfold sched_prioridades anotado in rw (q, sched_prioridades))
    ]

pub correr_elegido-corre :
    (cpu e : ℕ) (k : Nucleo) {i : ℕ} {k' : Nucleo} → correr_elegido cpu e k ≡ corre i k' → e ≡ i
unfolding correr_elegido env_run
correr_elegido-corre cpu e k h = ground arith

-- A CPU on which `sched_prioridades` runs nothing leaves no runnable environment waiting, provided
-- that their priorities are in the range.
pub sched_prioridades-ocioso :
    (cpu : ℕ) (k : Nucleo) {k' : Nucleo}
    → ((j : ℕ) → j < nenv → (k.envs j).env_priority ≤ prioridad_max)
    → (sched_prioridades cpu k ≡ parada k') ⊎ (sched_prioridades cpu k ≡ monitor k')
    → (j : ℕ) → j < nenv
    → es_runnable (k.envs j).env_status ≡ false
sched_prioridades-ocioso cpu k {k'} range h j l = by_decision (decidir cpu k) h
  where
    runs :
        (e : ℕ) (m : Nucleo)
        → (correr_elegido cpu e m ≡ parada k') ⊎ (correr_elegido cpu e m ≡ monitor k')
        → ⊥
    runs e m (inl q) = unfold correr_elegido env_run in cc
    runs e m (inr q) = unfold correr_elegido env_run in cc

    along :
        {s t : Salida}
        → s ≡ t
        → (s ≡ parada k') ⊎ (s ≡ monitor k')
        → (t ≡ parada k') ⊎ (t ≡ monitor k')
    along q (inl e) = inl (sym q ∙ e)
    along q (inr e) = inr (sym q ∙ e)

    by_decision :
        Decision cpu k
        → (sched_prioridades cpu k ≡ parada k') ⊎ (sched_prioridades cpu k ≡ monitor k')
        → es_runnable (k.envs j).env_status ≡ false
    by_decision (elige e c q) r = absurd (runs e (anotado k) (along q r))
    by_decision (nadie n q) r = elim (Bool-cases (es_runnable (k.envs j).env_status)) [
      | inl t ↦ absurd (omega (arith, n j l t, range j l))
      | inr f ↦ f
    ]
