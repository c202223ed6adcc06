-- ===== src/Planificador/Contrato/Rango.antt =====
-- The priorities and the counters after `sched_prioridades`.
use sistemas_operarivos_fiub.Base.{
  ℕ, ◌+◌, ◌%◌, ◌^◌, ◌≤◌, ◌<◌, ◌≡◌, inl, inr, refl, sym, ap, ◌∙◌, subst, true, ◌&&◌, some, ◌==◌,
  arith, Bool-cases, Option-cases, update, update_keep, update_same,
}
use sistemas_operarivos_fiub.Planificador.Tipos.{
  Env, Estado, Nucleo, Salida, corre, parada, monitor, nenv, prioridad_max, es_runnable, es_running,
}
use sistemas_operarivos_fiub.Planificador.Correr.{
  soltar, env_run, sched_halt, actualizar_stats_proceso,
}
use sistemas_operarivos_fiub.Planificador.Prioridades.{
  ajustar, correr_elegido, correr_actual, sched_prioridades,
}
use sistemas_operarivos_fiub.Planificador.Campos.{
  anotar_fin-keep, actualizar-keep, soltar-keep, ajustar-keep, ajustar-le,
}
use sistemas_operarivos_fiub.Planificador.Contrato.Eleccion.{
  Decision, elige, nadie, decidir, correr_elegido-corre, anotado, anotado-priority,
}
use sistemas_operarivos_fiub.Planificador.Contrato.Estados.{preparado}

-- the kernel with which the scheduler leaves
abbrev pub nucleo_de : Salida → Nucleo
nucleo_de (corre e k) = k
nucleo_de (parada k) = k
nucleo_de (monitor k) = k

abbrev pub EnRango : Nucleo → Type 0
EnRango k = (j : ℕ) → (k.envs j).env_priority ≤ prioridad_max

env_run-priority :
    (cpu e : ℕ) (k : Nucleo) (j : ℕ)
    → ((nucleo_de (env_run cpu e k)).envs j).env_priority ≡ (k.envs j).env_priority
unfolding env_run
env_run-priority cpu e k j =
    update_keep (λ (p : Env). p.env_priority) (soltar k e) e _ refl j
    ∙ soltar-keep (λ (p : Env). p.env_priority) k e (λ p s. refl) j

sched_halt-priority :
    (k : Nucleo) (j : ℕ)
    → ((nucleo_de (sched_halt k)).envs j).env_priority ≡ (k.envs j).env_priority
unfolding sched_halt
sched_halt-priority k j = ground arith

correr_actual-priority :
    (cpu : ℕ) (k : Nucleo) (j : ℕ)
    → ((nucleo_de (correr_actual cpu k)).envs j).env_priority ≡ (k.envs j).env_priority
correr_actual-priority cpu k j = elim (Option-cases k.curenv) [
  | inl q ↦ unfold correr_actual in rw (q, correr_actual) (sched_halt-priority k j)
  | inr (c, q) ↦
      elim (Bool-cases (es_running (k.envs c).env_status && ((k.envs c).env_cpunum == cpu))) [
        | inl b ↦
            unfold correr_actual in
            rw (q, b, correr_actual) (env_run-priority cpu c (record k { last_env = some c }) j)
        | inr b ↦ unfold correr_actual in rw (q, b, correr_actual) (sched_halt-priority k j)
      ]
]

preparado-priority :
    (e : ℕ) (k : Nucleo) (j : ℕ)
    → ((preparado e k).envs j).env_priority ≡ (ajustar e k.envs j).env_priority
unfolding preparado
preparado-priority e k j =
    actualizar-keep (λ (p : Env). p.env_priority) e (record k { envs = ajustar e k.envs })
      (λ p a b c. refl) j

correr_elegido-priority :
    (cpu e : ℕ) (k : Nucleo) (j : ℕ)
    → ((nucleo_de (correr_elegido cpu e k)).envs j).env_priority ≡ (ajustar e k.envs j).env_priority
unfolding correr_elegido preparado
correr_elegido-priority cpu e k j =
    env_run-priority cpu e (preparado e k) j ∙ preparado-priority e k j

-- Priorities of at most `prioridad_max` stay so over a turn of `sched_prioridades`, whatever it
-- decides.
pub sched_prioridades-EnRango :
    (cpu : ℕ) (k : Nucleo) → EnRango k → EnRango (nucleo_de (sched_prioridades cpu k))
sched_prioridades-EnRango cpu k r j = by_decision (decidir cpu k)
  where
    m : Nucleo
    m = anotado k

    before : (i : ℕ) → (m.envs i).env_priority ≤ prioridad_max
    before i = omega (arith, r i, anotado-priority k i)

    Fits : Salida → Type 0
    Fits s = ((nucleo_de s).envs j).env_priority ≤ prioridad_max

    by_decision : Decision cpu k → Fits (sched_prioridades cpu k)
    by_decision (elige e c q) = subst Fits (sym q) (
        omega
          (arith, correr_elegido-priority cpu e m j, ajustar-le e m.envs j (before e) (before j)))
    by_decision (nadie n q) =
        subst Fits (sym q) (omega (arith, correr_actual-priority cpu m j, before j))

preparado-counters :
    (e : ℕ) (k : Nucleo)
    → (((preparado e k).envs e).env_runs ≡ ((ajustar e k.envs e).env_runs + 1) % 2 ^ 32)
      × (((preparado e k).envs e).env_count ≡ (ajustar e k.envs e).env_count + 1)
unfolding preparado actualizar_stats_proceso
preparado-counters e k = (
  ap (λ (p : Env). p.env_runs) (update_same (ajustar e k.envs) e _),
  ap (λ (p : Env). p.env_count) (update_same (ajustar e k.envs) e _),
)

-- How often the environment has run and been chosen, after it is run.
correr_elegido-runs :
    (cpu e : ℕ) (k : Nucleo) {i : ℕ} {k' : Nucleo}
    → correr_elegido cpu e k ≡ corre i k'
    → ((k'.envs e).env_runs ≡ ((k.envs e).env_runs + 2) % 2 ^ 32)
      × ((k'.envs e).env_count ≡ (k.envs e).env_count + 1)
correr_elegido-runs cpu e k {i} {k'} h =
    subst
      (λ (t : Nucleo).
        ((t.envs e).env_runs ≡ ((k.envs e).env_runs + 2) % 2 ^ 32)
        × ((t.envs e).env_count ≡ (k.envs e).env_count + 1))
      (final h)
      (
        ap (λ (p : Env). p.env_runs) at
            ∙ ap (λ x. (x + 1) % 2 ^ 32)
                (soltar-keep (λ (p : Env). p.env_runs) (preparado e k) e (λ p s. refl) e ∙ runs)
            ∙ twice (k.envs e).env_runs,
        ap (λ (p : Env). p.env_count) at
            ∙ soltar-keep (λ (p : Env). p.env_count) (preparado e k) e (λ p s. refl) e
            ∙ count,
      )
  where
    s : ℕ → Env
    s = soltar (preparado e k) e

    new : Env
    new = record (s e) {
      env_status = Estado.env_running;
      env_runs = ((s e).env_runs + 1) % 2 ^ 32;
      env_cpunum = cpu;
    }

    at : update s e new e ≡ new
    at = update_same s e new

    final :
        correr_elegido cpu e k ≡ corre i k'
        → record (preparado e k) { envs = update s e new; curenv = some e } ≡ k'
    final h = unfold correr_elegido env_run preparado in cc

    runs : ((preparado e k).envs e).env_runs ≡ ((k.envs e).env_runs + 1) % 2 ^ 32
    runs =
        (preparado-counters e k).0
        ∙ ap (λ x. (x + 1) % 2 ^ 32)
            (ajustar-keep (λ (p : Env). p.env_runs) e k.envs (λ p r. refl) e)

    count : ((preparado e k).envs e).env_count ≡ (k.envs e).env_count + 1
    count =
        (preparado-counters e k).1
        ∙ ap (λ x. x + 1) (ajustar-keep (λ (p : Env). p.env_count) e k.envs (λ p r. refl) e)

    twice : (x : ℕ) → ((x + 1) % 2 ^ 32 + 1) % 2 ^ 32 ≡ (x + 2) % 2 ^ 32
    twice x = omega arith

anotado-counters :
    (k : Nucleo) (j : ℕ)
    → (((anotado k).envs j).env_runs ≡ (k.envs j).env_runs)
      × (((anotado k).envs j).env_count ≡ (k.envs j).env_count)
unfolding anotado
anotado-counters k j = (
  anotar_fin-keep (λ (p : Env). p.env_runs) (record k { time = k.time + 1 }) (λ p t. refl) j,
  anotar_fin-keep (λ (p : Env). p.env_count) (record k { time = k.time + 1 }) (λ p t. refl) j,
)

-- While some runnable environment `j` has a priority in the range, the environment `e` that
-- `sched_prioridades` runs is counted as chosen once and as run twice: both
-- `actualizar_stats_proceso` and `env_run` add 1 to `env_runs`.
pub sched_prioridades-runs :
    (cpu j : ℕ) (k : Nucleo) {e : ℕ} {k' : Nucleo}
    → j < nenv
    → es_runnable (k.envs j).env_status ≡ true
    → (k.envs j).env_priority ≤ prioridad_max
    → sched_prioridades cpu k ≡ corre e k'
    → ((k'.envs e).env_runs ≡ ((k.envs e).env_runs + 2) % 2 ^ 32)
      × ((k'.envs e).env_count ≡ (k.envs e).env_count + 1)
sched_prioridades-runs cpu j k {e} {k'} l t r h = by_decision (decidir cpu k)
  where
    Counted : ℕ → Type 0
    Counted i =
        ((k'.envs i).env_runs ≡ ((k.envs i).env_runs + 2) % 2 ^ 32)
        × ((k'.envs i).env_count ≡ (k.envs i).env_count + 1)

    by_decision : Decision cpu k → Counted e
    by_decision (elige i c q) =
        let n = correr_elegido-runs cpu i (anotado k) (sym q ∙ h) in
        subst Counted (correr_elegido-corre cpu i (anotado k) (sym q ∙ h)) (
          n.0 ∙ ap (λ x. (x + 2) % 2 ^ 32) (anotado-counters k i).0,
          n.1 ∙ ap (λ x. x + 1) (anotado-counters k i).1,
        )
    by_decision (nadie n q) = absurd (omega (arith, n j l t, r))
