-- ===== src/Planificador/Contrato/Estados.antt =====
-- The states and the priorities that a turn of the scheduler leaves behind.
use sistemas_operarivos_fiub.Base.{
  ℕ, ◌+◌, ◌%◌, ◌^◌, ◌≡◌, ◌≢◌, inl, inr, refl, sym, ap, ◌∙◌, subst, true, false, ◌&&◌, Option, none,
  some, ◌==◌, ==-ne, ==-refl, arith, Bool-cases, Option-cases, first_from, update, update_same,
  update_other, nat_eq_cases,
}
use sistemas_operarivos_fiub.Planificador.Tipos.{Env, env_running, Nucleo, corre, nenv, es_running}
use sistemas_operarivos_fiub.Planificador.Correr.{
  soltar, env_run, sched_halt, actualizar_stats_proceso, anotar_fin,
}
use sistemas_operarivos_fiub.Planificador.Prioridades.{
  ajustar, correr_elegido, correr_actual, sched_prioridades,
}
use sistemas_operarivos_fiub.Planificador.RoundRobin.{
  Politica, round_robin, prioridades, ninguna, en_turno, env_anterior, sched_round_robin,
  sin_politica, sched_yield,
}
use sistemas_operarivos_fiub.Planificador.Campos.{
  anotar_fin-keep, curenv-anotar_fin, actualizar-keep, ajustar-keep,
}
use sistemas_operarivos_fiub.Planificador.Contrato.Eleccion.{
  Decision, elige, nadie, decidir, anotado, anotado-status, anotado-curenv,
}

-- The CPU runs `e`, and what it was running before, if that is another one, is running no more.
pub record Exclusivo (cpu e : ℕ) (k k' : Nucleo) : Type 0 where
  pub actual : k'.curenv ≡ some e
  pub corriendo : (k'.envs e).env_status ≡ env_running
  pub en_cpu : (k'.envs e).env_cpunum ≡ cpu
  pub los_demas :
      (j : ℕ)
      → j ≢ e
      → es_running (k'.envs j).env_status ≡ true
      → (es_running (k.envs j).env_status ≡ true) × (k.curenv ≢ some j)

soltar-running :
    (k : Nucleo) (e j : ℕ)
    → j ≢ e
    → es_running (soltar k e j).env_status ≡ true
    → (es_running (k.envs j).env_status ≡ true) × (k.curenv ≢ some j)
soltar-running k e j ne h = current k.curenv refl
  where
    current :
        (c : Option ℕ)
        → k.curenv ≡ c
        → (es_running (k.envs j).env_status ≡ true) × (k.curenv ≢ some j)
    current none q = (idle q h, λ r. none_some (sym q ∙ r))
      where
        none_some : none ≡ some j → ⊥
        none_some r = cc

        idle :
            k.curenv ≡ none
            → es_running (soltar k e j).env_status ≡ true
            → es_running (k.envs j).env_status ≡ true
        idle q h = unfold soltar in ground arith
    current (some c) q = elim (nat_eq_cases j c) [
      | inl s ↦ absurd (released c q s h)
      | inr n ↦ (kept c q n h, λ r. n (some_some c (sym q ∙ r)))
    ]
      where
        some_some : (c : ℕ) → some c ≡ some j → j ≡ c
        some_some c r = cc

        released :
            (c : ℕ) → k.curenv ≡ some c → j ≡ c → es_running (soltar k e j).env_status ≡ true → ⊥
        released c q s h =
            let n : c ≢ e = λ r. ne (s ∙ r) in
            unfold soltar update in ground (arith, ==-ne c e n, ==-refl c)

        kept :
            (c : ℕ)
            → k.curenv ≡ some c
            → j ≢ c
            → es_running (soltar k e j).env_status ≡ true
            → es_running (k.envs j).env_status ≡ true
        kept c q n h = unfold soltar update in ground (arith, ==-ne j c n)

-- `env_run` in a kernel that has the states and the current environment of `k`.
env_run-Exclusivo :
    (cpu i : ℕ) (k m : Nucleo) {e : ℕ} {k' : Nucleo}
    → ((j : ℕ) → (m.envs j).env_status ≡ (k.envs j).env_status)
    → m.curenv ≡ k.curenv
    → env_run cpu i m ≡ corre e k'
    → Exclusivo cpu e k k'
env_run-Exclusivo cpu i k m {e} {k'} s c h =
    subst (λ x. Exclusivo cpu x k k') (chosen h)
      (subst (Exclusivo cpu i k) (final h) (record {
        actual = refl;
        corriendo = ap (λ (p : Env). p.env_status) (update_same (soltar m i) i new);
        en_cpu = ap (λ (p : Env). p.env_cpunum) (update_same (soltar m i) i new);
        los_demas = λ j ne r.
            let o = soltar-running m i j ne (
              ap (λ (p : Env). es_running p.env_status) (sym (update_other (soltar m i) i new j ne))
              ∙ r) in
            (ap es_running (sym (s j)) ∙ o.0, λ q. o.1 (c ∙ q));
      }))
  where
    new : Env
    new = record (soltar m i i) {
      env_status = env_running;
      env_runs = ((soltar m i i).env_runs + 1) % 2 ^ 32;
      env_cpunum = cpu;
    }

    after : Nucleo
    after = record m { envs = update (soltar m i) i new; curenv = some i }

    chosen : env_run cpu i m ≡ corre e k' → i ≡ e
    chosen h = unfold env_run in cc

    final : env_run cpu i m ≡ corre e k' → after ≡ k'
    final h = unfold env_run in cc

-- the kernel in which a chosen environment is run
unfoldable pub preparado : ℕ → Nucleo → Nucleo
preparado e k = record (actualizar_stats_proceso e (record k { envs = ajustar e k.envs })) {
  last_env = some e;
}

pub preparado-keep {κ} :
    {B : Type κ} (f : Env → B) (e : ℕ) (k : Nucleo)
    → ((p : Env) (c s r : ℕ)
        → f (record p { env_count = c; env_start_time = s; env_runs = r }) ≡ f p)
    → ((p : Env) (r : ℕ) → f (record p { env_priority = r }) ≡ f p)
    → (j : ℕ) → f ((preparado e k).envs j) ≡ f (k.envs j)
unfolding preparado
preparado-keep f e k h g j =
    actualizar-keep f e (record k { envs = ajustar e k.envs }) h j ∙ ajustar-keep f e k.envs g j

sched_halt-corre : (k : Nucleo) {e : ℕ} {k' : Nucleo} → sched_halt k ≡ corre e k' → ⊥
unfolding sched_halt
sched_halt-corre k h = ground arith

sched_prioridades-Exclusivo :
    (cpu : ℕ) (k : Nucleo) {e : ℕ} {k' : Nucleo}
    → sched_prioridades cpu k ≡ corre e k'
    → Exclusivo cpu e k k'
sched_prioridades-Exclusivo cpu k {e} {k'} h = by_decision (decidir cpu k)
  where
    m : Nucleo
    m = anotado k

    current :
        (c : Option ℕ) → m.curenv ≡ c → correr_actual cpu m ≡ corre e k' → Exclusivo cpu e k k'
    current none q r = absurd (sched_halt-corre m (halts q r))
      where
        halts : m.curenv ≡ none → correr_actual cpu m ≡ corre e k' → sched_halt m ≡ corre e k'
        halts q r = unfold correr_actual in ground arith
    current (some c) q r =
        elim (Bool-cases (es_running (m.envs c).env_status && ((m.envs c).env_cpunum == cpu))) [
          | inl b ↦
              env_run-Exclusivo cpu c k (record m { last_env = some c }) (anotado-status k)
                (anotado-curenv k) (run b r)
          | inr b ↦ absurd (sched_halt-corre m (halts b r))
        ]
      where
        run :
            (es_running (m.envs c).env_status && ((m.envs c).env_cpunum == cpu)) ≡ true
            → correr_actual cpu m ≡ corre e k'
            → env_run cpu c (record m { last_env = some c }) ≡ corre e k'
        run b r = unfold correr_actual in ground arith

        halts :
            (es_running (m.envs c).env_status && ((m.envs c).env_cpunum == cpu)) ≡ false
            → correr_actual cpu m ≡ corre e k'
            → sched_halt m ≡ corre e k'
        halts b r = unfold correr_actual in ground arith

    by_decision : Decision cpu k → Exclusivo cpu e k k'
    by_decision (elige i c q) =
        env_run-Exclusivo cpu i k (preparado i m)
          (λ j.
            preparado-keep (λ (p : Env). p.env_status) i m (λ p a b d. refl) (λ p r. refl) j
            ∙ anotado-status k j)
          (unfold preparado actualizar_stats_proceso in anotado-curenv k)
          (unfold preparado correr_elegido in sym q ∙ h)
    by_decision (nadie n q) = current m.curenv refl (sym q ∙ h)

sched_round_robin-Exclusivo :
    (cpu : ℕ) (k : Nucleo) {e : ℕ} {k' : Nucleo}
    → sched_round_robin cpu k ≡ corre e k'
    → Exclusivo cpu e k k'
sched_round_robin-Exclusivo cpu k {e} {k'} h =
    elim (Option-cases (first_from (en_turno m) 0 nenv)) [
      | inr (i, q) ↦
          env_run-Exclusivo cpu ((env_anterior m + i) % nenv) k
            (record m { last_env = some ((env_anterior m + i) % nenv) }) status
            (curenv-anotar_fin k) (turn i q h)
      | inl q ↦ current m.curenv refl q h
    ]
  where
    m : Nucleo
    m = anotar_fin k

    status : (j : ℕ) → (m.envs j).env_status ≡ (k.envs j).env_status
    status j = anotar_fin-keep (λ (p : Env). p.env_status) k (λ p t. refl) j

    turn :
        (i : ℕ)
        → first_from (en_turno m) 0 nenv ≡ some i
        → sched_round_robin cpu k ≡ corre e k'
        → env_run cpu
            ((env_anterior m + i) % nenv)
            (record m { last_env = some ((env_anterior m + i) % nenv) })
          ≡ corre e k'
    turn i q h = unfold sched_round_robin in ground arith

    current :
        (c : Option ℕ)
        → m.curenv ≡ c
        → first_from (en_turno m) 0 nenv ≡ none
        → sched_round_robin cpu k ≡ corre e k'
        → Exclusivo cpu e k k'
    current none c q h = absurd (sched_halt-corre (record m { last_env = none }) (halts c q h))
      where
        halts :
            m.curenv ≡ none
            → first_from (en_turno m) 0 nenv ≡ none
            → sched_round_robin cpu k ≡ corre e k'
            → sched_halt (record m { last_env = none }) ≡ corre e k'
        halts c q h = unfold sched_round_robin in ground arith
    current (some x) c q h = elim (Bool-cases (es_running (m.envs x).env_status)) [
      | inl b ↦
          env_run-Exclusivo cpu x k (record m { last_env = some x }) status (curenv-anotar_fin k)
            (run c q b h)
      | inr b ↦ absurd (sched_halt-corre (record m { last_env = none }) (halts c q b h))
    ]
      where
        run :
            m.curenv ≡ some x
            → first_from (en_turno m) 0 nenv ≡ none
            → es_running (m.envs x).env_status ≡ true
            → sched_round_robin cpu k ≡ corre e k'
            → env_run cpu x (record m { last_env = some x }) ≡ corre e k'
        run c q b h = unfold sched_round_robin in ground arith

        halts :
            m.curenv ≡ some x
            → first_from (en_turno m) 0 nenv ≡ none
            → es_running (m.envs x).env_status ≡ false
            → sched_round_robin cpu k ≡ corre e k'
            → sched_halt (record m { last_env = none }) ≡ corre e k'
        halts c q b h = unfold sched_round_robin in ground arith

-- Under every policy, where `sched_yield` runs `e`, then `e` is the current environment, running on
-- this CPU, and each other environment that is still running was running before and is not the one
-- that this CPU was running.
pub sched_yield-Exclusivo :
    (politica : Politica) (cpu : ℕ) (k : Nucleo) {e : ℕ} {k' : Nucleo}
    → sched_yield politica cpu k ≡ corre e k'
    → Exclusivo cpu e k k'
sched_yield-Exclusivo politica cpu k {e} {k'} h = policy politica h
  where
    m : Nucleo
    m = record k { sched_calls = k.sched_calls + 1; time = k.time + 1 }

    back : Exclusivo cpu e m k' → Exclusivo cpu e k k'
    back x = record {
      actual = x.actual;
      corriendo = x.corriendo;
      en_cpu = x.en_cpu;
      los_demas = x.los_demas;
    }

    policy : (p : Politica) → sched_yield p cpu k ≡ corre e k' → Exclusivo cpu e k k'
    policy round_robin h = back (sched_round_robin-Exclusivo cpu m (unfold sched_yield in h))
    policy prioridades h = back (sched_prioridades-Exclusivo cpu m (unfold sched_yield in h))
    policy ninguna h = elim (Option-cases k.curenv) [
      | inl q ↦ absurd (sched_halt-corre m (halts q h))
      | inr (c, q) ↦
          back (
            env_run-Exclusivo cpu c m (record m { last_env = some c }) (λ j. refl) refl (run c q h))
    ]
      where
        halts : k.curenv ≡ none → sched_yield ninguna cpu k ≡ corre e k' → sched_halt m ≡ corre e k'
        halts q h = unfold sched_yield sin_politica in ground arith

        run :
            (c : ℕ)
            → k.curenv ≡ some c
            → sched_yield ninguna cpu k ≡ corre e k'
            → env_run cpu c (record m { last_env = some c }) ≡ corre e k'
        run c q h = unfold sched_yield sin_politica in ground arith
