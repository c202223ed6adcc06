-- ===== src/Planificador/Campos.antt =====
-- Which fields of which environments the steps of the scheduler leave alone.
use sistemas_operarivos_fiub.Base.{
  ℕ, ◌≤◌, ◌≡◌, inl, inr, refl, Bool, true, false, not, ◌&&◌, Option, none, some, ◌==◌, ltb, arith,
  Bool-cases, update, update_keep,
}
use sistemas_operarivos_fiub.Planificador.Tipos.{
  Env, Estado, env_runnable, Nucleo, nenv, prioridad_min, prioridad_max, es_runnable, es_running,
}
use sistemas_operarivos_fiub.Planificador.Correr.{
  es_el, soltar, anotar_fin, actualizar_stats_proceso,
}
use sistemas_operarivos_fiub.Planificador.Prioridades.{reponer, ajustar}

-- Noting the end of the last environment changes its `env_finish_time` alone.
pub anotar_fin-keep {κ} :
    {B : Type κ} (f : Env → B) (k : Nucleo)
    → ((p : Env) (t : ℕ) → f (record p { env_finish_time = t }) ≡ f p)
    → (j : ℕ) → f ((anotar_fin k).envs j) ≡ f (k.envs j)
anotar_fin-keep f k h j = last k.last_env refl
  where
    last : (l : Option ℕ) → k.last_env ≡ l → f ((anotar_fin k).envs j) ≡ f (k.envs j)
    last none e = unfold anotar_fin in rw (e, anotar_fin)
    last (some l) e =
        elim (Bool-cases (not (es_el k.curenv l) && not (es_running (k.envs l).env_status))) [
          | inr b ↦ unfold anotar_fin in rw (e, b, anotar_fin)
          | inl b ↦
              unfold anotar_fin in
              rw (e, b, anotar_fin)
                (update_keep f k.envs l (record (k.envs l) { env_finish_time = k.time })
                  (h (k.envs l) k.time) j)
        ]

-- and leaves `curenv` alone.
pub curenv-anotar_fin : (k : Nucleo) → (anotar_fin k).curenv ≡ k.curenv
unfolding anotar_fin
curenv-anotar_fin k = ground arith

-- The statistics leave the state and the priority alone.
pub actualizar-keep {κ} :
    {B : Type κ} (f : Env → B) (e : ℕ) (k : Nucleo)
    → ((p : Env) (c s r : ℕ)
        → f (record p { env_count = c; env_start_time = s; env_runs = r }) ≡ f p)
    → (j : ℕ) → f ((actualizar_stats_proceso e k).envs j) ≡ f (k.envs j)
unfolding actualizar_stats_proceso
actualizar-keep f e k h j = update_keep f k.envs e _ (h (k.envs e) _ _ _) j

-- Giving up the CPU changes the state alone.
pub soltar-keep {κ} :
    {B : Type κ} (f : Env → B) (k : Nucleo) (e : ℕ)
    → ((p : Env) (s : Estado) → f (record p { env_status = s }) ≡ f p)
    → (j : ℕ) → f (soltar k e j) ≡ f (k.envs j)
soltar-keep f k e h j = current k.curenv refl
  where
    current : (c : Option ℕ) → k.curenv ≡ c → f (soltar k e j) ≡ f (k.envs j)
    current none q = unfold soltar in rw (q, soltar)
    current (some c) q = elim (Bool-cases (es_running (k.envs c).env_status && not (c == e))) [
      | inr b ↦ unfold soltar in rw (q, b, soltar)
      | inl b ↦
          unfold soltar in
          rw (q, b, soltar)
            (update_keep f k.envs c (record (k.envs c) { env_status = env_runnable })
              (h (k.envs c) env_runnable) j)
    ]

-- No priority leaves the range when the chosen one's is adjusted.
pub ajustar-le :
    (e : ℕ) (envs : ℕ → Env) (j : ℕ)
    → (envs e).env_priority ≤ prioridad_max
    → (envs j).env_priority ≤ prioridad_max
    → (ajustar e envs j).env_priority ≤ prioridad_max
unfolding ajustar reponer update
ajustar-le e envs j he hj = ground arith

-- Only the priorities change.
pub ajustar-keep {κ} :
    {B : Type κ} (f : Env → B) (e : ℕ) (envs : ℕ → Env)
    → ((p : Env) (r : ℕ) → f (record p { env_priority = r }) ≡ f p)
    → (j : ℕ) → f (ajustar e envs j) ≡ f (envs j)
ajustar-keep f e envs h j = elim (Bool-cases ((envs e).env_priority == prioridad_max)) [
  | inl b ↦ unfold ajustar in rw b (all (ltb j nenv && es_runnable (envs j).env_status) refl)
  | inr b ↦ elim (Bool-cases (ltb 0 (envs e).env_runs)) [
    | inr r ↦ unfold ajustar in rw (b, r)
    | inl r ↦ unfold ajustar in rw (b, r) (update_keep f envs e _ (h (envs e) _) j)
  ]
]
  where
    all :
        (b : Bool)
        → (ltb j nenv && es_runnable (envs j).env_status) ≡ b
        → f (reponer envs j) ≡ f (envs j)
    all true q = unfold reponer in rw q (h (envs j) prioridad_min)
    all false q = unfold reponer in rw q
