-- ===== src/Entornos/Tabla.antt =====
-- `envid2env`, `env_init`, `env_alloc` and the end of `env_free` of TP2-sched/kern/env.c.
use sistemas_operarivos_fiub.Base.{
  ℕ, ◌+◌, ◌-◌, ◌%◌, ◌^◌, Bool, true, false, ◌&&◌, ◌||◌, not, Option, none, some, ◌==◌, ltb, leb,
  if◌then◌else◌, update,
}
use sistemas_operarivos_fiub.Planificador.Tipos.{nenv}
use sistemas_operarivos_fiub.Memoria.Tipos.{e_no_free_env, e_no_mem, Respuesta, ok, err}

-- the fields of `struct Env` that these functions use; of the status, whether it is ENV_FREE
pub record Ranura : Type 0 where
  pub env_id : ℕ
  pub env_parent_id : ℕ
  pub libre : Bool
  pub env_link : Option ℕ

pub record Tabla : Type 0 where
  pub envs : ℕ → Ranura
  pub env_free_list : Option ℕ

unfoldable pub env_init : (ℕ → Ranura) → Tabla
env_init envs = record {
  envs = λ i.
      if ltb i nenv
      then record (envs i) {
        env_id = 0;
        libre = true;
        env_link = if i == nenv - 1 then none else some (i + 1);
      }
      else envs i;
  env_free_list = some 0;
}

-- `(id + (1 << ENVGENSHIFT)) & ~(NENV - 1)` as an `int32_t`, and 1 << ENVGENSHIFT where that is not
-- positive
unfoldable pub generacion : ℕ → ℕ
generacion id =
    let suma = (id + 4096) % 2 ^ 32 in
    let g = suma - suma % nenv in if g == 0 || leb (2 ^ 31) g then 4096 else g

-- The low bits of the generation are 0, so `generation | (e - envs)` is a sum.
unfoldable pub nuevo_id : ℕ → ℕ → ℕ
nuevo_id id i = generacion id + i

-- the type, the statistics and the registers of the environment are not in the model
unfoldable pub ocupar : ℕ → ℕ → Tabla → Tabla
ocupar parent_id e t = record {
  envs = update t.envs e (record (t.envs e) {
    env_id = nuevo_id (t.envs e).env_id e;
    env_parent_id = parent_id;
    libre = false;
  });
  env_free_list = (t.envs e).env_link;
}

-- `vm` says whether `env_setup_vm` has found memory.
unfoldable pub env_alloc : Bool → ℕ → Tabla → Respuesta ℕ × Tabla
env_alloc vm parent_id t = elim t.env_free_list [
  | none ↦ (err e_no_free_env, t)
  | some e ↦ if vm then (ok e, ocupar parent_id e t) else (err e_no_mem, t)
]

-- return the environment to the free list
unfoldable pub env_free : ℕ → Tabla → Tabla
env_free e t = record {
  envs = update t.envs e (record (t.envs e) { libre = true; env_link = t.env_free_list });
  env_free_list = some e;
}

-- `none` for -E_BAD_ENV; `curenv` is not null, as in a system call
unfoldable pub envid2env : ℕ → ℕ → Bool → Tabla → Option ℕ
envid2env curenv envid checkperm t =
    let i = envid % nenv in
    let e = t.envs i in
    if envid == 0
    then some curenv
    else if e.libre || not (e.env_id == envid)
    then none
    else if checkperm && (not (i == curenv) && not (e.env_parent_id == (t.envs curenv).env_id))
    then none
    else some i
