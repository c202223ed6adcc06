-- ===== src/Sistema/Tipos.antt =====
-- The environments of TP2-sched/inc/env.h as system calls see them, and how a call ends.
use sistemas_operarivos_fiub.Base.{ℕ, Bool, true, false, Option, none, some, update}
use sistemas_operarivos_fiub.Planificador.Tipos.{Estado}
use sistemas_operarivos_fiub.Entornos.Tabla.{Ranura, Tabla, envid2env}
use sistemas_operarivos_fiub.Memoria.Tipos.{Memoria, Respuesta}

-- `env_pgdir` is the page of the directory, `none` for null. `registros` stands for the saved
-- registers but eax. The statistics are left out.
pub record Proceso : Type 0 where
  pub env_id : ℕ
  pub env_parent_id : ℕ
  pub env_status : Estado
  pub env_link : Option ℕ
  pub env_pgdir : Option ℕ
  pub env_pgfault_upcall : ℕ
  pub env_ipc_recving : Bool
  pub env_ipc_dstva : ℕ
  pub env_ipc_value : ℕ
  pub env_ipc_from : ℕ
  pub env_ipc_perm : ℕ
  pub env_priority : ℕ
  pub env_runs : ℕ
  pub reg_eax : ℕ
  pub registros : ℕ

pub record Sistema : Type 0 where
  pub envs : ℕ → Proceso
  pub env_free_list : Option ℕ
  pub kern_pgdir : ℕ
  pub memoria : Memoria

-- A call returns; gives up the CPU by `sched_yield`, with the current environment or none; panics;
-- or reads through a pointer that has no value.
pub data Fin : Type 0 where
  vuelve : Respuesta ℕ → Sistema → Fin
  cede : Option ℕ → Sistema → Fin
  panico : Fin
  indefinido : Fin

abbrev pub es_free : Estado → Bool
es_free Estado.env_free = true
es_free _ = false

-- the part of the table that kern/env.c looks ids up in
abbrev pub ranura_de : Proceso → Ranura
ranura_de p = record {
  env_id = p.env_id;
  env_parent_id = p.env_parent_id;
  libre = es_free p.env_status;
  env_link = p.env_link;
}

abbrev pub tabla_de : Sistema → Tabla
tabla_de s = record { envs = λ i. ranura_de (s.envs i); env_free_list = s.env_free_list }

-- `envid2env` by the environment c
abbrev pub buscar_env : ℕ → ℕ → Bool → Sistema → Option ℕ
buscar_env c envid checkperm s = envid2env c envid checkperm (tabla_de s)

unfoldable pub poner_env : ℕ → Proceso → Sistema → Sistema
poner_env e p s = record s { envs = update s.envs e p }

unfoldable pub con_memoria : Memoria → Sistema → Sistema
con_memoria m s = record s { memoria = m }

-- the result of an operation on memory, as that of the call
unfoldable pub responder : Option (Respuesta ℕ × Memoria) → Sistema → Fin
responder none s = panico
responder (some (r, m)) s = vuelve r (con_memoria m s)
