-- ===== src/Sistema/Llamadas/Permisos.antt =====
-- What a system call of TP2-sched/kern/syscall.c may do to an environment of others, and sys_exofork.
use sistemas_operarivos_fiub.Base.{
  ℕ, ◌%◌, ◌≡◌, ◌≢◌, true, Bool-cases, inl, inr, none, ◌||◌, ◌==◌, arith,
}
use sistemas_operarivos_fiub.Planificador.Tipos.{nenv}
use sistemas_operarivos_fiub.Entornos.Tabla.{envid2env}
use sistemas_operarivos_fiub.Memoria.Tipos.{Error, e_bad_env, e_inval, err}
use sistemas_operarivos_fiub.Sistema.Tipos.{Sistema, vuelve, buscar_env}
use sistemas_operarivos_fiub.Sistema.Paginas.{mala_va, sys_page_alloc, sys_page_map, sys_page_unmap}
use sistemas_operarivos_fiub.Sistema.Llamadas.{
  sys_env_destroy, sys_env_set_status, sys_env_set_pgfault_upcall, Pedido, env_destruir, page_alloc,
  page_map, page_unmap, env_set_status, env_set_pgfault_upcall, syscall,
}

-- The id is that of neither the caller nor a child of it.
pub record Ajeno (c envid : ℕ) (s : Sistema) : Type 0 where
  pub nombrado : envid ≢ 0
  pub no_es : envid % nenv ≢ c
  pub no_hijo : (s.envs (envid % nenv)).env_parent_id ≢ (s.envs c).env_id

-- The call acts on the environment of the id, with a check of permissions.
pub data Dirigido (envid : ℕ) : Pedido → Type 0 where
  destruye : Dirigido envid (env_destruir envid)
  aloca : (va perm : ℕ) → Dirigido envid (page_alloc envid va perm)
  mapea_de : (va dst dstva perm : ℕ) → Dirigido envid (page_map envid va dst dstva perm)
  mapea_a : (src srcva va perm : ℕ) → Dirigido envid (page_map src srcva envid va perm)
  desmapea : (va : ℕ) → Dirigido envid (page_unmap envid va)
  estado : (status : ℕ) → Dirigido envid (env_set_status envid status)
  upcall : (func : ℕ) → Dirigido envid (env_set_pgfault_upcall envid func)

Ajeno-none : (c envid : ℕ) (s : Sistema) → Ajeno c envid s → buscar_env c envid true s ≡ none
unfolding envid2env
Ajeno-none c envid s a = ground (arith, a.nombrado, a.no_es, a.no_hijo)

-- `env_destroy`, `page_alloc`, `page_map` on either end, `page_unmap`, `env_set_status` and
-- `env_set_pgfault_upcall` on an environment which is neither the caller nor a child of it are refused,
-- and change nothing. The calls that ask for no permission, `ipc_try_send` and `obtener_prioridad`, are
-- not among them.
pub syscall-Ajeno :
    (tecla c envid : ℕ) (p : Pedido) (s : Sistema)
    → Ajeno c envid s
    → Dirigido envid p
    → (e : Error) × (syscall tecla c p s ≡ vuelve (err e) s)
unfolding syscall sys_env_destroy sys_page_alloc sys_page_map sys_page_unmap sys_env_set_status
    sys_env_set_pgfault_upcall
syscall-Ajeno tecla c envid p s a destruye =
    let n = Ajeno-none c envid s a in (e_bad_env, ground arith)
syscall-Ajeno tecla c envid p s a (aloca va perm) =
    let n = Ajeno-none c envid s a in
    elim (Bool-cases (mala_va va)) [
      | inl m ↦ (e_inval, ground arith)
      | inr m ↦ (e_bad_env, ground arith)
    ]
syscall-Ajeno tecla c envid p s a (mapea_de va dst dstva perm) =
    let n = Ajeno-none c envid s a in
    elim (Bool-cases (mala_va va || mala_va dstva)) [
      | inl m ↦ (e_inval, ground arith)
      | inr m ↦ (e_bad_env, ground arith)
    ]
syscall-Ajeno tecla c envid p s a (mapea_a src srcva va perm) =
    let n = Ajeno-none c envid s a in
    elim (Bool-cases (mala_va srcva || mala_va va)) [
      | inl m ↦ (e_inval, ground arith)
      | inr m ↦ (e_bad_env, ground arith)
    ]
syscall-Ajeno tecla c envid p s a (desmapea va) =
    let n = Ajeno-none c envid s a in
    elim (Bool-cases (mala_va va)) [
      | inl m ↦ (e_inval, ground arith)
      | inr m ↦ (e_bad_env, ground arith)
    ]
syscall-Ajeno tecla c envid p s a (estado status) =
    let n = Ajeno-none c envid s a in
    elim (Bool-cases ((status == 2) || (status == 4))) [
      | inl m ↦ (e_bad_env, ground arith)
      | inr m ↦ (e_inval, ground arith)
    ]
syscall-Ajeno tecla c envid p s a (upcall func) =
    let n = Ajeno-none c envid s a in (e_bad_env, ground arith)
