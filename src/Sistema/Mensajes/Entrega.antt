-- ===== src/Sistema/Mensajes/Entrega.antt =====
-- A message between environments, by sys_ipc_recv and sys_ipc_try_send of TP2-sched/kern/syscall.c.
use sistemas_operarivos_fiub.Base.{
  ℕ, ◌≤◌, ◌≡◌, ◌≢◌, refl, sym, ap, ◌∙◌, fun_ext, Bool, true, false, some, update_same, update_other,
  update_keep, arith,
}
use sistemas_operarivos_fiub.Planificador.Tipos.{Estado}
use sistemas_operarivos_fiub.Entornos.Tabla.{envid2env}
use sistemas_operarivos_fiub.Memoria.Tipos.{utop, e_inval, e_ipc_not_recv, ok, err}
use sistemas_operarivos_fiub.Sistema.Tipos.{
  Proceso, Sistema, vuelve, cede, buscar_env, ranura_de, es_free, poner_env,
}
use sistemas_operarivos_fiub.Sistema.Paginas.{mala_va}
use sistemas_operarivos_fiub.Sistema.Mensajes.{
  recibido, entregar, sys_ipc_try_send, recibiendo, sys_ipc_recv,
}

-- The environment d has the message and can run, and nothing else has changed.
pub record Entregado (s s' : Sistema) (c d value : ℕ) : Type 0 where
  pub de : (s'.envs d).env_ipc_from ≡ (s.envs c).env_id
  pub valor : (s'.envs d).env_ipc_value ≡ value
  pub sin_pagina : (s'.envs d).env_ipc_perm ≡ 0
  pub cerrado : (s'.envs d).env_ipc_recving ≡ false
  pub corre : (s'.envs d).env_status ≡ Estado.env_runnable
  pub resultado : (s'.envs d).reg_eax ≡ 0
  pub otros : (i : ℕ) → i ≢ d → s'.envs i ≡ s.envs i
  pub memoria : s'.memoria ≡ s.memoria

entregar-Entregado : (s : Sistema) (c d value : ℕ) → Entregado s (entregar c d value 0 s) c d value
unfolding entregar poner_env recibido
entregar-Entregado s c d value =
    let v = recibido (s.envs c).env_id value (record (s.envs d) { env_ipc_perm = 0 }) in
    let e = update_same s.envs d v in
    record {
      de = ap (λ (p : Proceso). p.env_ipc_from) e;
      valor = ap (λ (p : Proceso). p.env_ipc_value) e;
      sin_pagina = ap (λ (p : Proceso). p.env_ipc_perm) e;
      cerrado = ap (λ (p : Proceso). p.env_ipc_recving) e;
      corre = ap (λ (p : Proceso). p.env_status) e;
      resultado = ap (λ (p : Proceso). p.reg_eax) e;
      otros = λ i h. update_other s.envs d v i h;
      memoria = refl;
    }

-- A write that keeps the id, the parent, the link and whether it is free keeps every lookup.
buscar-poner_env :
    (c id : ℕ) (b : Bool) (e : ℕ) (p : Proceso) (s : Sistema)
    → ranura_de p ≡ ranura_de (s.envs e)
    → buscar_env c id b (poner_env e p s) ≡ buscar_env c id b s
unfolding poner_env
buscar-poner_env c id b e p s h =
    let f = fun_ext (update_keep ranura_de s.envs e p h) in
    λ i. envid2env c id b (record { envs = f i; env_free_list = s.env_free_list })

ranura-entregar :
    (s : Sistema) (c d value : ℕ)
    → es_free (s.envs d).env_status ≡ false
    → ranura_de (recibido (s.envs c).env_id value (record (s.envs d) { env_ipc_perm = 0 }))
      ≡ ranura_de (s.envs d)
unfolding recibido
ranura-entregar s c d value h =
    let g = sym h in
    λ i. record {
      env_id = (s.envs d).env_id;
      env_parent_id = (s.envs d).env_parent_id;
      libre = g i;
      env_link = (s.envs d).env_link;
    }

buscar-entregar :
    (s : Sistema) (c d value c' id : ℕ) (b : Bool)
    → es_free (s.envs d).env_status ≡ false
    → buscar_env c' id b (entregar c d value 0 s) ≡ buscar_env c' id b s
unfolding entregar
buscar-entregar s c d value c' id b h =
    buscar-poner_env c' id b d
      (recibido (s.envs c).env_id value (record (s.envs d) { env_ipc_perm = 0 })) s
      (ranura-entregar s c d value h)

no_recibe :
    (c d envid v va p : ℕ) (s : Sistema)
    → buscar_env c envid false s ≡ some d
    → (s.envs d).env_ipc_recving ≡ false
    → sys_ipc_try_send c envid v va p s ≡ vuelve (err e_ipc_not_recv) s
unfolding sys_ipc_try_send
no_recibe c d envid v va p s b r = ground arith

envia :
    (c d envid v va p : ℕ) (s : Sistema)
    → buscar_env c envid false s ≡ some d
    → (s.envs d).env_ipc_recving ≡ true
    → utop ≤ va
    → sys_ipc_try_send c envid v va p s ≡ vuelve (ok 0) (entregar c d v 0 s)
unfolding sys_ipc_try_send
envia c d envid v va p s b r h = ground arith

-- A value with no page that is sent to an environment that waits for a message is delivered, and
-- after it every send to that environment fails, with no effect.
pub sys_ipc_try_send-Entregado :
    (c d envid value srcva perm : ℕ) (s : Sistema)
    → buscar_env c envid false s ≡ some d
    → es_free (s.envs d).env_status ≡ false
    → (s.envs d).env_ipc_recving ≡ true
    → utop ≤ srcva
    → (s' : Sistema) × (sys_ipc_try_send c envid value srcva perm s ≡ vuelve (ok 0) s')
      × Entregado s s' c d value
      × ((c' id v va p : ℕ)
          → buscar_env c' id false s ≡ some d
          → sys_ipc_try_send c' id v va p s' ≡ vuelve (err e_ipc_not_recv) s')
sys_ipc_try_send-Entregado c d envid value srcva perm s b l r h =
    let s' = entregar c d value 0 s in
    let w = entregar-Entregado s c d value in
    (
      s',
      envia c d envid value srcva perm s b r h,
      w,
      λ c' id v va p q.
          no_recibe c' d id v va p s' (buscar-entregar s c d value c' id false l ∙ q) w.cerrado,
    )

-- what `sys_ipc_recv` leaves of an environment, whether it refuses the address or not
record Espera (s s1 : Sistema) (d : ℕ) : Type 0 where
  abierta : (s1.envs d).env_ipc_recving ≡ true
  usada : es_free (s1.envs d).env_status ≡ false
  igual : (c id : ℕ) (b : Bool) → buscar_env c id b s1 ≡ buscar_env c id b s

rechazada-Espera :
    (s : Sistema) (d : ℕ)
    → es_free (s.envs d).env_status ≡ false
    → Espera s (poner_env d (recibiendo (s.envs d)) s) d
unfolding poner_env recibiendo
rechazada-Espera s d h =
    let e = update_same s.envs d (recibiendo (s.envs d)) in
    record {
      abierta = ap (λ (p : Proceso). p.env_ipc_recving) e;
      usada = ap (λ (p : Proceso). es_free p.env_status) e ∙ h;
      igual = λ c id b. buscar-poner_env c id b d (recibiendo (s.envs d)) s refl;
    }

-- An address that `sys_ipc_recv` refuses leaves the environment open to messages all the same: a value
-- with no page that is then sent to it is delivered, though it does not wait.
pub sys_ipc_recv-rechazada :
    (c d envid value dstva srcva perm : ℕ) (s : Sistema)
    → mala_va dstva ≡ true
    → es_free (s.envs d).env_status ≡ false
    → buscar_env c envid false s ≡ some d
    → utop ≤ srcva
    → (s1 s2 : Sistema) × (sys_ipc_recv d dstva s ≡ vuelve (err e_inval) s1)
      × (sys_ipc_try_send c envid value srcva perm s1 ≡ vuelve (ok 0) s2)
      × Entregado s1 s2 c d value
unfolding sys_ipc_recv
sys_ipc_recv-rechazada c d envid value dstva srcva perm s m l b h =
    let s1 = poner_env d (recibiendo (s.envs d)) s in
    let w = rechazada-Espera s d l in
    let (s2, e, q, _) =
      sys_ipc_try_send-Entregado c d envid value srcva perm s1 (w.igual c envid false ∙ b) w.usada
        w.abierta h in
    (s1, s2, ground arith, e, q)

envs-poner_env : (d : ℕ) (p : Proceso) (s : Sistema) → (poner_env d p s).envs d ≡ p
unfolding poner_env
envs-poner_env d p s = update_same s.envs d p

esperando : ℕ → Proceso → Proceso
esperando dstva p = record (recibiendo p) {
  env_ipc_dstva = dstva;
  env_status = Estado.env_not_runnable;
}

esperando-Espera :
    (s : Sistema) (d dstva : ℕ)
    → es_free (s.envs d).env_status ≡ false
    → Espera s (poner_env d (esperando dstva (s.envs d)) s) d
unfolding poner_env recibiendo esperando
esperando-Espera s d dstva h =
    let p = esperando dstva (s.envs d) in
    let e = update_same s.envs d p in
    let g = sym h in
    record {
      abierta = ap (λ (x : Proceso). x.env_ipc_recving) e;
      usada = ap (λ (x : Proceso). es_free x.env_status) e;
      igual = λ c id b. buscar-poner_env c id b d p s (λ i. record {
        env_id = (s.envs d).env_id;
        env_parent_id = (s.envs d).env_parent_id;
        libre = g i;
        env_link = (s.envs d).env_link;
      });
    }

-- An environment that receives at a good address gives up the CPU and waits, and a value with no page
-- that anyone then sends to it is delivered.
pub sys_ipc_recv-Entregado :
    (c d envid value dstva srcva perm : ℕ) (s : Sistema)
    → mala_va dstva ≡ false
    → es_free (s.envs d).env_status ≡ false
    → buscar_env c envid false s ≡ some d
    → utop ≤ srcva
    → (s1 s2 : Sistema) × (sys_ipc_recv d dstva s ≡ cede (some d) s1)
      × ((s1.envs d).env_status ≡ Estado.env_not_runnable)
      × (sys_ipc_try_send c envid value srcva perm s1 ≡ vuelve (ok 0) s2)
      × Entregado s1 s2 c d value
unfolding sys_ipc_recv esperando
sys_ipc_recv-Entregado c d envid value dstva srcva perm s m l b h =
    let s1 = poner_env d (esperando dstva (s.envs d)) s in
    let w = esperando-Espera s d dstva l in
    let (s2, e, q, _) =
      sys_ipc_try_send-Entregado c d envid value srcva perm s1 (w.igual c envid false ∙ b) w.usada
        w.abierta h in
    (
      s1,
      s2,
      ground arith,
      ap (λ (x : Proceso). x.env_status) (envs-poner_env d (esperando dstva (s.envs d)) s),
      e,
      q,
    )
