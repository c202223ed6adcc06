-- ===== src/Entornos/Ids.antt =====
-- The ids that `env_alloc` of TP2-sched/kern/env.c gives, and what `envid2env` makes of them.
use sistemas_operarivos_fiub.Base.{
  ℕ, ◌%◌, ◌^◌, ◌<◌, ◌≡◌, ◌≢◌, Bool, true, false, none, some, update_same, update_other, refl, arith,
  sym, ap, ◌∙◌, subst,
}
use sistemas_operarivos_fiub.Planificador.Tipos.{nenv}
use sistemas_operarivos_fiub.Memoria.Tipos.{ok}
use sistemas_operarivos_fiub.Entornos.Tabla.{
  Ranura, Tabla, ocupar, generacion, nuevo_id, env_alloc, envid2env,
}

-- a positive multiple of the number of environments, in 31 bits
record Generacion (g : ℕ) : Type 0 where
  positiva : 0 < g
  cota : g < 2 ^ 31
  exacta : g % nenv ≡ 0

generacion-Generacion : (id : ℕ) → Generacion (generacion id)
unfolding generacion
generacion-Generacion id = record {
  positiva = ground arith;
  cota = ground arith;
  exacta = ground arith;
}

-- The id that a slot gets is positive, fits in 31 bits, has the slot as its index, and is not the
-- id that the slot had before.
pub nuevo_id-Valido :
    (id i : ℕ)
    → id < 2 ^ 31
    → i < nenv
    → (0 < nuevo_id id i)
      × (nuevo_id id i < 2 ^ 31)
      × (nuevo_id id i % nenv ≡ i)
      × (nuevo_id id i ≢ id)
unfolding nuevo_id generacion
nuevo_id-Valido id i h k = (ground arith, ground arith, ground arith, ground arith)

ocupar-ranura :
    (parent_id e : ℕ) (t : Tabla)
    → (ocupar parent_id e t).envs e ≡ record (t.envs e) {
      env_id = nuevo_id (t.envs e).env_id e;
      env_parent_id = parent_id;
      libre = false;
    }
unfolding ocupar
ocupar-ranura parent_id e t = update_same t.envs e _

-- an id that is not zero finds its slot where that is in use under this id
envid2env-some :
    (curenv id : ℕ) (t : Tabla)
    → 0 < id
    → (t.envs (id % nenv)).libre ≡ false
    → (t.envs (id % nenv)).env_id ≡ id
    → envid2env curenv id false t ≡ some (id % nenv)
unfolding envid2env
envid2env-some curenv id t h p q = ground arith

envid2env-none :
    (curenv id : ℕ) (b : Bool) (t : Tabla)
    → 0 < id
    → (t.envs (id % nenv)).env_id ≢ id
    → envid2env curenv id b t ≡ none
unfolding envid2env
envid2env-none curenv id b t h q = ground arith

dado :
    (parent_id e : ℕ) (t : Tabla)
    → t.env_free_list ≡ some e
    → env_alloc true parent_id t ≡ (ok e, ocupar parent_id e t)
unfolding env_alloc
dado parent_id e t l = rw l

hallado :
    (parent_id curenv e : ℕ) (t : Tabla)
    → e < nenv
    → (t.envs e).env_id < 2 ^ 31
    → envid2env curenv (nuevo_id (t.envs e).env_id e) false (ocupar parent_id e t) ≡ some e
hallado parent_id curenv e t h k =
    let v = nuevo_id-Valido (t.envs e).env_id e k h in
    let r = ocupar-ranura parent_id e t in
    let t' = ocupar parent_id e t in
    envid2env-some curenv (nuevo_id (t.envs e).env_id e) t' v.0
      (subst (λ i. (t'.envs i).libre ≡ false) (sym v.2) (ap (λ (x : Ranura). x.libre) r))
      (subst (λ i. (t'.envs i).env_id ≡ nuevo_id (t.envs e).env_id e) (sym v.2)
        (ap (λ (x : Ranura). x.env_id) r))
    ∙ ap some v.2

caduco :
    (parent_id curenv e : ℕ) (b : Bool) (t : Tabla)
    → e < nenv
    → (t.envs e).env_id < 2 ^ 31
    → 0 < (t.envs e).env_id
    → (t.envs e).env_id % nenv ≡ e
    → envid2env curenv (t.envs e).env_id b (ocupar parent_id e t) ≡ none
caduco parent_id curenv e b t h k p q =
    let v = nuevo_id-Valido (t.envs e).env_id e k h in
    let t' = ocupar parent_id e t in
    envid2env-none curenv (t.envs e).env_id b t' p (
      subst (λ i. (t'.envs i).env_id ≢ (t.envs e).env_id) (sym q)
        (λ w. v.3 (sym (ap (λ (x : Ranura). x.env_id) (ocupar-ranura parent_id e t)) ∙ w)))

-- Where the head of the free list is a slot of the table whose old id has its index and is a positive
-- `int`, and there is memory, `env_alloc` succeeds with that slot, which leaves the list and is not free,
-- and the other slots stay; the new id finds the environment, and the old id finds none, with a check
-- of permissions or without.
pub env_alloc-envid2env :
    (parent_id curenv e : ℕ) (b : Bool) (t : Tabla)
    → t.env_free_list ≡ some e
    → e < nenv
    → (t.envs e).env_id < 2 ^ 31
    → 0 < (t.envs e).env_id
    → (t.envs e).env_id % nenv ≡ e
    → (t' : Tabla) × (env_alloc true parent_id t ≡ (ok e, t'))
      × (t'.env_free_list ≡ (t.envs e).env_link)
      × ((t'.envs e).libre ≡ false)
      × ((j : ℕ) → j ≢ e → t'.envs j ≡ t.envs j)
      × (envid2env curenv (t'.envs e).env_id false t' ≡ some e)
      × (envid2env curenv (t.envs e).env_id b t' ≡ none)
env_alloc-envid2env parent_id curenv e b t l h k p q =
    let t' = ocupar parent_id e t in
    let r = ap (λ (x : Ranura). x.env_id) (ocupar-ranura parent_id e t) in
    (
      t',
      dado parent_id e t l,
      (unfold ocupar in refl),
      ap (λ (x : Ranura). x.libre) (ocupar-ranura parent_id e t),
      λ j n. (unfold ocupar in update_other t.envs e _ j n),
      subst (λ i. envid2env curenv i false t' ≡ some e) (sym r) (hallado parent_id curenv e t h k),
      caduco parent_id curenv e b t h k p q,
    )
