-- ===== src/Planificador/Contrato/Atasco.antt =====
-- Environments whose priority has left the range are never chosen.
use sistemas_operarivos_fiub.Base.{
  ℕ, ◌+◌, ◌<◌, ◌≡◌, inl, inr, refl, sym, ap, ◌∙◌, true, false, none, some, arith, Option-cases,
  first_from, first_from-none, update,
}
use sistemas_operarivos_fiub.Planificador.Tipos.{Nucleo, parada, nenv, es_runnable}
use sistemas_operarivos_fiub.Planificador.Correr.{sched_halt, esta_vivo}
use sistemas_operarivos_fiub.Planificador.Prioridades.{correr_actual, sched_prioridades}
use sistemas_operarivos_fiub.Planificador.Contrato.Eleccion.{
  NadieElegible, Decision, elige, nadie, decidir, anotado, anotado-status, anotado-priority,
  anotado-curenv,
}

-- `sys_modificar_prioridad` of kern/syscall.c: the current environment's priority goes up, with no
-- test of its range.
unfoldable pub sys_modificar_prioridad : Nucleo → Nucleo
sys_modificar_prioridad k = elim k.curenv [
  | none ↦ k
  | some c ↦ record k {
    envs = update k.envs c (record (k.envs c) { env_priority = (k.envs c).env_priority + 1 });
  }
]

-- No environment is on the CPU, `j` is runnable, and every runnable one has left the range.
pub record Atascado (j : ℕ) (k : Nucleo) : Type 0 where
  pub en_tabla : j < nenv
  pub espera : es_runnable (k.envs j).env_status ≡ true
  pub sin_actual : k.curenv ≡ none
  pub fuera : NadieElegible k.envs

-- With a runnable environment the CPU is halted, and the monitor not entered.
sched_halt-parada :
    (k : Nucleo) (j : ℕ)
    → j < nenv
    → es_runnable (k.envs j).env_status ≡ true
    → sched_halt k ≡ parada (record k { curenv = none; last_env = none })
unfolding sched_halt
sched_halt-parada k j l t = elim (Option-cases (first_from (esta_vivo k.envs) 0 nenv)) [
  | inr (i, q) ↦ rw (q, sched_halt)
  | inl q ↦
      absurd (alive t (first_from-none (esta_vivo k.envs) 0 nenv q j (omega arith) (omega arith)))
]
  where
    alive : es_runnable (k.envs j).env_status ≡ true → esta_vivo k.envs j ≡ false → ⊥
    alive t f = unfold esta_vivo in ground arith

correr_actual-halt : (cpu : ℕ) (k : Nucleo) → k.curenv ≡ none → correr_actual cpu k ≡ sched_halt k
unfolding correr_actual
correr_actual-halt cpu k h = ground arith

-- With every runnable environment above `prioridad_max` and none on the CPU, `sched_prioridades`
-- halts the CPU although `j` is runnable, and leaves the kernel in the same situation, so that no
-- later turn runs `j` either.
pub sched_prioridades-Atascado :
    (cpu j : ℕ) (k : Nucleo)
    → Atascado j k
    → (k' : Nucleo) × (sched_prioridades cpu k ≡ parada k') × Atascado j k'
sched_prioridades-Atascado cpu j k a = (
  record m { curenv = none; last_env = none },
  by_decision (decidir cpu k),
  record {
    en_tabla = a.en_tabla;
    espera = ap es_runnable (anotado-status k j) ∙ a.espera;
    sin_actual = refl;
    fuera = λ i l t.
        omega (
          arith,
          a.fuera i l (ap es_runnable (sym (anotado-status k i)) ∙ t),
          anotado-priority k i,
        );
  },
)
  where
    m : Nucleo
    m = anotado k

    by_decision :
        Decision cpu k
        → sched_prioridades cpu k ≡ parada (record m { curenv = none; last_env = none })
    by_decision (elige e c q) = absurd (omega (arith, c.en_rango, a.fuera e c.en_tabla c.puede))
    by_decision (nadie n q) =
        q
        ∙ correr_actual-halt cpu m (anotado-curenv k ∙ a.sin_actual)
        ∙ sched_halt-parada m j a.en_tabla (ap es_runnable (anotado-status k j) ∙ a.espera)
