-- ===== src/Sistema/Procesos/Directorio.antt =====
-- The directory that env_setup_vm of TP2-sched/kern/env.c makes, as the theorems on page tables want it.
use Prim.Native.Nat.{bit_or}
use sistemas_operarivos_fiub.Base.{
  ℕ, ◌*◌, ◌<◌, ◌≡◌, ◌≢◌, refl, sym, ap, ◌∙◌, subst, Option-cases, some, inl, inr, update,
  update_same, update_other, bit_or-pagina, arith,
}
use sistemas_operarivos_fiub.Memoria.Tipos.{
  ranura_uvpt, pgnum, Memoria, ok, escribir_palabra, borrar_pagina,
}
use sistemas_operarivos_fiub.Memoria.Paginas.{sacar, page_alloc, poner_ref, page_incref}
use sistemas_operarivos_fiub.Memoria.Tablas.Entradas.{DirOk, PgdirOk, LibreAjena}
use sistemas_operarivos_fiub.Sistema.Procesos.{copiar_kernel, env_setup_vm}

-- The copy of a sound directory in a page that is none of its tables is sound, with itself at UVPT.
copia-DirOk :
    {n kern : ℕ} (d : ℕ → ℕ) (p : ℕ)
    → DirOk n kern d
    → p < n
    → ((i : ℕ) → d i ≢ 0 → pgnum (d i) ≢ p)
    → DirOk n p (update d ranura_uvpt (bit_or (p * 4096) 5))
unfolding update
copia-DirOk d p h k s = record {
  existen = λ i w. ground (arith, h.existen i, bit_or-pagina p 5 (omega arith));
  ajenas = λ i u w. ground (arith, s i);
  distintas = λ i j u u' w w' q. ground (arith, h.distintas i j u u');
}

copiar_kernel-dir :
    (kern p : ℕ) (m : Memoria)
    → (copiar_kernel kern p m).mem p ≡ update (m.mem kern) ranura_uvpt (bit_or (p * 4096) 5)
unfolding copiar_kernel escribir_palabra page_incref poner_ref
copiar_kernel-dir kern p m =
    let f = update m.mem p (m.mem kern) in
    update_same f p (update (f p) ranura_uvpt (bit_or (p * 4096) 5))
    ∙ ap (λ (r : ℕ → ℕ). update r ranura_uvpt (bit_or (p * 4096) 5))
        (update_same m.mem p (m.mem kern))

npages-copiar_kernel : (kern p : ℕ) (m : Memoria) → (copiar_kernel kern p m).npages ≡ m.npages
unfolding copiar_kernel escribir_palabra page_incref poner_ref
npages-copiar_kernel kern p m = refl

-- the steps of an `env_setup_vm` that gives a directory
record Armado (m m' : Memoria) (kern p : ℕ) : Type 0 where
  primera : m.page_free_list ≡ some p
  hecho : copiar_kernel kern p (borrar_pagina p (sacar p m)) ≡ m'

env_setup_vm-some :
    (kern p : ℕ) (m m' : Memoria) → env_setup_vm kern m ≡ some (ok p, m') → Armado m m' kern p
unfolding env_setup_vm page_alloc
env_setup_vm-some kern p m m' e = elim (Option-cases m.page_free_list) [
  | inl q ↦ absurd (ground arith)
  | inr (k, q) ↦ record { primera = ground arith; hecho = ground arith }
]

-- From a sound directory of the kernel, and a free page that is neither that nor one of its tables,
-- `env_setup_vm` makes a sound directory.
pub env_setup_vm-PgdirOk :
    (kern p : ℕ) (m m' : Memoria)
    → PgdirOk m kern
    → LibreAjena m kern
    → env_setup_vm kern m ≡ some (ok p, m')
    → PgdirOk m' p
env_setup_vm-PgdirOk kern p m m' h a e =
    let s = env_setup_vm-some kern p m m' e in
    let l = s.primera in
    let limpia = borrar_pagina p (sacar p m) in
    let d : limpia.mem kern ≡ m.mem kern =
      unfold borrar_pagina sacar in update_other m.mem p (λ j. 0) kern (λ q. a.ajena p l (sym q)) in
    let n : (copiar_kernel kern p limpia).npages ≡ m.npages =
      npages-copiar_kernel kern p limpia ∙ (unfold borrar_pagina sacar in refl) in
    subst (λ k. PgdirOk k p) s.hecho
      (subst (λ k. DirOk k p ((copiar_kernel kern p limpia).mem p)) (sym n)
        (subst (DirOk m.npages p)
          (ap (λ (r : ℕ → ℕ). update r ranura_uvpt (bit_or (p * 4096) 5)) (sym d)
            ∙ sym (copiar_kernel-dir kern p limpia))
          (copia-DirOk (m.mem kern) p h (a.existe p l) (λ i w. a.sin_tabla p i l w))))
