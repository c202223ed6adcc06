-- ===== src/Sistema/Paginas/Mapa.antt =====
-- The permissions that sys_page_map of TP2-sched/kern/syscall.c passes on to the page table.
use Prim.Native.Nat.{bit_or}
use sistemas_operarivos_fiub.Base.{
  ℕ, ◌/◌, ◌<◌, ◌≡◌, ◌≢◌, sym, ◌∙◌, subst, false, some, bit_or-pgnum, zero-bit_or, arith,
}
use sistemas_operarivos_fiub.Entornos.Tabla.{envid2env}
use sistemas_operarivos_fiub.Memoria.Tipos.{ranura_uvpt, pdx, ptx, Memoria, ok}
use sistemas_operarivos_fiub.Memoria.Tablas.{page_lookup, page_insert}
use sistemas_operarivos_fiub.Memoria.Tablas.Entradas.{tabla, PgdirOk, LibreAjena}
use sistemas_operarivos_fiub.Memoria.Tablas.Traduccion.{page_lookup-page_insert}
use sistemas_operarivos_fiub.Sistema.Tipos.{Sistema, vuelve, con_memoria, responder}
use sistemas_operarivos_fiub.Sistema.Paginas.{env_page_map, sube_permiso, mala_va, sys_page_map}

mapa_propio :
    (c srcva dstva perm pd p t i : ℕ) (s : Sistema) (m' : Memoria)
    → mala_va srcva ≡ false
    → mala_va dstva ≡ false
    → (s.envs c).env_pgdir ≡ some pd
    → page_lookup pd srcva s.memoria ≡ some (some (p, t, i))
    → sube_permiso (bit_or 5 perm) (s.memoria.mem t i) ≡ false
    → page_insert pd p dstva (bit_or 5 perm) s.memoria ≡ some (ok 0, m')
    → sys_page_map c 0 srcva 0 dstva perm s ≡ vuelve (ok 0) (con_memoria m' s)
unfolding sys_page_map env_page_map responder envid2env
mapa_propio c srcva dstva perm pd p t i s m' a b e l w h = ground arith

-- an address below UTOP is not one of UVPT
bajo : (va : ℕ) → mala_va va ≡ false → pdx va ≢ ranura_uvpt
unfolding mala_va
bajo va h e = ground arith

bits_de_mas : (perm : ℕ) → bit_or 5 perm / 4096 ≡ perm / 4096
bits_de_mas perm = bit_or-pgnum 5 perm ∙ zero-bit_or (perm / 4096)

-- Where an environment with a sound directory maps a page p that it has at another address, and
-- `page_insert` succeeds, the call succeeds with any permissions that do not add writing, and the page that is then found at the
-- address is p or'ed with the bits of the permissions beyond the 12 of an entry.
pub sys_page_map-perm :
    (c srcva dstva perm pd p t i : ℕ) (s : Sistema) (m' : Memoria)
    → PgdirOk s.memoria pd
    → LibreAjena s.memoria pd
    → mala_va srcva ≡ false
    → mala_va dstva ≡ false
    → (s.envs c).env_pgdir ≡ some pd
    → page_lookup pd srcva s.memoria ≡ some (some (p, t, i))
    → sube_permiso (bit_or 5 perm) (s.memoria.mem t i) ≡ false
    → page_insert pd p dstva (bit_or 5 perm) s.memoria ≡ some (ok 0, m')
    → bit_or p (perm / 4096) < s.memoria.npages
    → (sys_page_map c 0 srcva 0 dstva perm s ≡ vuelve (ok 0) (con_memoria m' s))
      × (page_lookup pd dstva m'
          ≡ some (some (bit_or p (perm / 4096), tabla m' pd (pdx dstva), ptx dstva)))
sys_page_map-perm c srcva dstva perm pd p t i s m' o f a b e l w h k =
    let q = bits_de_mas perm in
    (
      mapa_propio c srcva dstva perm pd p t i s m' a b e l w h,
      subst
          (λ x.
            page_lookup pd dstva m' ≡ some (some (bit_or p x, tabla m' pd (pdx dstva), ptx dstva)))
          q
          (page_lookup-page_insert s.memoria m' pd p dstva (bit_or 5 perm) o f (bajo dstva b)
            (subst (λ x. bit_or p x < s.memoria.npages) (sym q) k) h).0,
    )
