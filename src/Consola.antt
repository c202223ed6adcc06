-- ===== src/Consola.antt =====
-- The input buffer of TP2-sched/kern/console.c: cons_intr and cons_getc. What a device gives, before it
-- answers -1, is a list.
pub mod Cola
mod Pruebas
use sistemas_operarivos_fiub.Base.{
  ℕ, ◌+◌, ◌%◌, Bool, true, false, List, [], ◌∷◌, ◌==◌, if◌then◌else◌, update,
}

abbrev pub consbufsize : ℕ
consbufsize = 512

pub record Cons : Type 0 where
  pub buf : ℕ → ℕ
  pub rpos : ℕ
  pub wpos : ℕ

-- `pos++; if (pos == CONSBUFSIZE) pos = 0;`
unfoldable pub siguiente_pos : ℕ → ℕ
siguiente_pos pos = if pos + 1 == consbufsize then 0 else pos + 1

unfoldable pub meter : ℕ → Cons → Cons
meter c b = record b { buf = update b.buf b.wpos (c % 256); wpos = siguiente_pos b.wpos }

unfoldable pub cons_intr : List ℕ → Cons → Cons
cons_intr [] b = b
cons_intr (c ∷ cs) b = elim (c == 0) [ true ↦ cons_intr cs b | false ↦ cons_intr cs (meter c b) ]

-- the next character, or 0
unfoldable pub tomar : Cons → ℕ × Cons
tomar b =
    if b.rpos == b.wpos then (0, b) else (b.buf b.rpos, record b { rpos = siguiente_pos b.rpos })

-- what the serial port and the keyboard give comes first
unfoldable pub cons_getc : List ℕ → List ℕ → Cons → ℕ × Cons
cons_getc serie teclado b = tomar (cons_intr teclado (cons_intr serie b))
