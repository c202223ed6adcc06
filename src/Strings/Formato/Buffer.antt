-- ===== src/Strings/Formato/Buffer.antt =====
-- vsnprintf of TP2-sched/lib/printfmt.c, and what it writes, and where.
use sistemas_operarivos_fiub.Base.{
  Option, none, ◌==◌, ◌||◌, ◌-◌, ℕ, zero, suc, ◌+◌, ◌%◌, ◌<◌, ◌≤◌, ◌≡◌, refl, sym, ap, ◌∙◌, subst,
  true, false, ltb, Bool-cases, inl, inr, some, List, [], ◌∷◌, map, if◌then◌else◌, length, take,
  update, arith,
}
use sistemas_operarivos_fiub.Strings.Rutinas.{strlcpy_desde}
use sistemas_operarivos_fiub.Strings.Copiar.{Copiado, strlcpy_desde-Copiado}
use sistemas_operarivos_fiub.Strings.Formato.{Arg, vprintfmt}

-- `struct sprintbuf`, with the memory it points into
pub record Sprintbuf : Type 0 where
  pub mem : ℕ → ℕ
  pub buf : ℕ
  pub ebuf : ℕ
  pub cnt : ℕ

unfoldable pub sprintputch : ℕ → Sprintbuf → Sprintbuf
sprintputch ch b =
    if ltb b.buf b.ebuf
    then record b { cnt = b.cnt + 1; mem = update b.mem b.buf (ch % 256); buf = b.buf + 1 }
    else record b { cnt = b.cnt + 1 }

unfoldable pub imprimir : List ℕ → Sprintbuf → Sprintbuf
imprimir [] b = b
imprimir (ch ∷ s) b = imprimir s (sprintputch ch b)

-- The count, `none` for -E_INVAL, and the memory.
unfoldable pub vsnprintf : (ℕ → ℕ) → ℕ → ℕ → List ℕ → List Arg → Option (Option ℕ × (ℕ → ℕ))
vsnprintf m buf n fmt ap = if buf == 0 || n == 0 then some (none, m) else elim (vprintfmt fmt ap) [
  | none ↦ none
  | some s ↦
      let b = imprimir s (record { mem = m; buf = buf; ebuf = buf + n - 1; cnt = 0 }) in
      some (some b.cnt, update b.mem b.buf 0)
]

-- the bytes that are stored for the characters
unfoldable pub octetos : List ℕ → List ℕ
octetos s = map (λ ch. ch % 256) s

-- the memory after the final NUL
unfoldable cerrado : Sprintbuf → ℕ → ℕ
cerrado b = update b.mem b.buf 0

strlcpy_desde-nil : (m : ℕ → ℕ) (dst k : ℕ) → (strlcpy_desde m dst [] k).0 ≡ update m dst 0
unfolding strlcpy_desde
strlcpy_desde-nil m dst zero = refl
strlcpy_desde-nil m dst (suc k) = refl

-- a character for which there is room, and one for which there is none
sprintputch-entra :
    (ch : ℕ) (b : Sprintbuf)
    → b.buf < b.ebuf
    → sprintputch ch b
      ≡ record b { cnt = b.cnt + 1; mem = update b.mem b.buf (ch % 256); buf = b.buf + 1 }
unfolding sprintputch
sprintputch-entra ch b h =
    let q : ltb b.buf b.ebuf ≡ true = ground arith in
    ap
      (λ c.
        if c
        then record b { cnt = b.cnt + 1; mem = update b.mem b.buf (ch % 256); buf = b.buf + 1 }
        else record b { cnt = b.cnt + 1 })
      q

sprintputch-llena :
    (ch : ℕ) (b : Sprintbuf) → b.ebuf ≤ b.buf → sprintputch ch b ≡ record b { cnt = b.cnt + 1 }
unfolding sprintputch
sprintputch-llena ch b h =
    let q : ltb b.buf b.ebuf ≡ false = ground arith in
    ap
      (λ c.
        if c
        then record b { cnt = b.cnt + 1; mem = update b.mem b.buf (ch % 256); buf = b.buf + 1 }
        else record b { cnt = b.cnt + 1 })
      q

-- printing into a buffer is the copy of `strlcpy`
imprimir-strlcpy :
    (s : List ℕ) (b : Sprintbuf) (k : ℕ)
    → b.buf + k ≡ b.ebuf
    → cerrado (imprimir s b) ≡ (strlcpy_desde b.mem b.buf (octetos s) k).0
unfolding imprimir cerrado octetos strlcpy_desde
imprimir-strlcpy [] b k e = sym (strlcpy_desde-nil b.mem b.buf k)
imprimir-strlcpy (ch ∷ s) b zero e =
    ap (λ x. cerrado (imprimir s x)) (sprintputch-llena ch b (omega arith))
    ∙ imprimir-strlcpy s (record b { cnt = b.cnt + 1 }) 0 e
imprimir-strlcpy (ch ∷ s) b (suc k) e =
    ap (λ x. cerrado (imprimir s x)) (sprintputch-entra ch b (omega arith))
    ∙ imprimir-strlcpy s
        (record b { cnt = b.cnt + 1; mem = update b.mem b.buf (ch % 256); buf = b.buf + 1 }) k
        (omega arith)

cnt-sprintputch : (ch : ℕ) (b : Sprintbuf) → (sprintputch ch b).cnt ≡ b.cnt + 1
unfolding sprintputch
cnt-sprintputch ch b = elim (Bool-cases (ltb b.buf b.ebuf)) [
  | inl q ↦ ground arith
  | inr q ↦ ground arith
]

cnt-imprimir : (s : List ℕ) (b : Sprintbuf) → (imprimir s b).cnt ≡ b.cnt + length s
unfolding imprimir
cnt-imprimir [] b = omega arith
cnt-imprimir (ch ∷ s) b =
    let c = cnt-imprimir s (sprintputch ch b) in let p = cnt-sprintputch ch b in omega arith

-- Where the format prints s, and the buffer has room for n bytes and the NUL, `vsnprintf` writes at
-- most the first n bytes of s and a NUL, and nothing else, and returns the length of s.
pub vsnprintf-Copiado :
    (m : ℕ → ℕ) (buf n : ℕ) (fmt : List ℕ) (ap : List Arg) (s : List ℕ)
    → 0 < buf
    → vprintfmt fmt ap ≡ some s
    → (m' : ℕ → ℕ) × (vsnprintf m buf (suc n) fmt ap ≡ some (some (length s), m'))
      × Copiado m m' buf (take n (octetos s))
unfolding vsnprintf cerrado
vsnprintf-Copiado m buf n fmt ap s h e =
    let b : Sprintbuf = record { mem = m; buf = buf; ebuf = buf + suc n - 1; cnt = 0 } in
    let c = cnt-imprimir s b in
    let w = imprimir-strlcpy s b n (omega arith) in
    (
      cerrado (imprimir s b),
      ground arith,
      subst (λ m'. Copiado m m' buf (take n (octetos s))) (sym w)
          (strlcpy_desde-Copiado m buf (octetos s) n),
    )
