-- ===== src/Strings/Comparar.antt =====
-- The comparisons and searches of TP2-sched/lib/string.c.
use sistemas_operarivos_fiub.Base.{
  ℕ, zero, suc, ◌+◌, ◌≡◌, ◌≢◌, ◌↔◌, refl, sym, ◌∙◌, subst, Bool-cases, false, if◌then◌else◌,
  Option-cases, inl, inr, none, some, List, [], ◌∷◌, ◌==◌, ==_iff, ==-refl, length, take, arith,
}
use sistemas_operarivos_fiub.Strings.Rutinas.{
  pos, resta, strlen_desde, strlen, strcmp, strncmp, strchr, strfind,
}

-- no byte is the NUL
pub data SinNul : List ℕ → Type 0 where
  vacia : SinNul []
  otra : {x : ℕ} {s : List ℕ} → x ≢ 0 → SinNul s → SinNul (x ∷ s)

resta-cero : (a b : ℕ) → resta a b ≡ pos 0 → a ≡ b
unfolding resta
resta-cero a b h = ground arith

strlen_desde-length : (n : ℕ) (s : List ℕ) → strlen_desde n s ≡ n + length s
unfolding strlen_desde
strlen_desde-length n [] = omega arith
strlen_desde-length n (x ∷ s) = omega (arith, strlen_desde-length (n + 1) s)

-- The result of `strncmp` is that of `strcmp` on the first n bytes of each string.
pub strncmp-take : (p q : List ℕ) (n : ℕ) → strncmp p q n ≡ strcmp (take n p) (take n q)
unfolding strncmp strcmp resta
strncmp-take p q zero = refl
strncmp-take [] [] (suc n) = refl
strncmp-take [] (y ∷ q) (suc n) = refl
strncmp-take (x ∷ p) [] (suc n) = refl
strncmp-take (x ∷ p) (y ∷ q) (suc n) = rw (strncmp-take p q n) refl

strfind-length : (s : List ℕ) (c : ℕ) → strchr s c ≡ none → strfind s c ≡ length s
unfolding strchr strfind
strfind-length [] c h = refl
strfind-length (x ∷ s) c h = elim (Option-cases (strchr s c)) [
  | inl q ↦ ground (arith, strfind-length s c q)
  | inr (i, q) ↦ ground arith
]

strfind-some : (s : List ℕ) (c i : ℕ) → strchr s c ≡ some i → strfind s c ≡ i
unfolding strchr strfind
strfind-some [] c i h = cc
strfind-some (x ∷ s) c i h = elim (Option-cases (strchr s c)) [
  | inl q ↦ ground arith
  | inr (j, q) ↦ ground (arith, strfind-some s c j q)
]

-- `strfind` finds what `strchr` finds, and the end of the string where that finds nothing.
pub strfind-strchr :
    (s : List ℕ) (c : ℕ) → strfind s c ≡ elim (strchr s c) [ none ↦ strlen s | some i ↦ i ]
unfolding strlen
strfind-strchr s c = elim (Option-cases (strchr s c)) [
  | inl q ↦ rw q (strfind-length s c q ∙ omega (arith, strlen_desde-length 0 s))
  | inr (i, q) ↦ rw q (strfind-some s c i q)
]

distinto : {p q : List ℕ} (x y : ℕ) → (x == y) ≡ false → resta x y ≡ pos 0 → (x ∷ p) ≡ (y ∷ q)
distinto x y e h = absurd (no x y e (resta-cero x y h))
  where
    no : (x y : ℕ) → (x == y) ≡ false → x ≢ y
    no x y e = ground arith

strcmp-eq : {p q : List ℕ} → SinNul p → SinNul q → strcmp p q ≡ pos 0 → p ≡ q
unfolding strcmp
strcmp-eq vacia vacia h = refl
strcmp-eq vacia (otra {x} n s) h = absurd (n (sym (resta-cero 0 x h)))
strcmp-eq (otra {x} n s) vacia h = absurd (n (resta-cero x 0 h))
strcmp-eq (otra {x} {s = p} n s) (otra {x = y} {s = q} n' s') h = elim (Bool-cases (x == y)) [
  | inl e ↦ λ i.
      (==_iff x y).0 e i
      ∷ strcmp-eq s s' (subst (λ b. (if b then strcmp p q else resta x y) ≡ pos 0) e h) i
  | inr e ↦ distinto x y e (subst (λ b. (if b then strcmp p q else resta x y) ≡ pos 0) e h)
]

strcmp_refl : (p : List ℕ) → strcmp p p ≡ pos 0
unfolding strcmp resta
strcmp_refl [] = refl
strcmp_refl (x ∷ p) = rw (==-refl x, strcmp_refl p) refl

-- For strings, whose bytes are not the NUL, `strcmp` returns 0 exactly where they are the same.
pub strcmp_iff : (p q : List ℕ) → SinNul p → SinNul q → (strcmp p q ≡ pos 0) ↔ (p ≡ q)
strcmp_iff p q s t = (strcmp-eq s t, λ e. subst (λ r. strcmp p r ≡ pos 0) e (strcmp_refl p))
