-- ===== src/Cpu/Tlb/Victima.antt =====
-- elegir_victima: the loop over the uses of the entries.
use recursos_so.Prelude.{
  ℕ, suc, ◌+◌, ◌<◌, ◌≤◌, ◌≡◌, refl, ap, true, List, [], ◌∷◌, ltb, if◌then◌else◌, length, get_or,
  All, arith, subst, Bool-cases, List-cases, inl, inr,
}
use recursos_so.Cpu.Tlb.{Entrada, Tlb, menos_usada, elegir_victima}

abbrev entrada_vacia : Entrada
entrada_vacia = record { pid = 0; pagina = 0; marco = 0; last_use = 0 }

-- The entry in slot `v` was used no later than any other.
pub record MenosUsada (es : List Entrada) (v : ℕ) : Type 0 where
  pub dentro : v < length es
  pub menor : All (λ e. (get_or es v entrada_vacia).last_use ≤ e.last_use) es

menos_usada-lt :
    (es : List Entrada) (i min uso : ℕ) → min < i → menos_usada es i min uso < i + length es
unfolding menos_usada
menos_usada-lt [] i min uso l = omega arith
menos_usada-lt (e ∷ es) i min uso l =
    ground (arith, menos_usada-lt es (suc i) i e.last_use, menos_usada-lt es (suc i) min uso)

-- The use of the slot that the search ends with, where `uso` is that of `min`.
uso_final : List Entrada → ℕ → ℕ
uso_final [] uso = uso
uso_final (e ∷ es) uso = if ltb e.last_use uso then uso_final es e.last_use else uso_final es uso

uso_final-le : (es : List Entrada) (uso : ℕ) → uso_final es uso ≤ uso
unfolding uso_final
uso_final-le [] uso = omega arith
uso_final-le (e ∷ es) uso = ground (arith, uso_final-le es e.last_use, uso_final-le es uso)

uso_final-menor :
    (es : List Entrada) (uso m : ℕ) → m ≤ uso_final es uso → All (λ e. m ≤ e.last_use) es
unfolding uso_final
uso_final-menor [] uso m l = tt
uso_final-menor (e ∷ es) uso m l = elim (Bool-cases (ltb e.last_use uso)) [
  | inl h ↦
      (ground (arith, uso_final-le es e.last_use), uso_final-menor es e.last_use m (ground arith))
  | inr h ↦ (ground (arith, uso_final-le es uso), uso_final-menor es uso m (ground arith))
]

-- The slot found has that use, where slot `min` has `uso` and the slots from `i` on are `es`.
menos_usada-uso :
    (todas es : List Entrada) (i min uso : ℕ)
    → ((j : ℕ) → get_or todas (i + j) entrada_vacia ≡ get_or es j entrada_vacia)
    → (get_or todas min entrada_vacia).last_use ≡ uso
    → (get_or todas (menos_usada es i min uso) entrada_vacia).last_use ≡ uso_final es uso
unfolding menos_usada uso_final
menos_usada-uso todas [] i min uso c g = g
menos_usada-uso todas (e ∷ es) i min uso c g =
    let c' : (j : ℕ) → get_or todas (suc i + j) entrada_vacia ≡ get_or es j entrada_vacia = (λ j.
      subst (λ n. get_or todas n entrada_vacia ≡ get_or es j entrada_vacia) (omega arith)
        (c (suc j))) in
    elim (Bool-cases (ltb e.last_use uso)) [
      | inl h ↦ rw h (
          menos_usada-uso todas es (suc i) i e.last_use c' (
            ap (λ x. x.last_use)
              (subst (λ n. get_or todas n entrada_vacia ≡ e) (omega arith) (c 0))))
      | inr h ↦ rw h (menos_usada-uso todas es (suc i) min uso c' g)
    ]

get_or-siguiente :
    (e : Entrada) (es : List Entrada) (j : ℕ)
    → get_or (e ∷ es) (1 + j) entrada_vacia ≡ get_or es j entrada_vacia
get_or-siguiente e es j =
    let base : get_or (e ∷ es) (suc j) entrada_vacia ≡ get_or es j entrada_vacia = refl in
    subst (λ n. get_or (e ∷ es) n entrada_vacia ≡ get_or es j entrada_vacia) {x = suc j}
      (omega arith) base

menos_usada-MenosUsada :
    (e : Entrada) (es : List Entrada) → MenosUsada (e ∷ es) (menos_usada es 1 0 e.last_use)
menos_usada-MenosUsada e es =
    let v = menos_usada es 1 0 e.last_use in
    let sigue : (j : ℕ) → get_or (e ∷ es) (1 + j) entrada_vacia ≡ get_or es j entrada_vacia =
      get_or-siguiente e es in
    let uso : (get_or (e ∷ es) v entrada_vacia).last_use ≡ uso_final es e.last_use =
      menos_usada-uso (e ∷ es) es 1 0 e.last_use sigue refl in
    record {
      dentro = omega (arith, menos_usada-lt es 1 0 e.last_use);
      menor = (
        omega (arith, uso, uso_final-le es e.last_use),
        uso_final-menor es e.last_use
            (get_or (e ∷ es) (menos_usada es 1 0 e.last_use) entrada_vacia).last_use
            (omega (arith, uso)),
      );
    }

-- With LRU and at least one entry in use, the victim is an entry in use that was used no later than
-- any other.
pub elegir_victima-MenosUsada :
    (t : Tlb) → t.lru ≡ true → 0 < length t.entradas → MenosUsada t.entradas (elegir_victima t)
unfolding elegir_victima
elegir_victima-MenosUsada t l h = elim (List-cases t.entradas) [
  | inl nada ↦ ground arith
  | inr (e, es, hay) ↦ rw (l, hay) (menos_usada-MenosUsada e es)
]
