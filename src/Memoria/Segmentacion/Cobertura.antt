-- ===== src/Memoria/Segmentacion/Cobertura.antt =====
-- Which bytes the free blocks and the segments cover, and what each step on the lists does to that.
use recursos_so.Prelude.{
  ℕ, ◌+◌, ◌-◌, ◌≤◌, ◌≡◌, refl, List, [], ◌∷◌, some, ltb, leb, ◌==◌, if◌then◌else◌, arith,
  Bool-cases, Option-cases, inl, inr,
}
use recursos_so.Memoria.Segmentacion.{
  Bloque, Segmento, buscar_segmento, quitar_segmento, poner_segmento, tomar_bloque, devolver_bloque,
  merge_desde, merge_bloques_adyacentes, extender,
}

-- 1 where the byte `a` is in the `n` bytes from `base` on.
unfoldable pub cubre : ℕ → ℕ → ℕ → ℕ
cubre a base n = if leb base a then if ltb a (base + n) then 1 else 0 else 0

-- How many free blocks cover a byte, and how many segments.
unfoldable pub libres_en : ℕ → List Bloque → ℕ
unfolding cubre
libres_en a [] = 0
libres_en a (b ∷ bs) = cubre a b.base b.tamanio + libres_en a bs

unfoldable pub ocupados_en : ℕ → List Segmento → ℕ
unfolding cubre
ocupados_en a [] = 0
ocupados_en a (s ∷ ss) = cubre a s.base s.limite + ocupados_en a ss

pub cubre-partido : (a base n m : ℕ) → cubre a base (n + m) ≡ cubre a base n + cubre a (base + n) m
unfolding cubre
cubre-partido a base n m = ground arith

-- The same where the second part is what is left of the whole.
pub cubre-resto :
    (a base n m : ℕ) → n ≤ m → cubre a base m ≡ cubre a base n + cubre a (base + n) (m - n)
unfolding cubre
cubre-resto a base n m l = ground arith

pub libres_en-tomar_bloque :
    (a n : ℕ) (bs : List Bloque) (base : ℕ) (bs1 : List Bloque)
    → tomar_bloque n bs ≡ some (base, bs1)
    → libres_en a bs ≡ cubre a base n + libres_en a bs1
unfolding libres_en tomar_bloque
libres_en-tomar_bloque a n [] base bs1 h = ground arith
libres_en-tomar_bloque a n (b ∷ bs) base bs1 h = elim (Bool-cases (leb n b.tamanio)) [
  | inl cabe ↦ elim (Bool-cases (n == b.tamanio)) [
    | inl justo ↦ ground arith
    | inr sobra ↦ ground (arith, cubre-resto a b.base n b.tamanio)
  ]
  | inr chico ↦ elim (Option-cases (tomar_bloque n bs)) [
    | inl nada ↦ ground arith
    | inr ((base2, bs2), hay) ↦ ground (arith, libres_en-tomar_bloque a n bs base2 bs2 hay)
  ]
]

pub libres_en-extender :
    (a fin extra : ℕ) (bs bs1 : List Bloque)
    → extender fin extra bs ≡ some bs1
    → libres_en a bs ≡ cubre a fin extra + libres_en a bs1
unfolding libres_en extender
libres_en-extender a fin extra [] bs1 h = ground arith
libres_en-extender a fin extra (b ∷ bs) bs1 h = elim (Option-cases (extender fin extra bs)) [
  | inl nada ↦ ground (arith, cubre-resto a b.base extra b.tamanio)
  | inr (bs2, hay) ↦
      ground
        (arith, cubre-resto a b.base extra b.tamanio, libres_en-extender a fin extra bs bs2 hay)
]

pub libres_en-devolver_bloque :
    (a base n : ℕ) (bs : List Bloque)
    → libres_en a (devolver_bloque base n bs) ≡ cubre a base n + libres_en a bs
unfolding libres_en devolver_bloque
libres_en-devolver_bloque a base n [] = refl
libres_en-devolver_bloque a base n (b ∷ bs) = ground (arith, libres_en-devolver_bloque a base n bs)

pub libres_en-merge_desde :
    (a : ℕ) (b : Bloque) (bs : List Bloque)
    → libres_en a (merge_desde b bs) ≡ cubre a b.base b.tamanio + libres_en a bs
unfolding libres_en merge_desde
libres_en-merge_desde a b [] = refl
libres_en-merge_desde a b (c ∷ cs) = ground (
  arith,
  libres_en-merge_desde a (record b { tamanio = b.tamanio + c.tamanio }) cs,
  libres_en-merge_desde a c cs,
  cubre-partido a b.base b.tamanio c.tamanio,
)

pub libres_en-merge_bloques_adyacentes :
    (a : ℕ) (bs : List Bloque) → libres_en a (merge_bloques_adyacentes bs) ≡ libres_en a bs
unfolding libres_en merge_bloques_adyacentes
libres_en-merge_bloques_adyacentes a [] = refl
libres_en-merge_bloques_adyacentes a (b ∷ bs) = libres_en-merge_desde a b bs

pub ocupados_en-quitar_segmento :
    (a pid : ℕ) (ss : List Segmento) (s : Segmento)
    → buscar_segmento pid ss ≡ some s
    → ocupados_en a ss ≡ cubre a s.base s.limite + ocupados_en a (quitar_segmento pid ss)
unfolding ocupados_en buscar_segmento quitar_segmento
ocupados_en-quitar_segmento a pid [] s h = ground arith
ocupados_en-quitar_segmento a pid (x ∷ ss) s h =
    ground (arith, ocupados_en-quitar_segmento a pid ss s)

pub ocupados_en-poner_segmento :
    (a : ℕ) (v : Segmento) (ss : List Segmento) (s : Segmento)
    → buscar_segmento v.pid ss ≡ some s
    → ocupados_en a (poner_segmento v ss) + cubre a s.base s.limite
      ≡ ocupados_en a ss + cubre a v.base v.limite
unfolding ocupados_en buscar_segmento poner_segmento
ocupados_en-poner_segmento a v [] s h = ground arith
ocupados_en-poner_segmento a v (x ∷ ss) s h = ground (arith, ocupados_en-poner_segmento a v ss s)

pub pid-buscar_segmento :
    (pid : ℕ) (ss : List Segmento) (s : Segmento) → buscar_segmento pid ss ≡ some s → s.pid ≡ pid
unfolding buscar_segmento
pid-buscar_segmento pid [] s h = ground arith
pid-buscar_segmento pid (x ∷ ss) s h = ground (arith, pid-buscar_segmento pid ss s)
