-- ===== src/Memoria/Swap/Contenido.antt =====
-- What the swap gives back of the pages that were written to it.
use recursos_so.Prelude.{
  ℕ, zero, suc, ◌+◌, ◌-◌, ◌*◌, ◌<◌, ◌≤◌, ◌≡◌, ◌≢◌, refl, ap, ◌∙◌, subst, true, false, List, [], ◌∷◌,
  none, some, ◌==◌, length, take, drop, replicate, arith, Bool-cases, length-append, length-take,
  dec_lt, length-replicate, inl, inr,
}
use recursos_so.Memoria.Segmentacion.Contenido.{length-escrita, take-drop-escrita}
use recursos_so.Memoria.Swap.{
  Archivo, archivo_de, guardar_archivo, truncar, escribir_en, abrir, swap_escribir_pagina,
  swap_leer_pagina,
}

archivo_de-guardar_archivo :
    (pid : ℕ) (c : List ℕ) (fs : List Archivo) → archivo_de pid (guardar_archivo pid c fs) ≡ some c
unfolding archivo_de guardar_archivo
archivo_de-guardar_archivo pid c [] = ground arith
archivo_de-guardar_archivo pid c (a ∷ fs) = elim (Bool-cases (a.pid == pid)) [
  | inl si ↦ rw (si, si) refl
  | inr distinto ↦ rw (distinto, distinto) (archivo_de-guardar_archivo pid c fs)
]

archivo_de-guardar_otro :
    (pid otro : ℕ) (c : List ℕ) (fs : List Archivo)
    → pid ≢ otro
    → archivo_de otro (guardar_archivo pid c fs) ≡ archivo_de otro fs
unfolding archivo_de guardar_archivo
archivo_de-guardar_otro pid otro c [] ne = ground arith
archivo_de-guardar_otro pid otro c (a ∷ fs) ne =
    ground (arith, archivo_de-guardar_otro pid otro c fs ne)

length-take_full : (n : ℕ) (f : List ℕ) → length f ≤ n → length (take n f) ≡ length f
length-take_full zero [] l = refl
length-take_full zero (x ∷ f) l = absurd (omega arith)
length-take_full (suc n) [] l = refl
length-take_full (suc n) (x ∷ f) l = ap suc (length-take_full n f (omega arith))

length-truncar : (n : ℕ) (f : List ℕ) → length (truncar n f) ≡ n
unfolding truncar
length-truncar n f =
    let suma = length-append (take n f) (replicate (n - length f) 0) in
    let ceros = length-replicate {A = ℕ} (n - length f) 0 in
    elim (dec_lt n (length f)) [
      | yes l ↦ suma ∙ omega (arith, length-take n f (omega arith))
      | no l ↦ suma ∙ omega (arith, length-take_full n f (omega arith))
    ]

length-truncada :
    (tam nro : ℕ) (c f : List ℕ)
    → length c ≡ tam
    → nro * tam + length c ≤ length (truncar (nro * tam + tam) f)
length-truncada tam nro c f h = omega (arith, length-truncar (nro * tam + tam) f)

leido :
    (tam nro : ℕ) (c f : List ℕ)
    → length c ≡ tam
    → take tam (drop (nro * tam) (escribir_en (nro * tam) c (truncar (nro * tam + tam) f))) ≡ c
unfolding escribir_en
leido tam nro c f h =
    let g = truncar (nro * tam + tam) f in
    subst (λ n. take n (drop (nro * tam) (escribir_en (nro * tam) c g)) ≡ c) h
      (take-drop-escrita (nro * tam) c g (length-truncada tam nro c f h))

length-archivo :
    (tam nro : ℕ) (c f : List ℕ)
    → length c ≡ tam
    → length (escribir_en (nro * tam) c (truncar (nro * tam + tam) f)) ≡ nro * tam + tam
unfolding escribir_en
length-archivo tam nro c f h =
    length-escrita (nro * tam) c (truncar (nro * tam + tam) f) (length-truncada tam nro c f h)
    ∙ length-truncar (nro * tam + tam) f

length-nada : (n : ℕ) (xs : List ℕ) → xs ≡ [] → length (take n xs) ≡ 0
length-nada zero xs h = refl
length-nada (suc n) xs h = rw h refl

-- A page of the size of a page that is written to the swap is read back, whatever was in the swap, and
-- the pages of every other process are read as before.
pub swap_leer-swap_escribir_pagina :
    (tam pid nro : ℕ) (c : List ℕ) (fs : List Archivo)
    → length c ≡ tam
    → (swap_leer_pagina tam pid nro (swap_escribir_pagina tam true pid nro c fs).1 ≡ some c)
      × ((otro n : ℕ)
          → pid ≢ otro
          → swap_leer_pagina tam otro n (swap_escribir_pagina tam true pid nro c fs).1
            ≡ swap_leer_pagina tam otro n fs)
unfolding swap_leer_pagina swap_escribir_pagina
swap_leer-swap_escribir_pagina tam pid nro c fs h =
    let f = escribir_en (nro * tam) c (truncar (nro * tam + tam) (abrir pid fs)) in
    let e : (length c == tam) ≡ true = ground arith in
    (
      rw (archivo_de-guardar_archivo pid f fs, swap_leer_pagina)
          (rw (leido tam nro c (abrir pid fs) h) (rw e refl)),
      λ otro n ne. rw (archivo_de-guardar_otro pid otro f fs ne, swap_leer_pagina) refl,
    )

drop-pasado : (n : ℕ) (xs : List ℕ) → length xs ≤ n → drop n xs ≡ []
drop-pasado zero [] l = refl
drop-pasado zero (x ∷ xs) l = absurd (omega arith)
drop-pasado (suc n) [] l = refl
drop-pasado (suc n) (x ∷ xs) l = drop-pasado n xs (omega arith)

pagina_despues : (a b t : ℕ) → a < b → a * t + t ≤ b * t
pagina_despues a zero t l = absurd (omega arith)
pagina_despues zero (suc b) t l = grind arith
pagina_despues (suc a) (suc b) t l = let ih = pagina_despues a b t (omega arith) in grind arith

-- For pages that are not of zero bytes: a page that is written to the swap cuts the file after it, so
-- that every later page of the process is not found any more, whatever was in the file.
pub swap_escribir_pagina-pierde :
    (tam pid nro despues : ℕ) (c : List ℕ) (fs : List Archivo)
    → 0 < tam
    → length c ≡ tam
    → nro < despues
    → swap_leer_pagina tam pid despues (swap_escribir_pagina tam true pid nro c fs).1 ≡ none
unfolding swap_leer_pagina swap_escribir_pagina
swap_escribir_pagina-pierde tam pid nro despues c fs p h l =
    let f = escribir_en (nro * tam) c (truncar (nro * tam + tam) (abrir pid fs)) in
    let vacio : drop (despues * tam) f ≡ [] = drop-pasado (despues * tam) f (
      omega (arith, length-archivo tam nro c (abrir pid fs) h, pagina_despues nro despues tam l)) in
    let corto : (length (take tam (drop (despues * tam) f)) == tam) ≡ false =
      ground (arith, length-nada tam (drop (despues * tam) f) vacio) in
    rw (archivo_de-guardar_archivo pid f fs, swap_leer_pagina) (rw corto refl)
