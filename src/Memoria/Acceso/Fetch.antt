-- ===== src/Memoria/Acceso/Fetch.antt =====
-- paginas_io.c: what the fetch of an instruction reads.
use recursos_so.Prelude.{
  zero, suc, ◌≢◌, ◌<◌, ◌≤◌, All, [], ◌∷◌, ◌++◌, Bool-cases, inl, inr, ℕ, ◌+◌, ◌*◌, ◌/◌, ◌%◌, ◌^◌,
  ◌≡◌, refl, ◌∙◌, ap, Bool, true, false, List, Option, none, some, ltb, if◌then◌else◌, length, take,
  drop, arith,
}
use recursos_so.Memoria.Reemplazo.{Duenio, leer_pagina}
use recursos_so.Memoria.Segmentacion.{leer_memoria_fisica}
use recursos_so.Memoria.Paginacion.{Paginado, paginacion_obtener_entrada}
use recursos_so.Memoria.Paginacion.Tablas.{duenio}
use recursos_so.Memoria.Paginacion.Victimas.{En}
use recursos_so.Memoria.Acceso.{
  linea, en_ram, leer_trozo, direccion_en, paginacion_leer_instruccion,
}
use recursos_so.Memoria.Acceso.Exito.{elim_true}

if_true {ℓ} : {A : Type ℓ} (b : Bool) (x y : A) → b ≡ true → (if b then x else y) ≡ x
if_true true x y h = refl
if_true false x y h = cc

leida :
    (dir : ℕ) (ram sucio : List ℕ)
    → (elim (leer_memoria_fisica dir 255 ram) as (λ _. List ℕ) [
      | none ↦ sucio
      | some datos ↦ datos
    ])
      ≡ (if ltb (length ram) ((dir + 255) % 2 ^ 32) then sucio else take 255 (drop dir ram))
unfolding leer_memoria_fisica
leida dir ram sucio = elim (Bool-cases (ltb (length ram) ((dir + 255) % 2 ^ 32))) [
  | inl e ↦ rw (e, leer_memoria_fisica) refl
  | inr e ↦ rw (e, leer_memoria_fisica) refl
]

-- The access to a page in a frame.
leer_trozo-linea :
    (tam_pag : ℕ) (sucio : List ℕ) (d : Duenio) (dir f : ℕ) (m : Paginado)
    → En m.reloj.tablas d f
    → (leer_trozo tam_pag sucio d dir 255 m).0 ≡ (
        if ltb (length m.ram) (((f * tam_pag + dir % tam_pag) % 2 ^ 32 + 255) % 2 ^ 32)
        then sucio
        else take 255 (drop ((f * tam_pag + dir % tam_pag) % 2 ^ 32) m.ram))
unfolding leer_trozo direccion_en leer_memoria_fisica
leer_trozo-linea tam_pag sucio d dir f m en =
    rw (en.frame, leer_trozo, direccion_en)
      (leida ((f * tam_pag + dir % tam_pag) % 2 ^ 32) m.ram sucio)

en_ram-En :
    (m : Paginado) (d : Duenio) (f : ℕ)
    → En m.reloj.tablas d f
    → en_ram (leer_pagina m.reloj.tablas d) ≡ true
unfolding en_ram
en_ram-En m d f en = rw (en.frame, en_ram) en.presente

-- The fetch, after a request that leaves the page in the frame `f`.
fetch-linea :
    (tam_pag : ℕ) (abre : Bool) (sucio : List ℕ) (pid pc f : ℕ) (m : Paginado)
    → (paginacion_obtener_entrada tam_pag abre sucio pid (pc * 64 % 2 ^ 32 / tam_pag) m).0 ≡ true
    → En
        (paginacion_obtener_entrada tam_pag abre sucio pid
          (pc * 64 % 2 ^ 32 / tam_pag)
          m).1.reloj.tablas
        (duenio pid (pc * 64 % 2 ^ 32 / tam_pag))
        f
    → (paginacion_leer_instruccion tam_pag abre sucio pid (λ x. x, λ x. x) pc m).0 ≡ (
        let ram =
          (paginacion_obtener_entrada tam_pag abre sucio pid
            (pc * 64 % 2 ^ 32 / tam_pag)
            m).1.ram in
        let dir = (f * tam_pag + pc * 64 % 2 ^ 32 % tam_pag) % 2 ^ 32 in
        some (
          linea
            (if ltb (length ram) ((dir + 255) % 2 ^ 32) then sucio else take 255 (drop dir ram))))
unfolding paginacion_leer_instruccion
fetch-linea tam_pag abre sucio pid pc f m hay en =
    let dir = pc * 64 % 2 ^ 32 in
    let d = duenio pid (dir / tam_pag) in
    let m1 = (paginacion_obtener_entrada tam_pag abre sucio pid (dir / tam_pag) m).1 in
    let q = en_ram-En m1 d f en in
    rw (hay, paginacion_leer_instruccion)
      (ap (λ (x : Option (List ℕ) × Paginado). x.0) (elim_true _ _ _ q ∙ elim_true _ _ _ q)
        ∙ ap (λ x. some (linea x)) (leer_trozo-linea tam_pag sucio d dir f m1 en))

-- A text that a zero ends, in a buffer that has room for the zero.
linea-texto :
    (n : ℕ) (texto resto : List ℕ)
    → All (λ b. b ≢ 0) texto
    → length texto < n
    → linea (take n (texto ++ 0 ∷ resto)) ≡ texto
unfolding linea
linea-texto zero texto resto a l = absurd (omega arith)
linea-texto (suc n) [] resto a l = refl
linea-texto (suc n) (b ∷ texto) resto (ne, a) l =
    ground (arith, linea-texto n texto resto a (omega arith))

linea-todo : (texto resto : List ℕ) → All (λ b. b ≢ 0) texto → linea (texto ++ 0 ∷ resto) ≡ texto
unfolding linea
linea-todo [] resto a = refl
linea-todo (b ∷ texto) resto (ne, a) = ground (arith, linea-todo texto resto a)

-- The RAM holds a text of fewer than 255 bytes other than zero, and then a zero, at the address of the
-- instruction in the frame in which a request leaves its page, whether it was there or comes from the
-- swap; that address is below 2 ^ 32, and 255 bytes of a memory of fewer than 2 ^ 32 are left from there
-- on. Then, with no other thread in between, the fetch gives that text.
pub paginacion_leer_instruccion-texto :
    (tam_pag : ℕ) (abre : Bool) (sucio : List ℕ) (pid pc f : ℕ) (m : Paginado)
    (texto resto : List ℕ)
    → (paginacion_obtener_entrada tam_pag abre sucio pid (pc * 64 % 2 ^ 32 / tam_pag) m).0 ≡ true
    → En
        (paginacion_obtener_entrada tam_pag abre sucio pid
          (pc * 64 % 2 ^ 32 / tam_pag)
          m).1.reloj.tablas
        (duenio pid (pc * 64 % 2 ^ 32 / tam_pag))
        f
    → drop
        (f * tam_pag + pc * 64 % 2 ^ 32 % tam_pag)
        (paginacion_obtener_entrada tam_pag abre sucio pid (pc * 64 % 2 ^ 32 / tam_pag) m).1.ram
      ≡ texto ++ 0 ∷ resto
    → All (λ b. b ≢ 0) texto
    → length texto < 255
    → f * tam_pag + pc * 64 % 2 ^ 32 % tam_pag + 255
      ≤ length
          (paginacion_obtener_entrada tam_pag abre sucio pid (pc * 64 % 2 ^ 32 / tam_pag) m).1.ram
    → length
        (paginacion_obtener_entrada tam_pag abre sucio pid (pc * 64 % 2 ^ 32 / tam_pag) m).1.ram
      < 2 ^ 32
    → (paginacion_leer_instruccion tam_pag abre sucio pid (λ x. x, λ x. x) pc m).0 ≡ some texto
paginacion_leer_instruccion-texto tam_pag abre sucio pid pc f m texto resto hay en esta a l cabe
      corta =
    let ram =
      (paginacion_obtener_entrada tam_pag abre sucio pid (pc * 64 % 2 ^ 32 / tam_pag) m).1.ram in
    let dir = f * tam_pag + pc * 64 % 2 ^ 32 % tam_pag in
    let igual : dir % 2 ^ 32 ≡ dir = omega arith in
    let dentro : ltb (length ram) ((dir + 255) % 2 ^ 32) ≡ false = ground arith in
    fetch-linea tam_pag abre sucio pid pc f m hay en
    ∙ rw (igual, dentro, esta) (ap some (linea-texto 255 texto resto a l))

-- Where fewer than 255 bytes of the memory are left from the address of the instruction on, in the frame
-- in which a request leaves its page, below 2 ^ 32: with no other thread in between, the fetch gives the
-- text that was in its buffer before, up to the first zero, whatever the memory holds.
pub paginacion_leer_instruccion-sucio :
    (tam_pag : ℕ) (abre : Bool) (texto resto : List ℕ) (pid pc f : ℕ) (m : Paginado)
    → (paginacion_obtener_entrada tam_pag abre
        (texto ++ 0 ∷ resto)
        pid
        (pc * 64 % 2 ^ 32 / tam_pag)
        m).0
      ≡ true
    → En
        (paginacion_obtener_entrada tam_pag abre
          (texto ++ 0 ∷ resto)
          pid
          (pc * 64 % 2 ^ 32 / tam_pag)
          m).1.reloj.tablas
        (duenio pid (pc * 64 % 2 ^ 32 / tam_pag))
        f
    → All (λ b. b ≢ 0) texto
    → length
        (paginacion_obtener_entrada tam_pag abre
          (texto ++ 0 ∷ resto)
          pid
          (pc * 64 % 2 ^ 32 / tam_pag)
          m).1.ram
      < f * tam_pag + pc * 64 % 2 ^ 32 % tam_pag + 255
    → f * tam_pag + pc * 64 % 2 ^ 32 % tam_pag + 255 < 2 ^ 32
    → (paginacion_leer_instruccion tam_pag abre (texto ++ 0 ∷ resto) pid (λ x. x, λ x. x) pc m).0
      ≡ some texto
paginacion_leer_instruccion-sucio tam_pag abre texto resto pid pc f m hay en a fuera corta =
    let sucio = texto ++ 0 ∷ resto in
    let ram =
      (paginacion_obtener_entrada tam_pag abre sucio pid (pc * 64 % 2 ^ 32 / tam_pag) m).1.ram in
    let dir = f * tam_pag + pc * 64 % 2 ^ 32 % tam_pag in
    let igual : dir % 2 ^ 32 ≡ dir = omega arith in
    let falla : ltb (length ram) ((dir + 255) % 2 ^ 32) ≡ true = ground arith in
    fetch-linea tam_pag abre sucio pid pc f m hay en
    ∙ rw (igual, falla) (ap some (linea-todo texto resto a))
