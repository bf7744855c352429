-- ===== src/Memoria/Acceso.antt =====
-- memoria/src/gestion/paginas_io.c: accesses to a paged memory, in chunks that lie in one page each. The
-- mutex is free between the page fault and the access, so `entre` has two functions for each round of the
-- loop: what other threads do before the first look at the page, and then until the mutex is taken.
pub mod Exito
pub mod Fetch
use recursos_so.Prelude.{
  ℕ, ◌+◌, ◌-◌, ◌*◌, ◌/◌, ◌%◌, ◌==◌, ◌^◌, Bool, true, false, List, [], ◌∷◌, ◌++◌, Option, none, some,
  ltb, if◌then◌else◌, length, take, drop,
}
use recursos_so.Memoria.Reemplazo.{Pagina, Tabla, Duenio, leer_pagina}
use recursos_so.Memoria.Segmentacion.{leer_memoria_fisica, escribir_memoria_fisica}
use recursos_so.Memoria.Paginacion.{
  Paginado, con_tablas, escribir_pagina, usar_pagina, paginacion_obtener_entrada,
}

-- pag->uso = true; pag->modificado = true
unfoldable pub ensuciar_pagina : List Tabla → Duenio → List Tabla
unfolding leer_pagina escribir_pagina
ensuciar_pagina ts d =
    escribir_pagina ts d (record (leer_pagina ts d) { uso = true; modificado = true })

-- The smaller of the rest of the page and of what is left.
unfoldable pub trozo : ℕ → ℕ → ℕ → ℕ
trozo tam_pag dir quedan =
    if ltb (tam_pag - dir % tam_pag) quedan then tam_pag - dir % tam_pag else quedan

-- pag->frame * tam_pag + offset on uint32_t; a page without a frame has -1.
unfoldable pub direccion_en : ℕ → Duenio → ℕ → Paginado → ℕ
unfolding leer_pagina
direccion_en tam_pag d dir m = elim (leer_pagina m.reloj.tablas d).frame [
  | none ↦ (2 ^ 32 - tam_pag + dir % tam_pag) % 2 ^ 32
  | some frame ↦ (frame * tam_pag + dir % tam_pag) % 2 ^ 32
]

-- The access under the mutex. A write out of the memory changes nothing.
unfoldable pub escribir_trozo : ℕ → Duenio → ℕ → List ℕ → Paginado → Paginado
unfolding direccion_en escribir_memoria_fisica ensuciar_pagina
escribir_trozo tam_pag d dir datos m =
    let ram : List ℕ = elim (escribir_memoria_fisica (direccion_en tam_pag d dir m) datos m.ram) [
      | none ↦ m.ram
      | some r ↦ r
    ] in
    con_tablas (ensuciar_pagina m.reloj.tablas d) (record m { ram = ram })

-- A read out of the memory leaves `sucio` in the buffer.
unfoldable pub leer_trozo : ℕ → List ℕ → Duenio → ℕ → ℕ → Paginado → List ℕ × Paginado
unfolding direccion_en leer_memoria_fisica usar_pagina
leer_trozo tam_pag sucio d dir n m =
    let leidos : List ℕ = elim (leer_memoria_fisica (direccion_en tam_pag d dir m) n m.ram) [
      | none ↦ sucio
      | some datos ↦ datos
    ] in
    (leidos, con_tablas (usar_pagina m.reloj.tablas d) m)

-- strdup: the bytes before the first zero; the buffer ends with one.
unfoldable pub linea : List ℕ → List ℕ
linea [] = []
linea (b ∷ bs) = if b == 0 then [] else b ∷ linea bs

-- pag->presente && pag->frame != -1
unfoldable pub en_ram : Pagina → Bool
en_ram pag = elim pag.frame [ none ↦ false | some frame ↦ pag.presente ]

module _ (tam_pag : ℕ) (abre : Bool) (sucio : List ℕ) (pid : ℕ) where
  abbrev pub pagina_de : ℕ → Duenio
  pagina_de dir = record { pid = pid; nro_pagina = dir / tam_pag }

  -- The loop, with the bytes that are left to write; `none` where the rounds are over and the loop is not.
  unfoldable pub paginacion_escribir :
      List ((Paginado → Paginado) × (Paginado → Paginado))
      → ℕ
      → List ℕ
      → Paginado
      → Option (Bool × Paginado)
  unfolding paginacion_obtener_entrada leer_pagina trozo escribir_trozo
  paginacion_escribir entre dir [] m = some (true, m)
  paginacion_escribir [] dir (b ∷ buffer) m = none
  paginacion_escribir ((antes, luego) ∷ entre) dir (b ∷ buffer) m =
      let (hay, m1) = paginacion_obtener_entrada tam_pag abre sucio pid (dir / tam_pag) m in
      elim hay [
        | false ↦ some (false, m1)
        | true ↦ elim (leer_pagina (antes m1).reloj.tablas (pagina_de dir)).presente [
          | false ↦ some (false, antes m1)
          | true ↦ elim (leer_pagina (luego (antes m1)).reloj.tablas (pagina_de dir)).presente [
            | false ↦ paginacion_escribir entre dir (b ∷ buffer) (luego (antes m1))
            | true ↦
                let n = trozo tam_pag dir (length (b ∷ buffer)) in
                paginacion_escribir entre ((dir + n) % 2 ^ 32) (drop n (b ∷ buffer)) (
                  escribir_trozo tam_pag (pagina_de dir) dir (take n (b ∷ buffer))
                    (luego (antes m1)))
          ]
        ]
      ]

  -- `faltan` bytes are left to read, after those of `leidos`.
  unfoldable pub paginacion_leer :
      List ((Paginado → Paginado) × (Paginado → Paginado))
      → ℕ
      → ℕ
      → List ℕ
      → Paginado
      → Option (Option (List ℕ) × Paginado)
  unfolding paginacion_obtener_entrada leer_pagina trozo leer_trozo
  paginacion_leer entre dir ℕ.zero leidos m = some (some leidos, m)
  paginacion_leer [] dir (ℕ.suc faltan) leidos m = none
  paginacion_leer ((antes, luego) ∷ entre) dir (ℕ.suc faltan) leidos m =
      let (hay, m1) = paginacion_obtener_entrada tam_pag abre sucio pid (dir / tam_pag) m in
      elim hay [
        | false ↦ some (none, m1)
        | true ↦ elim (leer_pagina (antes m1).reloj.tablas (pagina_de dir)).presente [
          | false ↦ some (none, antes m1)
          | true ↦ elim (leer_pagina (luego (antes m1)).reloj.tablas (pagina_de dir)).presente [
            | false ↦ paginacion_leer entre dir (ℕ.suc faltan) leidos (luego (antes m1))
            | true ↦
                let n = trozo tam_pag dir (ℕ.suc faltan) in
                let (datos, m2) =
                  leer_trozo tam_pag sucio (pagina_de dir) dir n (luego (antes m1)) in
                paginacion_leer entre ((dir + n) % 2 ^ 32) (ℕ.suc faltan - n) (leidos ++ datos) m2
          ]
        ]
      ]

  -- NULL is `none`. The buffer holds `sucio` before the read.
  unfoldable pub paginacion_leer_instruccion :
      (Paginado → Paginado) × (Paginado → Paginado) → ℕ → Paginado → Option (List ℕ) × Paginado
  unfolding paginacion_obtener_entrada leer_pagina leer_trozo linea en_ram
  paginacion_leer_instruccion (antes, luego) pc m =
      let dir = pc * 64 % 2 ^ 32 in
      let (hay, m1) = paginacion_obtener_entrada tam_pag abre sucio pid (dir / tam_pag) m in
      elim hay [
        | false ↦ (none, m1)
        | true ↦ elim (en_ram (leer_pagina (antes m1).reloj.tablas (pagina_de dir))) [
          | false ↦ (none, antes m1)
          | true ↦ elim (en_ram (leer_pagina (luego (antes m1)).reloj.tablas (pagina_de dir))) [
            | false ↦ (none, luego (antes m1))
            | true ↦
                let (datos, m2) =
                  leer_trozo tam_pag sucio (pagina_de dir) dir 255 (luego (antes m1)) in
                (some (linea datos), m2)
          ]
        ]
      ]
