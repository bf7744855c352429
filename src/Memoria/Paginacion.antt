-- ===== src/Memoria/Paginacion.antt =====
-- memoria/src/gestion/paginas.c, with the frames, the clock, the RAM and the swap that it calls. A
-- `t_pagina*` is the process and the number of the page. Each function holds mutex_paginas from its
-- first line to its last; a table that was never created is an empty one.
pub mod Tablas
pub mod Victimas
pub mod Clock
pub mod Orden
pub mod Entrada
pub mod Liberacion
pub mod Procesos
pub mod Alcance
use recursos_so.Prelude.Int.{ℤ, pos, negsuc, pos_part, a_int}
use recursos_so.Prelude.{
  ℕ, zero, suc, ◌+◌, ◌-◌, ◌*◌, ◌/◌, ◌%◌, Bool, true, false, List, [], ◌∷◌, ◌++◌, Option, none, some,
  leb, ltb, if◌then◌else◌, ◌==◌, length, get_or, set, take, drop, replicate,
}
use recursos_so.Memoria.Frames.{obtener_frame_libre, liberar_frame}
use recursos_so.Memoria.Reemplazo.{
  Pagina, Tabla, Duenio, pagina_vacia, leer_pagina, Reloj, Victima, elegir_victima_clock,
}
use recursos_so.Memoria.Segmentacion.{leer_memoria_fisica, escribir_memoria_fisica}
use recursos_so.Memoria.Swap.{Archivo, swap_escribir_pagina, swap_leer_pagina}

-- The bitmap of the frames, the page tables with the hand of the clock, the RAM and the swap files.
pub record Paginado : Type 0 where
  pub bits : List Bool
  pub reloj : Reloj
  pub ram : List ℕ
  pub swap : List Archivo

-- dictionary_get
unfoldable pub tabla_de : List Tabla → ℕ → Option (List Pagina)
tabla_de [] pid = none
tabla_de (t ∷ ts) pid = if t.pid == pid then some t.paginas else tabla_de ts pid

-- The table of a process in place of the one it has.
unfoldable pub cambiar_tabla : List Tabla → ℕ → List Pagina → List Tabla
cambiar_tabla [] pid ps = []
cambiar_tabla (t ∷ ts) pid ps =
    if t.pid == pid then record t { paginas = ps } ∷ ts else t ∷ cambiar_tabla ts pid ps

-- The fields of the page that a pointer leads to.
unfoldable pub escribir_pagina : List Tabla → Duenio → Pagina → List Tabla
escribir_pagina [] d p = []
escribir_pagina (t ∷ ts) d p =
    if t.pid == d.pid
    then record t { paginas = set t.paginas d.nro_pagina p } ∷ ts
    else t ∷ escribir_pagina ts d p

-- dictionary_remove
unfoldable pub quitar_tabla : List Tabla → ℕ → List Tabla
quitar_tabla [] pid = []
quitar_tabla (t ∷ ts) pid = if t.pid == pid then ts else t ∷ quitar_tabla ts pid

abbrev pub con_tablas : List Tabla → Paginado → Paginado
con_tablas ts m = record m { reloj = record m.reloj { tablas = ts } }

-- How many pages that many bytes need.
unfoldable pub paginas_para : ℕ → ℕ → ℕ
paginas_para tam_pag bytes = let n = bytes / tam_pag in if bytes % tam_pag == 0 then n else n + 1

-- 1 - q
abbrev uno_menos : ℕ → ℤ
uno_menos zero = pos 1
uno_menos (suc zero) = pos 0
uno_menos (suc (suc q)) = negsuc q

-- The same on an int, whose division goes to zero: a remainder adds one page below zero too.
unfoldable pub paginas_de : ℕ → ℤ → ℤ
unfolding paginas_para
paginas_de tam_pag (pos bytes) = pos (paginas_para tam_pag bytes)
paginas_de tam_pag (negsuc n) =
    if suc n % tam_pag == 0 then negsuc (suc n / tam_pag - 1) else uno_menos (suc n / tam_pag)

-- The frames of the pages, given back from the last to the first.
unfoldable pub liberar_paginas : List Pagina → List Bool → List Bool
unfolding liberar_frame
liberar_paginas [] bits = bits
liberar_paginas (p ∷ ps) bits =
    let resto = liberar_paginas ps bits in
    if p.presente then elim p.frame [ none ↦ resto | some f ↦ liberar_frame f resto ] else resto

unfoldable pub paginacion_crear_proceso : ℕ → ℕ → ℕ → Paginado → Bool × Paginado
unfolding tabla_de paginas_de
paginacion_crear_proceso tam_pag pid tamanio_bytes m = elim (tabla_de m.reloj.tablas pid) [
  | some ps ↦ (false, m)
  | none ↦ (
    true,
    con_tablas
        (record {
          pid = pid;
          paginas = replicate (pos_part (paginas_de tam_pag (a_int tamanio_bytes))) pagina_vacia;
        }
          ∷ m.reloj.tablas)
        m,
  )
]

-- The loop goes from the first page to the last, and clears the same bits.
unfoldable pub paginacion_destruir_proceso : ℕ → Paginado → Paginado
unfolding tabla_de quitar_tabla liberar_paginas
paginacion_destruir_proceso pid m = elim (tabla_de m.reloj.tablas pid) [
  | none ↦ m
  | some ps ↦
      con_tablas (quitar_tabla m.reloj.tablas pid) (record m { bits = liberar_paginas ps m.bits })
]

-- Both sizes are the bits of an int. `none`: below zero pages, the loop that removes the pages goes on to
-- list_remove(tabla, -1).
unfoldable pub paginacion_resize : ℕ → ℕ → ℕ → Paginado → Option (Bool × Paginado)
unfolding tabla_de cambiar_tabla paginas_de liberar_paginas
paginacion_resize tam_pag pid nuevo_tamanio m = elim (tabla_de m.reloj.tablas pid) [
  | none ↦ some (false, m)
  | some ps ↦ elim (paginas_de tam_pag (a_int nuevo_tamanio)) [
    | negsuc n ↦ none
    | pos nuevas ↦
        if ltb (length ps) nuevas
        then some (
          true,
          con_tablas
              (cambiar_tabla m.reloj.tablas pid (ps ++ replicate (nuevas - length ps) pagina_vacia))
              m,
        )
        else some (
          true,
          con_tablas (cambiar_tabla m.reloj.tablas pid (take nuevas ps))
              (record m { bits = liberar_paginas (drop nuevas ps) m.bits }),
        )
  ]
]

-- pagina->uso = true
unfoldable pub usar_pagina : List Tabla → Duenio → List Tabla
unfolding leer_pagina escribir_pagina
usar_pagina ts d = escribir_pagina ts d (record (leer_pagina ts d) { uso = true })

-- `abre` is whether the swap file of the victim can be opened, and `sucio` what malloc gives.
module _ (tam_pag : ℕ) (abre : Bool) (sucio : List ℕ) where
  -- The page from the swap, or zeros, into the frame.
  unfoldable pub cargar : Duenio → ℕ → Paginado → Paginado
  unfolding swap_leer_pagina escribir_memoria_fisica escribir_pagina
  cargar d frame m =
      let contenido : List ℕ = elim (swap_leer_pagina tam_pag d.pid d.nro_pagina m.swap) [
        | none ↦ replicate tam_pag 0
        | some datos ↦ datos
      ] in
      let ram : List ℕ = elim (escribir_memoria_fisica (frame * tam_pag) contenido m.ram) [
        | none ↦ m.ram
        | some r ↦ r
      ] in
      con_tablas
        (escribir_pagina m.reloj.tablas d
          (record { frame = some frame; presente = true; modificado = false; uso = true }))
        (record m { ram = ram })

  -- The bytes of the victim's frame.
  unfoldable pub volcado : ℕ → Paginado → List ℕ
  unfolding leer_memoria_fisica
  volcado frame m = elim (leer_memoria_fisica (frame * tam_pag) tam_pag m.ram) [
    | none ↦ sucio
    | some datos ↦ datos
  ]

  -- The victim to the swap, if it was changed: whether that went well, and the swap.
  unfoldable pub sacar : Duenio → ℕ → Paginado → Bool × List Archivo
  unfolding leer_pagina volcado swap_escribir_pagina
  sacar v frame m =
      if (leer_pagina m.reloj.tablas v).modificado
      then swap_escribir_pagina tam_pag abre v.pid v.nro_pagina (volcado frame m) m.swap
      else (true, m.swap)

  -- The page fault with every frame taken, from the clock on.
  unfoldable pub reemplazar : Duenio → Paginado → Bool × Paginado
  unfolding elegir_victima_clock tabla_de sacar escribir_pagina cargar
  reemplazar d m =
      let (victima, reloj) = elegir_victima_clock (length m.bits) m.reloj in
      let m1 : Paginado = record m { reloj = reloj } in
      elim victima [
        | none ↦ (false, m1)
        | some v ↦ elim v.frame [
          | none ↦ (false, m1)
          | some frame ↦ elim (tabla_de reloj.tablas v.duenio.pid) [
            | none ↦ (false, m1)
            | some tabla_v ↦
                let (salio, swap) = sacar v.duenio frame m1 in
                if salio
                then (
                  true,
                  cargar d frame (
                      con_tablas (escribir_pagina reloj.tablas v.duenio pagina_vacia)
                        (record m1 { swap = swap })),
                )
                else (false, m1)
          ]
        ]
      ]

  -- Whether there is a pointer to the page, which is then present, and the memory after it.
  unfoldable pub paginacion_obtener_entrada : ℕ → ℕ → Paginado → Bool × Paginado
  unfolding tabla_de leer_pagina usar_pagina obtener_frame_libre cargar reemplazar
  paginacion_obtener_entrada pid nro_pagina m =
      let d : Duenio = record { pid = pid; nro_pagina = nro_pagina } in
      elim (tabla_de m.reloj.tablas pid) [
        | none ↦ (false, m)
        | some tabla ↦
            if leb (length tabla) nro_pagina
            then (false, m)
            else if (leer_pagina m.reloj.tablas d).presente
            then (true, con_tablas (usar_pagina m.reloj.tablas d) m)
            else elim (obtener_frame_libre m.bits) [
              | some (frame, bits) ↦ (true, cargar d frame (record m { bits = bits }))
              | none ↦ reemplazar d m
            ]
      ]
