-- ===== src/Memoria/Ejemplos/Paginas.antt =====
-- A memory of one frame in which two pages of a process take turns, and a swap file.
use recursos_so.Prelude.{
  ap, ℕ, ◌<◌, ◌+◌, ◌*◌, ◌^◌, ◌≤◌, List, length, ◌≡◌, ◌≢◌, refl, true, false, [], ◌∷◌, none, some,
  arith, replicate,
}
use recursos_so.Memoria.Frames.{frames_init}
use recursos_so.Memoria.Swap.{Archivo, swap_escribir_pagina, swap_leer_pagina}
use recursos_so.Memoria.Swap.Contenido.{swap_leer-swap_escribir_pagina, swap_escribir_pagina-pierde}
use recursos_so.Memoria.Paginacion.{Paginado, paginacion_crear_proceso, paginacion_obtener_entrada}
use recursos_so.Memoria.Paginacion.Tablas.{duenio, largo}
use recursos_so.Memoria.Paginacion.Entrada.{
  EsOrdenado, Atendida, paginacion_obtener_entrada-Atendida,
}
use recursos_so.Memoria.Acceso.{paginacion_leer_instruccion, paginacion_escribir, paginacion_leer}
use recursos_so.Memoria.Acceso.Fetch.{
  paginacion_leer_instruccion-texto, paginacion_leer_instruccion-sucio,
}
use recursos_so.Memoria.Paginacion.Victimas.{En}
use recursos_so.Memoria.Acceso.Exito.{paginacion_escribir-paginacion_leer}
use recursos_so.Memoria.Paginacion.Alcance.{Paso, Alcanzable, Alcanzable-EsOrdenado}

abbrev vacia : Paginado
vacia = record {
  bits = false ∷ [];
  reloj = record { clock_hand = 0; tablas = [] };
  ram = replicate 4 0;
  swap = [];
}

abbrev con_proceso : Paginado
con_proceso = (paginacion_crear_proceso 4 1 8 vacia).1

abbrev con_pagina : Paginado
con_pagina = (paginacion_obtener_entrada 4 true [] 1 0 con_proceso).1

un_frame : frames_init 4 4 ≡ some vacia.bits
unfolding frames_init
un_frame = refl

con_pagina-Alcanzable : Alcanzable 4 4 con_pagina
con_pagina-Alcanzable =
    Alcanzable.luego (Alcanzable.luego (Alcanzable.inicio un_frame refl) (Paso.crear 1 8))
      (Paso.pedir true [] 1 0)

Alcanzable-EsOrdenado_example : EsOrdenado con_pagina
Alcanzable-EsOrdenado_example = Alcanzable-EsOrdenado 4 4 con_pagina con_pagina-Alcanzable

dos_paginas : 1 < largo con_pagina.reloj.tablas 1
unfolding paginacion_crear_proceso paginacion_obtener_entrada largo
dos_paginas = omega arith

paginacion_obtener_entrada-Atendida_example :
    Atendida (duenio 1 1) true con_pagina (paginacion_obtener_entrada 4 true [] 1 1 con_pagina)
paginacion_obtener_entrada-Atendida_example =
    paginacion_obtener_entrada-Atendida 4 true [] 1 1 con_pagina Alcanzable-EsOrdenado_example
      dos_paginas

cruza_paginas :
    (0 < length con_pagina.bits)
    × (2 + 4 ≤ largo con_pagina.reloj.tablas 1 * 4)
    × (largo con_pagina.reloj.tablas 1 * 4 < 2 ^ 32)
unfolding paginacion_crear_proceso paginacion_obtener_entrada largo
cruza_paginas = (omega arith, omega arith, omega arith)

abbrev cuatro_bytes : List ℕ
cuatro_bytes = 9 ∷ 8 ∷ 7 ∷ 6 ∷ []

paginacion_escribir-paginacion_leer_example :
    ((m' : Paginado) × (paginacion_escribir 4 true [] 1
          (replicate 4 (λ x. x, λ x. x))
          2
          cuatro_bytes
          con_pagina
        ≡ some (true, m'))
      × EsOrdenado m')
    × ((datos : List ℕ) × (m' : Paginado) × (paginacion_leer 4 true [] 1
            (replicate 4 (λ x. x, λ x. x))
            2
            4
            []
            con_pagina
          ≡ some (some datos, m'))
        × EsOrdenado m')
paginacion_escribir-paginacion_leer_example =
    paginacion_escribir-paginacion_leer 4 [] 1 2 cuatro_bytes con_pagina (omega arith) (record {
      orden = Alcanzable-EsOrdenado_example;
      frames = cruza_paginas.0;
      cabe = cruza_paginas.1;
      sin_vuelta = cruza_paginas.2;
    })

-- The RAM has a text, and the page of the first instruction is in its only frame.
abbrev con_texto : Paginado
con_texto = record {
  bits = true ∷ [];
  reloj = record {
    clock_hand = 0;
    tablas =
        record {
          pid = 1;
          paginas =
              record { frame = some 0; presente = true; modificado = false; uso = false } ∷ [];
        }
        ∷ [];
  };
  ram = 69 ∷ 88 ∷ 0 ∷ replicate 300 7;
  swap = [];
}

pedida : (paginacion_obtener_entrada 300 true [] 1 0 con_texto).0 ≡ true
unfolding paginacion_obtener_entrada
pedida = refl

en_cero : En (paginacion_obtener_entrada 300 true [] 1 0 con_texto).1.reloj.tablas (duenio 1 0) 0
unfolding paginacion_obtener_entrada
en_cero = record { presente = refl; frame = refl }

su_ram : (paginacion_obtener_entrada 300 true [] 1 0 con_texto).1.ram ≡ con_texto.ram
unfolding paginacion_obtener_entrada
su_ram = refl

paginacion_leer_instruccion-texto_example :
    (paginacion_leer_instruccion 300 true [] 1 (λ x. x, λ x. x) 0 con_texto).0 ≡ some (69 ∷ 88 ∷ [])
paginacion_leer_instruccion-texto_example =
    paginacion_leer_instruccion-texto 300 true [] 1 0 0 con_texto (69 ∷ 88 ∷ []) (replicate 300 7)
      pedida en_cero su_ram ((λ e. absurd (omega arith)), ((λ e. absurd (omega arith)), tt))
      (omega arith) (omega (arith, ap length su_ram)) (omega (arith, ap length su_ram))

primera_pedida : (paginacion_obtener_entrada 4 true (65 ∷ 0 ∷ []) 1 0 con_pagina).0 ≡ true
unfolding paginacion_crear_proceso paginacion_obtener_entrada
primera_pedida = refl

primera_pagina :
    En
      (paginacion_obtener_entrada 4 true (65 ∷ 0 ∷ []) 1 0 con_pagina).1.reloj.tablas
      (duenio 1 0)
      0
unfolding paginacion_crear_proceso paginacion_obtener_entrada
primera_pagina = record { presente = refl; frame = refl }

ram_corta : length (paginacion_obtener_entrada 4 true (65 ∷ 0 ∷ []) 1 0 con_pagina).1.ram ≡ 4
unfolding paginacion_crear_proceso paginacion_obtener_entrada
ram_corta = refl

paginacion_leer_instruccion-sucio_example :
    (paginacion_leer_instruccion 4 true (65 ∷ 0 ∷ []) 1 (λ x. x, λ x. x) 0 con_pagina).0
    ≡ some (65 ∷ [])
paginacion_leer_instruccion-sucio_example =
    paginacion_leer_instruccion-sucio 4 true (65 ∷ []) [] 1 0 0 con_pagina primera_pedida
      primera_pagina ((λ e. absurd (omega arith)), tt) (omega (arith, ram_corta)) (omega arith)

abbrev archivo_tres : Archivo
archivo_tres = record { pid = 1; contenido = 1 ∷ 2 ∷ 3 ∷ 4 ∷ 5 ∷ 6 ∷ [] }

swap_leer-swap_escribir_pagina_example :
    (swap_leer_pagina 2 1 0 (swap_escribir_pagina 2 true 1 0 (8 ∷ 9 ∷ []) (archivo_tres ∷ [])).1
      ≡ some (8 ∷ 9 ∷ []))
    × ((otro n : ℕ)
        → 1 ≢ otro
        → swap_leer_pagina 2 otro n
            (swap_escribir_pagina 2 true 1 0 (8 ∷ 9 ∷ []) (archivo_tres ∷ [])).1
          ≡ swap_leer_pagina 2 otro n (archivo_tres ∷ []))
swap_leer-swap_escribir_pagina_example =
    swap_leer-swap_escribir_pagina 2 1 0 (8 ∷ 9 ∷ []) (archivo_tres ∷ []) refl

swap_escribir_pagina-pierde_example :
    swap_leer_pagina 2 1 2 (swap_escribir_pagina 2 true 1 0 (8 ∷ 9 ∷ []) (archivo_tres ∷ [])).1
    ≡ none
swap_escribir_pagina-pierde_example =
    swap_escribir_pagina-pierde 2 1 0 2 (8 ∷ 9 ∷ []) (archivo_tres ∷ []) (omega arith) refl
      (omega arith)
