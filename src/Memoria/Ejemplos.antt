-- ===== src/Memoria/Ejemplos.antt =====
-- Small memories on which the theorems about them are applied.
pub mod Paginas
pub mod Esquema
use recursos_so.Prelude.{
  ℕ, ◌+◌, ◌≡◌, ◌⊎◌, refl, Bool, true, false, List, [], ◌∷◌, none, some, arith, length,
}
use recursos_so.Memoria.Segmentacion.{
  Segmento, Segmentacion, buscar_segmento, segmentacion_crear_proceso,
  segmentacion_destruir_proceso, segmentacion_resize, segmentacion_escribir, segmentacion_leer,
}
use recursos_so.Memoria.Segmentacion.Cobertura.{cubre, libres_en, ocupados_en}
use recursos_so.Memoria.Segmentacion.Particion.{
  EsParticion, segmentacion_crear_proceso-EsParticion, segmentacion_destruir_proceso-libera,
  segmentacion_resize-EsParticion,
}
use recursos_so.Memoria.Segmentacion.Contenido.{segmentacion_leer-segmentacion_escribir}
use recursos_so.Memoria.Frames.{
  obtener_frame_libre, liberar_frame, frame_esta_libre, frames_ocupados,
}
use recursos_so.Memoria.Frames.Leyes.{
  Obtenido, obtener_frame_libre-Obtenido, liberar_frame-obtener_frame_libre,
}
use recursos_so.Memoria.Reemplazo.{Pagina, Tabla, Reloj, leer_pagina, elegir_victima_clock}
use recursos_so.Memoria.Paginacion.Tablas.{duenio}
use recursos_so.Memoria.Paginacion.Victimas.{En}
use recursos_so.Memoria.Paginacion.Clock.{Sacada, elegir_victima_clock-Sacada}

abbrev tres_frames : List Bool
tres_frames = true ∷ false ∷ true ∷ []

abbrev todos_tomados : List Bool
todos_tomados = true ∷ true ∷ true ∷ []

obtener_frame_libre-Obtenido_example :
    ((obtener_frame_libre tres_frames ≡ none) × (frames_ocupados tres_frames ≡ length tres_frames))
    ⊎ ((f : ℕ) × (bits' : List Bool) × (obtener_frame_libre tres_frames ≡ some (f, bits'))
        × Obtenido tres_frames f bits')
obtener_frame_libre-Obtenido_example = obtener_frame_libre-Obtenido tres_frames

toma_el_uno : obtener_frame_libre tres_frames ≡ some (1, todos_tomados)
unfolding obtener_frame_libre
toma_el_uno = refl

liberar_frame-obtener_frame_libre_example :
    (liberar_frame 1 todos_tomados ≡ tres_frames) × (frame_esta_libre 1 todos_tomados ≡ false)
liberar_frame-obtener_frame_libre_example =
    liberar_frame-obtener_frame_libre tres_frames todos_tomados 1 toma_el_uno

abbrev pagina_usada : Pagina
pagina_usada = record { frame = some 1; presente = true; modificado = false; uso = true }

abbrev una_tabla : Tabla
una_tabla = record { pid = 5; paginas = pagina_usada ∷ [] }

abbrev reloj_nuevo : Reloj
reloj_nuevo = record { clock_hand = 0; tablas = una_tabla ∷ [] }

usada_en_frame : En reloj_nuevo.tablas (duenio 5 0) 1
unfolding leer_pagina
usada_en_frame = record { presente = refl; frame = refl }

elegir_victima_clock-Sacada_example :
    Sacada 2 reloj_nuevo.tablas (elegir_victima_clock 2 reloj_nuevo)
elegir_victima_clock-Sacada_example =
    elegir_victima_clock-Sacada 2 1 reloj_nuevo (duenio 5 0) (tt, tt) usada_en_frame (omega arith)

-- Process 7 has the four bytes behind the first two, which are free like the last two.
abbrev segmento_siete : Segmento
segmento_siete = record { pid = 7; base = 2; limite = 4 }

abbrev ocho_bytes : Segmentacion
ocho_bytes = record {
  lista_libres = record { base = 0; tamanio = 2 } ∷ record { base = 6; tamanio = 2 } ∷ [];
  tablas_segmentos = segmento_siete ∷ [];
  ram = 1 ∷ 2 ∷ 3 ∷ 4 ∷ 5 ∷ 6 ∷ 7 ∷ 8 ∷ [];
}

ocho_bytes-EsParticion : EsParticion 8 ocho_bytes
unfolding libres_en ocupados_en cubre
ocho_bytes-EsParticion a = ground arith

segmentacion_crear_proceso-EsParticion_example :
    libres_en 1 (segmentacion_crear_proceso 9 2 ocho_bytes).1.lista_libres
      + ocupados_en 1 (segmentacion_crear_proceso 9 2 ocho_bytes).1.tablas_segmentos
    ≡ 1
segmentacion_crear_proceso-EsParticion_example =
    segmentacion_crear_proceso-EsParticion 8 9 2 ocho_bytes ocho_bytes-EsParticion 1

hay_siete : buscar_segmento 7 ocho_bytes.tablas_segmentos ≡ some segmento_siete
unfolding buscar_segmento
hay_siete = refl

segmentacion_destruir_proceso-libera_example :
    EsParticion 8 (segmentacion_destruir_proceso 7 ocho_bytes)
    × ((a : ℕ)
        → (libres_en a (segmentacion_destruir_proceso 7 ocho_bytes).lista_libres
            ≡ libres_en a ocho_bytes.lista_libres
              + cubre a segmento_siete.base segmento_siete.limite)
          × (ocupados_en a (segmentacion_destruir_proceso 7 ocho_bytes).tablas_segmentos
                + cubre a segmento_siete.base segmento_siete.limite
              ≡ ocupados_en a ocho_bytes.tablas_segmentos))
segmentacion_destruir_proceso-libera_example =
    segmentacion_destruir_proceso-libera 8 7 ocho_bytes segmento_siete ocho_bytes-EsParticion
      hay_siete

segmentacion_resize-EsParticion_example :
    libres_en 6 (segmentacion_resize 7 5 ocho_bytes).1.lista_libres
      + ocupados_en 6 (segmentacion_resize 7 5 ocho_bytes).1.tablas_segmentos
    ≡ 1
segmentacion_resize-EsParticion_example =
    segmentacion_resize-EsParticion 8 7 5 ocho_bytes (omega arith) (omega arith)
      ocho_bytes-EsParticion 6

segmentacion_leer-segmentacion_escribir_example :
    (s' : Segmentacion) × (segmentacion_escribir 7 1 (40 ∷ 41 ∷ []) ocho_bytes ≡ some s')
    × (segmentacion_leer 7 1 2 s' ≡ some (40 ∷ 41 ∷ []))
segmentacion_leer-segmentacion_escribir_example =
    segmentacion_leer-segmentacion_escribir 7 1 (40 ∷ 41 ∷ []) ocho_bytes segmento_siete hay_siete
      (omega arith) (omega arith) (omega arith)
