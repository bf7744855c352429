-- ===== src/Memoria/Esquema.antt =====
-- memoria/src/gestion/esquema_memoria.c: the operations of the memory, by pages or by segments, and
-- segmentacion_leer_instruccion.
pub mod Traduccion
use recursos_so.Prelude.{
  ℕ, ◌*◌, ◌/◌, ◌^◌, ◌%◌, Bool, true, false, List, [], ◌++◌, Option, none, some, ◌==◌, if◌then◌else◌,
  length,
}
use recursos_so.Memoria.Reemplazo.{leer_pagina}
use recursos_so.Memoria.Segmentacion.{
  Segmentacion, segmentacion_crear_proceso, segmentacion_destruir_proceso, segmentacion_resize,
  segmentacion_traducir, segmentacion_escribir, segmentacion_leer,
}
use recursos_so.Memoria.Paginacion.{
  Paginado, paginacion_crear_proceso, paginacion_destruir_proceso, paginacion_resize,
  paginacion_obtener_entrada,
}
use recursos_so.Memoria.Acceso.{
  linea, pagina_de, direccion_en, paginacion_escribir, paginacion_leer, paginacion_leer_instruccion,
}

-- esquema_activo, with the state of that scheme.
pub data EsquemaActivo : Type 0 where
  paginada : Paginado → EsquemaActivo
  segmentada : Segmentacion → EsquemaActivo

-- `resto` is what follows the buffer of 64 bytes, which has no terminator of its own.
unfoldable pub segmentacion_leer_instruccion : List ℕ → ℕ → ℕ → Segmentacion → Option (List ℕ)
unfolding segmentacion_leer linea
segmentacion_leer_instruccion resto pid pc s =
    elim (segmentacion_leer pid (pc * 64 % 2 ^ 32) 64 s) [
      | none ↦ none
      | some buffer ↦ some (linea (buffer ++ resto))
    ]

unfoldable pub esquema_crear_proceso : ℕ → ℕ → ℕ → EsquemaActivo → Bool × EsquemaActivo
unfolding paginacion_crear_proceso segmentacion_crear_proceso
esquema_crear_proceso tam_pag pid tamanio (EsquemaActivo.paginada m) =
    let (ok, m') = paginacion_crear_proceso tam_pag pid tamanio m in (ok, EsquemaActivo.paginada m')
esquema_crear_proceso tam_pag pid tamanio (EsquemaActivo.segmentada s) =
    let (ok, s') = segmentacion_crear_proceso pid tamanio s in (ok, EsquemaActivo.segmentada s')

unfoldable pub esquema_destruir_proceso : ℕ → EsquemaActivo → EsquemaActivo
unfolding paginacion_destruir_proceso segmentacion_destruir_proceso
esquema_destruir_proceso pid (EsquemaActivo.paginada m) =
    EsquemaActivo.paginada (paginacion_destruir_proceso pid m)
esquema_destruir_proceso pid (EsquemaActivo.segmentada s) =
    EsquemaActivo.segmentada (segmentacion_destruir_proceso pid s)

-- `none` where paginacion_resize has no result.
unfoldable pub esquema_resize : ℕ → ℕ → ℕ → EsquemaActivo → Option (Bool × EsquemaActivo)
unfolding paginacion_resize segmentacion_resize
esquema_resize tam_pag pid nuevo_tamanio (EsquemaActivo.paginada m) =
    elim (paginacion_resize tam_pag pid nuevo_tamanio m) [
      | none ↦ none
      | some (ok, m') ↦ some (ok, EsquemaActivo.paginada m')
    ]
esquema_resize tam_pag pid nuevo_tamanio (EsquemaActivo.segmentada s) =
    let (ok, s') = segmentacion_resize pid nuevo_tamanio s in some (ok, EsquemaActivo.segmentada s')

module _ (tam_pag : ℕ) (abre : Bool) (sucio : List ℕ) where
  -- -1 is `none`. Other threads run between the page fault and the look at the page.
  unfoldable pub esquema_traducir :
      (Paginado → Paginado) → ℕ → ℕ → EsquemaActivo → Option ℕ × EsquemaActivo
  unfolding paginacion_obtener_entrada leer_pagina direccion_en segmentacion_traducir
  esquema_traducir antes pid dir_logica (EsquemaActivo.paginada m) =
      let (hay, m1) = paginacion_obtener_entrada tam_pag abre sucio pid (dir_logica / tam_pag) m in
      let d = pagina_de tam_pag abre sucio pid dir_logica in
      elim hay [
        | false ↦ (none, EsquemaActivo.paginada m1)
        | true ↦ elim (leer_pagina (antes m1).reloj.tablas d).presente [
          | false ↦ (none, EsquemaActivo.paginada (antes m1))
          | true ↦ (
            some (direccion_en tam_pag d dir_logica (antes m1)),
            EsquemaActivo.paginada (antes m1),
          )
        ]
      ]
  esquema_traducir antes pid dir_logica (EsquemaActivo.segmentada s) =
      let resultado = segmentacion_traducir pid dir_logica s in
      (if resultado == 0 then none else some resultado, EsquemaActivo.segmentada s)

  -- `none` in the first place: the rounds are over and the access is not.
  unfoldable pub esquema_escribir :
      List ((Paginado → Paginado) × (Paginado → Paginado))
      → ℕ
      → ℕ
      → List ℕ
      → EsquemaActivo
      → Option (Bool × EsquemaActivo)
  unfolding paginacion_escribir segmentacion_escribir
  esquema_escribir entre pid dir_logica buffer (EsquemaActivo.paginada m) =
      elim (paginacion_escribir tam_pag abre sucio pid entre dir_logica buffer m) [
        | none ↦ none
        | some (ok, m') ↦ some (ok, EsquemaActivo.paginada m')
      ]
  esquema_escribir entre pid dir_logica buffer (EsquemaActivo.segmentada s) =
      elim (segmentacion_escribir pid dir_logica buffer s) [
        | none ↦ some (false, EsquemaActivo.segmentada s)
        | some s' ↦ some (true, EsquemaActivo.segmentada s')
      ]

  unfoldable pub esquema_leer :
      List ((Paginado → Paginado) × (Paginado → Paginado))
      → ℕ
      → ℕ
      → ℕ
      → EsquemaActivo
      → Option (Option (List ℕ) × EsquemaActivo)
  unfolding paginacion_leer segmentacion_leer
  esquema_leer entre pid dir_logica size (EsquemaActivo.paginada m) =
      elim (paginacion_leer tam_pag abre sucio pid entre dir_logica size [] m) [
        | none ↦ none
        | some (datos, m') ↦ some (datos, EsquemaActivo.paginada m')
      ]
  esquema_leer entre pid dir_logica size (EsquemaActivo.segmentada s) =
      some (segmentacion_leer pid dir_logica size s, EsquemaActivo.segmentada s)

  unfoldable pub esquema_leer_instruccion :
      (Paginado → Paginado) × (Paginado → Paginado)
      → List ℕ
      → ℕ
      → ℕ
      → EsquemaActivo
      → Option (List ℕ) × EsquemaActivo
  unfolding paginacion_leer_instruccion segmentacion_leer_instruccion
  esquema_leer_instruccion entre resto pid pc (EsquemaActivo.paginada m) =
      let (texto, m') = paginacion_leer_instruccion tam_pag abre sucio pid entre pc m in
      (texto, EsquemaActivo.paginada m')
  esquema_leer_instruccion entre resto pid pc (EsquemaActivo.segmentada s) =
      (segmentacion_leer_instruccion resto pid pc s, EsquemaActivo.segmentada s)
