-- ===== src/Memoria/Ejemplos/Esquema.antt =====
-- A memory by segments whose first process begins at the address 0.
use recursos_so.Prelude.{
  ℕ, List, length, take, drop, ◌++◌, subst, sym, ◌≡◌, refl, true, [], ◌∷◌, none, some, arith,
}
use recursos_so.Memoria.Segmentacion.{
  Segmento, Segmentacion, segmentacion_crear_proceso, seg_init, buscar_segmento,
}
use recursos_so.Memoria.Segmentacion.Particion.{
  EsParticion, seg_init-EsParticion, segmentacion_crear_proceso-EsParticion,
}
use recursos_so.Memoria.Esquema.{EsquemaActivo, esquema_traducir, esquema_leer}
use recursos_so.Memoria.Esquema.Traduccion.{esquema_traducir-esquema_leer}

abbrev ocho : List ℕ
ocho = 7 ∷ 6 ∷ 5 ∷ 4 ∷ 3 ∷ 2 ∷ 1 ∷ 0 ∷ []

abbrev con_segmento : Segmentacion
con_segmento = (segmentacion_crear_proceso 1 4 (seg_init 8 ocho)).1

abbrev primero : Segmento
primero = record { pid = 1; base = 0; limite = 4 }

falla_en_cero :
    (esquema_traducir 4 true [] (λ x. x) 1 0 (EsquemaActivo.segmentada con_segmento)).0 ≡ none
unfolding segmentacion_crear_proceso esquema_traducir seg_init
falla_en_cero = refl

hay_primero : buscar_segmento 1 con_segmento.tablas_segmentos ≡ some primero
unfolding segmentacion_crear_proceso buscar_segmento seg_init
hay_primero = refl

una_particion : EsParticion 8 con_segmento
una_particion =
    segmentacion_crear_proceso-EsParticion 8 1 4 (seg_init 8 ocho) (seg_init-EsParticion 8 ocho)

ram_entera : length con_segmento.ram ≡ 8
unfolding segmentacion_crear_proceso seg_init
ram_entera = refl

esquema_traducir-esquema_leer_example :
    (datos : List ℕ) × (esquema_leer 4 true [] [] 1 1 2 (EsquemaActivo.segmentada con_segmento)
      ≡ some (some datos, EsquemaActivo.segmentada con_segmento))
    × (length datos ≡ 2)
    × (take 1 con_segmento.ram ++ (datos ++ drop 2 (drop 1 con_segmento.ram)) ≡ con_segmento.ram)
    × ((esquema_traducir 4 true [] (λ x. x) 1 1 (EsquemaActivo.segmentada con_segmento)).0 ≡ some 1)
esquema_traducir-esquema_leer_example =
    esquema_traducir-esquema_leer 4 true [] (λ x. x) [] 1 1 2 primero con_segmento
      (omega (arith, ram_entera))
      (subst (λ n. EsParticion n con_segmento) (sym ram_entera) una_particion) hay_primero
      (omega arith) (omega arith)
