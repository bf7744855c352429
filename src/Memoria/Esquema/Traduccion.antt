-- ===== src/Memoria/Esquema/Traduccion.antt =====
-- esquema_memoria.c: what the translation of an address gives by segments, and what the accesses do there.
use recursos_so.Prelude.{
  ◌∙◌, zero, suc, [], ◌∷◌, ◌++◌, take, drop, length, length-take, length-drop, ◌≤◌, ap, false, ℕ,
  ◌+◌, ◌<◌, ◌≡◌, refl, ◌^◌, ◌%◌, Bool, List, none, some, leb, ltb, ◌==◌, if◌then◌else◌, arith,
}
use recursos_so.Memoria.Segmentacion.{
  Segmento, Segmentacion, buscar_segmento, segmentacion_traducir, segmentacion_leer,
  leer_memoria_fisica,
}
use recursos_so.Memoria.Segmentacion.Particion.{EsParticion, segmento-dentro}
use recursos_so.Memoria.Paginacion.{Paginado}
use recursos_so.Memoria.Esquema.{EsquemaActivo, esquema_traducir, esquema_leer}

partida : (n : ℕ) (xs : List ℕ) → take n xs ++ drop n xs ≡ xs
partida zero xs = refl
partida (suc n) [] = refl
partida (suc n) (x ∷ xs) = ap (◌∷◌ x) (partida n xs)

-- In a memory of fewer than 2 ^ 31 bytes in which each byte is in exactly one free block or segment, for
-- bytes inside the segment of the process, one at least: a read succeeds and gives as many bytes, those
-- of the RAM from one address on, and that address is what the translation gives; but where it is 0, the
-- translation is an error.
pub esquema_traducir-esquema_leer :
    (tam_pag : ℕ) (abre : Bool) (sucio : List ℕ) (antes : Paginado → Paginado)
    (entre : List ((Paginado → Paginado) × (Paginado → Paginado))) (pid dir n : ℕ) (seg : Segmento)
    (s : Segmentacion)
    → length s.ram < 2 ^ 31
    → EsParticion (length s.ram) s
    → buscar_segmento pid s.tablas_segmentos ≡ some seg
    → 0 < n
    → dir + n ≤ seg.limite
    → (datos : List ℕ) × (esquema_leer tam_pag abre sucio entre pid dir n
          (EsquemaActivo.segmentada s)
        ≡ some (some datos, EsquemaActivo.segmentada s))
      × (length datos ≡ n)
      × (take (seg.base + dir) s.ram ++ (datos ++ drop n (drop (seg.base + dir) s.ram)) ≡ s.ram)
      × ((esquema_traducir tam_pag abre sucio antes pid dir (EsquemaActivo.segmentada s)).0
          ≡ (if seg.base + dir == 0 then none else some (seg.base + dir)))
unfolding esquema_traducir esquema_leer segmentacion_traducir segmentacion_leer leer_memoria_fisica
esquema_traducir-esquema_leer tam_pag abre sucio antes entre pid dir n seg s corta p con uno l =
    let a = seg.base + dir in
    let d = segmento-dentro (length s.ram) pid s seg p con (omega arith) in
    let dentro : leb seg.limite dir ≡ false = ground arith in
    let cabe : ltb seg.limite ((dir + n) % 2 ^ 32) ≡ false = ground arith in
    let igual : a % 2 ^ 32 ≡ a = omega arith in
    let fisica : ltb (length s.ram) ((a + n) % 2 ^ 32) ≡ false = ground arith in
    let resto = length-drop a s.ram (omega arith) in
    (
      take n (drop a s.ram),
      rw (con, cabe, igual, fisica, esquema_leer, segmentacion_leer, leer_memoria_fisica) refl,
      length-take n (drop a s.ram) (omega arith),
      ap (λ x. take a s.ram ++ x) (partida n (drop a s.ram)) ∙ partida a s.ram,
      rw (con, dentro, esquema_traducir, segmentacion_traducir) refl,
    )
