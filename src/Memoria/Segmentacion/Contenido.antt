-- ===== src/Memoria/Segmentacion/Contenido.antt =====
-- segmentacion_leer and segmentacion_escribir: the bytes of the memory.
use recursos_so.Prelude.{
  length-take, length-drop, ℕ, ◌+◌, ◌%◌, ◌^◌, ◌≤◌, ◌<◌, ◌≡◌, refl, sym, ap, ◌∙◌, false, List, ◌++◌,
  some, ltb, arith, length, take, drop, length-append, take-append_length, drop-append_length,
}
use recursos_so.Memoria.Segmentacion.{
  Segmento, Segmentacion, buscar_segmento, leer_memoria_fisica, escribir_memoria_fisica,
  segmentacion_leer, segmentacion_escribir,
}

-- The memory after the write.
abbrev pub escrita : ℕ → List ℕ → List ℕ → List ℕ
escrita dir datos ram = take dir ram ++ (datos ++ drop (dir + length datos) ram)

pub length-escrita :
    (dir : ℕ) (datos ram : List ℕ)
    → dir + length datos ≤ length ram
    → length (escrita dir datos ram) ≡ length ram
length-escrita dir datos ram l = omega (
  arith,
  length-append (take dir ram) (datos ++ drop (dir + length datos) ram),
  length-append datos (drop (dir + length datos) ram),
  length-take dir ram (omega arith),
  length-drop (dir + length datos) ram l,
)

pub take-drop-escrita :
    (dir : ℕ) (datos ram : List ℕ)
    → dir + length datos ≤ length ram
    → take (length datos) (drop dir (escrita dir datos ram)) ≡ datos
take-drop-escrita dir datos ram l =
    let resto = drop (dir + length datos) ram in
    let cola : drop dir (escrita dir datos ram) ≡ datos ++ resto =
      ap (λ n. drop n (escrita dir datos ram)) (sym (length-take dir ram (omega arith)))
      ∙ drop-append_length (take dir ram) (datos ++ resto) in
    ap (take (length datos)) cola ∙ take-append_length datos resto

dentro : (n m w : ℕ) → n ≤ m → m < w → ltb m (n % w) ≡ false
dentro n m w l l' = grind arith

sin_vuelta : (n m w : ℕ) → n ≤ m → m < w → n % w ≡ n
sin_vuelta n m w l l' = grind arith

-- Where the segment of the process lies inside the memory, the memory is smaller than 2 ^ 32, and the
-- bytes lie inside the segment: the write succeeds, and reading as many bytes from the same address
-- gives them.
pub segmentacion_leer-segmentacion_escribir :
    (pid dir : ℕ) (datos : List ℕ) (s : Segmentacion) (seg : Segmento)
    → buscar_segmento pid s.tablas_segmentos ≡ some seg
    → seg.base + seg.limite ≤ length s.ram
    → length s.ram < 2 ^ 32
    → dir + length datos ≤ seg.limite
    → (s' : Segmentacion) × (segmentacion_escribir pid dir datos s ≡ some s')
      × (segmentacion_leer pid dir (length datos) s' ≡ some datos)
unfolding segmentacion_leer segmentacion_escribir leer_memoria_fisica escribir_memoria_fisica
segmentacion_leer-segmentacion_escribir pid dir datos s seg hay b m l =
    let w = 2 ^ 32 in
    let n = length datos in
    let fisica = seg.base + dir in
    let ram' = escrita fisica datos s.ram in
    let cabe : fisica + n ≤ length s.ram = omega arith in
    let e1 : ltb seg.limite ((dir + n) % w) ≡ false =
      dentro (dir + n) seg.limite w l (omega arith) in
    let e2 : fisica % w ≡ fisica = sin_vuelta fisica (length s.ram) w (omega arith) m in
    let e3 : ltb (length s.ram) ((fisica + n) % w) ≡ false =
      dentro (fisica + n) (length s.ram) w cabe m in
    let e4 : ltb (length ram') ((fisica + n) % w) ≡ false =
      ap (λ k. ltb k ((fisica + n) % w)) (length-escrita fisica datos s.ram cabe) ∙ e3 in
    (
      record s { ram = ram' },
      rw (hay, e1, e2, e3, segmentacion_escribir, escribir_memoria_fisica) refl,
      rw
          (
            hay,
            e1,
            e2,
            e4,
            take-drop-escrita fisica datos s.ram cabe,
            segmentacion_leer,
            leer_memoria_fisica,
          )
          refl,
    )
