-- ===== src/Memoria/Acceso/Exito.antt =====
-- paginas_io.c: an access inside the pages of the process comes to its end and succeeds.
use recursos_so.Prelude.{
  ℕ, zero, suc, ◌+◌, ◌-◌, ◌*◌, ◌/◌, ◌%◌, ◌^◌, ◌<◌, ◌≤◌, ◌≡◌, refl, sym, ◌∙◌, subst, Bool, true,
  false, List, [], ◌∷◌, ◌++◌, some, length, take, drop, replicate, arith, length-drop,
}
use native.Mathlib.Nat.{div-lt_iff_lt-mul, mod-lt}
use recursos_so.Memoria.Reemplazo.{Tabla, leer_pagina}
use recursos_so.Memoria.Paginacion.{Paginado, con_tablas, usar_pagina, paginacion_obtener_entrada}
use recursos_so.Memoria.Paginacion.Tablas.{duenio, largo}
use recursos_so.Memoria.Paginacion.Victimas.{Mismas}
use recursos_so.Memoria.Paginacion.Orden.{Orden-Mismas, marcar-Mismas}
use recursos_so.Memoria.Paginacion.Entrada.{EsOrdenado, paginacion_obtener_entrada-Atendida}
use recursos_so.Memoria.Acceso.{
  ensuciar_pagina, trozo, escribir_trozo, leer_trozo, paginacion_escribir, paginacion_leer,
}

pub elim_true {ℓ} :
    {A : Type ℓ} (b : Bool) (x y : A) → b ≡ true → (elim b as (λ _. A) [ false ↦ x | true ↦ y ]) ≡ y
elim_true true x y h = refl
elim_true false x y h = cc

-- A chunk is not empty, and not more than what is left.
trozo-rango :
    (tam_pag dir quedan : ℕ)
    → 0 < tam_pag
    → 0 < quedan
    → (0 < trozo tam_pag dir quedan) × (trozo tam_pag dir quedan ≤ quedan)
unfolding trozo
trozo-rango tam_pag dir quedan t q =
    let m : dir % tam_pag < tam_pag = mod-lt dir t in (ground arith, ground arith)

-- The bytes from `dir` on lie in the pages of the process, below 2 ^ 32.
pub record Dentro (tam_pag pid dir n : ℕ) (m : Paginado) : Type 0 where
  pub orden : EsOrdenado m
  pub frames : 0 < length m.bits
  pub cabe : dir + n ≤ largo m.reloj.tablas pid * tam_pag
  pub sin_vuelta : largo m.reloj.tablas pid * tam_pag < 2 ^ 32

module _ (tam_pag : ℕ) (sucio : List ℕ) (pid : ℕ) (t : 0 < tam_pag) where
  -- The request of a round.
  record Pedida (dir n : ℕ) (m : Paginado) (res : Bool × Paginado) : Type 0 where
    hay : res.0 ≡ true
    presente : (leer_pagina res.1.reloj.tablas (duenio pid (dir / tam_pag))).presente ≡ true
    dentro : Dentro tam_pag pid dir n res.1
    suya : dir / tam_pag < largo res.1.reloj.tablas pid

  pedir-Pedida :
      (dir n : ℕ) (m : Paginado)
      → 0 < n
      → Dentro tam_pag pid dir n m
      → Pedida dir n m (paginacion_obtener_entrada tam_pag true sucio pid (dir / tam_pag) m)
  pedir-Pedida dir n m p d =
      let c = d.cabe in
      let l : dir / tam_pag < largo m.reloj.tablas pid = (div-lt_iff_lt-mul t).1 (omega arith) in
      let a =
        paginacion_obtener_entrada-Atendida tam_pag true sucio pid (dir / tam_pag) m d.orden l in
      let hay = a.exito refl d.frames in
      let lp = a.largos pid in
      record {
        hay = hay;
        presente = (a.en_frame hay).1.presente;
        dentro = record {
          orden = a.orden;
          frames = subst (λ x. 0 < x) (sym a.frames) d.frames;
          cabe = subst (λ x. dir + n ≤ x * tam_pag) (sym lp) d.cabe;
          sin_vuelta = subst (λ x. x * tam_pag < 2 ^ 32) (sym lp) d.sin_vuelta;
        };
        suya = subst (λ x. dir / tam_pag < x) (sym lp) l;
      }

  -- What is left after a chunk, in tables with the same pages in the same frames.
  resto-Dentro :
      (dir n k : ℕ) (m : Paginado) (us : List Tabla) (ram : List ℕ)
      → k ≤ n
      → Mismas m.reloj.tablas us
      → Dentro tam_pag pid dir n m
      → Dentro tam_pag pid ((dir + k) % 2 ^ 32) (n - k) (con_tablas us (record m { ram = ram }))
  resto-Dentro dir n k m us ram l mi d =
      let c = d.cabe in
      let s = d.sin_vuelta in
      let e : (dir + k) % 2 ^ 32 ≡ dir + k = omega arith in
      record {
        orden = Orden-Mismas m.reloj.tablas us m.bits mi d.orden;
        frames = d.frames;
        cabe =
            subst (λ x. (dir + k) % 2 ^ 32 + (n - k) ≤ x * tam_pag) (sym (mi.largo pid))
              (omega arith);
        sin_vuelta = subst (λ x. x * tam_pag < 2 ^ 32) (sym (mi.largo pid)) s;
      }

  -- A chunk that is written, or read, leaves the rest inside.
  escrito-Dentro :
      (dir n : ℕ) (datos : List ℕ) (k : ℕ) (m : Paginado)
      → k ≤ n
      → dir / tam_pag < largo m.reloj.tablas pid
      → Dentro tam_pag pid dir n m
      → Dentro tam_pag pid
          ((dir + k) % 2 ^ 32)
          (n - k)
          (escribir_trozo tam_pag (duenio pid (dir / tam_pag)) dir datos m)
  unfolding escribir_trozo ensuciar_pagina
  escrito-Dentro dir n datos k m l suya d =
      let q = duenio pid (dir / tam_pag) in
      resto-Dentro dir n k m (ensuciar_pagina m.reloj.tablas q) _ l
        (marcar-Mismas m.reloj.tablas q
          (record (leer_pagina m.reloj.tablas q) { uso = true; modificado = true }) refl refl suya)
        d

  leido-Dentro :
      (dir n k : ℕ) (m : Paginado)
      → k ≤ n
      → dir / tam_pag < largo m.reloj.tablas pid
      → Dentro tam_pag pid dir n m
      → Dentro tam_pag pid
          ((dir + k) % 2 ^ 32)
          (n - k)
          (leer_trozo tam_pag sucio (duenio pid (dir / tam_pag)) dir k m).1
  unfolding leer_trozo usar_pagina
  leido-Dentro dir n k m l suya d =
      let q = duenio pid (dir / tam_pag) in
      resto-Dentro dir n k m (usar_pagina m.reloj.tablas q) m.ram l
        (marcar-Mismas m.reloj.tablas q (record (leer_pagina m.reloj.tablas q) { uso = true }) refl
          refl suya)
        d

  -- The rounds in which no other thread runs in between.
  abbrev pub solo : ℕ → List ((Paginado → Paginado) × (Paginado → Paginado))
  solo n = replicate n (λ m. m, λ m. m)

  -- One round of each loop, where the page is there.
  ronda_escribir :
      (rondas dir b : ℕ) (buffer : List ℕ) (m : Paginado)
      → (paginacion_obtener_entrada tam_pag true sucio pid (dir / tam_pag) m).0 ≡ true
      → (leer_pagina
          (paginacion_obtener_entrada tam_pag true sucio pid (dir / tam_pag) m).1.reloj.tablas
          (duenio pid (dir / tam_pag))).presente
        ≡ true
      → paginacion_escribir tam_pag true sucio pid (solo (suc rondas)) dir (b ∷ buffer) m
        ≡ paginacion_escribir tam_pag true sucio pid
            (solo rondas)
            ((dir + trozo tam_pag dir (suc (length buffer))) % 2 ^ 32)
            (drop (trozo tam_pag dir (suc (length buffer))) (b ∷ buffer))
            (escribir_trozo tam_pag
              (duenio pid (dir / tam_pag))
              dir
              (take (trozo tam_pag dir (suc (length buffer))) (b ∷ buffer))
              (paginacion_obtener_entrada tam_pag true sucio pid (dir / tam_pag) m).1)
  unfolding paginacion_escribir
  ronda_escribir rondas dir b buffer m hay presente =
      elim_true _ _ _ hay ∙ elim_true _ _ _ presente ∙ elim_true _ _ _ presente

  ronda_leer :
      (rondas dir faltan : ℕ) (leidos : List ℕ) (m : Paginado)
      → (paginacion_obtener_entrada tam_pag true sucio pid (dir / tam_pag) m).0 ≡ true
      → (leer_pagina
          (paginacion_obtener_entrada tam_pag true sucio pid (dir / tam_pag) m).1.reloj.tablas
          (duenio pid (dir / tam_pag))).presente
        ≡ true
      → paginacion_leer tam_pag true sucio pid (solo (suc rondas)) dir (suc faltan) leidos m ≡ (
          let res =
            leer_trozo tam_pag sucio
              (duenio pid (dir / tam_pag))
              dir
              (trozo tam_pag dir (suc faltan))
              (paginacion_obtener_entrada tam_pag true sucio pid (dir / tam_pag) m).1 in
          paginacion_leer tam_pag true sucio pid
            (solo rondas)
            ((dir + trozo tam_pag dir (suc faltan)) % 2 ^ 32)
            (suc faltan - trozo tam_pag dir (suc faltan))
            (leidos ++ res.0)
            res.1)
  unfolding paginacion_leer
  ronda_leer rondas dir faltan leidos m hay presente =
      elim_true _ _ _ hay ∙ elim_true _ _ _ presente ∙ elim_true _ _ _ presente

  escribir_desde :
      (rondas dir : ℕ) (buffer : List ℕ) (m : Paginado)
      → length buffer ≤ rondas
      → Dentro tam_pag pid dir (length buffer) m
      → (m' : Paginado) × (paginacion_escribir tam_pag true sucio pid (solo rondas) dir buffer m
          ≡ some (true, m'))
        × EsOrdenado m'
  unfolding paginacion_escribir
  escribir_desde rondas dir [] m l d = (m, refl, d.orden)
  escribir_desde zero dir (b ∷ buffer) m l d = absurd (omega arith)
  escribir_desde (suc rondas) dir (b ∷ buffer) m l d =
      let total = suc (length buffer) in
      let res = paginacion_obtener_entrada tam_pag true sucio pid (dir / tam_pag) m in
      let p = pedir-Pedida dir total m (omega arith) d in
      let n = trozo tam_pag dir total in
      let (positivo, menos) = trozo-rango tam_pag dir total t (omega arith) in
      let quedan = length-drop n (b ∷ buffer) menos in
      let m2 =
        escribir_trozo tam_pag (duenio pid (dir / tam_pag)) dir (take n (b ∷ buffer)) res.1 in
      let d2 = escrito-Dentro dir total (take n (b ∷ buffer)) n res.1 menos p.suya p.dentro in
      let largo_resto : length (drop n (b ∷ buffer)) ≡ total - n = omega arith in
      let (m', e, o) =
        escribir_desde rondas ((dir + n) % 2 ^ 32) (drop n (b ∷ buffer)) m2 (omega arith)
          (subst (λ x. Dentro tam_pag pid ((dir + n) % 2 ^ 32) x m2) (sym largo_resto) d2) in
      (m', ronda_escribir rondas dir b buffer m p.hay p.presente ∙ e, o)

  leer_desde :
      (rondas dir faltan : ℕ) (leidos : List ℕ) (m : Paginado)
      → faltan ≤ rondas
      → Dentro tam_pag pid dir faltan m
      → (datos : List ℕ) × (m' : Paginado) × (paginacion_leer tam_pag true sucio pid
            (solo rondas)
            dir
            faltan
            leidos
            m
          ≡ some (some datos, m'))
        × EsOrdenado m'
  unfolding paginacion_leer
  leer_desde rondas dir zero leidos m l d = (leidos, m, refl, d.orden)
  leer_desde zero dir (suc faltan) leidos m l d = absurd (omega arith)
  leer_desde (suc rondas) dir (suc faltan) leidos m l d =
      let p = pedir-Pedida dir (suc faltan) m (omega arith) d in
      let n = trozo tam_pag dir (suc faltan) in
      let (positivo, menos) = trozo-rango tam_pag dir (suc faltan) t (omega arith) in
      let res =
        leer_trozo tam_pag sucio (duenio pid (dir / tam_pag)) dir n
          (paginacion_obtener_entrada tam_pag true sucio pid (dir / tam_pag) m).1 in
      let d2 = leido-Dentro dir (suc faltan) n _ menos p.suya p.dentro in
      let (datos, m', e, o) =
        leer_desde rondas ((dir + n) % 2 ^ 32) (suc faltan - n) (leidos ++ res.0) res.1
          (omega arith) d2 in
      (datos, m', ronda_leer rondas dir faltan leidos m p.hay p.presente ∙ e, o)

-- From a memory in order with at least one frame, whose swap files can be opened, for bytes that lie in
-- the pages of the process, below 2 ^ 32, and with no other thread in between: with as many rounds as
-- bytes, however the bytes lie across pages and whatever page faults that takes, a write and a read come to
-- their end, both succeed, and each leaves the memory in order.
pub paginacion_escribir-paginacion_leer :
    (tam_pag : ℕ) (sucio : List ℕ) (pid dir : ℕ) (buffer : List ℕ) (m : Paginado)
    → 0 < tam_pag
    → Dentro tam_pag pid dir (length buffer) m
    → ((m' : Paginado) × (paginacion_escribir tam_pag true sucio pid
            (replicate (length buffer) (λ x. x, λ x. x))
            dir
            buffer
            m
          ≡ some (true, m'))
        × EsOrdenado m')
      × ((datos : List ℕ) × (m' : Paginado) × (paginacion_leer tam_pag true sucio pid
              (replicate (length buffer) (λ x. x, λ x. x))
              dir
              (length buffer)
              []
              m
            ≡ some (some datos, m'))
          × EsOrdenado m')
paginacion_escribir-paginacion_leer tam_pag sucio pid dir buffer m t d = (
  escribir_desde tam_pag sucio pid t (length buffer) dir buffer m (omega arith) d,
  leer_desde tam_pag sucio pid t (length buffer) dir (length buffer) [] m (omega arith) d,
)
