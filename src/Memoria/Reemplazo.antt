-- ===== src/Memoria/Reemplazo.antt =====
-- memoria/src/gestion/reemplazo.c: the clock. The page tables are a list of processes with their pages;
-- the table of owners is built from it, one slot for each frame.
pub mod Barrido
pub mod Garantia
use recursos_so.Prelude.{
  ℕ, zero, suc, ◌+◌, ◌*◌, ◌%◌, Bool, true, false, not, ◌&&◌, List, [], ◌∷◌, Option, none, some, ltb,
  leb, if◌then◌else◌, length, get_or, set, replicate, ◌==◌,
}

-- t_pagina; `none` for the frame is -1.
pub record Pagina : Type 0 where
  pub frame : Option ℕ
  pub presente : Bool
  pub modificado : Bool
  pub uso : Bool

-- An entry of tablas_paginas: the pid that the key spells, and its pages.
pub record Tabla : Type 0 where
  pub pid : ℕ
  pub paginas : List Pagina

-- t_frame_owner. A page is named by its process and number, where the code has a pointer to it.
pub record Duenio : Type 0 where
  pub pid : ℕ
  pub nro_pagina : ℕ

-- owners[pag->frame] = …, for a page that is present in a frame.
unfoldable pub anotar : ℕ → ℕ → Pagina → List (Option Duenio) → List (Option Duenio)
anotar pid nro pag owners =
    if pag.presente
    then elim pag.frame [
      | none ↦ owners
      | some f ↦
          if ltb f (length owners)
          then set owners f (some (record { pid = pid; nro_pagina = nro }))
          else owners
    ]
    else owners

unfoldable pub anotar_tabla : ℕ → ℕ → List Pagina → List (Option Duenio) → List (Option Duenio)
unfolding anotar
anotar_tabla pid nro [] owners = owners
anotar_tabla pid nro (pag ∷ pags) owners =
    anotar_tabla pid (suc nro) pags (anotar pid nro pag owners)

unfoldable pub duenios : List Tabla → List (Option Duenio) → List (Option Duenio)
unfolding anotar_tabla
duenios [] owners = owners
duenios (t ∷ ts) owners = duenios ts (anotar_tabla t.pid 0 t.paginas owners)

abbrev pub pagina_vacia : Pagina
pagina_vacia = record { frame = none; presente = false; modificado = false; uso = false }

-- The page that an owner's pointer leads to.
unfoldable pub leer_pagina : List Tabla → Duenio → Pagina
leer_pagina [] d = pagina_vacia
leer_pagina (t ∷ ts) d =
    if t.pid == d.pid then get_or t.paginas d.nro_pagina pagina_vacia else leer_pagina ts d

-- pagina->uso = false
unfoldable pub limpiar_uso : List Tabla → Duenio → List Tabla
limpiar_uso [] d = []
limpiar_uso (t ∷ ts) d =
    if t.pid == d.pid
    then record t {
      paginas =
          set t.paginas d.nro_pagina
            (record (get_or t.paginas d.nro_pagina pagina_vacia) { uso = false });
    }
      ∷ ts
    else t ∷ limpiar_uso ts d

-- What the sweep works on: the hand, and the tables whose use bits it clears.
pub record Reloj : Type 0 where
  pub clock_hand : ℕ
  pub tablas : List Tabla

-- The victim: its owner, and the frame that is its page's.
pub record Victima : Type 0 where
  pub duenio : Duenio
  pub frame : Option ℕ

-- The `while (scanned < limit)`: `rondas` are left.
unfoldable pub barrer : List (Option Duenio) → ℕ → Reloj → Option Victima × Reloj
unfolding leer_pagina limpiar_uso
barrer owners zero r = (none, r)
barrer owners (suc rondas) r =
    let sigue : Reloj = record r { clock_hand = (r.clock_hand + 1) % length owners } in
    elim (get_or owners r.clock_hand none) [
      | none ↦ barrer owners rondas sigue
      | some d ↦ elim (leer_pagina r.tablas d).uso [
        | false ↦ (some (record { duenio = d; frame = (leer_pagina r.tablas d).frame }), sigue)
        | true ↦ barrer owners rondas (record sigue { tablas = limpiar_uso r.tablas d })
      ]
    ]

-- The hand starts again where the number of frames has fallen to it.
unfoldable pub elegir_victima_clock : ℕ → Reloj → Option Victima × Reloj
unfolding duenios barrer
elegir_victima_clock total_frames r =
    if total_frames == 0
    then (none, r)
    else let r1 = record r {
      clock_hand = if leb total_frames r.clock_hand then 0 else r.clock_hand;
    } in
      barrer (duenios r.tablas (replicate total_frames none)) (total_frames * 2) r1
