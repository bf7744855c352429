-- ===== src/Memoria/Frames.antt =====
-- memoria/src/frames/frames.c: the bitmap of the frames, one flag for each frame, true where it is taken.
pub mod Leyes
use recursos_so.Prelude.{
  ℕ, zero, suc, ◌+◌, ◌/◌, Bool, true, false, not, ◌&&◌, List, [], ◌∷◌, Option, none, some, ltb,
  if◌then◌else◌, length, get_or, set, replicate,
}

-- frames_init; `none` is the answer -1.
unfoldable pub frames_init : ℕ → ℕ → Option (List Bool)
frames_init tam_memoria tam_pagina =
    if ltb 0 tam_pagina then some (replicate (tam_memoria / tam_pagina) false) else none

-- The loop of obtener_frame_libre over the frames from `i` on.
unfoldable pub primero_libre : ℕ → List Bool → Option ℕ
primero_libre i [] = none
primero_libre i (b ∷ bs) = if b then primero_libre (suc i) bs else some i

-- Returns the frame, which is now taken; `none` is -1, when the memory is full.
unfoldable pub obtener_frame_libre : List Bool → Option (ℕ × List Bool)
unfolding primero_libre
obtener_frame_libre bits = elim (primero_libre 0 bits) [
  | none ↦ none
  | some i ↦ some (i, set bits i true)
]

-- A frame out of range changes nothing.
unfoldable pub liberar_frame : ℕ → List Bool → List Bool
liberar_frame frame bits = if ltb frame (length bits) then set bits frame false else bits

unfoldable pub frame_esta_libre : ℕ → List Bool → Bool
frame_esta_libre frame bits =
    if ltb frame (length bits) then not (get_or bits frame true) else false

unfoldable pub frames_ocupados : List Bool → ℕ
frames_ocupados [] = 0
frames_ocupados (b ∷ bs) = (if b then 1 else 0) + frames_ocupados bs
