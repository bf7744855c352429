-- ===== src/Memoria/Frames/Leyes.antt =====
-- frames.c: what an allocation takes, and what a release gives back.
use recursos_so.Prelude.{
  ℕ, zero, suc, ◌+◌, ◌<◌, ◌≡◌, ◌⊎◌, inl, inr, refl, ap, Bool, true, false, List, [], ◌∷◌, Option,
  none, some, if◌then◌else◌, length, get_or, set, arith, Option-cases, length-set, get_or-set_self,
}
use recursos_so.Memoria.Frames.{
  primero_libre, obtener_frame_libre, liberar_frame, frame_esta_libre, frames_ocupados,
}

primero_libre-some :
    (i : ℕ) (bs : List Bool) (f : ℕ)
    → primero_libre i bs ≡ some f
    → (j : ℕ) × (f ≡ i + j)
      × (j < length bs)
      × (get_or bs j true ≡ false)
      × ((m : ℕ) → m < j → get_or bs m true ≡ true)
unfolding primero_libre
primero_libre-some i [] f h = cc
primero_libre-some i (false ∷ bs) f h = (0, ground arith, omega arith, refl, λ m l. elim l [ ])
primero_libre-some i (true ∷ bs) f h =
    let (j, e, l, libre, antes) = primero_libre-some (suc i) bs f h in
    (suc j, omega arith, omega arith, libre, λ m l'. anteriores bs j antes m l')
  where
    anteriores :
        (bs : List Bool) (j : ℕ)
        → ((m : ℕ) → m < j → get_or bs m true ≡ true)
        → (m : ℕ) → m < suc j
        → get_or (true ∷ bs) m true ≡ true
    anteriores bs j h zero l = refl
    anteriores bs j h (suc m) l = h m (omega arith)

primero_libre-none :
    (i : ℕ) (bs : List Bool) → primero_libre i bs ≡ none → frames_ocupados bs ≡ length bs
unfolding primero_libre frames_ocupados
primero_libre-none i [] h = refl
primero_libre-none i (false ∷ bs) h = cc
primero_libre-none i (true ∷ bs) h = omega (arith, primero_libre-none (suc i) bs h)

frames_ocupados-set :
    (bs : List Bool) (j : ℕ) (b : Bool)
    → j < length bs
    → frames_ocupados (set bs j b) + (if get_or bs j true then 1 else 0)
      ≡ frames_ocupados bs + (if b then 1 else 0)
unfolding frames_ocupados
frames_ocupados-set [] j b l = absurd (omega arith)
frames_ocupados-set (x ∷ bs) zero b l = omega arith
frames_ocupados-set (x ∷ bs) (suc j) b l = omega (arith, frames_ocupados-set bs j b (omega arith))

-- What an allocation promises.
pub record Obtenido (bits : List Bool) (f : ℕ) (bits' : List Bool) : Type 0 where
  pub en_rango : f < length bits
  pub libre : get_or bits f true ≡ false
  pub primero : (m : ℕ) → m < f → get_or bits m true ≡ true
  pub tomado : bits' ≡ set bits f true
  pub ocupados : frames_ocupados bits' ≡ frames_ocupados bits + 1

-- For every bitmap, an allocation fails only when every frame is taken, and else takes the first free
-- frame, no other, and raises the count of the taken frames by one.
pub obtener_frame_libre-Obtenido :
    (bits : List Bool)
    → ((obtener_frame_libre bits ≡ none) × (frames_ocupados bits ≡ length bits))
      ⊎ ((f : ℕ) × (bits' : List Bool) × (obtener_frame_libre bits ≡ some (f, bits'))
          × Obtenido bits f bits')
unfolding obtener_frame_libre
obtener_frame_libre-Obtenido bits = elim (Option-cases (primero_libre 0 bits)) [
  | inl e ↦ inl (rw (e, obtener_frame_libre) refl, primero_libre-none 0 bits e)
  | inr (f, e) ↦
      let (j, ej, l, libre, antes) = primero_libre-some 0 bits f e in
      let ef : j ≡ f = omega arith in
      inr (
        j,
        set bits j true,
        rw (e, obtener_frame_libre) (rw ef refl),
        record {
          en_rango = l;
          libre = libre;
          primero = antes;
          tomado = refl;
          ocupados = ground (arith, frames_ocupados-set bits j true l);
        },
      )
]

set-set_undo :
    (bs : List Bool) (j : ℕ) → get_or bs j true ≡ false → set (set bs j true) j false ≡ bs
set-set_undo [] j h = refl
set-set_undo (b ∷ bs) zero h = rw h refl
set-set_undo (b ∷ bs) (suc j) h = ap (◌∷◌ b) (set-set_undo bs j h)

-- Releasing the frame that an allocation gave restores the bitmap, and until then that frame is not
-- free.
pub liberar_frame-obtener_frame_libre :
    (bits bits' : List Bool) (f : ℕ)
    → obtener_frame_libre bits ≡ some (f, bits')
    → (liberar_frame f bits' ≡ bits) × (frame_esta_libre f bits' ≡ false)
unfolding liberar_frame frame_esta_libre
liberar_frame-obtener_frame_libre bits bits' f h = elim (obtener_frame_libre-Obtenido bits) [
  | inl (e, _) ↦ cc
  | inr (g, bits2, e, o) ↦
      let h2 : ◌≡◌ {A = Option (ℕ × List Bool)} (some (f, bits')) (some (g, bits2)) = cc in
      let ef : g ≡ f = cc in
      let eb : bits' ≡ set bits g true = ground (arith, o.tomado) in
      rw (eb, ← ef)
        (ground (
          arith,
          o.en_rango,
          set-set_undo bits g o.libre,
          length-set bits g true,
          get_or-set_self bits g true true o.en_rango,
        ))
]
