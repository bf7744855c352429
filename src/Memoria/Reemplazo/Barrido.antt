-- ===== src/Memoria/Reemplazo/Barrido.antt =====
-- The sweep of the clock, round by round: the way of the hand and the use bits.
use recursos_so.Prelude.{
  ℕ, zero, suc, ◌+◌, ◌-◌, ◌*◌, ◌%◌, ◌<◌, ◌≤◌, ◌≡◌, ◌≢◌, inl, inr, refl, sym, ap, ◌∙◌, true, false,
  List, [], ◌∷◌, Option, none, some, leb, if◌then◌else◌, length, get_or, set, arith, Option-cases,
  Bool-cases, ◌==◌, ℕ_discrete, subst,
}
use recursos_so.Memoria.Reemplazo.{
  Pagina, Tabla, Duenio, pagina_vacia, leer_pagina, limpiar_uso, Reloj, Victima, barrer,
}

get_or-set_uso :
    (ps : List Pagina) (i j : ℕ)
    → (get_or ps j pagina_vacia).uso ≡ false
    → (get_or (set ps i (record (get_or ps i pagina_vacia) { uso = false })) j pagina_vacia).uso
      ≡ false
get_or-set_uso [] i j h = refl
get_or-set_uso (p ∷ ps) zero zero h = refl
get_or-set_uso (p ∷ ps) zero (suc j) h = h
get_or-set_uso (p ∷ ps) (suc i) zero h = h
get_or-set_uso (p ∷ ps) (suc i) (suc j) h = get_or-set_uso ps i j h

get_or-set_uso_propio :
    (ps : List Pagina) (i : ℕ)
    → (get_or (set ps i (record (get_or ps i pagina_vacia) { uso = false })) i pagina_vacia).uso
      ≡ false
get_or-set_uso_propio [] i = refl
get_or-set_uso_propio (p ∷ ps) zero = refl
get_or-set_uso_propio (p ∷ ps) (suc i) = get_or-set_uso_propio ps i

-- Clearing a use bit never sets another.
limpiar-uso_otro :
    (ts : List Tabla) (d e : Duenio)
    → (leer_pagina ts d).uso ≡ false
    → (leer_pagina (limpiar_uso ts e) d).uso ≡ false
unfolding leer_pagina limpiar_uso
limpiar-uso_otro [] d e h = refl
limpiar-uso_otro (t ∷ ts) d e h =
    ground (arith, get_or-set_uso t.paginas e.nro_pagina d.nro_pagina, limpiar-uso_otro ts d e)

limpiar-uso_propio : (ts : List Tabla) (d : Duenio) → (leer_pagina (limpiar_uso ts d) d).uso ≡ false
unfolding leer_pagina limpiar_uso
limpiar-uso_propio [] d = refl
limpiar-uso_propio (t ∷ ts) d =
    ground (arith, get_or-set_uso_propio t.paginas d.nro_pagina, limpiar-uso_propio ts d)

siguiente : (h n : ℕ) → h < n → (h + 1) % n ≡ (if h + 1 == n then 0 else h + 1)
siguiente h n l = grind arith

-- How many frames the hand has to pass before it comes to `o`.
distancia : ℕ → ℕ → ℕ → ℕ
distancia n h o = if leb h o then o - h else o + n - h

distancia-siguiente :
    (n h o : ℕ) → h < n → o < n → h ≢ o → distancia n ((h + 1) % n) o + 1 ≡ distancia n h o
unfolding distancia
distancia-siguiente n h o l l' d = rw (siguiente h n l) (ground arith)

-- The victim of a sweep has its use bit clear, and the hand is inside the frames.
pub record Encontrada (n : ℕ) (res : Option Victima × Reloj) : Type 0 where
  pub victima : Victima
  pub hay : res.0 ≡ some victima
  pub sin_uso : (leer_pagina res.1.tablas victima.duenio).uso ≡ false
  pub su_frame : victima.frame ≡ (leer_pagina res.1.tablas victima.duenio).frame
  pub mano : res.1.clock_hand < n

module _ (owners : List (Option Duenio)) (o : ℕ) (d : Duenio)
    (tiene : get_or owners o none ≡ some d) where
  avanza : Reloj → Reloj
  avanza r = record r { clock_hand = (r.clock_hand + 1) % length owners }

  -- One round: it ends with a victim, or the hand moves on and use bits are only cleared.
  barrer_paso {ℓ} :
      (P : Option Victima × Reloj → Type ℓ) (rondas : ℕ) (r : Reloj)
      → (get_or owners r.clock_hand none ≡ none → P (barrer owners rondas (avanza r)))
      → ((e : Duenio)
          → get_or owners r.clock_hand none ≡ some e
          → (leer_pagina r.tablas e).uso ≡ false
          → P (some (record { duenio = e; frame = (leer_pagina r.tablas e).frame }), avanza r))
      → ((e : Duenio)
          → get_or owners r.clock_hand none ≡ some e
          → (leer_pagina r.tablas e).uso ≡ true
          → P (barrer owners rondas (record (avanza r) { tablas = limpiar_uso r.tablas e })))
      → P (barrer owners (suc rondas) r)
  unfolding barrer avanza
  barrer_paso P rondas r vacio victima segunda =
      elim (Option-cases (get_or owners r.clock_hand none)) [
        | inl e ↦ rw (e, barrer) (vacio e)
        | inr (x, e) ↦ elim (Bool-cases (leer_pagina r.tablas x).uso) [
          | inl u ↦ rw (e, u, barrer) (segunda x e u)
          | inr u ↦ rw (e, u, barrer) (victima x e u)
        ]
      ]

  mano_dentro : (r : Reloj) → r.clock_hand < length owners → (avanza r).clock_hand < length owners
  unfolding avanza
  mano_dentro r l = rw (siguiente r.clock_hand (length owners) l) (ground arith)

  abbrev lejos : Reloj → ℕ
  lejos r = distancia (length owners) r.clock_hand o

  lejos-avanza :
      (r : Reloj)
      → r.clock_hand < length owners
      → o < length owners
      → r.clock_hand ≢ o
      → lejos (avanza r) + 1 ≡ lejos r
  unfolding avanza
  lejos-avanza r l l' ne = distancia-siguiente (length owners) r.clock_hand o l l' ne

  lejos-lt :
      (r : Reloj) → r.clock_hand < length owners → o < length owners → lejos r < length owners
  unfolding distancia
  lejos-lt r l l' = ground arith

  otro_lugar : (r : Reloj) → get_or owners r.clock_hand none ≡ none → r.clock_hand ≢ o
  otro_lugar r e same = cc (ap (λ x. get_or owners x none) same)

  mismo_duenio : (h : ℕ) (e : Duenio) → h ≡ o → get_or owners h none ≡ some e → e ≡ d
  mismo_duenio h e same ee =
      let q : get_or owners h none ≡ get_or owners o none = ap (λ x. get_or owners x none) same in
      let q' : ◌≡◌ {A = Option Duenio} (some e) (some d) = sym ee ∙ (q ∙ tiene) in cc

  distintos :
      (r : Reloj) (e : Duenio)
      → r.clock_hand ≡ o
      → get_or owners r.clock_hand none ≡ some e
      → (leer_pagina r.tablas d).uso ≡ false
      → (leer_pagina r.tablas e).uso ≡ true
      → ⊥
  distintos r e same ee u con =
      cc (ap (λ x. (leer_pagina r.tablas x).uso) (mismo_duenio r.clock_hand e same ee))

  -- A page in the way without its use bit is the victim at the latest.
  llega_sin_uso :
      (rondas : ℕ) (r : Reloj)
      → r.clock_hand < length owners
      → o < length owners
      → (leer_pagina r.tablas d).uso ≡ false
      → lejos r < rondas
      → Encontrada (length owners) (barrer owners rondas r)
  llega_sin_uso zero r l l' u m = elim m [ ]
  llega_sin_uso (suc rondas) r l l' u m =
      barrer_paso (Encontrada (length owners)) rondas r
        (λ e.
          llega_sin_uso rondas (avanza r) (mano_dentro r l) l' (unfold avanza in u)
            (omega (arith, lejos-avanza r l l' (otro_lugar r e))))
        (λ e ee sin. record {
          victima = record { duenio = e; frame = (leer_pagina r.tablas e).frame };
          hay = refl;
          sin_uso = unfold avanza in sin;
          su_frame = unfold avanza in refl;
          mano = mano_dentro r l;
        })
        (λ e ee con.
          let ne : r.clock_hand ≢ o = λ same. distintos r e same ee u con in
          llega_sin_uso rondas (record (avanza r) { tablas = limpiar_uso r.tablas e })
            (mano_dentro r l) l' (limpiar-uso_otro r.tablas d e u)
            (omega (arith, lejos-avanza r l l' ne)))

  -- Within two turns a victim is found.
  llega :
      (rondas : ℕ) (r : Reloj)
      → r.clock_hand < length owners
      → o < length owners
      → lejos r + length owners < rondas
      → Encontrada (length owners) (barrer owners rondas r)
  llega zero r l l' m = elim m [ ]
  llega (suc rondas) r l l' m =
      barrer_paso (Encontrada (length owners)) rondas r
        (λ e.
          llega rondas (avanza r) (mano_dentro r l) l'
            (omega (arith, lejos-avanza r l l' (otro_lugar r e))))
        (λ e ee sin. record {
          victima = record { duenio = e; frame = (leer_pagina r.tablas e).frame };
          hay = refl;
          sin_uso = unfold avanza in sin;
          su_frame = unfold avanza in refl;
          mano = mano_dentro r l;
        })
        (λ e ee con. elim (ℕ_discrete r.clock_hand o) [
          | yes same ↦
              llega_sin_uso rondas (record (avanza r) { tablas = limpiar_uso r.tablas e })
                (mano_dentro r l) l'
                (subst (λ x. (leer_pagina (limpiar_uso r.tablas x) d).uso ≡ false)
                  (sym (mismo_duenio r.clock_hand e same ee)) (limpiar-uso_propio r.tablas d))
                (omega (arith, lejos-lt (avanza r) (mano_dentro r l) l'))
          | no ne ↦
              llega rondas (record (avanza r) { tablas = limpiar_uso r.tablas e }) (mano_dentro r l)
                l' (omega (arith, lejos-avanza r l l' ne))
        ])

  pub llega_dos_vueltas :
      (rondas : ℕ) (r : Reloj)
      → r.clock_hand < length owners
      → o < length owners
      → length owners * 2 ≤ rondas
      → Encontrada (length owners) (barrer owners rondas r)
  llega_dos_vueltas rondas r l l' m = llega rondas r l l' (omega (arith, lejos-lt r l l'))
