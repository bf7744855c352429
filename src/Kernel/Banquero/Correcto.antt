-- ===== src/Kernel/Banquero/Correcto.antt =====
-- The banker's simulation against the definition of a safe state.
use recursos_so.Prelude.{
  ℕ, zero, suc, ◌+◌, ◌<◌, ◌≤◌, ◌≡◌, ◌↔◌, refl, ◌∙◌, ◌⊎◌, inl, inr, Bool, true, false, ◌&&◌, List,
  [], some, arith, length, get_or, replicate, length-replicate, Bool-cases, ltb, ◌==◌,
}
use recursos_so.Kernel.Banquero.{puede, Simulacion, barrer, bucle, inicial, simular}
use recursos_so.Kernel.Banquero.Rondas.{
  pendientes, pendientes-replicate, pendientes_zero, zero_pendientes, Conserva, Conserva-refl,
  Conserva-trans, barrer-Conserva, Atascado, barrer-Atascado, barrer_avance,
}
use recursos_so.Kernel.Banquero.Segura.{Segura, fin, termina, lt-length_of_pendiente}

module _ (asignado necesidad : List (List ℕ)) where
  Segura-atascado :
      {work : List ℕ} {terminado : List Bool}
      → Segura asignado necesidad work terminado
      → ((q : ℕ)
          → q < length terminado
          → (get_or terminado q true ≡ true) ⊎ (puede (get_or necesidad q []) work ≡ false))
      → pendientes terminado ≡ 0
  Segura-atascado {work} {terminado} (fin todos) h = zero_pendientes terminado todos
  Segura-atascado {work} {terminado} (termina p pend ok resto) h =
      elim (h p (lt-length_of_pendiente terminado p pend)) [ inl e ↦ cc | inr e ↦ cc ]

  -- How the loop ends: every process has ended, or none of the others can go on.
  record Final (n : ℕ) (s t : Simulacion) : Type 0 where
    conserva : Conserva asignado necesidad s t
    motivo : (t.completados ≡ n) ⊎ ((q : ℕ) → q < n → Atascado asignado necesidad t q)

  -- The state before a test of the loop, and the fuel that is enough for it.
  abbrev Cabeza : ℕ → ℕ → Simulacion → Type 0
  Cabeza n fuel s =
      ((s.progreso ≡ true) × (n + 2 ≤ fuel + s.completados))
      ⊎ ((s.progreso ≡ false) × (0 < fuel) × ((q : ℕ) → q < n → Atascado asignado necesidad s q))

  pasada : ℕ → Simulacion → Simulacion
  pasada n s = barrer asignado necesidad n 0 (record s { progreso = false })

  pasada-Cabeza :
      (n fuel : ℕ) (s : Simulacion)
      → s.completados < n
      → n + 2 ≤ suc fuel + s.completados
      → Cabeza n fuel (pasada n s)
  unfolding pasada
  pasada-Cabeza n fuel s lt h = elim (Bool-cases (pasada n s).progreso) [
    | inl e ↦ inl (
      e,
      omega (arith, barrer_avance asignado necesidad n 0 (record s { progreso = false }) refl e),
    )
    | inr e ↦
        let (igual, resto) =
          barrer-Atascado asignado necesidad n 0 (record s { progreso = false }) e in
        inr (e, omega arith, λ q b. rw igual (resto q (omega arith) (omega arith)))
  ]

  pasada-Conserva : (n : ℕ) (s : Simulacion) → Conserva asignado necesidad s (pasada n s)
  unfolding pasada
  pasada-Conserva n s =
      let c = barrer-Conserva asignado necesidad n 0 (record s { progreso = false }) in
      record { largo = c.largo; cuenta = c.cuenta; segura = c.segura; avanza = c.avanza }

  bucle_sigue :
      (n fuel : ℕ) (s : Simulacion)
      → (s.progreso && ltb s.completados n) ≡ true
      → bucle asignado necesidad n (suc fuel) s ≡ bucle asignado necesidad n fuel (pasada n s)
  unfolding pasada bucle
  bucle_sigue n fuel s h = rw (h, bucle)

  bucle_para :
      (n fuel : ℕ) (s : Simulacion)
      → (s.progreso && ltb s.completados n) ≡ false
      → bucle asignado necesidad n (suc fuel) s ≡ some s
  unfolding bucle
  bucle_para n fuel s h = rw (h, bucle)

  bucle_termina :
      (n fuel : ℕ) (s : Simulacion)
      → s.completados + pendientes s.terminado ≡ n
      → Cabeza n fuel s
      → (t : Simulacion) × (bucle asignado necesidad n fuel s ≡ some t) × Final n s t
  bucle_termina n zero s c (inl h) = absurd (omega arith)
  bucle_termina n zero s c (inr h) = absurd (omega arith)
  bucle_termina n (suc fuel) s c (inr (e, pos, h)) = (
    s,
    bucle_para n fuel s (ground arith),
    record { conserva = Conserva-refl asignado necesidad s; motivo = inr h },
  )
  bucle_termina n (suc fuel) s c (inl (e, h)) = elim (Bool-cases (ltb s.completados n)) [
    | inr no_lt ↦ (
      s,
      bucle_para n fuel s (ground arith),
      record { conserva = Conserva-refl asignado necesidad s; motivo = inl (ground arith) },
    )
    | inl lt ↦
        let paso = pasada-Conserva n s in
        let (t, ends, final) =
          bucle_termina n fuel (pasada n s) (omega (arith, paso.cuenta))
            (pasada-Cabeza n fuel s (ground arith) h) in
        (
          t,
          bucle_sigue n fuel s (ground arith) ∙ ends,
          record {
            conserva = Conserva-trans asignado necesidad paso final.conserva;
            motivo = final.motivo;
          },
        )
  ]

  -- The simulation returns, and says whether the processes can end one after the other.
  pub simular_decide :
      (disponible : List ℕ) (n : ℕ)
      → (b : Bool) × (simular disponible asignado necesidad n ≡ some b)
        × ((b ≡ true) ↔ Segura asignado necesidad disponible (replicate n false))
  unfolding simular
  simular_decide disponible n =
      let (t, ends, final) =
        bucle_termina n (suc (suc n)) (inicial disponible n) (omega (arith, pendientes-replicate n))
          (inl (refl, omega arith)) in
      let cuenta : t.completados + pendientes t.terminado ≡ n =
        omega (arith, final.conserva.cuenta, pendientes-replicate n) in
      let largo : length t.terminado ≡ n = final.conserva.largo ∙ length-replicate n false in
      (
        t.completados == n,
        rw (ends, simular) refl,
        (
          λ e. final.conserva.segura.1 (fin (pendientes_zero t.terminado (ground arith))),
          λ seg. elim final.motivo [
            | inl e ↦ ground arith
            | inr h ↦
                let nada =
                  Segura-atascado (final.conserva.segura.0 seg) (λ q lt. h q (omega arith)) in
                ground arith
          ],
        ),
      )
