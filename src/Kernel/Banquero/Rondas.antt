-- ===== src/Kernel/Banquero/Rondas.antt =====
-- What the rounds of the banker's simulation keep, and when they make no progress.
use recursos_so.Prelude.{
  ℕ, zero, suc, ◌+◌, ◌<◌, ◌≤◌, ◌≡◌, ◌↔◌, refl, ap, ◌⊎◌, inl, inr, Bool, true, false, List, [], ◌∷◌,
  arith, ℕ_discrete, length, length-set, get_or, set, replicate, Bool-cases,
}
use recursos_so.Kernel.Banquero.{puede, sumar, Simulacion, intentar, barrer}
use recursos_so.Kernel.Banquero.Segura.{Segura, termina, Segura-adelantar}

-- The processes that have not ended.
unfoldable pub pendientes : List Bool → ℕ
pendientes [] = 0
pendientes (false ∷ t) = suc (pendientes t)
pendientes (true ∷ t) = pendientes t

pub pendientes-replicate : (n : ℕ) → pendientes (replicate n false) ≡ n
unfolding pendientes
pendientes-replicate zero = refl
pendientes-replicate (suc n) = ap suc (pendientes-replicate n)

pub pendientes-set :
    (t : List Bool) (p : ℕ)
    → get_or t p true ≡ false
    → suc (pendientes (set t p true)) ≡ pendientes t
unfolding pendientes
pendientes-set [] p h = cc
pendientes-set (false ∷ t) zero h = refl
pendientes-set (true ∷ t) zero h = cc
pendientes-set (false ∷ t) (suc p) h = ap suc (pendientes-set t p h)
pendientes-set (true ∷ t) (suc p) h = pendientes-set t p h

pub pendientes_zero :
    (t : List Bool) → pendientes t ≡ 0 → (p : ℕ) → p < length t → get_or t p true ≡ true
unfolding pendientes
pendientes_zero [] h p lt = refl
pendientes_zero (false ∷ t) h p lt = absurd (omega arith)
pendientes_zero (true ∷ t) h zero lt = refl
pendientes_zero (true ∷ t) h (suc p) lt = pendientes_zero t h p (omega arith)

pub zero_pendientes :
    (t : List Bool) → ((p : ℕ) → p < length t → get_or t p true ≡ true) → pendientes t ≡ 0
unfolding pendientes
zero_pendientes [] h = refl
zero_pendientes (false ∷ t) h = absurd (cc (h 0 (omega arith)))
zero_pendientes (true ∷ t) h = zero_pendientes t (λ p lt. h (suc p) (omega arith))

module _ (asignado necesidad : List (List ℕ)) where
  abbrev pub EsSegura : Simulacion → Type 0
  EsSegura s = Segura asignado necesidad s.work s.terminado

  -- What one more round of the simulation keeps from `s` to `t`.
  pub record Conserva (s t : Simulacion) : Type 0 where
    pub largo : length t.terminado ≡ length s.terminado
    pub cuenta : t.completados + pendientes t.terminado ≡ s.completados + pendientes s.terminado
    pub segura : EsSegura s ↔ EsSegura t
    pub avanza : s.completados ≤ t.completados

  pub Conserva-refl : (s : Simulacion) → Conserva s s
  Conserva-refl s = record {
    largo = refl;
    cuenta = refl;
    segura = (λ x. x, λ x. x);
    avanza = omega arith;
  }

  pub Conserva-trans : {s t u : Simulacion} → Conserva s t → Conserva t u → Conserva s u
  Conserva-trans a b = record {
    largo = omega arith;
    cuenta = omega arith;
    segura = (λ x. b.segura.0 (a.segura.0 x), λ x. a.segura.1 (b.segura.1 x));
    avanza = omega arith;
  }

  -- The three branches of the loop's body.
  intentar_cases {ℓ} :
      (P : Simulacion → Type ℓ) (p : ℕ) (s : Simulacion)
      → (get_or s.terminado p true ≡ true → P s)
      → (puede (get_or necesidad p []) s.work ≡ false → P s)
      → (get_or s.terminado p true ≡ false
          → puede (get_or necesidad p []) s.work ≡ true
          → P (record {
            work = sumar s.work (get_or asignado p []);
            terminado = set s.terminado p true;
            completados = suc s.completados;
            progreso = true;
          }))
      → P (intentar asignado necesidad p s)
  unfolding intentar
  intentar_cases P p s ya no_puede si = elim (Bool-cases (get_or s.terminado p true)) [
    | inl e ↦ rw (e, intentar) (ya e)
    | inr e ↦ elim (Bool-cases (puede (get_or necesidad p []) s.work)) [
      | inl e' ↦ rw (e, e', intentar) (si e e')
      | inr e' ↦ rw (e, e', intentar) (no_puede e')
    ]
  ]

  intentar-Conserva : (p : ℕ) (s : Simulacion) → Conserva s (intentar asignado necesidad p s)
  intentar-Conserva p s =
      intentar_cases (Conserva s) p s (λ _. Conserva-refl s) (λ _. Conserva-refl s)
        λ pend ok. record {
          largo = length-set s.terminado p true;
          cuenta = omega (arith, pendientes-set s.terminado p pend);
          segura = (Segura-adelantar asignado necesidad p pend ok, termina p pend ok);
          avanza = omega arith;
        }

  pub barrer-Conserva : (k p : ℕ) (s : Simulacion) → Conserva s (barrer asignado necesidad k p s)
  unfolding barrer
  barrer-Conserva zero p s = Conserva-refl s
  barrer-Conserva (suc k) p s =
      Conserva-trans (intentar-Conserva p s)
        (barrer-Conserva k (suc p) (intentar asignado necesidad p s))

  -- A round either ends a process, or leaves everything as it was: then `p` cannot go on.
  abbrev pub Atascado : Simulacion → ℕ → Type 0
  Atascado s p = (get_or s.terminado p true ≡ true) ⊎ (puede (get_or necesidad p []) s.work ≡ false)

  intentar_avance :
      (p : ℕ) (s : Simulacion)
      → let t = intentar asignado necesidad p s in
        ((t ≡ s) × Atascado s p) ⊎ ((t.progreso ≡ true) × (suc s.completados ≡ t.completados))
  intentar_avance p s =
      intentar_cases
        (λ t.
          ((t ≡ s) × Atascado s p) ⊎ ((t.progreso ≡ true) × (suc s.completados ≡ t.completados)))
        p s (λ e. inl (refl, inl e)) (λ e. inl (refl, inr e)) (λ _ _. inr (refl, refl))

  barrer-progreso :
      (k p : ℕ) (s : Simulacion)
      → s.progreso ≡ true
      → (barrer asignado necesidad k p s).progreso ≡ true
  unfolding barrer
  barrer-progreso zero p s h = h
  barrer-progreso (suc k) p s h =
      barrer-progreso k (suc p) _ (elim (intentar_avance p s) [ inl q ↦ rw (q.0) h | inr q ↦ q.0 ])

  -- A pass without progress changes nothing, and no process that it saw can go on.
  pub barrer-Atascado :
      (k p : ℕ) (s : Simulacion)
      → (barrer asignado necesidad k p s).progreso ≡ false
      → (barrer asignado necesidad k p s ≡ s) × ((q : ℕ) → p ≤ q → q < p + k → Atascado s q)
  unfolding barrer
  barrer-Atascado zero p s h = (refl, λ q a b. absurd (omega arith))
  barrer-Atascado (suc k) p s h = elim (intentar_avance p s) [
    | inr q ↦ absurd (cc (barrer-progreso k (suc p) (intentar asignado necesidad p s) q.0))
    | inl (e, atascado) ↦
        let (igual, resto) = barrer-Atascado k (suc p) s (rw (e, barrer) at h) in
        (
          rw (e, barrer) igual,
          λ q a b. elim (ℕ_discrete p q) [
            | yes pq ↦ rw (← pq) atascado
            | no ne ↦ resto q (omega arith) (omega arith)
          ],
        )
  ]

  -- A pass with progress ends some process.
  pub barrer_avance :
      (k p : ℕ) (s : Simulacion)
      → s.progreso ≡ false
      → (barrer asignado necesidad k p s).progreso ≡ true
      → s.completados < (barrer asignado necesidad k p s).completados
  unfolding barrer
  barrer_avance zero p s h h' = cc
  barrer_avance (suc k) p s h h' = elim (intentar_avance p s) [
    | inr q ↦
        let c = barrer-Conserva k (suc p) (intentar asignado necesidad p s) in
        omega (arith, c.avanza)
    | inl (e, _) ↦ rw (e, barrer) (barrer_avance k (suc p) s h (rw (e, barrer) at h'))
  ]
