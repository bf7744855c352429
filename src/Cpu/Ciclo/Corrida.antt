-- ===== src/Cpu/Ciclo/Corrida.antt =====
-- A run of the cycle: that it ends, and what it does to the context.
use recursos_so.Prelude.{
  ℕ, ◌<◌, ◌^◌, ◌≡◌, inl, inr, refl, sym, subst, ◌∙◌, Bool, true, false, ◌||◌, List, [], ◌∷◌, Option,
  some, arith, Bool-cases, Option-cases, String,
}
use recursos_so.Modelo.{ContextoCpu}
use recursos_so.Cpu.Decode.{decoder_parsear}
use recursos_so.Cpu.Decode.Rango.{decoder_parsear-Rango}
use recursos_so.Cpu.Ejecucion.{Servicio, Cpu}
use recursos_so.Cpu.Ejecucion.Rangos.{IsContexto, DaBytes}
use recursos_so.Cpu.Ejecucion.Efectos.{execute_instruccion-Efecto}
use recursos_so.Cpu.Ciclo.{
  interrupcion_disparar, fetch_instruccion, decode_instruccion, ronda, bucle_ciclo,
}

-- Whether an interruption comes in one of the rounds.
abbrev pub alguna : List Bool → Bool
alguna [] = false
alguna (llega ∷ llegan) = llega || alguna llegan

-- The process is still `pid`, and its context is in range.
pub record Propio (p : ℕ) (ctx : ContextoCpu) : Type 0 where
  pub pid : ctx.pid ≡ p
  pub en_rango : IsContexto ctx

module _ {S : Type 0} (servicio : Servicio S) (tam_pag : ℕ) (atoi : String → ℕ)
    (string_split : String → List String) where
  abbrev pub paso : Cpu S → Bool × Cpu S
  paso = ronda servicio tam_pag atoi string_split

  abbrev pub bucle_de : List Bool → Cpu S → Option (Cpu S)
  bucle_de = bucle_ciclo servicio tam_pag atoi string_split

  -- An interruption in one of the rounds ends the loop.
  pub bucle_ciclo-termina :
      (llegan : List Bool) (c : Cpu S)
      → alguna llegan ≡ true
      → (c' : Cpu S) × (bucle_de llegan c ≡ some c')
  unfolding bucle_ciclo
  bucle_ciclo-termina [] c h = cc
  bucle_ciclo-termina (true ∷ llegan) c h = (interrupcion_disparar c, refl)
  bucle_ciclo-termina (false ∷ llegan) c h = elim (Bool-cases c.flag_interrupcion) [
    | inl con ↦ (c, ground arith)
    | inr sin ↦ elim (Bool-cases (paso c).0) [
      | inl sigue ↦
          let (c', e) = bucle_ciclo-termina llegan (paso c).1 h in (c', simp (sin, sigue) e)
      | inr fin ↦ ((paso c).1, simp (sin, fin))
    ]
  ]

  -- The fetch changes only the memory.
  fetch_instruccion-ctx :
      (c : Cpu S) → (fetch_instruccion servicio tam_pag atoi string_split c).1.ctx ≡ c.ctx
  unfolding fetch_instruccion
  fetch_instruccion-ctx c = refl

  module _ (p : ℕ) (da_bytes : DaBytes servicio) (rango : (s : String) → atoi s < 2 ^ 32) where
    ronda-Propio : (c : Cpu S) → Propio p c.ctx → Propio p (paso c).1.ctx
    unfolding ronda decode_instruccion
    ronda-Propio c h =
        let c1 = (fetch_instruccion servicio tam_pag atoi string_split c).1 in
        let igual : c1.ctx ≡ c.ctx = fetch_instruccion-ctx c in
        let h1 : Propio p c1.ctx = subst (Propio p) (sym igual) h in
        elim (Option-cases (fetch_instruccion servicio tam_pag atoi string_split c).0) [
          | inl nada ↦ rw (nada, ronda) h1
          | inr (linea, si) ↦
              let e =
                execute_instruccion-Efecto servicio tam_pag
                  (decoder_parsear atoi (string_split linea)) c1 da_bytes h1.en_rango
                  (decoder_parsear-Rango atoi (string_split linea) rango) in
              rw (si, ronda) (record { pid = e.pid ∙ h1.pid; en_rango = e.en_rango })
        ]

    pub bucle_ciclo-Propio :
        (llegan : List Bool) (c c' : Cpu S)
        → Propio p c.ctx
        → bucle_de llegan c ≡ some c'
        → Propio p c'.ctx
    unfolding bucle_ciclo
    bucle_ciclo-Propio [] c c' h e = cc
    bucle_ciclo-Propio (true ∷ llegan) c c' h e =
        let e1 : ◌≡◌ {A = Option (Cpu S)} (some (interrupcion_disparar c)) (some c') = e in
        let e2 : interrupcion_disparar c ≡ c' = cc in subst (λ x. Propio p x.ctx) e2 h
    bucle_ciclo-Propio (false ∷ llegan) c c' h e = elim (Bool-cases c.flag_interrupcion) [
      | inl con ↦ let e2 : c ≡ c' = ground arith in subst (λ x. Propio p x.ctx) e2 h
      | inr sin ↦ elim (Bool-cases (paso c).0) [
        | inl sigue ↦ bucle_ciclo-Propio llegan (paso c).1 c' (ronda-Propio c h) (ground arith)
        | inr fin ↦
            let e2 : (paso c).1 ≡ c' = ground arith in
            subst (λ x. Propio p x.ctx) e2 (ronda-Propio c h)
      ]
    ]
