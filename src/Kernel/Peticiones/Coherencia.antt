-- ===== src/Kernel/Peticiones/Coherencia.antt =====
-- manejar_fin_quantum and manejar_signal_recurso: the agreement of the queues and the states.
use recursos_so.Prelude.{
  ℕ, ◌≡◌, refl, inl, inr, false, List, [], ◌∷◌, Option, none, some, arith, Option-cases, String,
  Bool-cases,
}
use recursos_so.Modelo.{ContextoCpu}
use recursos_so.Kernel.{Kernel}
use recursos_so.Kernel.Colas.{cuantos, buscar_pid}
use recursos_so.Kernel.Recursos.{buscar, entregar, soltar, recurso_signal}
use recursos_so.Kernel.Planificacion.{Motivo}
use recursos_so.Kernel.Planificacion.Movimientos.{
  CoherenteMas, Coherente, escribir-Coherente, a_ready-Coherente, sale_blocked,
}
use recursos_so.Kernel.Planificacion.Coherencia.{manejar_interrupcion-Coherente}
use recursos_so.Kernel.Peticiones.{
  actualizar, actualizar_exec, manejar_fin_quantum, esta, seguir_signal, manejar_signal_recurso,
}
use recursos_so.Kernel.Peticiones.Esperas.{
  Mismas-Coherente, entregar-esperas, entregar-Mismas, soltar-Mismas, nuevos, Mismas-trans,
}

pub actualizar-Coherente :
    (f : ℕ → ℕ) (ctx : ContextoCpu) (p : ℕ) (k : Kernel)
    → CoherenteMas f k
    → CoherenteMas f (actualizar ctx p k)
actualizar-Coherente f ctx p k c = escribir-Coherente f k p _ refl c

actualizar_exec-Coherente :
    (f : ℕ → ℕ) (ctx : ContextoCpu) (k : Kernel)
    → CoherenteMas f k
    → CoherenteMas f (actualizar_exec ctx k)
unfolding actualizar_exec
actualizar_exec-Coherente f ctx k c = elim (Option-cases (buscar_pid k.pcbs ctx.pid k.cola_exec)) [
  | inl e ↦ rw (e, actualizar_exec) c
  | inr (p, e) ↦ rw (e, actualizar_exec) (actualizar-Coherente f ctx p k c)
]

-- The end of a quantum keeps the queues and the states in agreement, whether or not the process still
-- runs.
pub manejar_fin_quantum-Coherente :
    (ctx : ContextoCpu) (ms : ℕ) (k : Kernel)
    → Coherente k
    → Coherente (manejar_fin_quantum ctx ms k)
unfolding manejar_fin_quantum
manejar_fin_quantum-Coherente ctx ms k c =
    elim (Option-cases (buscar_pid k.pcbs ctx.pid k.cola_exec)) [
      | inl e ↦ rw (e, manejar_fin_quantum) c
      | inr (p, e) ↦
          rw (e, manejar_fin_quantum)
            (manejar_interrupcion-Coherente (λ _. 0) ctx.pid Motivo.quantum ms _
              (actualizar-Coherente _ ctx p k c))
    ]

esta-cuantos : (p : ℕ) (xs : List ℕ) → esta p xs ≡ false → cuantos p xs ≡ 0
unfolding esta cuantos
esta-cuantos p [] h = refl
esta-cuantos p (x ∷ xs) h = ground (arith, esta-cuantos p xs)

-- The end of a signal: the process that got the instance is in BLOCKED, and becomes READY.
seguir_signal-Coherente :
    (k : Kernel) (d : Option ℕ)
    → CoherenteMas (λ q. cuantos q (nuevos d)) k
    → Coherente (seguir_signal (k, d))
unfolding seguir_signal cuantos
seguir_signal-Coherente k none c = c
seguir_signal-Coherente k (some p) c = elim (Bool-cases (esta p k.cola_blocked)) [
  | inl e ↦
      let (c', s) = sale_blocked (λ _. 0) k p (λ q. c q) in
      rw (e, seguir_signal) (a_ready-Coherente (λ _. 0) _ p c' s)
  | inr e ↦ absurd (ground (arith, c p, esta-cuantos p k.cola_blocked e))
]

recurso_signal-Coherente :
    (k : Kernel) (nombre : String) (s : Option ℕ)
    → Coherente k
    → Coherente (seguir_signal (recurso_signal k nombre s))
unfolding recurso_signal cuantos
recurso_signal-Coherente k nombre s c = elim (Option-cases (buscar nombre k.recursos)) [
  | inl e ↦ rw (e, recurso_signal) (seguir_signal-Coherente k none c)
  | inr (r, e) ↦
      let k1 = record k { pcbs = soltar k.pcbs s nombre } in
      rw (e, recurso_signal)
        (seguir_signal-Coherente (entregar k1 r nombre).0 (entregar k1 r nombre).1 (
          Mismas-Coherente (λ _. 0) _ k (entregar k1 r nombre).0
            (Mismas-trans (soltar-Mismas k s nombre) (entregar-Mismas k1 r nombre))
            (λ q. omega (arith, entregar-esperas k1 r nombre q e)) c))
]

-- SIGNAL keeps the queues and the states in agreement, whoever gets the resource and whether or not
-- the resource exists.
pub manejar_signal_recurso-Coherente :
    (ctx : ContextoCpu) (nombre : Option String) (ms : ℕ) (k : Kernel)
    → Coherente k
    → Coherente (manejar_signal_recurso ctx nombre ms k)
unfolding manejar_signal_recurso
manejar_signal_recurso-Coherente ctx none ms k c =
    manejar_interrupcion-Coherente (λ _. 0) ctx.pid Motivo.quantum ms k c
manejar_signal_recurso-Coherente ctx (some nombre) ms k c =
    manejar_interrupcion-Coherente (λ _. 0) ctx.pid Motivo.quantum ms _
      (actualizar_exec-Coherente _ ctx _
        (recurso_signal-Coherente k nombre (buscar_pid k.pcbs ctx.pid k.cola_exec) c))
