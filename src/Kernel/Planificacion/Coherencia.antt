-- ===== src/Kernel/Planificacion/Coherencia.antt =====
-- The moves of the planner, and the agreement of the queues and the states.
use recursos_so.Prelude.{
  ℕ, suc, ◌+◌, ◌-◌, ◌<◌, ◌≡◌, refl, ap, inl, inr, Bool, true, false, List, [], ◌∷◌, ◌++◌, Option,
  some, arith, ◌==◌, if◌then◌else◌, Option-cases, List-cases, length,
}
use recursos_so.Kernel.{Estado, Kernel, escribir_pcb}
use recursos_so.Kernel.Colas.{cuantos, buscar_pid, buscar_pid-cuantos, cuantos-list_add}
use recursos_so.Kernel.Algoritmo.{algoritmo_obtener_fifo}
use recursos_so.Kernel.Planificacion.{
  Motivo, con_estado, destino, manejar_interrupcion, desalojar_proceso, planificador_largo_plazo,
  ronda_largo_plazo, despachar, planificador_corto_plazo, desbloquear_todos,
}
use recursos_so.Kernel.Planificacion.Movimientos.{
  CoherenteMas, Suelto, escribir-Coherente, a_ready-Coherente, a_blocked-Coherente,
  a_exit-Coherente, a_exec-Coherente, sale_exec, sale_ready, sale_new, sale_blocked,
}

cuantos_agregado : (p : ℕ) (xs : List ℕ) → 0 < cuantos p (xs ++ p ∷ [])
cuantos_agregado p xs = ground (arith, cuantos-list_add p p xs)

module _ (f : ℕ → ℕ) where
  destino-Coherente :
      (m : Motivo) (ms p : ℕ) (k : Kernel)
      → CoherenteMas f k
      → Suelto k p
      → CoherenteMas f (destino m ms p k)
  unfolding destino
  destino-Coherente Motivo.quantum ms p k c s =
      let v = record (k.pcbs p) { quantum_restante = (k.pcbs p).quantum } in
      a_ready-Coherente f (record k { pcbs = escribir_pcb k.pcbs p v }) p
        (escribir-Coherente f k p v refl c) (omega arith)
  destino-Coherente Motivo.io ms p k c s = a_blocked-Coherente f k ms p c s
  destino-Coherente Motivo.wait ms p k c s = a_blocked-Coherente f k ms p c s
  destino-Coherente Motivo.exit ms p k c s = λ q. ground (arith, a_exit-Coherente f k p c s q)
  destino-Coherente Motivo.otro ms p k c s = c

  -- The interruption of a process, for any reason and whether or not it runs, keeps this: the queues
  -- and the states agree: each process is in one queue at most, in that of its state, and it waits for
  -- a resource only while BLOCKED holds it. The same holds where some processes were already taken out
  -- of a queue of waiters, as many times as `f` says.
  pub manejar_interrupcion-Coherente :
      (pid : ℕ) (m : Motivo) (ms : ℕ) (k : Kernel)
      → CoherenteMas f k
      → CoherenteMas f (manejar_interrupcion pid m ms k)
  unfolding manejar_interrupcion
  manejar_interrupcion-Coherente pid m ms k c =
      elim (Option-cases (buscar_pid k.pcbs pid k.cola_exec)) [
        | inl e ↦ rw (e, manejar_interrupcion) c
        | inr (p, e) ↦
            let (c', s) = sale_exec f k p (buscar_pid-cuantos k.pcbs pid k.cola_exec p e).0 c in
            rw (e, manejar_interrupcion) (destino-Coherente m ms p _ c' s)
      ]

  -- The preemption of a process, whether or not it runs, keeps the queues and the states in agreement,
  -- with any `f` of processes already taken out of a queue of waiters.
  pub desalojar_proceso-Coherente :
      (pid : ℕ) (k : Kernel) → CoherenteMas f k → CoherenteMas f (desalojar_proceso pid k)
  unfolding desalojar_proceso
  desalojar_proceso-Coherente pid k c = elim (Option-cases (buscar_pid k.pcbs pid k.cola_exec)) [
    | inl e ↦ rw (e, desalojar_proceso) c
    | inr (p, e) ↦
        let (c', s) = sale_exec f k p (buscar_pid-cuantos k.pcbs pid k.cola_exec p e).0 c in
        rw (e, desalojar_proceso) (λ q. ground (arith, a_ready-Coherente f _ p c' s q))
  ]

  -- One round of the long-term planner, whatever Memoria answers, keeps the queues and the states in
  -- agreement, with any `f` of processes already taken out of a queue of waiters.
  pub planificador_largo_plazo-Coherente :
      (aceptado : Bool) (k : Kernel)
      → CoherenteMas f k
      → CoherenteMas f (planificador_largo_plazo aceptado k)
  unfolding planificador_largo_plazo ronda_largo_plazo cuantos
  planificador_largo_plazo-Coherente aceptado k c = elim (List-cases k.cola_new) [
    | inl e ↦ rw (e, planificador_largo_plazo) (λ q. ground (arith, c q))
    | inr (p, resto, e) ↦
        let (c', s) = sale_new f k p resto (λ q. ap (cuantos q) e) c in
        rw (e, planificador_largo_plazo)
          (λ q. ground (arith, a_ready-Coherente f (record k { cola_new = resto }) p c' s q, c' q))
  ]

  despachar-Coherente :
      (usa_quantum enviado : Bool) (p : ℕ) (k : Kernel)
      → CoherenteMas f k
      → Suelto k p
      → CoherenteMas f (despachar usa_quantum enviado p k)
  unfolding despachar
  despachar-Coherente usa_quantum true p k c s =
      let k' = record k {
        pcbs = con_estado k.pcbs p Estado.exec;
        cola_exec = k.cola_exec ++ p ∷ [];
      } in
      escribir-Coherente f k' p _ refl (a_exec-Coherente f k p c s)
  despachar-Coherente usa_quantum false p k c s =
      let k' = record k {
        pcbs = con_estado k.pcbs p Estado.exec;
        cola_exec = k.cola_exec ++ p ∷ [];
      } in
      let (c', s') =
        sale_exec f k' p (cuantos_agregado p k.cola_exec) (a_exec-Coherente f k p c s) in
      a_ready-Coherente f _ p c' s'

-- A choice of the next process takes one entry of the queue.
pub record Toma (proximo : List ℕ → Option (ℕ × List ℕ)) : Type 0 where
  pub cuenta :
      (cola resto : List ℕ) (p q : ℕ)
      → proximo cola ≡ some (p, resto)
      → cuantos q cola ≡ (if q == p then 1 else 0) + cuantos q resto
  pub largo :
      (cola resto : List ℕ) (p : ℕ)
      → proximo cola ≡ some (p, resto)
      → length cola ≡ suc (length resto)

pub algoritmo_obtener_fifo-Toma : Toma algoritmo_obtener_fifo
unfolding algoritmo_obtener_fifo cuantos
algoritmo_obtener_fifo-Toma = record {
  cuenta = λ cola resto p q h. elim (List-cases cola) [
    | inl e ↦ ground arith
    | inr (x, xs, e) ↦ ground arith
  ];
  largo = λ cola resto p h. elim (List-cases cola) [
    | inl e ↦ ground arith
    | inr (x, xs, e) ↦ ground arith
  ];
}

-- One round of the short-term planner keeps the queues and the states in agreement, with any `f` of
-- processes already taken out of a queue of waiters, whether or not the CPU is reached and for any
-- choice of the next process that takes one entry of the queue.
pub planificador_corto_plazo-Coherente :
    (f : ℕ → ℕ) (proximo : List ℕ → Option (ℕ × List ℕ)) (usa_quantum enviado : Bool) (k : Kernel)
    → Toma proximo
    → CoherenteMas f k
    → CoherenteMas f (planificador_corto_plazo proximo usa_quantum enviado k)
unfolding planificador_corto_plazo
planificador_corto_plazo-Coherente f proximo usa_quantum enviado k t c =
    elim (Option-cases (proximo k.cola_ready)) [
      | inl e ↦ rw (e, planificador_corto_plazo) (λ q. ground (arith, c q))
      | inr ((p, resto), e) ↦
          let (c', s) = sale_ready f k p resto (λ q. t.cuenta k.cola_ready resto p q e) c in
          let k1 = record k { cola_ready = resto; sem_hay_ready = k.sem_hay_ready - 1 } in
          let c1 : CoherenteMas f k1 = λ q. ground (arith, c' q) in
          rw (e, planificador_corto_plazo)
            (despachar-Coherente f usa_quantum enviado p k1 c1 (omega arith))
    ]

-- The loop over the unblocked processes, each of which BLOCKED still holds.
pub desbloquear_todos-Coherente :
    (f : ℕ → ℕ) (ps : List ℕ) (k : Kernel)
    → CoherenteMas (λ q. cuantos q ps + f q) k
    → CoherenteMas f (desbloquear_todos ps k)
unfolding desbloquear_todos cuantos
desbloquear_todos-Coherente f [] k c = λ q. ground (arith, c q)
desbloquear_todos-Coherente f (p ∷ ps) k c =
    let (c', s) = sale_blocked (λ q. cuantos q ps + f q) k p (λ q. ground (arith, c q)) in
    desbloquear_todos-Coherente f ps _ (a_ready-Coherente (λ q. cuantos q ps + f q) _ p c' s)
