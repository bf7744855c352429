-- ===== src/Kernel/Planificacion/Grado.antt =====
-- The degree of multiprogramming: the slots of sem_mp, free or held by a process.
use recursos_so.Prelude.{
  ℕ, ◌+◌, ◌<◌, ◌≡◌, ◌≢◌, refl, Bool, List, [], ◌∷◌, ◌++◌, Option, arith, Option-cases, List-cases,
  inl, inr, length, length-append,
}
use recursos_so.Kernel.{Kernel}
use recursos_so.Kernel.Colas.{cuantos, quitar_puntero, buscar_pid, buscar_pid-cuantos}
use recursos_so.Kernel.Planificacion.{
  Motivo, destino, manejar_interrupcion, desalojar_proceso, planificador_largo_plazo,
  ronda_largo_plazo, despachar, planificador_corto_plazo,
}
use recursos_so.Kernel.Planificacion.Coherencia.{Toma}

-- The free slots, and the processes that hold one.
abbrev pub grado : Kernel → ℕ
grado k = k.sem_mp + length k.cola_ready + length k.cola_exec + length k.cola_blocked

length-quitar_puntero :
    (p : ℕ) (xs : List ℕ) → 0 < cuantos p xs → length (quitar_puntero p xs) + 1 ≡ length xs
unfolding cuantos quitar_puntero
length-quitar_puntero p [] h = ground arith
length-quitar_puntero p (x ∷ xs) h = ground (arith, length-quitar_puntero p xs)

length-list_add : (p : ℕ) (xs : List ℕ) → length (xs ++ p ∷ []) ≡ length xs + 1
length-list_add p xs = omega (arith, length-append xs (p ∷ []))

cuantos-list_add_propio : (p : ℕ) (xs : List ℕ) → 0 < cuantos p (xs ++ p ∷ [])
unfolding cuantos
cuantos-list_add_propio p [] = ground arith
cuantos-list_add_propio p (x ∷ xs) = ground (arith, cuantos-list_add_propio p xs)

destino-grado :
    (m : Motivo) (ms p : ℕ) (k : Kernel) → m ≢ Motivo.otro → grado (destino m ms p k) ≡ grado k + 1
unfolding destino
destino-grado Motivo.quantum ms p k ne = omega (arith, length-list_add p k.cola_ready)
destino-grado Motivo.io ms p k ne = omega (arith, length-list_add p k.cola_blocked)
destino-grado Motivo.wait ms p k ne = omega (arith, length-list_add p k.cola_blocked)
destino-grado Motivo.exit ms p k ne = omega arith
destino-grado Motivo.otro ms p k ne = absurd (ne refl)

-- An interruption for one of the four reasons that the code knows keeps the free slots of sem_mp and
-- the processes in READY, EXEC and BLOCKED together: an EXIT gives back exactly the slot that the
-- process held.
pub grado-manejar_interrupcion :
    (pid : ℕ) (m : Motivo) (ms : ℕ) (k : Kernel)
    → m ≢ Motivo.otro
    → grado (manejar_interrupcion pid m ms k) ≡ grado k
unfolding manejar_interrupcion
grado-manejar_interrupcion pid m ms k ne = elim (Option-cases (buscar_pid k.pcbs pid k.cola_exec)) [
  | inl e ↦ rw (e, manejar_interrupcion) refl
  | inr (p, e) ↦
      let k1 = record k { cola_exec = quitar_puntero p k.cola_exec } in
      rw (e, manejar_interrupcion)
        (omega (
          arith,
          destino-grado m ms p k1 ne,
          length-quitar_puntero p k.cola_exec (buscar_pid-cuantos k.pcbs pid k.cola_exec p e).0,
        ))
]

-- A preemption keeps the free slots of sem_mp and the processes in READY, EXEC and BLOCKED together.
pub grado-desalojar_proceso : (pid : ℕ) (k : Kernel) → grado (desalojar_proceso pid k) ≡ grado k
unfolding desalojar_proceso
grado-desalojar_proceso pid k = elim (Option-cases (buscar_pid k.pcbs pid k.cola_exec)) [
  | inl e ↦ rw (e, desalojar_proceso) refl
  | inr (p, e) ↦
      rw (e, desalojar_proceso)
        (omega (
          arith,
          length-list_add p k.cola_ready,
          length-quitar_puntero p k.cola_exec (buscar_pid-cuantos k.pcbs pid k.cola_exec p e).0,
        ))
]

-- One round of the long-term planner, which starts when a slot is free, keeps the free slots of sem_mp
-- and the processes in READY, EXEC and BLOCKED together, whether NEW is empty, Memoria accepts the
-- process, or Memoria refuses it.
pub grado-planificador_largo_plazo :
    (aceptado : Bool) (k : Kernel)
    → 0 < k.sem_mp
    → grado (planificador_largo_plazo aceptado k) ≡ grado k
unfolding planificador_largo_plazo ronda_largo_plazo
grado-planificador_largo_plazo aceptado k h = elim (List-cases k.cola_new) [
  | inl e ↦ rw (e, planificador_largo_plazo) (omega arith)
  | inr (p, resto, e) ↦
      rw (e, planificador_largo_plazo) (ground (arith, length-list_add p k.cola_ready))
]

-- One round of the short-term planner keeps the free slots of sem_mp and the processes in READY, EXEC
-- and BLOCKED together, for any choice that takes one entry of READY and whether or not the CPU is
-- reached.
pub grado-planificador_corto_plazo :
    (proximo : List ℕ → Option (ℕ × List ℕ)) (usa_quantum enviado : Bool) (k : Kernel)
    → Toma proximo
    → grado (planificador_corto_plazo proximo usa_quantum enviado k) ≡ grado k
unfolding planificador_corto_plazo despachar
grado-planificador_corto_plazo proximo usa_quantum enviado k t =
    elim (Option-cases (proximo k.cola_ready)) [
      | inl e ↦ rw (e, planificador_corto_plazo) refl
      | inr ((p, resto), e) ↦
          rw (e, planificador_corto_plazo)
            (ground (
              arith,
              t.largo k.cola_ready resto p e,
              length-list_add p k.cola_exec,
              length-list_add p resto,
              length-quitar_puntero p (k.cola_exec ++ p ∷ [])
                  (cuantos-list_add_propio p k.cola_exec),
            ))
    ]
