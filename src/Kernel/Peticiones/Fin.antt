-- ===== src/Kernel/Peticiones/Fin.antt =====
-- The end of a process, by itself or by a KILL.
use recursos_so.Prelude.{ℕ, ◌≡◌, refl, inl, inr, [], ◌∷◌, some, arith, Option-cases}
use recursos_so.Modelo.{ContextoCpu}
use recursos_so.Kernel.{Kernel}
use recursos_so.Kernel.Colas.{cuantos, buscar_pid}
use recursos_so.Kernel.Recursos.{pendiente, recursos_liberar_adquiridos}
use recursos_so.Kernel.Recursos.Liberar.{liberar_bucle_termina}
use recursos_so.Kernel.Planificacion.{Motivo, manejar_interrupcion, desbloquear_todos}
use recursos_so.Kernel.Planificacion.Movimientos.{Coherente}
use recursos_so.Kernel.Planificacion.Coherencia.{
  manejar_interrupcion-Coherente, desbloquear_todos-Coherente,
}
use recursos_so.Kernel.Peticiones.{actualizar, liberar_y_desbloquear, manejar_fin_proceso}
use recursos_so.Kernel.Peticiones.Esperas.{Mismas-Coherente, liberar_bucle-esperas}
use recursos_so.Kernel.Peticiones.Coherencia.{actualizar-Coherente}

-- The resources of a process that has ended go to the waiters, and these become READY.
pub liberar_y_desbloquear-Coherente :
    (p : ℕ) (k : Kernel)
    → Coherente k
    → (k' : Kernel) × (liberar_y_desbloquear p k ≡ some k') × Coherente k'
unfolding liberar_y_desbloquear recursos_liberar_adquiridos cuantos
liberar_y_desbloquear-Coherente p k c =
    let (k1, ds, ends) = liberar_bucle_termina (pendiente k p) k p [] (omega arith) in
    let (m, b) = liberar_bucle-esperas (pendiente k p) k p [] k1 ds ends in
    (
      desbloquear_todos ds k1,
      rw (ends, liberar_y_desbloquear, recursos_liberar_adquiridos) refl,
      desbloquear_todos-Coherente (λ _. 0) ds k1
          (Mismas-Coherente (λ _. 0) _ k k1 m (λ q. omega (arith, b q)) c),
    )

-- From a state in which the queues and the states agree: each process is in one queue at most, in that
-- of its state, and it waits for a resource only while BLOCKED holds it, the end of a process comes to
-- a result, and in it they agree again.
pub manejar_fin_proceso-Coherente :
    (ctx : ContextoCpu) (ms : ℕ) (k : Kernel)
    → Coherente k
    → (k' : Kernel) × (manejar_fin_proceso ctx ms k ≡ some k') × Coherente k'
unfolding manejar_fin_proceso
manejar_fin_proceso-Coherente ctx ms k c =
    elim (Option-cases (buscar_pid k.pcbs ctx.pid k.cola_exec)) [
      | inl e ↦ (k, rw (e, manejar_fin_proceso) refl, c)
      | inr (p, e) ↦
          let k1 = manejar_interrupcion ctx.pid Motivo.exit ms (actualizar ctx p k) in
          let c1 =
            manejar_interrupcion-Coherente (λ _. 0) ctx.pid Motivo.exit ms _
              (actualizar-Coherente (λ _. 0) ctx p k c) in
          let (k2, ends, c2) = liberar_y_desbloquear-Coherente p k1 c1 in
          (
            record k2 { fines_memoria = ctx.pid ∷ k2.fines_memoria },
            rw (e, ends, manejar_fin_proceso) refl,
            λ q. ground (arith, c2 q),
          )
    ]
