-- ===== src/Kernel/Recursos/Liberar.antt =====
-- recursos_liberar_adquiridos: its loop, and the instances that it gives back.
use recursos_so.Prelude.{
  ℕ, zero, suc, ◌+◌, ◌*◌, ◌≤◌, ◌≡◌, refl, ap, ◌∙◌, true, List, [], ◌∷◌, ◌++◌, some, String, str_eq,
  str_eq_iff, arith, inl, inr, Option-cases, List-cases, length, length-append,
}
use recursos_so.Kernel.{Recurso, Kernel, escribir_pcb}
use recursos_so.Kernel.Colas.{cuantos}
use recursos_so.Kernel.Recursos.{
  buscar, poner, entregar, devolver, con_nombres, pendiente, liberar_bucle,
  recursos_liberar_adquiridos,
}
use recursos_so.Kernel.Recursos.Diccionario.{
  buscar_propio, buscar-poner, All-buscar, All-poner, en_espera-poner,
}
use recursos_so.Kernel.Recursos.Saldo.{veces, tenencias, saldo, tenencias-escribir}
use recursos_so.Kernel.Recursos.Conserva.{uno_si, registrado, EnLista, Registrados, entregar-saldo}

registrado-poner :
    (n : String) (v r : Recurso) (rs : List Recurso)
    → buscar v.nombre rs ≡ some r
    → registrado n (poner v rs) ≡ registrado n rs
unfolding registrado
registrado-poner n v r rs h = ground (arith, buscar-poner n v r rs h, str_eq_iff v.nombre n)

registrado-entregar :
    (n nombre : String) (k : Kernel) (r : Recurso)
    → buscar nombre k.recursos ≡ some r
    → registrado n (entregar k r nombre).0.recursos ≡ registrado n k.recursos
unfolding entregar
registrado-entregar n nombre k r h =
    let h' = buscar_propio nombre k.recursos r h in
    elim (List-cases r.cola_bloqueados) [
      | inl e ↦
          rw (e, entregar)
            (registrado-poner n (record r { instancias = r.instancias + 1 }) r k.recursos h')
      | inr (desb, resto, e) ↦
          rw (e, entregar)
            (registrado-poner n (record r { cola_bloqueados = resto }) r k.recursos h')
    ]

registrado-devolver :
    (n nombre : String) (k : Kernel)
    → registrado n (devolver k nombre).0.recursos ≡ registrado n k.recursos
unfolding devolver
registrado-devolver n nombre k = elim (Option-cases (buscar nombre k.recursos)) [
  | inl e ↦ rw (e, devolver) refl
  | inr (r, e) ↦ rw (e, devolver) (registrado-entregar n nombre k r e)
]

module _ (todos : List ℕ) where
  entregar-Registrados :
      (nombre : String) (k : Kernel) (r : Recurso)
      → buscar nombre k.recursos ≡ some r
      → Registrados k todos
      → Registrados (entregar k r nombre).0 todos
  unfolding entregar
  entregar-Registrados nombre k r h u =
      let ur = All-buscar (λ x. EnLista todos x.cola_bloqueados) nombre k.recursos r u h in
      elim (List-cases r.cola_bloqueados) [
        | inl e ↦ rw (e, entregar) (All-poner _ _ k.recursos u ur)
        | inr (desb, resto, e) ↦
            let ur' : EnLista todos (desb ∷ resto) = rw e at ur in
            rw (e, entregar) (All-poner _ _ k.recursos u ur'.1)
      ]

  devolver-Registrados :
      (nombre : String) (k : Kernel) → Registrados k todos → Registrados (devolver k nombre).0 todos
  unfolding devolver
  devolver-Registrados nombre k u = elim (Option-cases (buscar nombre k.recursos)) [
    | inl e ↦ rw (e, devolver) u
    | inr (r, e) ↦ rw (e, devolver) (entregar-Registrados nombre k r e u)
  ]

  devolver-saldo :
      (n nombre : String) (k : Kernel)
      → Registrados k todos
      → registrado n k.recursos ≡ true
      → saldo n (devolver k nombre).0 todos ≡ saldo n k todos + uno_si (str_eq nombre n)
  unfolding devolver registrado
  devolver-saldo n nombre k u reg = elim (Option-cases (buscar nombre k.recursos)) [
    | inl e ↦ ground (arith, str_eq_iff nombre n)
    | inr (r, e) ↦
        let ur = All-buscar (λ x. EnLista todos x.cola_bloqueados) nombre k.recursos r u e in
        rw (e, devolver) (entregar-saldo todos n nombre k r e ur)
  ]

  -- The name at the head leaves the list of the process.
  con_nombres-saldo :
      (n nombre : String) (resto : List String) (k : Kernel) (p : ℕ)
      → cuantos p todos ≡ 1
      → (k.pcbs p).recursos_adquiridos ≡ nombre ∷ resto
      → saldo n (con_nombres k p resto) todos + uno_si (str_eq nombre n) ≡ saldo n k todos
  unfolding veces
  con_nombres-saldo n nombre resto k p u e =
      let v = record (k.pcbs p) { recursos_adquiridos = resto } in
      let t = tenencias-escribir n k.pcbs p v todos in
      let t2 : tenencias n (escribir_pcb k.pcbs p v) todos
            + 1 * veces n (k.pcbs p).recursos_adquiridos
          ≡ tenencias n k.pcbs todos + 1 * veces n v.recursos_adquiridos =
        rw u at t in
      ground (arith, t2, ap (veces n) e)

-- A round makes the work that is left smaller.
devolver-pendiente :
    (nombre : String) (k : Kernel) (p : ℕ) → pendiente (devolver k nombre).0 p ≤ pendiente k p
unfolding devolver entregar
devolver-pendiente nombre k p = elim (Option-cases (buscar nombre k.recursos)) [
  | inl e ↦ rw (e, devolver) (omega arith)
  | inr (r, e) ↦
      let e' = buscar_propio nombre k.recursos r e in
      elim (List-cases r.cola_bloqueados) [
        | inl c ↦
            ground
              (arith, en_espera-poner (record r { instancias = r.instancias + 1 }) r k.recursos e')
        | inr (desb, resto, c) ↦ ground (
          arith,
          en_espera-poner (record r { cola_bloqueados = resto }) r k.recursos e',
          length-append (k.pcbs p).recursos_adquiridos (nombre ∷ []),
        )
      ]
]

-- What the end of a process promises of its resources.
pub record Liberado (todos : List ℕ) (pcb : ℕ) (k k' : Kernel) : Type 0 where
  pub vacio : (k'.pcbs pcb).recursos_adquiridos ≡ []
  pub saldos : (n : String) → registrado n k.recursos ≡ true → saldo n k' todos ≡ saldo n k todos

liberar_bucle-Liberado :
    (todos : List ℕ) (fuel : ℕ) (k : Kernel) (pcb : ℕ) (ds : List ℕ)
    → cuantos pcb todos ≡ 1
    → Registrados k todos
    → pendiente k pcb ≤ fuel
    → (k' : Kernel) × (ds' : List ℕ) × (liberar_bucle fuel k pcb ds ≡ some (k', ds'))
      × Liberado todos pcb k k'
unfolding liberar_bucle
liberar_bucle-Liberado todos zero k pcb ds u reg m =
    elim (List-cases (k.pcbs pcb).recursos_adquiridos) [
      | inl e ↦ (k, ds, rw (e, liberar_bucle) refl, record { vacio = e; saldos = λ n _. refl })
      | inr (x, xs, e) ↦ absurd (omega (arith, ap length e))
    ]
liberar_bucle-Liberado todos (suc fuel) k pcb ds u reg m =
    elim (List-cases (k.pcbs pcb).recursos_adquiridos) [
      | inl e ↦ (k, ds, rw (e, liberar_bucle) refl, record { vacio = e; saldos = λ n _. refl })
      | inr (x, xs, e) ↦
          let k1 = con_nombres k pcb xs in
          let k2 = (devolver k1 x).0 in
          let menos : pendiente k1 pcb + 1 ≡ pendiente k pcb = ground (arith, ap length e) in
          let (k', ds', ends, lib) =
            liberar_bucle-Liberado todos fuel k2 pcb (ds ++ (devolver k1 x).1) u
              (devolver-Registrados todos x k1 reg) (omega (arith, devolver-pendiente x k1 pcb)) in
          (
            k',
            ds',
            rw (e, liberar_bucle) ends,
            record {
              vacio = lib.vacio;
              saldos = λ n r. omega (
                arith,
                lib.saldos n (registrado-devolver n x k1 ∙ r),
                devolver-saldo todos n x k1 reg r,
                con_nombres-saldo todos n x xs k pcb u e,
              );
            },
          )
    ]

-- Where the list of PCBs has the process once and each waiting process once, the loop that gives back
-- its resources ends: the process then holds no resource, and the sum of the free and the held
-- instances of each existing resource is what it was.
pub recursos_liberar_adquiridos-Liberado :
    (todos : List ℕ) (k : Kernel) (pcb : ℕ)
    → cuantos pcb todos ≡ 1
    → Registrados k todos
    → (k' : Kernel) × (ds : List ℕ) × (recursos_liberar_adquiridos k pcb ≡ some (k', ds))
      × Liberado todos pcb k k'
unfolding recursos_liberar_adquiridos
recursos_liberar_adquiridos-Liberado todos k pcb u reg =
    liberar_bucle-Liberado todos (pendiente k pcb) k pcb [] u reg (omega arith)

-- Enough fuel gives a result, whatever the queues hold.
pub liberar_bucle_termina :
    (fuel : ℕ) (k : Kernel) (pcb : ℕ) (ds : List ℕ)
    → pendiente k pcb ≤ fuel
    → (k' : Kernel) × (ds' : List ℕ) × (liberar_bucle fuel k pcb ds ≡ some (k', ds'))
unfolding liberar_bucle
liberar_bucle_termina zero k pcb ds m = elim (List-cases (k.pcbs pcb).recursos_adquiridos) [
  | inl e ↦ (k, ds, rw (e, liberar_bucle) refl)
  | inr (x, xs, e) ↦ absurd (omega (arith, ap length e))
]
liberar_bucle_termina (suc fuel) k pcb ds m = elim (List-cases (k.pcbs pcb).recursos_adquiridos) [
  | inl e ↦ (k, ds, rw (e, liberar_bucle) refl)
  | inr (x, xs, e) ↦
      let k1 = con_nombres k pcb xs in
      let menos : pendiente k1 pcb + 1 ≡ pendiente k pcb = ground (arith, ap length e) in
      let (k', ds', ends) =
        liberar_bucle_termina fuel (devolver k1 x).0 pcb (ds ++ (devolver k1 x).1)
          (omega (arith, devolver-pendiente x k1 pcb)) in
      (k', ds', rw (e, liberar_bucle) ends)
]
